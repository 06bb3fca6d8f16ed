-- ===== src/Strconv.antt =====
-- Go's `strconv.ParseInt(s, 10, 64)`, and `strconv.Atoi`, which agrees with it where `int` has 64
-- bits, as internal/config/config.go uses them.
pub mod Numeral
pub mod Format
use notip_data_consumer.Prelude.{
  ℕ, zero, suc, ◌+◌, ◌-◌, ◌*◌, ◌/◌, ◌%◌, ◌^◌, ◌++◌, Bool, true, false, ◌&&◌, List, [], ◌∷◌, ltb,
  leb, eqb, if◌then◌else◌,
}
use notip_data_consumer.Prelude.Bytes.{Bytes}
use notip_data_consumer.Prelude.Int.{ℤ, pos, negsuc}
use notip_data_consumer.Prelude.Outcome.{Result, ok, err}

-- `ErrSyntax` and `ErrRange`
pub data NumError : Type 0 where
  bad_syntax out_of_range : NumError

abbrev pub is_digit : ℕ → Bool
is_digit c = leb b'0' c && leb c b'9'

-- The loop of `ParseUint`, whose tests for overflow come to this one.
unfoldable pub parse_uint : ℕ → Bytes → Result NumError ℕ
parse_uint n [] = ok n
parse_uint n (c ∷ s) =
    let n1 = n * 10 + (c - b'0') in
    let rest = parse_uint n1 s in
    if is_digit c then if ltb n1 (2 ^ 64) then rest else err out_of_range else err bad_syntax

-- `ParseUint`
unfoldable pub magnitude : Bytes → Result NumError ℕ
unfolding parse_uint
magnitude [] = err bad_syntax
magnitude (c ∷ s) = parse_uint 0 (c ∷ s)

abbrev pub negated : ℕ → ℤ
negated zero = pos 0
negated (suc n) = negsuc n

-- The end of `ParseInt`: the bounds are not the same on the two sides of 0.
unfoldable pub to_int64 : Bool → Result NumError ℕ → Result NumError ℤ
to_int64 negative (err e) = err e
to_int64 false (ok un) = if ltb un (2 ^ 63) then ok (pos un) else err out_of_range
to_int64 true (ok un) = if leb un (2 ^ 63) then ok (negated un) else err out_of_range

-- `ParseInt`
unfoldable pub parse_int64 : Bytes → Result NumError ℤ
unfolding to_int64 magnitude
parse_int64 [] = err bad_syntax
parse_int64 (c ∷ s) =
    if eqb c b'+'
    then to_int64 false (magnitude s)
    else if eqb c b'-'
    then to_int64 true (magnitude s)
    else to_int64 false (magnitude (c ∷ s))

-- The decimal digits of a number; fuel above the number is enough.
unfoldable pub digits : ℕ → ℕ → Bytes
digits zero n = []
digits (suc fuel) n =
    let rest = digits fuel (n / 10) ++ (b'0' + n % 10) ∷ [] in
    if ltb n 10 then (b'0' + n) ∷ [] else rest

-- The verb `%d` of `fmt`
unfoldable pub format_int : ℤ → Bytes
unfolding digits
format_int (pos n) = digits (n + 1) n
format_int (negsuc n) = b'-' ∷ digits (n + 2) (n + 1)
