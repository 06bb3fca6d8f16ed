-- ===== src/Strconv/Numeral.antt =====
-- Which texts `strconv.ParseInt` accepts, and as which numbers.
use notip_data_consumer.Prelude.{
  ℕ, eqb, ◌∙◌, zero, suc, ◌≢◌, ◌+◌, ◌-◌, ◌*◌, ◌^◌, ◌≤◌, ◌<◌, ◌≡◌, refl, ◌↔◌, ◌⊎◌, inl, inr, Bool,
  true, false, [], ◌∷◌, ◌++◌, arith, All, Bool-cases,
}
use notip_data_consumer.Prelude.Bytes.{Bytes}
use notip_data_consumer.Prelude.Int.{ℤ, pos, InInt64}
use notip_data_consumer.Prelude.Outcome.{Result, ok, err}
use notip_data_consumer.Strconv.{
  NumError, is_digit, parse_uint, magnitude, negated, to_int64, parse_int64,
}

abbrev pub AreDigits : Bytes → Type 0
AreDigits = All (λ c. is_digit c ≡ true)

-- The number whose digits are those of `n` followed by the text.
unfoldable pub decimal : ℕ → Bytes → ℕ
decimal n [] = n
decimal n (c ∷ s) = decimal (n * 10 + (c - b'0')) s

decimal_grows : (n : ℕ) (s : Bytes) → n ≤ decimal n s
unfolding decimal
decimal_grows n [] = omega arith
decimal_grows n (c ∷ s) = omega (arith, decimal_grows (n * 10 + (c - b'0')) s)

parse_uint_iff :
    (n : ℕ) (s : Bytes) (v : ℕ)
    → n < 2 ^ 64
    → (parse_uint n s ≡ ok v) ↔ (AreDigits s × (decimal n s ≡ v) × (v < 2 ^ 64))
unfolding parse_uint decimal
parse_uint_iff n [] v small = ground arith
parse_uint_iff n (c ∷ s) v small =
    let n1 = n * 10 + (c - b'0') in ground (arith, decimal_grows n1 s, parse_uint_iff n1 s v)

abbrev pub IsNonempty : Bytes → Type 0
IsNonempty [] = ⊥
IsNonempty (_ ∷ _) = Unit {0}

magnitude_iff :
    (s : Bytes) (v : ℕ)
    → (magnitude s ≡ ok v) ↔ (IsNonempty s × AreDigits s × (decimal 0 s ≡ v) × (v < 2 ^ 64))
unfolding magnitude
magnitude_iff [] v = ground arith
magnitude_iff (c ∷ s) v = ground (arith, parse_uint_iff 0 (c ∷ s) v)

-- A sign, or none, and whether it is that of the negative numbers.
abbrev IsSign : Bytes → Bool → Type 0
IsSign sign negative =
    (sign ≡ [] × (negative ≡ false))
    ⊎ ((sign ≡ b'+' ∷ [] × (negative ≡ false)) ⊎ (sign ≡ b'-' ∷ [] × (negative ≡ true)))

abbrev signed : Bool → ℕ → ℤ
signed false n = pos n
signed true n = negated n

-- The text is a sign or none and at least one digit, which together denote `z`, an `int64`.
pub record IsNumeral (s : Bytes) (z : ℤ) : Type 0 where
  pub sign : Bytes
  pub negative : Bool
  pub digits : Bytes
  pub split_at_sign : s ≡ sign ++ digits
  pub is_sign : IsSign sign negative
  pub some_digit : IsNonempty digits
  pub all_digits : AreDigits digits
  pub denotes : z ≡ signed negative (decimal 0 digits)
  pub in_range : InInt64 z

Result-cases : (r : Result NumError ℕ) → ((v : ℕ) × (r ≡ ok v)) ⊎ ((e : NumError) × (r ≡ err e))
Result-cases (ok v) = inl (v, refl)
Result-cases (err e) = inr (e, refl)

-- `to_int64` on a magnitude that was read.
to_int64_ok :
    (negative : Bool) (v : ℕ) (z : ℤ)
    → (to_int64 negative (ok v) ≡ ok z) ↔ ((z ≡ signed negative v) × InInt64 z)
unfolding to_int64
to_int64_ok true zero z = ground arith
to_int64_ok true (suc n) z = ground arith
to_int64_ok false v z = ground arith

bounded : (negative : Bool) (v : ℕ) (z : ℤ) → z ≡ signed negative v → InInt64 z → v < 2 ^ 64
bounded true zero z h range = ground arith
bounded true (suc n) z h range = ground arith
bounded false v z h range = ground arith

to_int64_iff :
    (negative : Bool) (digits : Bytes) (z : ℤ)
    → (to_int64 negative (magnitude digits) ≡ ok z) ↔ (
        IsNonempty digits × AreDigits digits × (z ≡ signed negative (decimal 0 digits)) × InInt64 z)
to_int64_iff negative digits z = elim (Result-cases (magnitude digits)) [
  | inl (v, read) ↦ ground (arith, read, to_int64_ok negative v z, magnitude_iff digits v)
  | inr (e, failed) ↦
      unfold to_int64 in
      ground (
        arith,
        failed,
        bounded negative (decimal 0 digits) z,
        magnitude_iff digits (decimal 0 digits),
      )
]

digit_no_sign : (c : ℕ) → is_digit c ≡ true → (c ≢ b'+') × (c ≢ b'-')
digit_no_sign c h = ground arith

numeral :
    (s sign : Bytes) (negative : Bool) (digits : Bytes) (z : ℤ)
    → s ≡ sign ++ digits
    → IsSign sign negative
    → to_int64 negative (magnitude digits) ≡ ok z
    → IsNumeral s z
numeral s sign negative digits z split is_sign read =
    let facts = (to_int64_iff negative digits z).0 read in
    record {
      sign = sign;
      negative = negative;
      digits = digits;
      split_at_sign = split;
      is_sign = is_sign;
      some_digit = facts.0;
      all_digits = facts.1;
      denotes = facts.2;
      in_range = facts.3;
    }

parse_int64-IsNumeral : (s : Bytes) (z : ℤ) → parse_int64 s ≡ ok z → IsNumeral s z
unfolding parse_int64
parse_int64-IsNumeral [] z h = absurd (ground arith)
parse_int64-IsNumeral (c ∷ s) z h = elim (Bool-cases (eqb c b'+')) [
  | inl plus ↦
      numeral (c ∷ s) (b'+' ∷ []) false s z (ground arith) (inr (inl (refl, refl))) (ground arith)
  | inr other ↦ elim (Bool-cases (eqb c b'-')) [
    | inl minus ↦
        numeral (c ∷ s) (b'-' ∷ []) true s z (ground arith) (inr (inr (refl, refl))) (ground arith)
    | inr bare ↦ numeral (c ∷ s) [] false (c ∷ s) z refl (inl (refl, refl)) (ground arith)
  ]
]

signed_text :
    (sign : Bytes) (negative : Bool) (d : ℕ) (digits : Bytes)
    → IsSign sign negative
    → is_digit d ≡ true
    → parse_int64 (sign ++ d ∷ digits) ≡ to_int64 negative (magnitude (d ∷ digits))
unfolding parse_int64
signed_text sign negative d digits (inl (bare, s)) h =
    rw (bare, s) (ground (arith, digit_no_sign d h))
signed_text sign negative d digits (inr (inl (plus, s))) h = rw (plus, s) refl
signed_text sign negative d digits (inr (inr (minus, s))) h = rw (minus, s) refl

IsNumeral-parse_int64 : (s : Bytes) (z : ℤ) → IsNumeral s z → parse_int64 s ≡ ok z
IsNumeral-parse_int64 s z h = rw h.split_at_sign (
    signed_digits h.sign h.negative h.digits h.is_sign h.some_digit h.all_digits
    ∙ (to_int64_iff h.negative h.digits z).1 (h.some_digit, h.all_digits, h.denotes, h.in_range))
  where
    signed_digits :
        (sign : Bytes) (negative : Bool) (digits : Bytes)
        → IsSign sign negative
        → IsNonempty digits
        → AreDigits digits
        → parse_int64 (sign ++ digits) ≡ to_int64 negative (magnitude digits)
    signed_digits sign negative [] is_sign some_digit all_digits = absurd some_digit
    signed_digits sign negative (d ∷ digits) is_sign some_digit all_digits =
        signed_text sign negative d digits is_sign all_digits.0

-- `strconv.ParseInt` in base 10 with 64 bits takes a text for `z` exactly if the text is a sign or
-- none and at least one digit that together denote `z`, and `z` is an `int64`.
pub parse_int64_iff : (s : Bytes) (z : ℤ) → (parse_int64 s ≡ ok z) ↔ IsNumeral s z
parse_int64_iff s z = (parse_int64-IsNumeral s z, IsNumeral-parse_int64 s z)
