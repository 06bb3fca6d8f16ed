-- ===== src/Strconv/Format.antt =====
-- `strconv.ParseInt` on what `%d` prints.
use notip_data_consumer.Prelude.{
  ℕ, zero, suc, ◌+◌, ◌-◌, ◌*◌, ◌/◌, ◌%◌, ◌<◌, ◌≡◌, refl, inl, inr, true, false, [], ◌∷◌, ◌++◌,
  arith, All-append, ltb, Bool-cases,
}
use notip_data_consumer.Prelude.Bytes.{Bytes}
use notip_data_consumer.Prelude.Int.{ℤ, pos, negsuc, InInt64}
use notip_data_consumer.Prelude.Outcome.{ok}
use notip_data_consumer.Strconv.{is_digit, digits, format_int, parse_int64}
use notip_data_consumer.Strconv.Numeral.{AreDigits, IsNonempty, decimal, IsNumeral, parse_int64_iff}

decimal-snoc : (n : ℕ) (s : Bytes) (c : ℕ) → decimal n (s ++ c ∷ []) ≡ decimal n s * 10 + (c - b'0')
unfolding decimal
decimal-snoc n [] c = refl
decimal-snoc n (d ∷ s) c = decimal-snoc (n * 10 + (d - b'0')) s c

IsNonempty-snoc : (s : Bytes) (c : ℕ) → IsNonempty (s ++ c ∷ [])
IsNonempty-snoc [] c = tt
IsNonempty-snoc (d ∷ s) c = tt

-- With fuel above the number, `digits` writes its digits.
pub record Writes (n : ℕ) (s : Bytes) : Type 0 where
  pub some_digit : IsNonempty s
  pub all_digits : AreDigits s
  pub value : decimal 0 s ≡ n

last_digit : (n : ℕ) (s : Bytes) → Writes (n / 10) s → Writes n (s ++ (b'0' + n % 10) ∷ [])
last_digit n s w = record {
  some_digit = IsNonempty-snoc s (b'0' + n % 10);
  all_digits =
      All-append (λ c. is_digit c ≡ true) s ((b'0' + n % 10) ∷ []) w.all_digits (ground arith, tt);
  value = omega (arith, decimal-snoc 0 s (b'0' + n % 10), w.value);
}

pub digits-Writes : (fuel n : ℕ) → n < fuel → Writes n (digits fuel n)
unfolding digits
digits-Writes zero n h = absurd (omega arith)
digits-Writes (suc fuel) n h = elim (Bool-cases (ltb n 10)) [
  | inl small ↦ rw small (record {
    some_digit = tt;
    all_digits = (ground arith, tt);
    value = unfold decimal in ground arith;
  })
  | inr large ↦
      rw large (last_digit n (digits fuel (n / 10)) (digits-Writes fuel (n / 10) (ground arith)))
]

format_int-IsNumeral : (z : ℤ) → InInt64 z → IsNumeral (format_int z) z
unfolding format_int
format_int-IsNumeral (pos n) h =
    let w = digits-Writes (n + 1) n (omega arith) in
    record {
      sign = [];
      negative = false;
      digits = digits (n + 1) n;
      split_at_sign = refl;
      is_sign = inl (refl, refl);
      some_digit = w.some_digit;
      all_digits = w.all_digits;
      denotes = ground (arith, w.value);
      in_range = h;
    }
format_int-IsNumeral (negsuc n) h =
    let w = digits-Writes (n + 2) (n + 1) (omega arith) in
    record {
      sign = b'-' ∷ [];
      negative = true;
      digits = digits (n + 2) (n + 1);
      split_at_sign = refl;
      is_sign = inr (inr (refl, refl));
      some_digit = w.some_digit;
      all_digits = w.all_digits;
      denotes = ground (arith, w.value);
      in_range = h;
    }

-- An `int64` that `%d` prints is read back by `strconv.ParseInt`.
pub parse_int64-format_int : (z : ℤ) → InInt64 z → parse_int64 (format_int z) ≡ ok z
parse_int64-format_int z h = (parse_int64_iff (format_int z) z).1 (format_int-IsNumeral z h)
