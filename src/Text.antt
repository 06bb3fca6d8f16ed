-- ===== src/Text.antt =====
-- Go's `strings.TrimSpace`: the white space of Unicode is cut off at both ends, in UTF-8.
use notip_data_consumer.Prelude.{
  ℕ, ◌≡◌, refl, Bool, true, false, ◌&&◌, ◌||◌, [], ◌∷◌, leb, eqb, All,
}
use mathlib.Core.List.{reverse, reverse_aux}
use notip_data_consumer.Prelude.Bytes.{Bytes, lit}

-- The bytes of the white space, by the length of its encoding.
abbrev pub is_space1 : ℕ → Bool
is_space1 c = leb 9 c && leb c 13 || eqb c b' '

abbrev pub is_space2 : ℕ → ℕ → Bool
is_space2 c d = eqb c 0xC2 && (eqb d 0x85 || eqb d 0xA0)

abbrev pub is_space3 : ℕ → ℕ → ℕ → Bool
is_space3 c d e =
    eqb c 0xE1 && eqb d 0x9A && eqb e 0x80
    || (eqb c 0xE2
          && eqb d 0x80
          && (leb 0x80 e && leb e 0x8A || (eqb e 0xA8 || (eqb e 0xA9 || eqb e 0xAF)))
        || (eqb c 0xE2 && eqb d 0x81 && eqb e 0x9F || eqb c 0xE3 && eqb d 0x80 && eqb e 0x80))

-- The text without the white space in front, which the tests recognise by two and three bytes.
unfoldable pub trim_front : (ℕ → ℕ → Bool) → (ℕ → ℕ → ℕ → Bool) → Bytes → Bytes
trim_front two three [] = []
trim_front two three (c ∷ []) = elim (is_space1 c) [ true ↦ [] | false ↦ c ∷ [] ]
trim_front two three (c ∷ d ∷ []) = elim (is_space1 c) [
  | true ↦ trim_front two three (d ∷ [])
  | false ↦ elim (two c d) [ true ↦ [] | false ↦ c ∷ d ∷ [] ]
]
trim_front two three (c ∷ d ∷ e ∷ s) = elim (is_space1 c) [
  | true ↦ trim_front two three (d ∷ e ∷ s)
  | false ↦ elim (two c d) [
    | true ↦ trim_front two three (e ∷ s)
    | false ↦ elim (three c d e) [ true ↦ trim_front two three s | false ↦ c ∷ d ∷ e ∷ s ]
  ]
]

-- `strings.TrimSpace`
unfoldable pub trim_space : Bytes → Bytes
unfolding trim_front
trim_space s = reverse (
    trim_front (λ d c. is_space2 c d) (λ e d c. is_space3 c d e)
      (reverse (trim_front is_space2 is_space3 s)))

module _ (P : ℕ → Type 0) where
  All-reverse_aux : (s acc : Bytes) → All P s → All P acc → All P (reverse_aux s acc)
  All-reverse_aux [] acc h k = k
  All-reverse_aux (c ∷ s) acc h k = All-reverse_aux s (c ∷ acc) h.1 (h.0, k)

  All-either :
      (b : Bool) (s t : Bytes) → All P s → All P t → All P (elim b [ true ↦ s | false ↦ t ])
  All-either true s t h k = h
  All-either false s t h k = k

  All-trim_front :
      (two : ℕ → ℕ → Bool) (three : ℕ → ℕ → ℕ → Bool) (s : Bytes)
      → All P s
      → All P (trim_front two three s)
  unfolding trim_front
  All-trim_front two three [] h = tt
  All-trim_front two three (c ∷ []) h = All-either (is_space1 c) [] (c ∷ []) tt h
  All-trim_front two three (c ∷ d ∷ []) h =
      All-either (is_space1 c) _ _ (All-trim_front two three (d ∷ []) h.1)
        (All-either (two c d) [] (c ∷ d ∷ []) tt h)
  All-trim_front two three (c ∷ d ∷ e ∷ s) h =
      All-either (is_space1 c) _ _ (All-trim_front two three (d ∷ e ∷ s) h.1) (
        All-either (two c d) _ _ (All-trim_front two three (e ∷ s) h.1.1)
          (All-either (three c d e) _ _ (All-trim_front two three s h.1.1.1) h))

  -- What is true of every byte of a text is true of every byte of the trimmed one.
  pub All-trim_space : (s : Bytes) → All P s → All P (trim_space s)
  unfolding trim_space
  All-trim_space s h =
      let front = trim_front is_space2 is_space3 s in
      All-reverse_aux (trim_front (λ d c. is_space2 c d) (λ e d c. is_space3 c d e) (reverse front))
        []
        (All-trim_front (λ d c. is_space2 c d) (λ e d c. is_space3 c d e) (reverse front)
          (All-reverse_aux front [] (All-trim_front is_space2 is_space3 s h) tt))
        tt

trimmed : trim_space (lit " \ts3 cret\r\n") ≡ lit "s3 cret"
unfolding trim_space
trimmed = refl

-- A no-break space is cut off, and a lone byte of it is not.
wide_trimmed : trim_space (0xC2 ∷ 0xA0 ∷ b'a' ∷ 0xA0 ∷ []) ≡ b'a' ∷ 0xA0 ∷ []
unfolding trim_space
wide_trimmed = refl
