-- ===== src/Json/Read/Quoted.antt =====
-- JSON strings, written by `json.Marshal` and read by `json.Unmarshal`, for ASCII text.
use notip_data_consumer.Prelude.{
  ℕ, zero, ◌/◌, ◌%◌, ◌<◌, ◌≡◌, refl, subst, ap, ◌∙◌, Bool, true, false, ◌||◌, Option, none, some,
  [], ◌∷◌, ◌++◌, append_assoc, ltb, eqb, if◌then◌else◌, arith, All,
}
use notip_data_consumer.Prelude.Bytes.{Bytes, lit, is_in}
use notip_data_consumer.Prelude.Outcome.{ok}
use notip_data_consumer.Json.{
  quote_ascii, quote_from, marshal_string, quote_mark, backslash, hex_digit,
}
use notip_data_consumer.Json.Read.{
  hex_rune, encode_rune, token_at, escape_token, rune_token, write_first, unquote_from,
  unmarshal_string, string_read, hex_value, keeps, writes, ends, refused, Token,
}

hex_back : (n : ℕ) → n < 16 → hex_value (some (hex_digit n)) ≡ some n
hex_back n h = ground arith

-- The control characters and the three of HTML are written by their code.
code_read :
    (c : ℕ) (t : Bytes)
    → c < 128
    → hex_rune (b'0' ∷ b'0' ∷ hex_digit (c / 16) ∷ hex_digit (c % 16) ∷ t) ≡ some c
unfolding hex_rune
code_read c t h =
    rw (hex_back (c / 16) (omega arith), hex_back (c % 16) (omega arith)) (ap some (omega arith))

abbrev pub IsAscii : Bytes → Type 0
IsAscii = All (λ c. c < 128)

-- What the byte is written as is read as the byte.
abbrev Reads : ℕ → Bytes → Type 0
Reads c text =
    (t : Bytes)
    → unquote_from zero zero (text ++ t) ≡ write_first (c ∷ []) (unquote_from zero zero t)

named_Reads : (c d : ℕ) (text : Bytes) → eqb c d ≡ true → Reads d text → Reads c text
named_Reads c d text h r = let same : d ≡ c = ground arith in subst (λ x. Reads x text) same r

-- The step of `unquote_from` by the token.
follow : Token → ℕ → Bytes → Option Bytes
follow token c s = elim token [
  | ends ↦ some []
  | refused ↦ none
  | writes text n ↦ write_first text (unquote_from zero n s)
  | keeps n ↦ write_first (c ∷ []) (unquote_from n zero s)
]

unquote_step :
    (token : Token) (c : ℕ) (s : Bytes)
    → token_at c s ≡ token
    → unquote_from zero zero (c ∷ s) ≡ follow token c s
unfolding unquote_from follow
unquote_step token c s e = ap (λ (token : Token). follow token c s) e

rune_read : (c : ℕ) (s : Bytes) → c < 128 → rune_token (some c) s ≡ writes (c ∷ []) 5
unfolding rune_token encode_rune
rune_read c s h = ground arith

code_token :
    (c : ℕ) (t : Bytes)
    → c < 128
    → token_at backslash (b'u' ∷ b'0' ∷ b'0' ∷ hex_digit (c / 16) ∷ hex_digit (c % 16) ∷ t)
      ≡ writes (c ∷ []) 5
unfolding token_at escape_token
code_token c t h = rw (code_read c t h) (rune_read c t h)

code_Reads :
    (c : ℕ) → c < 128 → Reads c (lit "\\u00" ++ (hex_digit (c / 16) ∷ hex_digit (c % 16) ∷ []))
unfolding unquote_from follow
code_Reads c h t = unquote_step (writes (c ∷ []) 5) backslash _ (code_token c t h)

plain_token :
    (c : ℕ) (t : Bytes)
    → c < 128
    → eqb c quote_mark ≡ false
    → eqb c backslash ≡ false
    → ltb c 32 ≡ false
    → token_at c t ≡ keeps 0
unfolding token_at
plain_token c t h q b low = ground arith

plain_Reads :
    (c : ℕ)
    → c < 128
    → eqb c quote_mark ≡ false
    → eqb c backslash ≡ false
    → ltb c 32 ≡ false
    → Reads c (c ∷ [])
unfolding unquote_from follow
plain_Reads c h q b low t = unquote_step (keeps 0) c t (plain_token c t h q b low)

-- The characters with an escape of two bytes.
short_Reads :
    (c e : ℕ)
    → ((t : Bytes) → token_at backslash (e ∷ t) ≡ writes (c ∷ []) 1)
    → Reads c (backslash ∷ e ∷ [])
unfolding unquote_from follow
short_Reads c e h t = unquote_step (writes (c ∷ []) 1) backslash (e ∷ t) (h t)

itself_token :
    (c : ℕ) (t : Bytes)
    → (eqb c quote_mark || eqb c backslash) ≡ true
    → token_at backslash (c ∷ t) ≡ writes (c ∷ []) 1
unfolding token_at escape_token
itself_token c t h = ground arith

either_Reads :
    (b : Bool) (c : ℕ) (x y : Bytes)
    → (b ≡ true → Reads c x)
    → (b ≡ false → Reads c y)
    → Reads c (if b then x else y)
either_Reads true c x y f g = f refl
either_Reads false c x y f g = g refl

named :
    (c d e : ℕ)
    → ((t : Bytes) → token_at backslash (e ∷ t) ≡ writes (d ∷ []) 1)
    → eqb c d ≡ true
    → Reads c (backslash ∷ e ∷ [])
named c d e h same = named_Reads c d (backslash ∷ e ∷ []) same (short_Reads d e h)

quote_ascii-Reads : (c : ℕ) → c < 128 → Reads c (quote_ascii c)
unfolding quote_ascii token_at escape_token
quote_ascii-Reads c h =
    either_Reads (eqb c quote_mark || eqb c backslash) c _ _
      (λ e. short_Reads c c (λ t. itself_token c t e))
      (λ other. either_Reads (eqb c 8) c _ _ (named c 8 b'b' (λ t. refl)) (λ _.
        either_Reads (eqb c 12) c _ _ (named c 12 b'f' (λ t. refl)) (λ _.
          either_Reads (eqb c 10) c _ _ (named c 10 b'n' (λ t. refl)) (λ _.
            either_Reads (eqb c 13) c _ _ (named c 13 b'r' (λ t. refl)) (λ _.
              either_Reads (eqb c 9) c _ _ (named c 9 b't' (λ t. refl)) (λ _.
                either_Reads (ltb c 32 || is_in c (lit "<>&")) c _ _ (λ _. code_Reads c h)
                  (λ kept. plain_Reads c h (ground arith) (ground arith) (ground arith))))))))

quote_step :
    (c : ℕ) (s : Bytes)
    → ltb c 128 ≡ true
    → quote_from zero zero (c ∷ s) ≡ quote_ascii c ++ quote_from zero zero s
unfolding quote_from
quote_step c s ascii = ground (arith, ascii)

unquote-quote :
    (s : Bytes)
    → IsAscii s
    → unquote_from zero zero (quote_from zero zero s ++ quote_mark ∷ []) ≡ some s
unquote-quote [] h = unfold quote_from unquote_from token_at in refl
unquote-quote (c ∷ s) h =
    let ascii : ltb c 128 ≡ true = ground (arith, h.0) in
    ap (λ text. unquote_from zero zero (text ++ quote_mark ∷ [])) (quote_step c s ascii)
    ∙ (ap (unquote_from zero zero)
          (append_assoc (quote_ascii c) (quote_from zero zero s) (quote_mark ∷ []))
        ∙ quote_ascii-Reads c h.0 (quote_from zero zero s ++ quote_mark ∷ [])
        ∙ ap (write_first (c ∷ [])) (unquote-quote s h.1))

-- An ASCII text that is marshalled is read back.
pub unmarshal_string-marshal_string :
    (s : Bytes) → IsAscii s → unmarshal_string (marshal_string s) ≡ ok s
unfolding unmarshal_string marshal_string
unmarshal_string-marshal_string s h = ap string_read (unquote-quote s h)
