-- ===== src/NetUrl/Escapes.antt =====
-- `unescape` of Go's `net/url` on what `escape` writes, and the delimiters in that.
use notip_data_consumer.Prelude.{
  ℕ, ◌+◌, ◌-◌, ◌*◌, ◌/◌, ◌%◌, ◌<◌, ◌≡◌, ◌≢◌, inl, inr, refl, ap, true, false, ◌&&◌, Option, none,
  some, [], ◌∷◌, ◌++◌, leb, eqb, if◌then◌else◌, arith, All, All-append, Bool-cases,
}
use notip_data_consumer.Prelude.Bytes.{Bytes, lit, Lacks, is_in}
use notip_data_consumer.NetUrl.{
  UrlPart, encode_host, encode_path, encode_user_password, encode_query_component, should_escape,
  upper_hex, escape_byte, escape,
}

-- `unhex`
abbrev unhex : ℕ → Option ℕ
unhex c =
    if leb b'0' c && leb c b'9'
    then some (c - b'0')
    else if leb b'A' c && leb c b'F'
    then some (c - b'A' + 10)
    else if leb b'a' c && leb c b'f'
    then some (c - b'a' + 10)
    else none

abbrev plain_byte : UrlPart → ℕ → ℕ
plain_byte encode_query_component c = if eqb c b'+' then b' ' else c
plain_byte encode_host c = c
plain_byte encode_path c = c
plain_byte encode_user_password c = c

abbrev add_byte : Option ℕ → Option Bytes → Option Bytes
add_byte (some c) (some s) = some (c ∷ s)
add_byte none _ = none
add_byte _ none = none

abbrev from_hex : Option ℕ → Option ℕ → Option ℕ
from_hex (some h) (some l) = some (h * 16 + l)
from_hex none _ = none
from_hex _ none = none

-- `unescape` of `net/url`, but that it takes every byte of a host
unfoldable pub unescape : UrlPart → Bytes → Option Bytes
unescape part [] = some []
unescape part (c ∷ []) = if eqb c b'%' then none else some (plain_byte part c ∷ [])
unescape part (c ∷ h ∷ []) = elim (eqb c b'%') [
  | true ↦ none
  | false ↦ add_byte (some (plain_byte part c)) (unescape part (h ∷ []))
]
unescape part (c ∷ h ∷ l ∷ s) = elim (eqb c b'%') [
  | true ↦ add_byte (from_hex (unhex h) (unhex l)) (unescape part s)
  | false ↦ add_byte (some (plain_byte part c)) (unescape part (h ∷ l ∷ s))
]

unescape_plain :
    (part : UrlPart) (c : ℕ) (s : Bytes)
    → c ≢ b'%'
    → unescape part (c ∷ s) ≡ add_byte (some (plain_byte part c)) (unescape part s)
unfolding unescape
unescape_plain part c [] h = ground arith
unescape_plain part c (d ∷ []) h = ground arith
unescape_plain part c (d ∷ e ∷ s) h = ground arith

hex_back : (n : ℕ) → n < 16 → unhex (upper_hex n) ≡ some n
hex_back n h = ground arith

unescape_hex :
    (part : UrlPart) (c : ℕ) (s : Bytes)
    → c < 256
    → unescape part (b'%' ∷ upper_hex (c / 16) ∷ upper_hex (c % 16) ∷ s)
      ≡ add_byte (some c) (unescape part s)
unfolding unescape
unescape_hex part c s h =
    rw (hex_back (c / 16) (omega arith), hex_back (c % 16) (omega arith))
      (ap (λ x. add_byte (some x) (unescape part s)) (omega arith))

percent_escaped : (part : UrlPart) → should_escape part b'%' ≡ true
unfolding should_escape
percent_escaped encode_host = refl
percent_escaped encode_path = refl
percent_escaped encode_user_password = refl
percent_escaped encode_query_component = refl

plus_escaped : should_escape encode_query_component b'+' ≡ true
unfolding should_escape
plus_escaped = refl

-- A byte that is kept is no percent sign.
kept_plain : (part : UrlPart) (c : ℕ) → should_escape part c ≡ false → c ≢ b'%'
kept_plain part c h = λ e. ground (arith, percent_escaped part, ap (should_escape part) e)

kept_not_plus : (c : ℕ) → should_escape encode_query_component c ≡ false → c ≢ b'+'
kept_not_plus c h = λ e. ground (arith, plus_escaped, ap (should_escape encode_query_component) e)

space_back :
    (c : ℕ) (s : Bytes)
    → c ≡ b' '
    → unescape encode_query_component (b'+' ∷ s)
      ≡ add_byte (some c) (unescape encode_query_component s)
space_back c s h = rw (unescape_plain encode_query_component b'+' s (omega arith), h) refl

-- One byte is written so that reading takes it off again.
unescape-escape_byte :
    (part : UrlPart) (c : ℕ) (s : Bytes)
    → c < 256
    → unescape part (escape_byte part c ++ s) ≡ add_byte (some c) (unescape part s)
unfolding escape_byte
unescape-escape_byte encode_host c s h = ground (
  arith,
  unescape_hex encode_host c s h,
  unescape_plain encode_host c s,
  kept_plain encode_host c,
)
unescape-escape_byte encode_path c s h = ground (
  arith,
  unescape_hex encode_path c s h,
  unescape_plain encode_path c s,
  kept_plain encode_path c,
)
unescape-escape_byte encode_user_password c s h = ground (
  arith,
  unescape_hex encode_user_password c s h,
  unescape_plain encode_user_password c s,
  kept_plain encode_user_password c,
)
unescape-escape_byte encode_query_component c s h = elim (Bool-cases (eqb c b' ')) [
  | inl e ↦ rw (e) (space_back c s (ground arith))
  | inr e ↦ rw (e) (elim (Bool-cases (should_escape encode_query_component c)) [
    | inl f ↦ rw (f) (unescape_hex encode_query_component c s h)
    | inr f ↦
        rw (f, unescape_plain encode_query_component c s (kept_plain encode_query_component c f))
          (ground (arith, kept_not_plus c f))
  ])
]

abbrev pub IsText : Bytes → Type 0
IsText = All (λ c. c < 256)

-- What is escaped reads back.
pub unescape-escape :
    (part : UrlPart) (s : Bytes) → IsText s → unescape part (escape part s) ≡ some s
unfolding escape unescape
unescape-escape part [] h = refl
unescape-escape part (c ∷ s) h =
    rw (unescape-escape_byte part c (escape part s) h.0, unescape-escape part s h.1) refl

-- The delimiters of a URL, which no digit, percent sign or plus sign is.
abbrev pub IsDelimiter : ℕ → Type 0
IsDelimiter b = is_in b (lit "@/:?&=") ≡ true

kept_differs :
    (part : UrlPart) (b c : ℕ) → should_escape part b ≡ true → should_escape part c ≡ false → c ≢ b
kept_differs part b c h k = λ e. ground (arith, ap (should_escape part) e)

upper_hex_differs : (n b : ℕ) → IsDelimiter b → upper_hex n ≢ b
upper_hex_differs n b d = ground arith

hex-Lacks :
    (b c : ℕ) → IsDelimiter b → Lacks b (b'%' ∷ upper_hex (c / 16) ∷ upper_hex (c % 16) ∷ [])
hex-Lacks b c d =
    (ground arith, (upper_hex_differs (c / 16) b d, (upper_hex_differs (c % 16) b d, tt)))

conditional-Lacks :
    (part : UrlPart) (b c : ℕ)
    → IsDelimiter b
    → should_escape part b ≡ true
    → Lacks b (
        if should_escape part c
        then b'%' ∷ upper_hex (c / 16) ∷ upper_hex (c % 16) ∷ []
        else c ∷ [])
conditional-Lacks part b c d h = elim (Bool-cases (should_escape part c)) [
  | inl e ↦ rw e (hex-Lacks b c d)
  | inr e ↦ rw e (kept_differs part b c h e, tt)
]

escape_byte-Lacks :
    (part : UrlPart) (b c : ℕ)
    → IsDelimiter b
    → should_escape part b ≡ true
    → Lacks b (escape_byte part c)
unfolding escape_byte
escape_byte-Lacks encode_host b c d h = conditional-Lacks encode_host b c d h
escape_byte-Lacks encode_path b c d h = conditional-Lacks encode_path b c d h
escape_byte-Lacks encode_user_password b c d h = conditional-Lacks encode_user_password b c d h
escape_byte-Lacks encode_query_component b c d h = elim (Bool-cases (eqb c b' ')) [
  | inl e ↦ rw e (ground arith, tt)
  | inr e ↦ rw e (conditional-Lacks encode_query_component b c d h)
]

-- A delimiter that a part escapes does not stand in what is written for it.
pub escape-Lacks :
    (part : UrlPart) (b : ℕ) (s : Bytes)
    → IsDelimiter b
    → should_escape part b ≡ true
    → Lacks b (escape part s)
unfolding escape
escape-Lacks part b [] d h = tt
escape-Lacks part b (c ∷ s) d h =
    All-append (λ e. e ≢ b) (escape_byte part c) (escape part s) (escape_byte-Lacks part b c d h)
      (escape-Lacks part b s d h)
