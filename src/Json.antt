-- ===== src/Json.antt =====
-- Go's `encoding/json` for a string, as `OpaqueBlob` of internal/domain/model/model.go uses it:
-- `json.Marshal` here, and `json.Unmarshal` in Json/Read.
pub mod Read
use notip_data_consumer.Prelude.{
  ℕ, zero, suc, ◌+◌, ◌-◌, ◌*◌, ◌/◌, ◌%◌, ◌≡◌, refl, Bool, true, false, ◌&&◌, ◌||◌, Option, none,
  some, List, [], ◌∷◌, ◌++◌, ltb, leb, eqb, get_elem?, if◌then◌else◌, ◌==◌,
}
use notip_data_consumer.Prelude.Bytes.{Bytes, bytes_eq, lit, is_in}
use notip_data_consumer.Prelude.Outcome.{Result, ok, err}

abbrev pub hex_digit : ℕ → ℕ
hex_digit n = if ltb n 10 then b'0' + n else b'a' + (n - 10)

abbrev backslash : ℕ
backslash = 92

abbrev quote_mark : ℕ
quote_mark = 34

-- `appendString` for a byte below 128, with the escapes for HTML
unfoldable pub quote_ascii : ℕ → Bytes
quote_ascii c =
    if eqb c quote_mark || eqb c backslash
    then backslash ∷ c ∷ []
    else if eqb c 8
    then lit "\\b"
    else if eqb c 12
    then lit "\\f"
    else if eqb c 10
    then lit "\\n"
    else if eqb c 13
    then lit "\\r"
    else if eqb c 9
    then lit "\\t"
    else if ltb c 32 || is_in c (lit "<>&")
    then lit "\\u00" ++ (hex_digit (c / 16) ∷ hex_digit (c % 16) ∷ [])
    else c ∷ []

abbrev byte_is : (ℕ → Bool) → Option ℕ → Bool
byte_is test none = false
byte_is test (some c) = test c

abbrev is_cont : ℕ → Bool
is_cont c = leb 0x80 c && leb c 0xBF

-- The second byte of a rune, after the first one.
abbrev is_second : ℕ → ℕ → Bool
is_second c d =
    (if eqb c 0xE0 then leb 0xA0 d else if eqb c 0xF0 then leb 0x90 d else leb 0x80 d)
    && (if eqb c 0xED then leb d 0x9F else if eqb c 0xF4 then leb d 0x8F else leb d 0xBF)

-- `utf8.DecodeRune` for a first byte from 128 on: how many bytes follow it, or `none` if the bytes
-- are no rune.
unfoldable pub rune_rest : ℕ → Bytes → Option ℕ
rune_rest c s =
    let second = byte_is (is_second c) (get_elem? s 0) in
    let third = byte_is is_cont (get_elem? s 1) in
    let fourth = byte_is is_cont (get_elem? s 2) in
    if leb 0xC2 c && leb c 0xDF && second
    then some 1
    else if leb 0xE0 c && leb c 0xEF && (second && third)
    then some 2
    else if leb 0xF0 c && leb c 0xF4 && (second && (third && fourth))
    then some 3
    else none

-- U+2028 and U+2029
abbrev is_line_separator : ℕ → Bytes → Bool
is_line_separator c s =
    eqb c 0xE2
    && (byte_is (eqb 0x80) (get_elem? s 0)
        && byte_is (λ e. eqb e 0xA8 || eqb e 0xA9) (get_elem? s 1))

abbrev last_hex : Option ℕ → ℕ
last_hex none = b'0'
last_hex (some e) = if eqb e 0xA8 then b'8' else b'9'

-- `appendString`: of the bytes ahead, the first `copied` belong to a rune that is kept, and the first
-- `dropped` to one that has been written.
unfoldable pub quote_from : ℕ → ℕ → Bytes → Bytes
unfolding quote_ascii rune_rest
quote_from copied dropped [] = []
quote_from copied (suc k) (c ∷ s) = quote_from copied k s
quote_from (suc k) zero (c ∷ s) = c ∷ quote_from k zero s
quote_from zero zero (c ∷ s) = elim (ltb c 128) [
  | true ↦ quote_ascii c ++ quote_from zero zero s
  | false ↦ elim (is_line_separator c s) [
    | true ↦ lit "\\u202" ++ (last_hex (get_elem? s 1) ∷ quote_from zero 2 s)
    | false ↦ elim (rune_rest c s) [
      | none ↦ lit "\\ufffd" ++ quote_from zero zero s
      | some n ↦ c ∷ quote_from n zero s
    ]
  ]
]

-- `json.Marshal` of a string
unfoldable pub marshal_string : Bytes → Bytes
unfolding quote_from
marshal_string s = quote_mark ∷ (quote_from zero zero s ++ quote_mark ∷ [])

escaped :
    marshal_string (lit "a\"<\n" ++ (1 ∷ 0xE2 ∷ 0x82 ∷ 0xAC ∷ 0xFF ∷ []))
    ≡ lit "\"a\\\"\\u003c\\n\\u0001" ++ (0xE2 ∷ 0x82 ∷ 0xAC ∷ lit "\\ufffd\"")
unfolding marshal_string
escaped = refl
