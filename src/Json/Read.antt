-- ===== src/Json/Read.antt =====
-- Go's `json.Unmarshal` into a string, as `OpaqueBlob` of internal/domain/model/model.go uses it.
pub mod Quoted
use notip_data_consumer.Prelude.{
  ℕ, zero, suc, ◌+◌, ◌-◌, ◌*◌, ◌/◌, ◌%◌, ◌≡◌, refl, Bool, true, false, ◌&&◌, ◌||◌, Option, none,
  some, List, [], ◌∷◌, ◌++◌, ltb, leb, eqb, get_elem?, if◌then◌else◌, ◌==◌,
}
use notip_data_consumer.Prelude.Bytes.{Bytes, bytes_eq, lit, is_in}
use notip_data_consumer.Prelude.Outcome.{Result, ok, err}
use notip_data_consumer.Json.{quote_mark, backslash, byte_is, rune_rest}

abbrev pub hex_value : Option ℕ → Option ℕ
hex_value none = none
hex_value (some c) =
    if leb b'0' c && leb c b'9'
    then some (c - b'0')
    else if leb b'a' c && leb c b'f'
    then some (c - b'a' + 10)
    else if leb b'A' c && leb c b'F'
    then some (c - b'A' + 10)
    else none

abbrev four_hex : Option ℕ → Option ℕ → Option ℕ → Option ℕ → Option ℕ
four_hex (some a) (some b) (some c) (some d) = some (((a * 16 + b) * 16 + c) * 16 + d)
four_hex none _ _ _ = none
four_hex _ none _ _ = none
four_hex _ _ none _ = none
four_hex _ _ _ none = none

-- `getu4` after `\u`
unfoldable pub hex_rune : Bytes → Option ℕ
hex_rune s =
    four_hex (hex_value (get_elem? s 0)) (hex_value (get_elem? s 1)) (hex_value (get_elem? s 2))
      (hex_value (get_elem? s 3))

-- `utf8.EncodeRune`
unfoldable pub encode_rune : ℕ → Bytes
encode_rune r =
    if ltb r 0x80
    then r ∷ []
    else if ltb r 0x800
    then (0xC0 + r / 64) ∷ (0x80 + r % 64) ∷ []
    else if ltb r 0x10000
    then (0xE0 + r / 4096) ∷ (0x80 + r / 64 % 64) ∷ (0x80 + r % 64) ∷ []
    else (0xF0 + r / 262144) ∷ (0x80 + r / 4096 % 64) ∷ (0x80 + r / 64 % 64) ∷ (0x80 + r % 64) ∷ []

-- What `unquoteBytes` does at a byte: the text ends, or has an error, or bytes are written for this
-- one and for some that follow, or this one is kept with some that follow.
pub data Token : Type 0 where
  ends refused : Token
  writes : Bytes → ℕ → Token
  keeps : ℕ → Token

abbrev drop_bytes : ℕ → Bytes → Bytes
drop_bytes zero s = s
drop_bytes (suc n) [] = []
drop_bytes (suc n) (c ∷ s) = drop_bytes n s

abbrev is_high : ℕ → Bool
is_high r = leb 0xD800 r && ltb r 0xDC00

abbrev is_low : ℕ → Bool
is_low r = leb 0xDC00 r && ltb r 0xE000

abbrev replacement : Bytes
replacement = 0xEF ∷ 0xBF ∷ 0xBD ∷ []

-- `utf16.DecodeRune` on a surrogate and what follows it
surrogate_token : ℕ → Option ℕ → Token
surrogate_token r none = writes replacement 5
surrogate_token r (some q) =
    if is_high r && is_low q
    then writes (encode_rune (0x10000 + ((r - 0xD800) * 0x400 + (q - 0xDC00)))) 11
    else writes replacement 5

abbrev next_rune : Bytes → Option ℕ
next_rune s =
    if byte_is (eqb backslash) (get_elem? s 0) && byte_is (eqb b'u') (get_elem? s 1)
    then hex_rune (drop_bytes 2 s)
    else none

rune_token : Option ℕ → Bytes → Token
rune_token none s = refused
rune_token (some r) s =
    if is_high r || is_low r then surrogate_token r (next_rune s) else writes (encode_rune r) 5

-- After a backslash.
escape_token : Option ℕ → Bytes → Token
escape_token none s = refused
escape_token (some e) s =
    if eqb e quote_mark || (eqb e backslash || eqb e b'/')
    then writes (e ∷ []) 1
    else if eqb e b'b'
    then writes (8 ∷ []) 1
    else if eqb e b'f'
    then writes (12 ∷ []) 1
    else if eqb e b'n'
    then writes (10 ∷ []) 1
    else if eqb e b'r'
    then writes (13 ∷ []) 1
    else if eqb e b't'
    then writes (9 ∷ []) 1
    else if eqb e b'u'
    then rune_token (hex_rune (drop_bytes 1 s)) (drop_bytes 5 s)
    else refused

-- The white space of JSON, up to the end.
abbrev is_space : Bytes → Bool
is_space [] = true
is_space (c ∷ s) = is_in c (lit " \t\r\n") && is_space s

kept_token : Option ℕ → Token
kept_token none = writes replacement 0
kept_token (some n) = keeps n

pub token_at : ℕ → Bytes → Token
token_at c s =
    if eqb c quote_mark
    then if is_space s then ends else refused
    else if eqb c backslash
    then escape_token (get_elem? s 0) s
    else if ltb c 32
    then refused
    else if ltb c 128
    then keeps 0
    else kept_token (rune_rest c s)

abbrev write_first : Bytes → Option Bytes → Option Bytes
write_first text none = none
write_first text (some s) = some (text ++ s)

-- `unquoteBytes` after the opening quotation mark, with the number of bytes ahead that belong to a
-- rune that is kept, and of those that have been read.
unfoldable pub unquote_from : ℕ → ℕ → Bytes → Option Bytes
unquote_from copied dropped [] = none
unquote_from copied (suc k) (c ∷ s) = unquote_from copied k s
unquote_from (suc k) zero (c ∷ s) = write_first (c ∷ []) (unquote_from k zero s)
unquote_from zero zero (c ∷ s) = elim (token_at c s) [
  | ends ↦ some []
  | refused ↦ none
  | writes text n ↦ write_first text (unquote_from zero n s)
  | keeps n ↦ write_first (c ∷ []) (unquote_from n zero s)
]

abbrev drop_space : Bytes → Bytes
drop_space [] = []
drop_space (c ∷ s) = if is_in c (lit " \t\r\n") then drop_space s else c ∷ s

-- The text is no JSON, or no JSON string.
pub data JsonError : Type 0 where
  no_string : JsonError

string_read : Option Bytes → Result JsonError Bytes
string_read none = err no_string
string_read (some s) = ok s

abbrev is_null : Bytes → Bool
is_null (a ∷ b ∷ c ∷ d ∷ s) = (a ∷ b ∷ c ∷ d ∷ []) == lit "null" && is_space s
is_null _ = false

unmarshal_value : Bytes → Result JsonError Bytes
unfolding unquote_from string_read
unmarshal_value [] = err no_string
unmarshal_value (c ∷ s) =
    if eqb c quote_mark
    then string_read (unquote_from zero zero s)
    else if is_null (c ∷ s)
    then ok []
    else err no_string

-- `json.Unmarshal` into an empty string; `null` leaves it empty.
unfoldable pub unmarshal_string : Bytes → Result JsonError Bytes
unfolding unmarshal_value
unmarshal_string content = unmarshal_value (drop_space content)

-- A pair of surrogates is one rune, and a lone one is replaced.
paired :
    unmarshal_string (lit " \"\\ud83d\\ude00\\ud83dx\" ")
    ≡ ok (0xF0 ∷ 0x9F ∷ 0x98 ∷ 0x80 ∷ 0xEF ∷ 0xBF ∷ 0xBD ∷ b'x' ∷ [])
unfolding unmarshal_string token_at escape_token rune_token surrogate_token hex_rune encode_rune
    kept_token
paired = refl
