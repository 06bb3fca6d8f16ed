-- ===== src/NetUrl.antt =====
-- Go's `net/url`, as far as `GetDatabaseDSN` of internal/config/config.go uses it: `URL.String` for
-- a URL with user, password and host, and `Values.Encode`.
pub mod Escapes
pub mod Cut
pub mod Path
pub mod Reads
pub mod Values
use notip_data_consumer.Prelude.{
  ℕ, zero, suc, ◌+◌, ◌-◌, ◌/◌, ◌%◌, Bool, true, false, not, ◌&&◌, ◌||◌, Option, none, some, List,
  [], ◌∷◌, ◌++◌, ltb, leb, eqb, if◌then◌else◌, ◌==◌,
}
use notip_data_consumer.Prelude.Bytes.{Bytes, bytes_eq, lit, is_in}

-- The parts of a URL for which `escape` is called; `encodeZone` and the like are not used here.
pub data UrlPart : Type 0 where
  encode_host encode_path encode_user_password encode_query_component : UrlPart

abbrev pub is_alphanumeric : ℕ → Bool
is_alphanumeric c =
    leb b'a' c && leb c b'z' || (leb b'A' c && leb c b'Z' || leb b'0' c && leb c b'9')

-- `shouldEscape` from its second `switch` on
abbrev pub escapes_mark : UrlPart → ℕ → Bool
escapes_mark part c =
    if is_in c (lit "-_.~")
    then false
    else if is_in c (lit "$&+,/:;=?@")
    then elim part [
      | encode_host ↦ true
      | encode_path ↦ eqb c b'?'
      | encode_user_password ↦ is_in c (lit "@/?:")
      | encode_query_component ↦ true
    ]
    else true

-- `shouldEscape`
unfoldable pub should_escape : UrlPart → ℕ → Bool
should_escape encode_host c =
    if is_alphanumeric c || is_in c (lit "!$&'()*+,;=:[]<>\"")
    then false
    else escapes_mark encode_host c
should_escape part c = if is_alphanumeric c then false else escapes_mark part c

-- `upperhex`
abbrev pub upper_hex : ℕ → ℕ
upper_hex n = if ltb n 10 then b'0' + n else b'A' + (n - 10)

-- What `escape` writes for one byte.
unfoldable pub escape_byte : UrlPart → ℕ → Bytes
unfolding should_escape
escape_byte encode_query_component c =
    if eqb c b' '
    then b'+' ∷ []
    else if should_escape encode_query_component c
    then b'%' ∷ upper_hex (c / 16) ∷ upper_hex (c % 16) ∷ []
    else c ∷ []
escape_byte part c =
    if should_escape part c then b'%' ∷ upper_hex (c / 16) ∷ upper_hex (c % 16) ∷ [] else c ∷ []

-- `escape`
unfoldable pub escape : UrlPart → Bytes → Bytes
unfolding escape_byte
escape part [] = []
escape part (c ∷ s) = escape_byte part c ++ escape part s

-- A `URL` as the program makes it; `User` is always set, with a password.
pub record Url : Type 0 where
  pub scheme : Bytes
  pub username : Bytes
  pub password : Bytes
  pub host : Bytes
  pub path : Bytes
  pub raw_query : Bytes

-- `EscapedPath`, without a `RawPath`
unfoldable pub escaped_path : Bytes → Bytes
unfolding escape
escaped_path p = if p == lit "*" then p else escape encode_path p

abbrev pub starts_with_slash : Bytes → Bool
starts_with_slash [] = false
starts_with_slash (c ∷ s) = eqb c b'/'

-- The slash that `String` writes between a host and a relative path.
abbrev pub path_separator : Bytes → Bytes → Bytes
path_separator host [] = []
path_separator host (c ∷ s) =
    if starts_with_slash (c ∷ s) then [] else if host == [] then [] else b'/' ∷ []

abbrev pub query_suffix : Bytes → Bytes
query_suffix [] = []
query_suffix (c ∷ s) = b'?' ∷ c ∷ s

-- `URL.String`, where there is a scheme and a user
unfoldable pub url_string : Url → Bytes
unfolding escape escaped_path
url_string u =
    let p = escaped_path u.path in
    u.scheme
    ++ (lit "://"
        ++ (escape encode_user_password u.username
            ++ (b':'
                ∷ (escape encode_user_password u.password
                    ++ (b'@'
                        ∷ (escape encode_host u.host
                            ++ (path_separator u.host p ++ (p ++ query_suffix u.raw_query))))))))

-- `Values.Encode`, on keys with one value each, in the order of the keys
unfoldable pub encode_values : List (Bytes × Bytes) → Bytes
unfolding escape
encode_values [] = []
encode_values ((key, value) ∷ []) =
    escape encode_query_component key ++ (b'=' ∷ escape encode_query_component value)
encode_values ((key, value) ∷ next ∷ values) =
    escape encode_query_component key
    ++ (b'=' ∷ (escape encode_query_component value ++ (b'&' ∷ encode_values (next ∷ values))))
