-- ===== src/NetUrl/Reads.antt =====
-- A reader of the URLs that `URL.String` of Go's `net/url` writes, after RFC 3986: the text is cut
-- at the delimiters, and then the escapes of each part are undone.
use notip_data_consumer.Prelude.{
  ℕ, ◌≡◌, ◌≢◌, refl, sym, ap, ◌∙◌, true, false, Option, none, some, [], ◌∷◌, ◌++◌, append_assoc,
  append-nil, ◌==◌, arith, All-append,
}
use notip_data_consumer.Prelude.Bytes.{Bytes, bytes_eq, lit, Lacks}
use notip_data_consumer.NetUrl.{
  encode_host, encode_path, encode_user_password, Url, should_escape, escape, escaped_path,
  path_separator, starts_with_slash, query_suffix, url_string,
}
use notip_data_consumer.NetUrl.Cut.{cut, cut_first, cut-none, or_empty}
use notip_data_consumer.NetUrl.Path.{
  escaped_path-Lacks, unescape-escaped_path, escaped_path_relative,
}
use notip_data_consumer.NetUrl.Escapes.{
  unescape, IsText, unescape-escape, IsDelimiter, escape-Lacks,
}

abbrev drop_slashes : Bytes → Bytes
drop_slashes [] = []
drop_slashes (_ ∷ []) = []
drop_slashes (_ ∷ _ ∷ s) = s

-- The parts of a URL that have been read; a part with a wrong escape is `none`.
pub record UrlReading : Type 0 where
  pub scheme : Bytes
  pub username : Option Bytes
  pub password : Option Bytes
  pub host : Option Bytes
  pub path : Option Bytes
  pub raw_query : Bytes

-- The text between `//` and the query.
unfoldable pub read_hierarchy : Bytes → Bytes → Bytes → UrlReading
unfolding cut
read_hierarchy scheme hierarchy raw_query =
    let authority = cut b'/' hierarchy in
    let at = cut b'@' authority.0 in
    let user = cut b':' at.0 in
    record {
      scheme = scheme;
      username = unescape encode_user_password user.0;
      password = unescape encode_user_password (or_empty user.1);
      host = unescape encode_host (or_empty at.1);
      path = unescape encode_path (or_empty authority.1);
      raw_query = raw_query;
    }

unfoldable pub read_url : Bytes → UrlReading
unfolding read_hierarchy cut
read_url s =
    let colon = cut b':' s in
    let query = cut b'?' (drop_slashes (or_empty colon.1)) in
    read_hierarchy colon.0 query.0 (or_empty query.1)

abbrev authority : Url → Bytes
authority u =
    escape encode_user_password u.username
    ++ (b':' ∷ (escape encode_user_password u.password ++ (b'@' ∷ escape encode_host u.host)))

abbrev hierarchy : Url → Bytes
hierarchy u = let p = escaped_path u.path in authority u ++ (path_separator u.host p ++ p)

url_string_parts :
    (u : Url) → url_string u ≡ u.scheme ++ (lit "://" ++ (hierarchy u ++ query_suffix u.raw_query))
unfolding url_string
url_string_parts u = simp append_assoc

-- What is assumed of a URL for it to read back; every Go string is a text of bytes.
pub record IsReadable (u : Url) : Type 0 where
  pub scheme_plain : Lacks b':' u.scheme
  pub username_text : IsText u.username
  pub password_text : IsText u.password
  pub host_text : IsText u.host
  pub path_text : IsText u.path
  pub some_host : (u.host == []) ≡ false
  pub path_relative : starts_with_slash u.path ≡ false

authority-Lacks :
    (u : Url) (b : ℕ)
    → IsDelimiter b
    → b ≢ b':'
    → b ≢ b'@'
    → should_escape encode_user_password b ≡ true
    → should_escape encode_host b ≡ true
    → Lacks b (authority u)
authority-Lacks u b d c a h k =
    All-append (λ e. e ≢ b) (escape encode_user_password u.username)
      (b':' ∷ (escape encode_user_password u.password ++ (b'@' ∷ escape encode_host u.host)))
      (escape-Lacks encode_user_password b u.username d h)
      (
        ground arith,
        All-append (λ e. e ≢ b) (escape encode_user_password u.password)
            (b'@' ∷ escape encode_host u.host) (escape-Lacks encode_user_password b u.password d h)
            (ground arith, escape-Lacks encode_host b u.host d k),
      )

-- The path is what follows the first slash.
cut-path_separator :
    (host p a : Bytes)
    → (host == []) ≡ false
    → starts_with_slash p ≡ false
    → Lacks b'/' a
    → (tail : Option Bytes) × (cut b'/' (a ++ (path_separator host p ++ p)) ≡ (a, tail))
      × (or_empty tail ≡ p)
cut-path_separator host [] a h r l = (none, rw (append-nil a) (cut-none b'/' a l), refl)
cut-path_separator host (c ∷ s) a h r l =
    (some (c ∷ s), rw (r, h) (cut_first b'/' a (c ∷ s) l), refl)

cut-hierarchy :
    (u : Url)
    → IsReadable u
    → (tail : Option Bytes) × (cut b'/' (hierarchy u) ≡ (authority u, tail))
      × (or_empty tail ≡ escaped_path u.path)
cut-hierarchy u r =
    cut-path_separator u.host (escaped_path u.path) (authority u) r.some_host
      (escaped_path_relative u.path r.path_relative)
      (authority-Lacks u b'/' refl (ground arith) (ground arith) (unfold should_escape in refl)
        (unfold should_escape in refl))

-- What is read of a URL as it was.
abbrev pub read_back : Url → UrlReading
read_back u = record {
  scheme = u.scheme;
  username = some u.username;
  password = some u.password;
  host = some u.host;
  path = some u.path;
  raw_query = u.raw_query;
}

abbrev userinfo : Url → Bytes
userinfo u =
    escape encode_user_password u.username ++ (b':' ∷ escape encode_user_password u.password)

userinfo-Lacks_at : (u : Url) → Lacks b'@' (userinfo u)
userinfo-Lacks_at u =
    All-append (λ e. e ≢ b'@') (escape encode_user_password u.username)
      (b':' ∷ escape encode_user_password u.password)
      (escape-Lacks encode_user_password b'@' u.username refl (unfold should_escape in refl))
      (
        ground arith,
        escape-Lacks encode_user_password b'@' u.password refl (unfold should_escape in refl),
      )

cut-authority : (u : Url) → cut b'@' (authority u) ≡ (userinfo u, some (escape encode_host u.host))
cut-authority u =
    ap (cut b'@') (
      sym (
        append_assoc (escape encode_user_password u.username)
          (b':' ∷ escape encode_user_password u.password) (b'@' ∷ escape encode_host u.host)))
    ∙ cut_first b'@' (userinfo u) (escape encode_host u.host) (userinfo-Lacks_at u)

cut-userinfo :
    (u : Url)
    → cut b':' (userinfo u)
      ≡ (escape encode_user_password u.username, some (escape encode_user_password u.password))
cut-userinfo u =
    cut_first b':' (escape encode_user_password u.username) (escape encode_user_password u.password)
      (escape-Lacks encode_user_password b':' u.username refl (unfold should_escape in refl))

read_hierarchy_lem :
    (u : Url) → IsReadable u → read_hierarchy u.scheme (hierarchy u) u.raw_query ≡ read_back u
read_hierarchy_lem u r =
    let (tail, is_cut, is_path) = cut-hierarchy u r in
    unfold read_hierarchy in
    rw
      (
        is_cut,
        cut-authority u,
        cut-userinfo u,
        is_path,
        unescape-escape encode_user_password u.username r.username_text,
        unescape-escape encode_user_password u.password r.password_text,
        unescape-escape encode_host u.host r.host_text,
        unescape-escaped_path u.path r.path_text,
      )
      refl

path_separator-Lacks : (host p : Bytes) → Lacks b'?' (path_separator host p)
path_separator-Lacks host [] = tt
path_separator-Lacks host (c ∷ s) = ground arith

hierarchy-Lacks : (u : Url) → Lacks b'?' (hierarchy u)
hierarchy-Lacks u =
    let p = escaped_path u.path in
    All-append (λ e. e ≢ b'?') (authority u) (path_separator u.host p ++ p)
      (authority-Lacks u b'?' refl (ground arith) (ground arith) (unfold should_escape in refl)
        (unfold should_escape in refl))
      (All-append (λ e. e ≢ b'?') (path_separator u.host p) p (path_separator-Lacks u.host p)
        (escaped_path-Lacks u.path))

cut-query_suffix :
    (q h : Bytes)
    → Lacks b'?' h
    → (tail : Option Bytes) × (cut b'?' (h ++ query_suffix q) ≡ (h, tail)) × (or_empty tail ≡ q)
cut-query_suffix [] h l = (none, rw (append-nil h) (cut-none b'?' h l), refl)
cut-query_suffix (c ∷ q) h l = (some (c ∷ q), cut_first b'?' h (c ∷ q) l, refl)

-- A URL that is written reads back.
pub read_url-url_string : (u : Url) → IsReadable u → read_url (url_string u) ≡ read_back u
read_url-url_string u r =
    let (tail, is_cut, is_query) = cut-query_suffix u.raw_query (hierarchy u) (hierarchy-Lacks u) in
    unfold read_url in
    rw
      (
        url_string_parts u,
        cut_first b':' u.scheme (lit "//" ++ (hierarchy u ++ query_suffix u.raw_query))
            r.scheme_plain,
        is_cut,
        is_query,
      )
      (read_hierarchy_lem u r)
