-- ===== src/NetUrl/Path.antt =====
-- The path of a URL as `EscapedPath` of Go's `net/url` writes it.
use notip_data_consumer.Prelude.{
  subst, ◌≡◌, refl, sym, true, false, inl, inr, some, [], ◌∷◌, ◌==◌, arith, Bool-cases,
}
use notip_data_consumer.Prelude.Bytes.{Bytes, bytes_eq, lit, Lacks}
use notip_data_consumer.NetUrl.{
  encode_path, should_escape, escape_byte, escape, escaped_path, starts_with_slash,
}
use notip_data_consumer.NetUrl.Escapes.{unescape, IsText, unescape-escape, escape-Lacks}

star-Lacks : (p : Bytes) → (p == lit "*") ≡ true → Lacks b'?' p
star-Lacks p h =
    subst (λ q. Lacks b'?' q) (sym ((bytes_eq.same_iff p (lit "*")).0 h)) (ground arith, tt)

pub escaped_path-Lacks : (p : Bytes) → Lacks b'?' (escaped_path p)
unfolding escaped_path
escaped_path-Lacks p = elim (Bool-cases (p == lit "*")) [
  | inl star ↦ rw star (star-Lacks p star)
  | inr other ↦ rw other (escape-Lacks encode_path b'?' p refl (unfold should_escape in refl))
]

unescape-star : (p : Bytes) → (p == lit "*") ≡ true → unescape encode_path p ≡ some p
unfolding unescape
unescape-star p h =
    subst (λ q. unescape encode_path q ≡ some q) (sym ((bytes_eq.same_iff p (lit "*")).0 h)) refl

pub unescape-escaped_path : (p : Bytes) → IsText p → unescape encode_path (escaped_path p) ≡ some p
unfolding escaped_path
unescape-escaped_path p t = elim (Bool-cases (p == lit "*")) [
  | inl star ↦ rw star (unescape-star p star)
  | inr other ↦ rw other (unescape-escape encode_path p t)
]

escape_relative :
    (p : Bytes) → starts_with_slash p ≡ false → starts_with_slash (escape encode_path p) ≡ false
unfolding escape escape_byte
escape_relative [] h = refl
escape_relative (c ∷ s) h = elim (Bool-cases (should_escape encode_path c)) [
  | inl e ↦ rw e refl
  | inr e ↦ rw e h
]

pub escaped_path_relative :
    (p : Bytes) → starts_with_slash p ≡ false → starts_with_slash (escaped_path p) ≡ false
unfolding escaped_path
escaped_path_relative p h = elim (Bool-cases (p == lit "*")) [
  | inl star ↦ rw star h
  | inr other ↦ rw other (escape_relative p h)
]
