-- ===== src/NetUrl/Values.antt =====
-- Reading the query that `Values.Encode` of Go's `net/url` writes, as `ParseQuery` does.
use notip_data_consumer.Prelude.{
  ◌≡◌, ◌≢◌, refl, sym, ap, ◌∙◌, Option, some, List, [], ◌∷◌, ◌++◌, map, append_assoc, arith, All,
  All-append,
}
use notip_data_consumer.Prelude.Bytes.{Bytes, Lacks}
use notip_data_consumer.Subject.{split}
use notip_data_consumer.Subject.Split.{split-plain, split_last}
use notip_data_consumer.NetUrl.{encode_query_component, should_escape, escape, encode_values}
use notip_data_consumer.NetUrl.Cut.{cut, cut_first, or_empty}
use notip_data_consumer.NetUrl.Escapes.{unescape, IsText, unescape-escape, escape-Lacks}

-- One `key=value`.
unfoldable pub read_value : Bytes → Option Bytes × Option Bytes
unfolding cut
read_value s =
    let parts = cut b'=' s in
    (unescape encode_query_component parts.0, unescape encode_query_component (or_empty parts.1))

unfoldable pub read_values : Bytes → List (Option Bytes × Option Bytes)
unfolding read_value split
read_values q = map read_value (split b'&' q)

abbrev pub IsTextPair : Bytes × Bytes → Type 0
IsTextPair (key, value) = IsText key × IsText value

abbrev pub found_pair : Bytes × Bytes → Option Bytes × Option Bytes
found_pair (key, value) = (some key, some value)

abbrev pair : Bytes → Bytes → Bytes
pair key value = escape encode_query_component key ++ (b'=' ∷ escape encode_query_component value)

pair-Lacks : (key value : Bytes) → Lacks b'&' (pair key value)
pair-Lacks key value =
    All-append (λ e. e ≢ b'&') (escape encode_query_component key)
      (b'=' ∷ escape encode_query_component value)
      (escape-Lacks encode_query_component b'&' key refl (unfold should_escape in refl))
      (
        ground arith,
        escape-Lacks encode_query_component b'&' value refl (unfold should_escape in refl),
      )

read_value-pair :
    (key value : Bytes)
    → IsText key
    → IsText value
    → read_value (pair key value) ≡ (some key, some value)
unfolding read_value
read_value-pair key value k v =
    rw
      (
        cut_first b'=' (escape encode_query_component key) (escape encode_query_component value)
            (escape-Lacks encode_query_component b'=' key refl (unfold should_escape in refl)),
        unescape-escape encode_query_component key k,
        unescape-escape encode_query_component value v,
      )
      refl

-- Keys and values that are encoded read back.
pub read_values-encode_values :
    (v : Bytes × Bytes) (vs : List (Bytes × Bytes))
    → All IsTextPair (v ∷ vs)
    → read_values (encode_values (v ∷ vs)) ≡ map found_pair (v ∷ vs)
unfolding read_values encode_values
read_values-encode_values (key, value) [] t =
    rw
      (
        split_last b'&' (pair key value) (pair-Lacks key value),
        read_value-pair key value t.0.0 t.0.1,
      )
      refl
read_values-encode_values (key, value) (w ∷ vs) t =
    ap (λ s. map read_value (split b'&' s))
      (sym (
        append_assoc (escape encode_query_component key)
          (b'=' ∷ escape encode_query_component value) (b'&' ∷ encode_values (w ∷ vs))))
    ∙ rw
        (
          split-plain b'&' (pair key value) (encode_values (w ∷ vs)) (pair-Lacks key value),
          read_value-pair key value t.0.0 t.0.1,
        )
        (ap (◌∷◌ (some key, some value)) (read_values-encode_values w vs t.1))
