-- ===== src/Subject/Split.antt =====
-- `split` and `join` are inverse to one another; what the parsers of subjects accept.
use notip_data_consumer.Prelude.{
  ℕ, Bool, true, false, ◌≡◌, ◌≢◌, ◌↔◌, refl, sym, ap, ◌∙◌, subst, some, List, [], ◌∷◌, ◌++◌, eqb,
  if◌then◌else◌, arith, All, Bool-cases, inl, inr,
}
use notip_data_consumer.Prelude.Bytes.{Bytes, Lacks}
use notip_data_consumer.Subject.{
  dot, extend_head, split, third_of_four, extract_tenant_id, last_two_of_four, extract_ids,
}

-- `strings.Join`
pub join : ℕ → List Bytes → Bytes
join sep [] = []
join sep (part ∷ []) = part
join sep (part ∷ next ∷ parts) = part ++ (sep ∷ join sep (next ∷ parts))

abbrev ArePlain : ℕ → List Bytes → Type 0
ArePlain sep = All (Lacks sep)

abbrev IsNonempty : List Bytes → Type 0
IsNonempty [] = ⊥
IsNonempty (_ ∷ _) = Unit {0}

split-IsNonempty : (sep : ℕ) (s : Bytes) → IsNonempty (split sep s)
unfolding split
split-IsNonempty sep [] = tt
split-IsNonempty sep (c ∷ s) = go (eqb c sep) (split sep s)
  where
    go :
        (b : Bool) (parts : List Bytes) → IsNonempty (if b then [] ∷ parts else extend_head c parts)
    go true parts = tt
    go false [] = tt
    go false (p ∷ ps) = tt

join-extend_head :
    (sep c : ℕ) (parts : List Bytes) → join sep (extend_head c parts) ≡ c ∷ join sep parts
unfolding join
join-extend_head sep c [] = refl
join-extend_head sep c (p ∷ []) = refl
join-extend_head sep c (p ∷ q ∷ ps) = refl

join-empty :
    (sep : ℕ) (parts : List Bytes) → IsNonempty parts → join sep ([] ∷ parts) ≡ sep ∷ join sep parts
unfolding join
join-empty sep [] h = absurd h
join-empty sep (p ∷ ps) h = refl

join-split : (sep : ℕ) (s : Bytes) → join sep (split sep s) ≡ s
unfolding split join
join-split sep [] = refl
join-split sep (c ∷ s) = elim (Bool-cases (eqb c sep)) [
  | inl cut ↦
      rw cut
        (join-empty sep (split sep s) (split-IsNonempty sep s) ∙ ground (arith, join-split sep s))
  | inr inside ↦ rw inside (join-extend_head sep c (split sep s) ∙ ap (◌∷◌ c) (join-split sep s))
]

extend_head-ArePlain :
    (sep c : ℕ) (parts : List Bytes)
    → c ≢ sep
    → ArePlain sep parts
    → ArePlain sep (extend_head c parts)
extend_head-ArePlain sep c [] h l = ((h, tt), tt)
extend_head-ArePlain sep c (p ∷ ps) h l = ((h, l.0), l.1)

split-ArePlain : (sep : ℕ) (s : Bytes) → ArePlain sep (split sep s)
unfolding split
split-ArePlain sep [] = (tt, tt)
split-ArePlain sep (c ∷ s) = elim (Bool-cases (eqb c sep)) [
  | inl cut ↦ rw cut (tt, split-ArePlain sep s)
  | inr inside ↦
      rw inside (extend_head-ArePlain sep c (split sep s) (ground arith) (split-ArePlain sep s))
]

-- A part with no separator in it is split off.
pub split-plain :
    (sep : ℕ) (part s : Bytes) → Lacks sep part → split sep (part ++ (sep ∷ s)) ≡ part ∷ split sep s
unfolding split
split-plain sep [] s l = ground arith
split-plain sep (c ∷ part) s l = ground (arith, split-plain sep part s l.1)

pub split_last : (sep : ℕ) (part : Bytes) → Lacks sep part → split sep part ≡ part ∷ []
unfolding split
split_last sep [] l = refl
split_last sep (c ∷ part) l = ground (arith, split_last sep part l.1)

split-join :
    (sep : ℕ) (parts : List Bytes)
    → IsNonempty parts
    → ArePlain sep parts
    → split sep (join sep parts) ≡ parts
unfolding join
split-join sep [] h l = absurd h
split-join sep (p ∷ []) h l = split_last sep p l.0
split-join sep (p ∷ q ∷ ps) h l =
    split-plain sep p (join sep (q ∷ ps)) l.0 ∙ ap (◌∷◌ p) (split-join sep (q ∷ ps) tt l.1)

third_inverse :
    (parts : List Bytes) (t : Bytes)
    → third_of_four parts ≡ some t
    → (a b g : Bytes) × (parts ≡ a ∷ b ∷ t ∷ g ∷ [])
unfolding third_of_four
third_inverse (a ∷ b ∷ t' ∷ g ∷ []) t h = (a, b, g, ground arith)
third_inverse _ t h = cc

last_two_inverse :
    (parts : List Bytes) (t g : Bytes)
    → last_two_of_four parts ≡ some (t, g)
    → (a b : Bytes) × (parts ≡ a ∷ b ∷ t ∷ g ∷ [])
unfolding last_two_of_four
last_two_inverse (a ∷ b ∷ t' ∷ g' ∷ []) t g h = (a, b, ground arith)
last_two_inverse _ t g h = cc

abbrev four : Bytes → Bytes → Bytes → Bytes → List Bytes
four a b t g = a ∷ b ∷ t ∷ g ∷ []

-- The four parts of a subject, none of which holds a dot.
abbrev pub HasParts : Bytes → Bytes → Bytes → Bytes → Bytes → Type 0
HasParts subject a b t g =
    (subject ≡ a ++ (dot ∷ (b ++ (dot ∷ (t ++ (dot ∷ g)))))) × ArePlain dot (four a b t g)

parted : (subject a b t g : Bytes) → split dot subject ≡ four a b t g → HasParts subject a b t g
unfolding join
parted subject a b t g h = (
  sym (join-split dot subject) ∙ ap (join dot) h,
  subst (ArePlain dot) h (split-ArePlain dot subject),
)

unparted : (subject a b t g : Bytes) → HasParts subject a b t g → split dot subject ≡ four a b t g
unfolding join
unparted subject a b t g (same, plain) =
    ap (split dot) same ∙ split-join dot (four a b t g) tt plain

-- The consumer of telemetry takes the tenant `t` from a subject exactly if the subject has four
-- parts between dots, of which `t` is the third.
pub extract_tenant_id_iff :
    (subject t : Bytes)
    → (extract_tenant_id subject ≡ some t) ↔ ((a b g : Bytes) × HasParts subject a b t g)
unfolding extract_tenant_id
extract_tenant_id_iff subject t = (
  (λ h.
      let (a, b, g, e) = third_inverse (split dot subject) t h in
      (a, b, g, parted subject a b t g e)),
  (λ (a, b, g, parts). rw (unparted subject a b t g parts)),
)

-- The consumer of decommissions takes the tenant `t` and the gateway `g` from a subject exactly if
-- the subject has four parts between dots, the last two of which are `t` and `g`.
pub extract_ids_iff :
    (subject t g : Bytes)
    → (extract_ids subject ≡ some (t, g)) ↔ ((a b : Bytes) × HasParts subject a b t g)
unfolding extract_ids
extract_ids_iff subject t g = (
  (λ h.
      let (a, b, e) = last_two_inverse (split dot subject) t g h in
      (a, b, parted subject a b t g e)),
  (λ (a, b, parts). rw (unparted subject a b t g parts)),
)
