-- ===== src/Startup/Tidy.antt =====
-- What makes a list of the actions of `run` of cmd/consumer/main.go tidy: resources are released in
-- turn, and no work comes before the migrations.
use notip_data_consumer.Prelude.{
  ◌≡◌, refl, sym, ap, ◌∙◌, append_assoc, append-nil, arith, List, [], ◌∷◌, ◌++◌,
}
use notip_data_consumer.Startup.{
  Resource, Action, makes_tracker, acquires, releases, migrates, serves, refreshes, ticks_every,
  awaits_decommissions, consumes,
}

abbrev pub IsPlain : Action → Type 0
IsPlain (acquires _) = ⊥
IsPlain (releases _) = ⊥
IsPlain _ = Unit {0}

-- Each resource that is acquired is released, the last first, and only these.
pub data IsUnwound : List Action → Type 0 where
  nothing : IsUnwound []
  does :
      {later : List Action} (action : Action)
      → IsPlain action
      → IsUnwound later
      → IsUnwound (action ∷ later)
  holds :
      {during later : List Action} (r : Resource)
      → IsUnwound during
      → IsUnwound later
      → IsUnwound (acquires r ∷ (during ++ releases r ∷ later))

abbrev pub acquired_by : Action → List Resource
acquired_by (acquires r) = r ∷ []
acquired_by _ = []

abbrev pub acquired : List Action → List Resource
acquired [] = []
acquired (action ∷ actions) = acquired_by action ++ acquired actions

-- The work of the service: whatever receives, answers or tracks.
abbrev pub IsWork : Action → Type 0
IsWork (makes_tracker _ _) = Unit {0}
IsWork (serves _) = Unit {0}
IsWork (refreshes _ _) = Unit {0}
IsWork (ticks_every _) = Unit {0}
IsWork awaits_decommissions = Unit {0}
IsWork (consumes _ _ _) = Unit {0}
IsWork _ = ⊥

-- No work is begun before the migrations have been applied.
pub data StartsMigrated : List Action → Type 0 where
  never : StartsMigrated []
  prepares :
      {later : List Action} (action : Action)
      → (¬ IsWork action)
      → StartsMigrated later
      → StartsMigrated (action ∷ later)
  then_any : (later : List Action) → StartsMigrated (migrates ∷ later)

-- The resources that are acquired are the first ones of the order.
pub record IsTidy (order : List Resource) (actions : List Action) : Type 0 where
  pub unwound : IsUnwound actions
  pub unreached : List Resource
  pub in_order : order ≡ acquired actions ++ unreached

acquired-plain : (action : Action) → IsPlain action → acquired_by action ≡ []
acquired-plain action h = ground arith

acquired-append : (xs ys : List Action) → acquired (xs ++ ys) ≡ acquired xs ++ acquired ys
acquired-append [] ys = refl
acquired-append (x ∷ xs) ys =
    ap (◌++◌ (acquired_by x)) (acquired-append xs ys)
    ∙ sym (append_assoc (acquired_by x) (acquired xs) (acquired ys))

pub idle-IsTidy : (order : List Resource) → IsTidy order []
idle-IsTidy order = record { unwound = nothing; unreached = order; in_order = refl }

pub after-IsTidy :
    (action : Action) {order : List Resource} {actions : List Action}
    → IsPlain action
    → IsTidy order actions
    → IsTidy order (action ∷ actions)
after-IsTidy action p h = record {
  unwound = does action p h.unwound;
  unreached = h.unreached;
  in_order = rw (acquired-plain action p) h.in_order;
}

pub holding-IsTidy :
    (r : Resource) {order : List Resource} {actions : List Action}
    → IsTidy order actions
    → IsTidy (r ∷ order) (acquires r ∷ (actions ++ releases r ∷ []))
holding-IsTidy r {order} {actions} h = record {
  unwound = holds r h.unwound nothing;
  unreached = h.unreached;
  in_order =
      rw (acquired-append actions (releases r ∷ []), append-nil (acquired actions))
        (ap (◌∷◌ r) h.in_order);
}

pub holding-StartsMigrated :
    (r : Resource) {actions : List Action}
    → StartsMigrated actions
    → StartsMigrated (acquires r ∷ (actions ++ releases r ∷ []))
holding-StartsMigrated r {actions} h = prepares (acquires r) (λ w. w) (go h)
  where
    go : {xs : List Action} → StartsMigrated xs → StartsMigrated (xs ++ releases r ∷ [])
    go never = prepares (releases r) (λ w. w) never
    go (prepares action idle rest) = prepares action idle (go rest)
    go (then_any later) = then_any (later ++ releases r ∷ [])
