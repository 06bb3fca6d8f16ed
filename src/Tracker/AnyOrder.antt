-- ===== src/Tracker/AnyOrder.antt =====
-- `Tick` on two orders of the map's entries.
use mathlib.Core.Logic.{∥∥₁_elim, ∥∥₁_prop}
use mathlib.Core.List.{Perm, Permᴰ}
use mathlib.Core.List.Perm
use notip_data_consumer.Prelude.{
  Bool, true, ◌≡◌, refl, sym, ap, subst, ◌∙◌, none, some, List, [], ◌∷◌, if◌then◌else◌, ◌==◌, arith,
  Bool-cases, inl, inr, keep,
}
use notip_data_consumer.Prelude.GoMap.{lookup}
use notip_data_consumer.Prelude.Outcome.{returns}
use notip_data_consumer.Model.{Time, add_duration, before}
use notip_data_consumer.Tracker.{
  GatewayKey, key_eq, key_eqb_iff, HeartbeatEntry, Tracker, Ports, key_of, offline_update, Call,
  tick,
}
use notip_data_consumer.Tracker.Snapshot.{find_entry, AreDistinct, IsSnapshot}
use notip_data_consumer.Tracker.Body.{is_due, falls, alerts, alert_of}
use notip_data_consumer.Tracker.Tick.{tick-Ticked}

module _ {ℓ} {A : Type ℓ} (p : A → Bool) where
  abbrev first : A → List A → List A
  first x xs = if p x then x ∷ xs else xs

  first_both : (x : A) {xs ys : List A} → Perm xs ys → Perm (first x xs) (first x ys)
  first_both x h = elim (Bool-cases (p x)) [ inl e ↦ rw e (Perm.cons x h) | inr e ↦ rw e h ]

  first_swap : (x y : A) (xs : List A) → Perm (first x (first y xs)) (first y (first x xs))
  first_swap x y xs = elim (Bool-cases (p x)) [
    | inl e ↦ elim (Bool-cases (p y)) [
      | inl f ↦ rw (e, f) (Perm.swap y x xs)
      | inr f ↦ rw (e, f) (Perm.refl _)
    ]
    | inr e ↦ rw e (Perm.refl _)
  ]

  Permᴰ-keep : {xs ys : List A} → Permᴰ xs ys → Perm (keep p xs) (keep p ys)
  Permᴰ-keep Permᴰ.nil = Perm.refl _
  Permᴰ-keep (Permᴰ.cons {a = a} {l₁ = xs} {l₂ = ys} e d) =
      subst (λ x. Perm (first a (keep p xs)) (first x (keep p ys))) e (first_both a (Permᴰ-keep d))
  Permᴰ-keep (Permᴰ.swap {a = a} {b = b} {b' = b'} {l = xs} e f) =
      subst (λ x. Perm (first a (first b (keep p xs))) (first x (first b' (keep p xs)))) f
        (subst (λ x. Perm (first a (first b (keep p xs))) (first b (first x (keep p xs)))) e
          (first_swap a b (keep p xs)))
  Permᴰ-keep (Permᴰ.trans d d') = Perm.trans (Permᴰ-keep d) (Permᴰ-keep d')

  Perm-keep : {xs ys : List A} → Perm xs ys → Perm (keep p xs) (keep p ys)
  Perm-keep h = ∥∥₁_elim h ∥∥₁_prop Permᴰ-keep

-- The entries of other keys.
without : GatewayKey → List HeartbeatEntry → List HeartbeatEntry
without k [] = []
without k (e ∷ es) = let rest = without k es in if key_of e == k then rest else e ∷ rest

find_entry-without :
    (k j : GatewayKey) (es : List HeartbeatEntry)
    → find_entry j (without k es) ≡ (if k == j then none else find_entry j es)
unfolding find_entry without
find_entry-without k j [] = ground arith
find_entry-without k j (e ∷ es) = ground (
  arith,
  key_eqb_iff k j,
  key_eqb_iff (key_of e) k,
  key_eqb_iff (key_of e) j,
  find_entry-without k j es,
)

without-AreDistinct :
    (k : GatewayKey) (es : List HeartbeatEntry) → AreDistinct es → AreDistinct (without k es)
unfolding without
without-AreDistinct k [] d = tt
without-AreDistinct k (e ∷ es) d =
    ground (arith, find_entry-without k (key_of e) es, without-AreDistinct k es d.1)

without_absent :
    (k : GatewayKey) (es : List HeartbeatEntry) → find_entry k es ≡ none → without k es ≡ es
unfolding without find_entry
without_absent k [] h = refl
without_absent k (e ∷ es) h = ground (arith, without_absent k es)

-- The entry of a key may be put first.
found_first :
    (k : GatewayKey) (e : HeartbeatEntry) (es : List HeartbeatEntry)
    → AreDistinct es
    → find_entry k es ≡ some e
    → Perm es (e ∷ without k es)
unfolding find_entry without
found_first k e [] d h = cc
found_first k e (f ∷ es) d h = elim (Bool-cases (key_of f == k)) [
  | inl here ↦
      let same : f ≡ e = ground arith in
      let own : key_of f ≡ k = (key_eqb_iff (key_of f) k).0 here in
      let gone : without k es ≡ es =
        without_absent k es (subst (λ j. find_entry j es ≡ none) own d.0) in
      rw (here, gone, same) (Perm.refl _)
  | inr there ↦ rw there (
      Perm.trans (Perm.cons f (found_first k e es d.1 (ground arith)))
        (Perm.swap e f (without k es)))
]

agree_without :
    (e : HeartbeatEntry) (es fs : List HeartbeatEntry) (j : GatewayKey)
    → find_entry (key_of e) es ≡ none
    → find_entry j (e ∷ es) ≡ find_entry j fs
    → find_entry j es ≡ find_entry j (without (key_of e) fs)
unfolding find_entry
agree_without e es fs j fresh h = elim (Bool-cases (key_of e == j)) [
  | inl here ↦
      let own : key_of e ≡ j = (key_eqb_iff (key_of e) j).0 here in
      let gone : find_entry j es ≡ none = subst (λ i. find_entry i es ≡ none) own fresh in
      gone ∙ ground (arith, find_entry-without (key_of e) j fs)
  | inr there ↦ ground (arith, find_entry-without (key_of e) j fs)
]

-- Two lists of entries that agree at every key are one another's permutations.
agreeing-Perm :
    (es fs : List HeartbeatEntry)
    → AreDistinct es
    → AreDistinct fs
    → ((k : GatewayKey) → find_entry k es ≡ find_entry k fs)
    → Perm es fs
unfolding find_entry
agreeing-Perm [] [] d d' h = Perm.refl _
agreeing-Perm [] (f ∷ fs) d d' h = ground (arith, h (key_of f), key_eqb_iff (key_of f) (key_of f))
agreeing-Perm (e ∷ es) fs d d' h =
    let k = key_of e in
    let found : find_entry k fs ≡ some e = ground (arith, h k, key_eqb_iff k k) in
    let rest : (j : GatewayKey) → find_entry j es ≡ find_entry j (without k fs) =
      λ j. agree_without e es fs j d.0 (h j) in
    Perm.trans
      (Perm.cons e (agreeing-Perm es (without k fs) d.1 (without-AreDistinct k fs d') rest))
      (Perm.symm (found_first k e fs d' found))

-- Two ways in which the same `Tick` may go.
pub record IsSameTick (t t' : Tracker) (calls calls' : List Call) : Type 0 where
  pub same_map : (k : GatewayKey) → lookup k t.beats ≡ lookup k t'.beats
  pub same_alerts : Perm (alerts calls) (alerts calls')
  pub same_updates : Perm t.dispatcher.attempted t'.dispatcher.attempted

within_grace :
    (ports : Ports) (now now' : Time) (es : List HeartbeatEntry) (t s : Tracker) (calls : List Call)
    → before now (add_duration t.start_time t.grace_period) ≡ true
    → tick ports now now' es t ≡ returns (s, calls)
    → (s ≡ t) × (calls ≡ [])
unfolding tick
within_grace ports now now' es t s calls early run =
    let same : ◌≡◌ {A = Tracker × List Call} (t, []) (s, calls) = ground (arith, early, run) in
    (
      ap (λ (p : Tracker × List Call). p.0) (sym same),
      ap (λ (p : Tracker × List Call). p.1) (sym same),
    )

-- If the map yields its entries to `Tick` in two orders, and both calls return, then they leave the
-- same at every key, ask for the same alerts up to their order, and hand the same updates to the
-- dispatcher up to their order, both within the grace period and after it.
pub tick_any_order :
    (ports : Ports) (now now' : Time) (es fs : List HeartbeatEntry) (t s s' : Tracker)
    (calls calls' : List Call)
    → IsSnapshot es t.beats
    → IsSnapshot fs t.beats
    → tick ports now now' es t ≡ returns (s, calls)
    → tick ports now now' fs t ≡ returns (s', calls')
    → IsSameTick s s' calls calls'
tick_any_order ports now now' es fs t s s' calls calls' snap snap' run run' =
    elim (Bool-cases (before now (add_duration t.start_time t.grace_period))) [
      | inl early ↦
          let (idle, silent) = within_grace ports now now' es t s calls early run in
          let (idle', silent') = within_grace ports now now' fs t s' calls' early run' in
          record {
            same_map = λ k. rw (idle, idle') refl;
            same_alerts = rw (silent, silent') (Perm.refl _);
            same_updates = rw (idle, idle') (Perm.refl _);
          }
      | inr late ↦
          let w = tick-Ticked ports now now' es t s calls snap late run in
          let w' = tick-Ticked ports now now' fs t s' calls' snap' late run' in
          let order =
            agreeing-Perm es fs snap.distinct snap'.distinct
              (λ k. snap.complete k ∙ sym (snap'.complete k)) in
          record {
            same_map = λ k. w.entries k ∙ sym (w'.entries k);
            same_alerts =
                rw (w.alerted, w'.alerted)
                  (Perm.map (alert_of ports now') (Perm-keep (is_due ports now') order));
            same_updates =
                rw (w.reported, w'.reported)
                  (Perm.append_left t.dispatcher.attempted
                    (Perm.map offline_update (Perm-keep (falls ports now') order)));
          }
    ]
