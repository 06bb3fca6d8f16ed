-- ===== src/Tracker/Snapshot.antt =====
-- The snapshot that `Tick` takes of the map: each entry once, in any order.
use notip_data_consumer.Prelude.{
  ◌≡◌, refl, Option, none, some, List, [], ◌∷◌, map, if◌then◌else◌, ◌==◌, arith,
}
use notip_data_consumer.Prelude.GoMap.{GoMap, lookup, HasDistinctKeys}
use notip_data_consumer.Tracker.{GatewayKey, key_eq, HeartbeatEntry, key_of, key_eqb_iff}
use notip_data_consumer.Tracker.Invariant.{IsKeyed}

unfoldable pub find_entry : GatewayKey → List HeartbeatEntry → Option HeartbeatEntry
find_entry k [] = none
find_entry k (e ∷ es) = if key_of e == k then some e else find_entry k es

abbrev pub AreDistinct : List HeartbeatEntry → Type 0
AreDistinct [] = Unit {0}
AreDistinct (e ∷ es) = (find_entry (key_of e) es ≡ none) × AreDistinct es

-- What a loop over the map yields: no key twice, and at each key what the map has there.
pub record IsSnapshot (es : List HeartbeatEntry) (beats : GoMap GatewayKey HeartbeatEntry)
    : Type 0 where
  pub distinct : AreDistinct es
  pub complete : (k : GatewayKey) → find_entry k es ≡ lookup k beats

abbrev pub values : GoMap GatewayKey HeartbeatEntry → List HeartbeatEntry
values = map (λ kv. kv.1)

-- The entries of each pair name its key.
abbrev OwnKeys : GoMap GatewayKey HeartbeatEntry → Type 0
OwnKeys [] = Unit {0}
OwnKeys ((k, e) ∷ m) = (key_of e ≡ k) × OwnKeys m

find_entry-values :
    (m : GoMap GatewayKey HeartbeatEntry) (k : GatewayKey)
    → OwnKeys m
    → find_entry k (values m) ≡ lookup k m
unfolding find_entry lookup
find_entry-values [] k own = refl
find_entry-values ((j, e) ∷ m) k own = rw (← own.0, find_entry-values m k own.1)

values-distinct :
    (m : GoMap GatewayKey HeartbeatEntry) → OwnKeys m → HasDistinctKeys m → AreDistinct (values m)
values-distinct [] own h = tt
values-distinct ((j, e) ∷ m) own h =
    (rw (own.0, find_entry-values m j own.1) h.0, values-distinct m own.1 h.1)

tail-IsKeyed :
    (k : GatewayKey) (e : HeartbeatEntry) (m : GoMap GatewayKey HeartbeatEntry)
    → lookup k m ≡ none
    → IsKeyed ((k, e) ∷ m)
    → IsKeyed m
unfolding lookup
tail-IsKeyed k e m fresh h = record {
  at_key = λ j f found. h.at_key j f (ground (arith, key_eqb_iff k j));
}

IsKeyed-OwnKeys : (m : GoMap GatewayKey HeartbeatEntry) → HasDistinctKeys m → IsKeyed m → OwnKeys m
unfolding lookup
IsKeyed-OwnKeys [] d h = tt
IsKeyed-OwnKeys ((k, e) ∷ m) d h = (
  h.at_key k e (ground (arith, key_eqb_iff k k)),
  IsKeyed-OwnKeys m d.1 (tail-IsKeyed k e m d.0 h),
)

-- Every well-formed map has a snapshot.
pub values-IsSnapshot :
    (m : GoMap GatewayKey HeartbeatEntry) → HasDistinctKeys m → IsKeyed m → IsSnapshot (values m) m
values-IsSnapshot m d h =
    let own = IsKeyed-OwnKeys m d h in
    record { distinct = values-distinct m own d; complete = λ k. find_entry-values m k own }
