-- ===== src/Tracker/Interleaving/Truth.antt =====
-- What the tracker believes and what it told the management API agree, and heartbeats, decommissions
-- and the dispatcher keep it so.
use notip_data_consumer.Prelude.{
  Bool, false, ◌≡◌, refl, Option, none, some, List, [], ◌∷◌, ◌++◌, if◌then◌else◌, ◌==◌, arith,
  Bool-cases, inl, inr, All,
}
use notip_data_consumer.Prelude.Bytes.{Bytes, bytes_eq, bytes_eqb_iff}
use notip_data_consumer.Prelude.GoMap.{lookup, lookup-delete}
use notip_data_consumer.Model.{Time, GatewayStatus, online, GatewayStatusUpdate}
use notip_data_consumer.Dispatcher.{Dispatcher}
use notip_data_consumer.Dispatcher.Accounting.{IsAccounted}
use notip_data_consumer.Tracker.{
  GatewayKey, key_eq, key_eqb_iff, HeartbeatEntry, Tracker, key_of, online_update,
  handle_decommission,
}
use notip_data_consumer.Tracker.Invariant.{IsWellFormed, handle_decommission-IsWellFormed}
use notip_data_consumer.Tracker.Telemetry.{Heard, is_news}
use notip_data_consumer.Tracker.Interleaving.{
  Phase, idle, scanning, alerted, reported, World, with_tracker,
}

-- The status in the last update for the gateway `g`.
abbrev later_status : Option GatewayStatus → Option GatewayStatus → Option GatewayStatus
later_status none s = s
later_status (some s) _ = some s

unfoldable pub last_status : Bytes → List GatewayStatusUpdate → Option GatewayStatus
last_status g [] = none
last_status g (u ∷ us) =
    later_status (last_status g us) (if u.gateway_id == g then some u.status else none)

pub last_status-snoc :
    (g : Bytes) (us : List GatewayStatusUpdate) (u : GatewayStatusUpdate)
    → last_status g (us ++ u ∷ []) ≡ (if u.gateway_id == g then some u.status else last_status g us)
unfolding last_status
last_status-snoc g [] u = ground arith
last_status-snoc g (v ∷ us) u = ground (arith, last_status-snoc g us u)

known_online :
    (o : Option HeartbeatEntry)
    → is_news o ≡ false
    → (e : HeartbeatEntry) × (o ≡ some e) × (e.known_status ≡ online)
known_online none h = absurd (ground arith)
known_online (some e) h = (e, refl, ground arith)

-- The update of `e` is sent and its entry is not yet marked.
abbrev pub is_pending : Phase → GatewayKey → Bool
is_pending (reported now e es) k = key_of e == k
is_pending _ k = false

-- The gateways whose alerts are on the way.
abbrev pub on_the_way : Phase → List HeartbeatEntry
on_the_way idle = []
on_the_way (scanning now es) = es
on_the_way (alerted now e es) = e ∷ es
on_the_way (reported now e es) = e ∷ es

abbrev pub IsOwned : (Bytes → Bytes) → GatewayKey → Type 0
IsOwned owner k = owner k.gateway_id ≡ k.tenant_id

module _ (owner : Bytes → Bytes) where
  pub record IsTruthful (w : World) : Type 0 where
    pub well_formed : IsWellFormed w.tracker
    pub owned :
        (k : GatewayKey) (e : HeartbeatEntry) → lookup k w.tracker.beats ≡ some e → IsOwned owner k
    pub owned_snapshot : All (λ e. IsOwned owner (key_of e)) (on_the_way w.phase)
    pub truthful :
        (k : GatewayKey) (e : HeartbeatEntry)
        → lookup k w.tracker.beats ≡ some e
        → e.known_status ≡ online
        → is_pending w.phase k ≡ false
        → last_status k.gateway_id w.tracker.dispatcher.attempted ≡ some online

  Heard-truth :
      (w : World) (k : GatewayKey) (now : Time) (t : Tracker)
      → Heard k now w.tracker t
      → IsTruthful w
      → (j : GatewayKey) (e : HeartbeatEntry) → lookup j t.beats ≡ some e
      → e.known_status ≡ online
      → is_pending w.phase j ≡ false
      → last_status j.gateway_id t.dispatcher.attempted ≡ some online
  Heard-truth w k now t heard h j e found on quiet =
      elim (Bool-cases (is_news (lookup k w.tracker.beats))) [
        | inl news ↦ ground (
          arith,
          heard.entries j,
          heard.announced,
          news,
          key_eqb_iff k j,
          bytes_eqb_iff k.gateway_id j.gateway_id,
          last_status-snoc j.gateway_id w.tracker.dispatcher.attempted
              (online_update k.gateway_id now),
          h.truthful j e,
        )
        | inr old_news ↦
            let (old, there, up) = known_online (lookup k w.tracker.beats) old_news in
            ground (
              arith,
              heard.entries j,
              heard.announced,
              old_news,
              key_eqb_iff k j,
              h.truthful j e,
              h.truthful j old,
            )
      ]

  pub hear-IsTruthful :
      (w : World) (k : GatewayKey) (now : Time) (t : Tracker)
      → IsOwned owner k
      → Heard k now w.tracker t
      → IsWellFormed t
      → IsTruthful w
      → IsTruthful (with_tracker w t)
  hear-IsTruthful w k now t own heard good h = record {
    well_formed = good;
    owned = λ j e found. ground (arith, heard.entries j, key_eqb_iff k j, h.owned j e);
    owned_snapshot = h.owned_snapshot;
    truthful = λ j e found on quiet. Heard-truth w k now t heard h j e found on quiet;
  }

  pub decommission-IsTruthful :
      (w : World) (tenant_id gateway_id : Bytes)
      → IsTruthful w
      → IsTruthful (with_tracker w (handle_decommission tenant_id gateway_id w.tracker))
  decommission-IsTruthful w tenant_id gateway_id h =
      let k : GatewayKey = record { tenant_id = tenant_id; gateway_id = gateway_id } in
      record {
        well_formed = handle_decommission-IsWellFormed tenant_id gateway_id w.tracker h.well_formed;
        owned = λ j e found.
            unfold handle_decommission in
            ground (arith, lookup-delete k j w.tracker.beats, h.owned j e);
        owned_snapshot = h.owned_snapshot;
        truthful = λ j e found on quiet.
            unfold handle_decommission in
            ground (arith, lookup-delete k j w.tracker.beats, h.truthful j e);
      }

  pub dispatcher-IsTruthful :
      (w : World) (d : Dispatcher)
      → IsAccounted d
      → d.attempted ≡ w.tracker.dispatcher.attempted
      → IsTruthful w
      → IsTruthful (with_tracker w (record (w.tracker) { dispatcher = d }))
  dispatcher-IsTruthful w d a same h = record {
    well_formed = record {
      distinct = h.well_formed.distinct;
      keyed = h.well_formed.keyed;
      gauged = h.well_formed.gauged;
      accounted = a;
    };
    owned = h.owned;
    owned_snapshot = h.owned_snapshot;
    truthful = λ k e found on quiet. rw same (h.truthful k e found on quiet);
  }
