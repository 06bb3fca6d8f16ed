-- ===== src/Tracker/Interleaving/TickTruth.antt =====
-- The steps of a `Tick` keep the beliefs of the tracker and its reports in agreement.
use notip_data_consumer.Prelude.{
  false, ◌≡◌, subst, some, List, [], ◌∷◌, arith, Option-cases, inl, inr, All,
}
use notip_data_consumer.Prelude.Bytes.{Bytes, bytes_eq, bytes_eqb_iff}
use notip_data_consumer.Prelude.GoMap.{lookup}
use notip_data_consumer.Prelude.Outcome.{returns}
use notip_data_consumer.Model.{Time, online}
use notip_data_consumer.Dispatcher.Attempts.{attempted-dispatch}
use notip_data_consumer.Tracker.{
  GatewayKey, key_eq, key_eqb_iff, HeartbeatEntry, Tracker, key_of, offline_update, mark_offline,
  dispatch,
}
use notip_data_consumer.Tracker.Invariant.{
  dispatch_returns, dispatch-IsWellFormed, mark_offline-IsWellFormed,
}
use notip_data_consumer.Tracker.Snapshot.{find_entry, AreDistinct}
use notip_data_consumer.Tracker.Body.{lookup-mark_offline, dispatcher-mark_offline}
use notip_data_consumer.Tracker.Interleaving.{Phase, scanning, alerted, reported, World}
use notip_data_consumer.Tracker.Interleaving.Truth.{
  last_status, last_status-snoc, is_pending, on_the_way, IsOwned, IsTruthful,
}

module _ (owner : Bytes → Bytes) where
  pub snapshot-IsOwned :
      (es : List HeartbeatEntry)
      → AreDistinct es
      → ((k : GatewayKey) (e : HeartbeatEntry) → find_entry k es ≡ some e → IsOwned owner k)
      → All (λ e. IsOwned owner (key_of e)) es
  unfolding find_entry
  snapshot-IsOwned [] d own = tt
  snapshot-IsOwned (e ∷ es) d own = (
    own (key_of e) e (ground (arith, key_eqb_iff (key_of e) (key_of e))),
    snapshot-IsOwned es d.1 (λ k f found. own k f (ground (arith, key_eqb_iff (key_of e) k, d.0))),
  )

  -- A step of the timer's goroutine that leaves the tracker alone.
  pub rephased-IsTruthful :
      (w : World) (p : Phase)
      → ((k : GatewayKey) → is_pending w.phase k ≡ false)
      → All (λ e. IsOwned owner (key_of e)) (on_the_way p)
      → IsTruthful owner w
      → IsTruthful owner (record w { phase = p })
  rephased-IsTruthful w p quiet own h = record {
    well_formed = h.well_formed;
    owned = h.owned;
    owned_snapshot = own;
    truthful = λ k e found on _. h.truthful k e found on (quiet k);
  }

  pub reported-IsTruthful :
      (w : World) (now : Time) (e : HeartbeatEntry) (es : List HeartbeatEntry) (t : Tracker)
      → w.phase ≡ alerted now e es
      → dispatch (offline_update e) w.tracker ≡ returns t
      → IsTruthful owner w
      → IsTruthful owner (record w { tracker = t; phase = reported now e es })
  reported-IsTruthful w now e es t at sent h =
      let (d, there, same) = dispatch_returns (offline_update e) w.tracker t sent in
      let own : All (λ x. IsOwned owner (key_of x)) (e ∷ es) =
        subst (λ p. All (λ x. IsOwned owner (key_of x)) (on_the_way p)) at h.owned_snapshot in
      record {
        well_formed = dispatch-IsWellFormed (offline_update e) w.tracker t sent h.well_formed;
        owned = λ k f found. h.owned k f (ground arith);
        owned_snapshot = own;
        truthful = λ k f found on quiet. ground (
          arith,
          attempted-dispatch (offline_update e) w.tracker.dispatcher d there,
          last_status-snoc k.gateway_id w.tracker.dispatcher.attempted (offline_update e),
          bytes_eqb_iff e.gateway_id k.gateway_id,
          key_eqb_iff (key_of e) k,
          own.0,
          h.owned k f,
          h.truthful k f,
        );
      }

  marked-IsOwned :
      (w : World) (e : HeartbeatEntry) (k : GatewayKey) (f : HeartbeatEntry)
      → lookup k (mark_offline (key_of e) w.tracker).beats ≡ some f
      → IsTruthful owner w
      → IsOwned owner k
  marked-IsOwned w e k f found h = elim (Option-cases (lookup k w.tracker.beats)) [
    | inl gone ↦ absurd (ground (arith, lookup-mark_offline (key_of e) k w.tracker))
    | inr (old, there) ↦ h.owned k old there
  ]

  marked_truth :
      (w : World) (now : Time) (e : HeartbeatEntry) (es : List HeartbeatEntry) (k : GatewayKey)
      (f : HeartbeatEntry)
      → w.phase ≡ reported now e es
      → lookup k (mark_offline (key_of e) w.tracker).beats ≡ some f
      → f.known_status ≡ online
      → IsTruthful owner w
      → last_status k.gateway_id w.tracker.dispatcher.attempted ≡ some online
  marked_truth w now e es k f at found on h = elim (Option-cases (lookup k w.tracker.beats)) [
    | inl gone ↦ absurd (ground (arith, lookup-mark_offline (key_of e) k w.tracker))
    | inr (old, there) ↦ ground (arith, lookup-mark_offline (key_of e) k w.tracker, h.truthful k f)
  ]

  pub marked-IsTruthful :
      (w : World) (now : Time) (e : HeartbeatEntry) (es : List HeartbeatEntry)
      → w.phase ≡ reported now e es
      → IsTruthful owner w
      → IsTruthful owner
          (record w { tracker = mark_offline (key_of e) w.tracker; phase = scanning now es })
  marked-IsTruthful w now e es at h =
      let own : All (λ x. IsOwned owner (key_of x)) (e ∷ es) =
        subst (λ p. All (λ x. IsOwned owner (key_of x)) (on_the_way p)) at h.owned_snapshot in
      record {
        well_formed = mark_offline-IsWellFormed (key_of e) w.tracker h.well_formed;
        owned = λ k f found. marked-IsOwned w e k f found h;
        owned_snapshot = own.1;
        truthful = λ k f found on quiet.
            rw (dispatcher-mark_offline (key_of e) w.tracker)
              (marked_truth w now e es k f at found on h);
      }

  pub passed-IsOwned :
      (e : HeartbeatEntry) (es : List HeartbeatEntry)
      → All (λ x. IsOwned owner (key_of x)) (e ∷ es)
      → All (λ x. IsOwned owner (key_of x)) es
  passed-IsOwned e es own = own.1
