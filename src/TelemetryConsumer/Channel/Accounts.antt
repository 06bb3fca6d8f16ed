-- ===== src/TelemetryConsumer/Channel/Accounts.antt =====
-- Where the messages between the callback and the loop are.
use mathlib.Core.List.{map-append}
use notip_data_consumer.Prelude.{
  ℕ, ◌+◌, ◌*◌, ◌≤◌, ◌<◌, ◌≡◌, ◌≢◌, All, All-append, refl, sym, ap, ◌∙◌, subst, Bool, true, false,
  ◌⊎◌, inl, inr, Option, none, some, List, [], ◌∷◌, ◌++◌, map, length, length-append, append_assoc,
  append-nil, arith, Interleaved, neither, Interleaved-snoc_left, Interleaved-snoc_right,
}
use notip_data_consumer.TelemetryConsumer.{PendingMsg, Ack, ack, FlushState}
use notip_data_consumer.TelemetryConsumer.Flush.{handled}
use notip_data_consumer.TelemetryConsumer.Channel.{ConsumerRun, start_run}

abbrev pub msgs : List PendingMsg → List ℕ
msgs = map (λ (pm : PendingMsg). pm.msg)

abbrev pub held : Option PendingMsg → List ℕ
held none = []
held (some pm) = pm.msg ∷ []

-- The messages that came through the channel: settled by the loop, in its buffer, or still queued.
abbrev pub queued : ConsumerRun → List ℕ
queued r = handled r.flushing ++ msgs r.pending

abbrev pub refused : ConsumerRun → List ℕ
refused r = map (λ (a : ℕ × Ack). a.0) r.given_up

abbrev pub IsNoAck : ℕ × Ack → Type 0
IsNoAck (_, verdict) = verdict ≢ ack

-- Of the messages received, the last may be in hand; the others have been queued or given up, and
-- both are in the order in which they came.
pub record IsKept (batch_size : ℕ) (r : ConsumerRun) : Type 0 where
  pub through : List ℕ
  pub received : msgs r.received ≡ through ++ held r.in_hand
  pub kept : Interleaved (queued r) (refused r) through
  pub counted : r.messages_received ≡ length r.received
  pub bounded : length r.pending ≤ batch_size * 2
  -- a message is given up, and the loop ends, only if the context is done
  pub given_late : (r.given_up ≡ []) ⊎ (r.cancelled ≡ true)
  pub never_acked : All IsNoAck r.given_up
  pub ended_late : (r.loop_ended ≡ false) ⊎ ((r.cancelled ≡ true) × (r.flushing.buf ≡ []))

pub start_run-IsKept : (batch_size : ℕ) → IsKept batch_size start_run
start_run-IsKept batch_size = record {
  through = [];
  received = refl;
  kept = neither;
  counted = refl;
  bounded = omega arith;
  given_late = inl refl;
  never_acked = tt;
  ended_late = inl refl;
}

pub called-IsKept :
    (batch_size : ℕ) (pm : PendingMsg) (r : ConsumerRun)
    → IsKept batch_size r
    → r.in_hand ≡ none
    → IsKept batch_size (record r {
      in_hand = some pm;
      received = r.received ++ pm ∷ [];
      messages_received = r.messages_received + 1;
    })
called-IsKept batch_size pm r h e = record {
  through = h.through;
  received =
      map-append (λ (p : PendingMsg). p.msg) r.received (pm ∷ [])
      ∙ ap (λ (xs : List ℕ). xs ++ pm.msg ∷ [])
          (h.received ∙ ap (λ o. h.through ++ held o) e ∙ append-nil h.through);
  kept = h.kept;
  counted = omega (arith, h.counted, length-append r.received (pm ∷ []));
  bounded = h.bounded;
  given_late = h.given_late;
  never_acked = h.never_acked;
  ended_late = h.ended_late;
}

pub sent-IsKept :
    (batch_size : ℕ) (pm : PendingMsg) (r : ConsumerRun)
    → IsKept batch_size r
    → r.in_hand ≡ some pm
    → length r.pending < batch_size * 2
    → IsKept batch_size (record r { pending = r.pending ++ pm ∷ []; in_hand = none })
sent-IsKept batch_size pm r h e room = record {
  through = h.through ++ pm.msg ∷ [];
  received = h.received ∙ ap (λ o. h.through ++ held o) e ∙ sym (append-nil _);
  kept =
      subst (λ xs. Interleaved xs (refused r) (h.through ++ pm.msg ∷ []))
        (append_assoc (handled r.flushing) (msgs r.pending) (pm.msg ∷ [])
          ∙ ap (◌++◌ (handled r.flushing)) (sym (map-append _ r.pending (pm ∷ []))))
        (Interleaved-snoc_left pm.msg h.kept);
  counted = h.counted;
  bounded = omega (arith, room, length-append r.pending (pm ∷ []));
  given_late = h.given_late;
  never_acked = h.never_acked;
  ended_late = h.ended_late;
}

pub given-IsKept :
    (batch_size : ℕ) (pm : PendingMsg) (verdict : Ack) (r : ConsumerRun)
    → IsKept batch_size r
    → r.in_hand ≡ some pm
    → r.cancelled ≡ true
    → verdict ≢ ack
    → IsKept batch_size
        (record r { given_up = r.given_up ++ (pm.msg, verdict) ∷ []; in_hand = none })
given-IsKept batch_size pm verdict r h e late no_ack = record {
  through = h.through ++ pm.msg ∷ [];
  received = h.received ∙ ap (λ o. h.through ++ held o) e ∙ sym (append-nil _);
  kept =
      subst (λ ys. Interleaved (queued r) ys (h.through ++ pm.msg ∷ []))
        (sym (map-append _ r.given_up ((pm.msg, verdict) ∷ [])))
        (Interleaved-snoc_right pm.msg h.kept);
  counted = h.counted;
  bounded = h.bounded;
  given_late = inr late;
  never_acked = All-append IsNoAck r.given_up ((pm.msg, verdict) ∷ []) h.never_acked (no_ack, tt);
  ended_late = h.ended_late;
}

-- The loop goes on: what it takes from the channel is settled or buffered.
pub looped-IsKept :
    (batch_size : ℕ) (rest : List PendingMsg) (s : FlushState) (ended : Bool) (r : ConsumerRun)
    → IsKept batch_size r
    → handled s ++ msgs rest ≡ queued r
    → length rest ≤ length r.pending
    → ((ended ≡ false) ⊎ ((r.cancelled ≡ true) × (s.buf ≡ [])))
    → IsKept batch_size (record r { pending = rest; flushing = s; loop_ended = ended })
looped-IsKept batch_size rest s ended r h same shorter late = record {
  through = h.through;
  received = h.received;
  kept = subst (λ xs. Interleaved xs (refused r) h.through) (sym same) h.kept;
  counted = h.counted;
  bounded = omega (arith, h.bounded, shorter);
  given_late = h.given_late;
  never_acked = h.never_acked;
  ended_late = late;
}
