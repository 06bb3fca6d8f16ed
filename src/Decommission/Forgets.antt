-- ===== src/Decommission/Forgets.antt =====
-- What a decommission message does to the tracker.
use notip_data_consumer.Prelude.{
  ◌≡◌, ◌⊎◌, inl, inr, refl, none, if◌then◌else◌, ◌==◌, arith, Option-cases,
}
use notip_data_consumer.Prelude.Bytes.{Bytes}
use notip_data_consumer.Prelude.GoMap.{lookup, lookup-delete}
use notip_data_consumer.Subject.{extract_ids}
use notip_data_consumer.Subject.Split.{HasParts, extract_ids_iff}
use notip_data_consumer.Tracker.{GatewayKey, key_eq, Tracker, handle_decommission}
use notip_data_consumer.TelemetryConsumer.{Ack, ack, term}
use notip_data_consumer.Decommission.{handle_ids, handle_msg}

-- The message names a gateway: the gateway is forgotten, and no other.
pub record Forgotten (subject : Bytes) (t : Tracker) (end : Tracker × Ack) : Type 0 where
  pub first : Bytes
  pub second : Bytes
  pub key : GatewayKey
  pub named : HasParts subject first second key.tenant_id key.gateway_id
  pub acknowledged : end.1 ≡ ack
  pub entries :
      (j : GatewayKey) → lookup j end.0.beats ≡ (if key == j then none else lookup j t.beats)
  pub nothing_sent : end.0.dispatcher ≡ t.dispatcher

-- The message names none: it is terminated.
pub record Rejected (subject : Bytes) (t : Tracker) (end : Tracker × Ack) : Type 0 where
  pub nameless : (a b tenant_id gateway_id : Bytes) → ¬ HasParts subject a b tenant_id gateway_id
  pub terminated : end.1 ≡ term
  pub untouched : end.0 ≡ t

-- A decommission message whose subject has four parts between dots is acknowledged, and the tracker
-- forgets the gateway named by the last two of them and no other, with no update for the management
-- API; any other message is terminated and changes nothing.
pub handle_msg-Forgets :
    (subject : Bytes) (t : Tracker)
    → Forgotten subject t (handle_msg subject t) ⊎ Rejected subject t (handle_msg subject t)
unfolding handle_msg handle_ids handle_decommission
handle_msg-Forgets subject t = elim (Option-cases (extract_ids subject)) [
  | inl nameless ↦ inr (
      rw nameless (record {
        nameless = λ a b tenant_id gateway_id parts.
            ground
              (arith, nameless, (extract_ids_iff subject tenant_id gateway_id).1 (a, b, parts));
        terminated = refl;
        untouched = refl;
      }))
  | inr ((tenant_id, gateway_id), named) ↦
      let (a, b, parts) = (extract_ids_iff subject tenant_id gateway_id).0 named in
      inl (
        rw named (record {
          first = a;
          second = b;
          key = record { tenant_id = tenant_id; gateway_id = gateway_id };
          named = parts;
          acknowledged = refl;
          entries = λ j.
              lookup-delete (record { tenant_id = tenant_id; gateway_id = gateway_id }) j t.beats;
          nothing_sent = refl;
        }))
]
