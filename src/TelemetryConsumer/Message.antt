-- ===== src/TelemetryConsumer/Message.antt =====
-- What `processMessage` of internal/adapter/driving/nats_telemetry_consumer.go makes of a message,
-- down to the arguments of the statement that stores it.
use notip_data_consumer.Prelude.{◌≡◌, refl, Option, none, some, arith}
use notip_data_consumer.Prelude.Bytes.{Bytes}
use notip_data_consumer.Prelude.Outcome.{Outcome, returns, panics, Result, ok, err}
use notip_data_consumer.Model.{TelemetryEnvelope, TelemetryRow}
use notip_data_consumer.Subject.{extract_tenant_id}
use notip_data_consumer.Subject.Split.{HasParts, extract_tenant_id_iff}
use notip_data_consumer.Adapters.{InsertArgs, insert_args}
use notip_data_consumer.TelemetryConsumer.{
  ProcessError, permanent, handler_failed, build_row, handled, decoded, addressed, process_message,
}

-- What is stored of an envelope: its fields as they came, and the tenant of the subject.
abbrev pub stored : Bytes → TelemetryEnvelope → InsertArgs
stored tenant_id env = record {
  time = env.timestamp;
  tenant_id = tenant_id;
  gateway_id = env.gateway_id;
  sensor_id = env.sensor_id;
  sensor_type = env.sensor_type;
  encrypted_data = env.encrypted_data.value;
  iv = env.iv.value;
  auth_tag = env.auth_tag.value;
  key_version = env.key_version;
}

-- The tenant in the subject of a message.
abbrev pub IsFor : Bytes → Bytes → Type 0
IsFor subject tenant_id = (a b g : Bytes) × HasParts subject a b tenant_id g

module _ {S : Type 0} (handler : Bytes → TelemetryEnvelope → S → Outcome (S × Option Bytes))
    (unmarshal : Bytes → Result Bytes TelemetryEnvelope) where
  -- How the message may end: `s` is the state of the handler before.
  pub data Processed (subject content : Bytes) (s : S)
      : Outcome (S × Result ProcessError TelemetryRow) → Type 0 where
    bad_subject :
        ((tenant_id : Bytes) → ¬ IsFor subject tenant_id)
        → Processed subject content s (returns (s, err (permanent subject)))
    bad_content :
        (tenant_id e : Bytes)
        → IsFor subject tenant_id
        → unmarshal content ≡ err e
        → Processed subject content s (returns (s, err (permanent e)))
    broke :
        (tenant_id : Bytes) (env : TelemetryEnvelope)
        → IsFor subject tenant_id
        → unmarshal content ≡ ok env
        → handler tenant_id env s ≡ panics
        → Processed subject content s panics
    refused :
        (tenant_id : Bytes) (env : TelemetryEnvelope) (e : Bytes) (s' : S)
        → IsFor subject tenant_id
        → unmarshal content ≡ ok env
        → handler tenant_id env s ≡ returns (s', some e)
        → Processed subject content s (returns (s', err (handler_failed e)))
    accepted :
        (tenant_id : Bytes) (env : TelemetryEnvelope) (s' : S) (row : TelemetryRow)
        → IsFor subject tenant_id
        → unmarshal content ≡ ok env
        → handler tenant_id env s ≡ returns (s', none)
        → insert_args row ≡ stored tenant_id env
        → Processed subject content s (returns (s', ok row))

  handled-Processed :
      (subject content tenant_id : Bytes) (env : TelemetryEnvelope) (s : S)
      (end : Outcome (S × Option Bytes))
      → IsFor subject tenant_id
      → unmarshal content ≡ ok env
      → handler tenant_id env s ≡ end
      → Processed subject content s (handled handler tenant_id env end)
  unfolding handled build_row insert_args
  handled-Processed subject content tenant_id env s (returns (s', none)) for there called =
      accepted tenant_id env s' _ for there called refl
  handled-Processed subject content tenant_id env s (returns (s', some e)) for there called =
      refused tenant_id env e s' for there called
  handled-Processed subject content tenant_id env s panics for there called =
      broke tenant_id env for there called

  decoded-Processed :
      (subject content tenant_id : Bytes) (d : Result Bytes TelemetryEnvelope) (s : S)
      → IsFor subject tenant_id
      → unmarshal content ≡ d
      → Processed subject content s (decoded handler tenant_id d s)
  unfolding decoded
  decoded-Processed subject content tenant_id (err e) s for there =
      bad_content tenant_id e for there
  decoded-Processed subject content tenant_id (ok env) s for there =
      handled-Processed subject content tenant_id env s _ for there refl

  addressed-Processed :
      (subject content : Bytes) (o : Option Bytes) (s : S)
      → extract_tenant_id subject ≡ o
      → Processed subject content s (addressed handler unmarshal subject o content s)
  unfolding addressed
  addressed-Processed subject content none s nameless =
      bad_subject
        λ tenant_id for. ground (arith, nameless, (extract_tenant_id_iff subject tenant_id).1 for)
  addressed-Processed subject content (some tenant_id) s named =
      decoded-Processed subject content tenant_id (unmarshal content) s
        ((extract_tenant_id_iff subject tenant_id).0 named) refl

  -- `processMessage` calls the handler exactly if the subject has four parts between dots and the
  -- content decodes; if the handler takes the envelope, the row stores each of its fields as it
  -- came, the three opaque ones included, with the third part of the subject as the tenant; the
  -- error is permanent without a call of the handler, and transient if it is the handler's.
  pub process_message-Processed :
      (subject content : Bytes) (s : S)
      → Processed subject content s (process_message handler unmarshal subject content s)
  unfolding process_message
  process_message-Processed subject content s =
      addressed-Processed subject content (extract_tenant_id subject) s refl
