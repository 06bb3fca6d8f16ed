-- ===== src/Model.antt =====
-- internal/domain/model/model.go: the data that the components exchange. A Go string is `Bytes`,
-- an `int64` an integer in its range, a `time.Time` the integer count of nanoseconds since the
-- epoch, and a `time.Duration` a count of nanoseconds in the range of `int64`.
pub mod Blob
use notip_data_consumer.Prelude.{Bool, Option, none, some}
use notip_data_consumer.Prelude.Bytes.{Bytes, lit}
use notip_data_consumer.Prelude.Int.{ℤ, pos, ltb_ℤ, int64, ◌+ℤ◌, ◌*ℤ◌}
use notip_data_consumer.Prelude.Outcome.{Result, ok, err}
use notip_data_consumer.Json.{marshal_string}
use notip_data_consumer.Json.Read.{JsonError, unmarshal_string}

abbrev pub Time : Type 0
Time = ℤ

abbrev pub Duration : Type 0
Duration = ℤ

-- `t.Before(u)`
abbrev pub before : Time → Time → Bool
before = ltb_ℤ

-- `t.Add(d)`
abbrev pub add_duration : Time → Duration → Time
add_duration t d = t +ℤ d

-- `time.Duration(ms) * time.Millisecond`, a product of two `int64`
unfoldable pub milliseconds : ℤ → Duration
milliseconds ms = int64 (ms *ℤ pos 1000000)

-- `time.Duration(s) * time.Second`
unfoldable pub seconds : ℤ → Duration
seconds s = int64 (s *ℤ pos 1000000000)

pub record OpaqueBlob : Type 0 where
  pub value : Bytes

abbrev pub store_blob : OpaqueBlob → Result JsonError Bytes → OpaqueBlob × Option JsonError
store_blob o (err e) = (o, some e)
store_blob o (ok s) = (record { value = s }, none)

-- `OpaqueBlob.UnmarshalJSON`, with its error: a content that is no string leaves the value as it is.
unfoldable pub unmarshal_blob : Bytes → OpaqueBlob → OpaqueBlob × Option JsonError
unmarshal_blob content o = store_blob o (unmarshal_string content)

-- `OpaqueBlob.MarshalJSON`
unfoldable pub marshal_blob : OpaqueBlob → Bytes
marshal_blob o = marshal_string o.value

-- The program never looks at the value of a sensor type.
abbrev pub SensorType : Type 0
SensorType = Bytes

pub record TelemetryEnvelope : Type 0 where
  pub gateway_id : Bytes
  pub sensor_id : Bytes
  pub sensor_type : SensorType
  pub timestamp : Time
  pub key_version : ℤ
  pub encrypted_data : OpaqueBlob
  pub iv : OpaqueBlob
  pub auth_tag : OpaqueBlob

pub record TelemetryRow : Type 0 where
  pub time : Time
  pub tenant_id : Bytes
  pub gateway_id : Bytes
  pub sensor_id : Bytes
  pub sensor_type : Bytes
  pub encrypted_data : OpaqueBlob
  pub iv : OpaqueBlob
  pub auth_tag : OpaqueBlob
  pub key_version : ℤ

pub record AlertPayload : Type 0 where
  pub gateway_id : Bytes
  pub last_seen : Time
  pub timeout_ms : ℤ
  pub timestamp : Time

-- A nil `GatewayID` is `none`: the entry is the tenant's.
pub record AlertConfig : Type 0 where
  pub tenant_id : Bytes
  pub gateway_id : Option Bytes
  pub timeout_ms : ℤ

-- The program makes no other value of this string type.
pub data GatewayStatus : Type 0 where
  offline online : GatewayStatus

pub record GatewayStatusUpdate : Type 0 where
  pub gateway_id : Bytes
  pub status : GatewayStatus
  pub last_seen_at : Time

pub record GatewayStatusUpdateResponse : Type 0 where
  pub success : Bool
  pub error : Bytes

-- A string type whose values come from outside, so any string.
abbrev pub GatewayLifecycleState : Type 0
GatewayLifecycleState = Bytes

abbrev pub lifecycle_online : GatewayLifecycleState
lifecycle_online = lit "online"

abbrev pub lifecycle_offline : GatewayLifecycleState
lifecycle_offline = lit "offline"

abbrev pub lifecycle_paused : GatewayLifecycleState
lifecycle_paused = lit "paused"

abbrev pub lifecycle_provisioning : GatewayLifecycleState
lifecycle_provisioning = lit "provisioning"

abbrev pub lifecycle_unknown : GatewayLifecycleState
lifecycle_unknown = lit "unknown"

pub record GatewayLifecycleRequest : Type 0 where
  pub gateway_id : Bytes
  pub tenant_id : Bytes

pub record GatewayLifecycleResponse : Type 0 where
  pub gateway_id : Bytes
  pub state : GatewayLifecycleState
