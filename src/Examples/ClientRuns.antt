-- ===== src/Examples/ClientRuns.antt =====
-- A request about a gateway that is answered at the second attempt.
use notip_data_consumer.Prelude.{◌≡◌, refl, none, [], if◌then◌else◌, eqb, arith}
use notip_data_consumer.Prelude.Bytes.{Bytes, lit, bytes_eqb}
use notip_data_consumer.Prelude.Outcome.{returns, ok, err}
use notip_data_consumer.Model.{GatewayLifecycleResponse, lifecycle_paused}
use notip_data_consumer.RrClient.{
  new_nats_rr_client, Network, attempts_at, Exchange, Json, request_with_retry,
  get_gateway_lifecycle,
}
use notip_data_consumer.RrClient.Delays.{planned}
use notip_data_consumer.RrClient.Retry.{Kept, request_with_retry-Kept, request_with_retry_reaches}
use notip_data_consumer.RrClient.Lifecycle.{Confirmed, get_gateway_lifecycle-Confirmed}

-- A subject and a body of a request.
abbrev subject : Bytes
subject = lit "internal.mgmt.gateway.get-status"

abbrev body : Bytes
body = lit "{}"

abbrev pub network : Network
network = record {
  request =
      λ subject body attempt. if eqb attempt 0 then err (lit "no responders") else ok (lit "{}");
  sleep = λ attempt. none;
}

request_with_retry-Kept_example :
    (x : Exchange) × (request_with_retry new_nats_rr_client network subject body ≡ returns x)
    × Kept new_nats_rr_client (attempts_at network subject body) [] 3 0 x
unfolding new_nats_rr_client
request_with_retry-Kept_example =
    request_with_retry-Kept new_nats_rr_client network subject body (omega arith)

request_with_retry_reaches_example :
    request_with_retry new_nats_rr_client network subject body
    ≡ returns (record {
      result = ok (lit "{}");
      requests = 2;
      delays = planned 1 new_nats_rr_client.backoff 0;
    })
unfolding new_nats_rr_client
request_with_retry_reaches_example =
    request_with_retry_reaches new_nats_rr_client network subject body (lit "{}") 1 (omega arith)
      (omega arith) ((lit "no responders", refl), refl, tt) refl

abbrev response : GatewayLifecycleResponse
response = record { gateway_id = lit "g1"; state = lifecycle_paused }

-- A codec of which only the decoding of a lifecycle response matters here.
abbrev pub json : Json
json = record {
  encode_update = λ update. ok [];
  encode_request = λ request. ok [];
  decode_configs = λ msg. ok [];
  decode_status = λ msg. err [];
  decode_lifecycle = λ msg. ok response;
}

pub paused_reply :
    get_gateway_lifecycle json (lit "t1") (lit "g1") new_nats_rr_client network
    ≡ returns (ok lifecycle_paused)
unfolding get_gateway_lifecycle new_nats_rr_client bytes_eqb
paused_reply = refl

get_gateway_lifecycle-Confirmed_example :
    Confirmed json new_nats_rr_client network (lit "t1") (lit "g1") lifecycle_paused
get_gateway_lifecycle-Confirmed_example =
    get_gateway_lifecycle-Confirmed json (lit "t1") (lit "g1") new_nats_rr_client network
      lifecycle_paused paused_reply
