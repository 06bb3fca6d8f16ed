-- ===== src/RrClient.antt =====
-- internal/adapter/driven/nats_rr_client.go: requests to the management API with retries, and the
-- three calls that are built on them. A request is made by the NATS library: its replies are an
-- argument, as are the sleeps, which the end of the context cuts short. `encoding/json` stands
-- behind the record `Json`.
pub mod Delays
pub mod Retry
pub mod Lifecycle
use notip_data_consumer.Prelude.{
  ℕ, zero, suc, ◌+◌, ◌-◌, ◌*◌, Bool, true, false, not, ◌&&◌, ◌||◌, Option, none, some, List, [],
  ◌∷◌, ◌++◌, length, get_elem?, leb, if◌then◌else◌, ◌==◌,
}
use Prim.Native.Nat.{min}
use notip_data_consumer.Prelude.Bytes.{Bytes, bytes_eq, lit}
use notip_data_consumer.Prelude.Int.{ℤ, pos}
use notip_data_consumer.Prelude.Outcome.{Outcome, returns, panics, Result, ok, err}
use notip_data_consumer.Model.{
  Duration, AlertConfig, GatewayStatusUpdate, GatewayStatusUpdateResponse, GatewayLifecycleState,
  GatewayLifecycleRequest, GatewayLifecycleResponse, lifecycle_online, lifecycle_offline,
  lifecycle_paused, lifecycle_provisioning,
}

-- The errors of this file, by the `fmt.Errorf` that makes them; a wrapped error is an argument.
pub data RrError : Type 0 where
  exhausted : ℕ → List Bytes → RrError
  interrupted : Bytes → RrError
  undecodable rejected unencodable : Bytes → RrError
  missing_gateway_id : RrError
  other_gateway : Bytes → Bytes → RrError
  invalid_state : Bytes → RrError

pub record NatsRrClient : Type 0 where
  pub max_retries : ℕ
  pub backoff : List Duration

abbrev pub seconds : ℕ → Duration
seconds n = pos (n * 1000000000)

-- `NewNATSRRClient`
unfoldable pub new_nats_rr_client : NatsRrClient
new_nats_rr_client = record { max_retries = 3; backoff = seconds 1 ∷ seconds 2 ∷ seconds 4 ∷ [] }

-- What each attempt's request comes to, and each attempt's sleep: an error if it was cut short.
pub record Attempts : Type 0 where
  pub reply : ℕ → Result Bytes Bytes
  pub sleep : ℕ → Option Bytes

-- `RequestWithContext` for a subject and a body, at each attempt, and the sleeps.
pub record Network : Type 0 where
  pub request : Bytes → Bytes → ℕ → Result Bytes Bytes
  pub sleep : ℕ → Option Bytes

-- The attempts of a call with one subject and one body.
abbrev pub attempts_at : Network → Bytes → Bytes → Attempts
attempts_at net subject body = record { reply = net.request subject body; sleep = net.sleep }

-- The result of `requestWithRetry`, the number of its requests, and the delays that it slept.
pub record Exchange : Type 0 where
  pub result : Result RrError Bytes
  pub requests : ℕ
  pub delays : List Duration

-- `c.backoff[min(attempt, len(c.backoff)-1)]`, a panic if there is none
pub delay_of : List Duration → ℕ → Option Duration
delay_of backoff attempt = get_elem? backoff (min attempt (length backoff - 1))

abbrev pub map_outcome : (Exchange → Exchange) → Outcome Exchange → Outcome Exchange
map_outcome f (returns x) = returns (f x)
map_outcome f panics = panics

-- The exchange whose first attempt failed with the delay `d` after it.
abbrev pub after_attempt : Duration → Exchange → Exchange
after_attempt d x = record x { requests = x.requests + 1; delays = d ∷ x.delays }

last_attempt : Result Bytes Bytes → NatsRrClient → List Bytes → Exchange
last_attempt (ok msg) c errs = record { result = ok msg; requests = 1; delays = [] }
last_attempt (err e) c errs = record {
  result = err (exhausted c.max_retries (errs ++ e ∷ []));
  requests = 1;
  delays = [];
}

-- After a failure: the sleep, then the rest of the loop.
sleep_and_retry : Option Duration → Option Bytes → Outcome Exchange → Outcome Exchange
sleep_and_retry none _ rest = panics
sleep_and_retry (some d) (some stop) rest =
    returns (record { result = err (interrupted stop); requests = 1; delays = d ∷ [] })
sleep_and_retry (some d) none rest = map_outcome (after_attempt d) rest

-- The loop of `requestWithRetry`, with the number of retries left; `errs` are the errors so far.
pub retry_loop : ℕ → NatsRrClient → Attempts → ℕ → List Bytes → Outcome Exchange
unfolding delay_of last_attempt sleep_and_retry
retry_loop zero c net attempt errs = returns (last_attempt (net.reply attempt) c errs)
retry_loop (suc left) c net attempt errs =
    let rest = λ (e : Bytes). retry_loop left c net (attempt + 1) (errs ++ e ∷ []) in
    elim (net.reply attempt) [
      | ok msg ↦ returns (record { result = ok msg; requests = 1; delays = [] })
      | err e ↦ sleep_and_retry (delay_of c.backoff attempt) (net.sleep attempt) (rest e)
    ]

-- `requestWithRetry`
unfoldable pub request_with_retry : NatsRrClient → Network → Bytes → Bytes → Outcome Exchange
unfolding retry_loop
request_with_retry c net subject body =
    retry_loop c.max_retries c (attempts_at net subject body) 0 []

-- What the calls use of `encoding/json`, each with its error.
pub record Json : Type 0 where
  pub encode_update : GatewayStatusUpdate → Result Bytes Bytes
  pub encode_request : GatewayLifecycleRequest → Result Bytes Bytes
  pub decode_configs : Bytes → Result Bytes (List AlertConfig)
  pub decode_status : Bytes → Result Bytes GatewayStatusUpdateResponse
  pub decode_lifecycle : Bytes → Result Bytes GatewayLifecycleResponse

infixl 5 ◌>>=◌
abbrev pub ◌>>=◌ : {A B : Type 0} → Result RrError A → (A → Result RrError B) → Result RrError B
ok a >>= f = f a
err e >>= f = err e

abbrev pub or_fail : {A : Type 0} → (Bytes → RrError) → Result Bytes A → Result RrError A
or_fail make (ok a) = ok a
or_fail make (err e) = err (make e)

-- A request with its reply, as the three calls see it: what came before the request decides
-- whether it is made, and `use_reply` is what comes after it.
pub with_reply :
    {A : Type 0} → Outcome Exchange → (Bytes → Result RrError A) → Outcome (Result RrError A)
with_reply panics use_reply = panics
with_reply (returns x) use_reply = returns (do msg ← x.result; use_reply msg)

abbrev pub subject_alert_configs_list : Bytes
subject_alert_configs_list = lit "internal.mgmt.alert-configs.list"

abbrev pub subject_gateway_update_status : Bytes
subject_gateway_update_status = lit "internal.mgmt.gateway.update-status"

abbrev pub subject_gateway_get_status : Bytes
subject_gateway_get_status = lit "internal.mgmt.gateway.get-status"

-- `FetchAlertConfigs`, whose request has no body
unfoldable pub fetch_alert_configs :
    Json → NatsRrClient → Network → Outcome (Result RrError (List AlertConfig))
unfolding with_reply request_with_retry
fetch_alert_configs json c net =
    with_reply (request_with_retry c net subject_alert_configs_list [])
      (λ msg. or_fail undecodable (json.decode_configs msg))

pub check_success : GatewayStatusUpdateResponse → Result RrError (Unit {0})
check_success response = if response.success then ok tt else err (rejected response.error)

pub send_update :
    Json → Result Bytes Bytes → NatsRrClient → Network → Outcome (Result RrError (Unit {0}))
unfolding with_reply request_with_retry check_success
send_update json (err e) c net = returns (err (unencodable e))
send_update json (ok body) c net =
    with_reply (request_with_retry c net subject_gateway_update_status body)
      λ msg. do response ← or_fail undecodable (json.decode_status msg); check_success response

-- `UpdateGatewayStatus`
unfoldable pub update_gateway_status :
    Json → GatewayStatusUpdate → NatsRrClient → Network → Outcome (Result RrError (Unit {0}))
unfolding send_update
update_gateway_status json update c net = send_update json (json.encode_update update) c net

abbrev is_valid_state : GatewayLifecycleState → Bool
is_valid_state s =
    s == lifecycle_online
    || (s == lifecycle_offline || (s == lifecycle_paused || s == lifecycle_provisioning))

-- `validateGatewayLifecycleResponse`; nil is `none`
unfoldable pub validate_gateway_lifecycle_response :
    GatewayLifecycleResponse → Bytes → Option RrError
validate_gateway_lifecycle_response result expected =
    if result.gateway_id == []
    then some missing_gateway_id
    else if not (expected == []) && not (result.gateway_id == expected)
    then some (other_gateway expected result.gateway_id)
    else if is_valid_state result.state
    then none
    else some (invalid_state result.state)

pub checked_state : Option RrError → GatewayLifecycleResponse → Result RrError GatewayLifecycleState
checked_state none result = ok result.state
checked_state (some e) result = err e

pub send_lifecycle_request :
    Json
    → Result Bytes Bytes
    → Bytes
    → NatsRrClient
    → Network
    → Outcome (Result RrError GatewayLifecycleState)
unfolding with_reply request_with_retry checked_state validate_gateway_lifecycle_response
send_lifecycle_request json (err e) gateway_id c net = returns (err (unencodable e))
send_lifecycle_request json (ok body) gateway_id c net =
    with_reply (request_with_retry c net subject_gateway_get_status body) λ msg. do
      result ← or_fail undecodable (json.decode_lifecycle msg)
      checked_state (validate_gateway_lifecycle_response result gateway_id) result

-- `GetGatewayLifecycle`; beside an error the code returns the state `unknown`
unfoldable pub get_gateway_lifecycle :
    Json → Bytes → Bytes → NatsRrClient → Network → Outcome (Result RrError GatewayLifecycleState)
unfolding send_lifecycle_request
get_gateway_lifecycle json tenant_id gateway_id c net =
    send_lifecycle_request json
      (json.encode_request (record { gateway_id = gateway_id; tenant_id = tenant_id })) gateway_id c
      net
