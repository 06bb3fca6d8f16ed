-- ===== src/RrClient/Lifecycle.antt =====
-- What the three calls of the client make of a reply.
use notip_data_consumer.Prelude.{
  ◌≡◌, ◌≢◌, ◌↔◌, ◌⊎◌, refl, subst, inl, inr, none, [], arith, Option-cases,
}
use notip_data_consumer.Prelude.Bytes.{Bytes, bytes_eq, bytes_eqb_iff, lit}
use notip_data_consumer.Prelude.Outcome.{Outcome, returns, panics, Result, ok, err}
use notip_data_consumer.Model.{
  GatewayLifecycleState, GatewayLifecycleResponse, lifecycle_online, lifecycle_offline,
  lifecycle_paused, lifecycle_provisioning,
}
use notip_data_consumer.RrClient.{
  RrError, undecodable, NatsRrClient, Network, Json, Exchange, with_reply, ◌>>=◌, or_fail,
  validate_gateway_lifecycle_response, checked_state, send_lifecycle_request, get_gateway_lifecycle,
  request_with_retry, subject_gateway_get_status,
}

-- The states that the management API may name.
abbrev pub IsLifecycleState : GatewayLifecycleState → Type 0
IsLifecycleState s =
    ((s ≡ lifecycle_online) ⊎ (s ≡ lifecycle_offline))
    ⊎ ((s ≡ lifecycle_paused) ⊎ (s ≡ lifecycle_provisioning))

-- A response is accepted exactly if it names a gateway, the expected one if one is expected, and
-- one of the four states.
pub validate_iff :
    (r : GatewayLifecycleResponse) (expected : Bytes)
    → (validate_gateway_lifecycle_response r expected ≡ none) ↔ (
        (r.gateway_id ≢ [])
        × ((expected ≡ []) ⊎ (r.gateway_id ≡ expected))
        × IsLifecycleState r.state)
unfolding validate_gateway_lifecycle_response
validate_iff r expected = ground (
  arith,
  bytes_eqb_iff r.gateway_id [],
  bytes_eqb_iff expected [],
  bytes_eqb_iff r.gateway_id expected,
  bytes_eqb_iff r.state lifecycle_online,
  bytes_eqb_iff r.state lifecycle_offline,
  bytes_eqb_iff r.state lifecycle_paused,
  bytes_eqb_iff r.state lifecycle_provisioning,
)

-- A call that succeeds has had a reply.
with_reply-ok :
    {A : Type 0} (o : Outcome Exchange) (f : Bytes → Result RrError A) (a : A)
    → with_reply o f ≡ returns (ok a)
    → (x : Exchange) × (msg : Bytes) × (o ≡ returns x) × (x.result ≡ ok msg) × (f msg ≡ ok a)
unfolding with_reply
with_reply-ok panics f a h = cc
with_reply-ok {A} (returns x) f a h = go x.result refl (cc h)
  where
    go :
        (r : Result RrError Bytes)
        → x.result ≡ r
        → (x.result >>= f) ≡ ok a
        → (y : Exchange) × (msg : Bytes) × (◌≡◌ {A = Outcome Exchange} (returns x) (returns y))
          × (y.result ≡ ok msg)
          × (f msg ≡ ok a)
    go (ok msg) e k = (x, msg, refl, e, rw e at k)
    go (err y) e k = absurd (ground arith)

or_fail-ok :
    {A : Type 0} (make : Bytes → RrError) (r : Result Bytes A) (a : A)
    → or_fail make r ≡ ok a
    → r ≡ ok a
or_fail-ok make (ok b) a h = cc
or_fail-ok make (err e) a h = cc

checked_state-ok :
    (r : GatewayLifecycleResponse) (expected : Bytes) (s : GatewayLifecycleState)
    → checked_state (validate_gateway_lifecycle_response r expected) r ≡ ok s
    → (r.state ≡ s) × (validate_gateway_lifecycle_response r expected ≡ none)
unfolding checked_state
checked_state-ok r expected s h =
    elim (Option-cases (validate_gateway_lifecycle_response r expected)) [
      | inl fine ↦ (ground arith, fine)
      | inr (e, bad) ↦ absurd (ground arith)
    ]

-- What stands behind a lifecycle state that `GetGatewayLifecycle` returned.
pub record Confirmed (json : Json) (c : NatsRrClient) (net : Network) (tenant_id gateway_id : Bytes)
    (s : GatewayLifecycleState) : Type 0 where
  pub body : Bytes
  pub encoded :
      json.encode_request (record { gateway_id = gateway_id; tenant_id = tenant_id }) ≡ ok body
  pub exchange : Exchange
  pub msg : Bytes
  pub response : GatewayLifecycleResponse
  pub asked :
      request_with_retry c net (lit "internal.mgmt.gateway.get-status") body ≡ returns exchange
  pub answered : exchange.result ≡ ok msg
  pub decoded : json.decode_lifecycle msg ≡ ok response
  pub named : response.state ≡ s
  pub same_gateway : (gateway_id ≡ []) ⊎ (response.gateway_id ≡ gateway_id)
  pub known : IsLifecycleState s

respond_ok :
    (json : Json) (gateway_id msg : Bytes) (s : GatewayLifecycleState)
    → (or_fail undecodable (json.decode_lifecycle msg) >>= λ r.
        checked_state (validate_gateway_lifecycle_response r gateway_id) r)
      ≡ ok s
    → (r : GatewayLifecycleResponse) × (json.decode_lifecycle msg ≡ ok r)
      × (checked_state (validate_gateway_lifecycle_response r gateway_id) r ≡ ok s)
respond_ok json gateway_id msg s h = go (json.decode_lifecycle msg) refl h
  where
    go :
        (d : Result Bytes GatewayLifecycleResponse)
        → json.decode_lifecycle msg ≡ d
        → (or_fail undecodable d >>= λ r.
            checked_state (validate_gateway_lifecycle_response r gateway_id) r)
          ≡ ok s
        → (r : GatewayLifecycleResponse) × (json.decode_lifecycle msg ≡ ok r)
          × (checked_state (validate_gateway_lifecycle_response r gateway_id) r ≡ ok s)
    go (ok r) e k = (r, e, k)
    go (err x) e k = cc

sent-Confirmed :
    (json : Json) (body : Result Bytes Bytes) (tenant_id gateway_id : Bytes) (c : NatsRrClient)
    (net : Network) (s : GatewayLifecycleState)
    → json.encode_request (record { gateway_id = gateway_id; tenant_id = tenant_id }) ≡ body
    → send_lifecycle_request json body gateway_id c net ≡ returns (ok s)
    → Confirmed json c net tenant_id gateway_id s
unfolding send_lifecycle_request
sent-Confirmed json (err x) tenant_id gateway_id c net s encoded h = cc
sent-Confirmed json (ok body) tenant_id gateway_id c net s encoded h =
    let (x, msg, asked, answered, used) =
      with_reply-ok (request_with_retry c net subject_gateway_get_status body) _ s h in
    let (r, decoded, checked) = respond_ok json gateway_id msg s used in
    let (named, fine) = checked_state-ok r gateway_id s checked in
    let valid = (validate_iff r gateway_id).0 fine in
    record {
      body = body;
      encoded = encoded;
      exchange = x;
      msg = msg;
      response = r;
      asked = asked;
      answered = answered;
      decoded = decoded;
      named = named;
      same_gateway = valid.1;
      known = subst IsLifecycleState named valid.2;
    }

-- A lifecycle state that `GetGatewayLifecycle` returns without an error is online, offline, paused
-- or provisioning, never the local `unknown`; it is the state of a decoded reply to the request that
-- was made, under the subject `internal.mgmt.gateway.get-status` and with the encoding of the tenant
-- and the gateway as its body, and that reply names the gateway that was asked about, if one was.
pub get_gateway_lifecycle-Confirmed :
    (json : Json) (tenant_id gateway_id : Bytes) (c : NatsRrClient) (net : Network)
    (s : GatewayLifecycleState)
    → get_gateway_lifecycle json tenant_id gateway_id c net ≡ returns (ok s)
    → Confirmed json c net tenant_id gateway_id s
unfolding get_gateway_lifecycle
get_gateway_lifecycle-Confirmed json tenant_id gateway_id c net s h =
    sent-Confirmed json _ tenant_id gateway_id c net s refl h
