-- ===== src/Adapters/Gate.antt =====
-- The gate of `Tick` in internal/service/heartbeat_tracker.go as cmd/consumer/main.go wires it: the
-- lifecycle provider in front of the client of the management API.
use notip_data_consumer.Prelude.{◌≡◌, ap, sym, ◌∙◌, Option, none, some, arith}
use notip_data_consumer.Prelude.Bytes.{Bytes, bytes_eq}
use notip_data_consumer.Prelude.Outcome.{returns, Result, ok, err}
use notip_data_consumer.Model.{Time, GatewayLifecycleState, lifecycle_paused}
use notip_data_consumer.RrClient.{Json, NatsRrClient, Network, RrError, get_gateway_lifecycle}
use notip_data_consumer.RrClient.Lifecycle.{Confirmed, get_gateway_lifecycle-Confirmed}
use notip_data_consumer.Tracker.{HeartbeatEntry, Ports, paused, examine}
use notip_data_consumer.Tracker.Body.{paused_by_port}
use notip_data_consumer.Adapters.{AdapterMetrics, provide_lifecycle}

-- The port that `Tick` calls, of the two values that the provider returns; a caller reads the state
-- only beside a nil error. `text` is the text of an error.
abbrev pub as_port :
    (RrError → Bytes) → GatewayLifecycleState × Option RrError → Result Bytes GatewayLifecycleState
as_port text (state, none) = ok state
as_port text (state, some e) = err (text e)

provided_ok :
    (text : RrError → Bytes) (r : Result RrError GatewayLifecycleState) (m : AdapterMetrics)
    (s : GatewayLifecycleState)
    → as_port text (provide_lifecycle r m).0 ≡ ok s
    → r ≡ ok s
unfolding provide_lifecycle
provided_ok text (ok state) m s h = ground arith
provided_ok text (err e) m s h = cc

-- With the provider and the client behind its port, `Tick` passes a gateway over as paused only if
-- the management API answered the request for that gateway, if its identifier is not empty, with the
-- state `paused`: an error, a reply about another gateway or one with another state never silences an
-- alert.
pub paused-Confirmed :
    (json : Json) (c : NatsRrClient) (net : Network) (text : RrError → Bytes) (m : AdapterMetrics)
    (ports : Ports) (now : Time) (e : HeartbeatEntry) (r : Result RrError GatewayLifecycleState)
    → get_gateway_lifecycle json e.tenant_id e.gateway_id c net ≡ returns r
    → ports.lifecycle e.tenant_id e.gateway_id ≡ as_port text (provide_lifecycle r m).0
    → (examine ports now e).0 ≡ paused
    → Confirmed json c net e.tenant_id e.gateway_id lifecycle_paused
paused-Confirmed json c net text m ports now e r asked wired skipped =
    let found =
      provided_ok text r m lifecycle_paused (sym wired ∙ paused_by_port ports now e skipped) in
    get_gateway_lifecycle-Confirmed json e.tenant_id e.gateway_id c net lifecycle_paused
      (asked ∙ ap returns found)
