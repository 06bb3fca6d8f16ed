-- ===== src/Adapters/Alerts.antt =====
-- The subject under which internal/adapter/driven/nats_alert_publisher.go publishes and what it counts.
use notip_data_consumer.Prelude.{◌+◌, ◌≡◌, refl, ◌∙◌, ap, Option, none, some, [], ◌∷◌, ◌++◌, arith}
use notip_data_consumer.Prelude.Bytes.{Bytes, bytes_eq, lit, Lacks}
use notip_data_consumer.Prelude.Outcome.{Result, ok, err}
use notip_data_consumer.Model.{AlertPayload}
use notip_data_consumer.Subject.{dot, split}
use notip_data_consumer.Subject.Split.{split-plain, split_last}
use notip_data_consumer.Adapters.{
  AdapterMetrics, PublishError, unencodable, unpublished, alert_subject, publish_end, publish_alert,
}

-- What `Publish` has done when it ends.
pub data Published (encode : AlertPayload → Result Bytes Bytes)
    (publish : Bytes → Bytes → Option Bytes) (tenant_id : Bytes) (payload : AlertPayload)
    (m : AdapterMetrics) : Option PublishError × AdapterMetrics → Type 0 where
  sent :
      (subject content : Bytes)
      → encode payload ≡ ok content
      → split dot subject ≡ lit "alert" ∷ tenant_id ∷ lit "gw_offline" ∷ []
      → publish subject content ≡ none
      → Published encode publish tenant_id payload m
          (none, record m { alerts_published = m.alerts_published + 1 })
  refused :
      (subject content e : Bytes)
      → encode payload ≡ ok content
      → split dot subject ≡ lit "alert" ∷ tenant_id ∷ lit "gw_offline" ∷ []
      → publish subject content ≡ some e
      → Published encode publish tenant_id payload m (
        some (unpublished subject e),
        record m { alert_publish_errors = m.alert_publish_errors + 1 },
      )
  not_encoded :
      (e : Bytes)
      → encode payload ≡ err e
      → Published encode publish tenant_id payload m (some (unencodable e), m)

alert_subject-parts :
    (tenant_id : Bytes)
    → Lacks dot tenant_id
    → split dot (alert_subject tenant_id) ≡ lit "alert" ∷ tenant_id ∷ lit "gw_offline" ∷ []
unfolding alert_subject
alert_subject-parts tenant_id plain =
    split-plain dot (lit "alert") (tenant_id ++ lit ".gw_offline") (ground arith)
    ∙ ap (◌∷◌ (lit "alert")) (
        split-plain dot tenant_id (lit "gw_offline") plain
        ∙ ap (◌∷◌ tenant_id) (split_last dot (lit "gw_offline") (ground arith)))

-- `Publish` for a tenant whose identifier holds no dot publishes the encoded payload once, under a
-- subject of the three parts `alert`, the tenant and `gw_offline`, in this order, and counts one
-- alert or, with the error of JetStream, one publish error; a payload that cannot be encoded gives an
-- error and counts as neither.
pub publish_alert-Published :
    (encode : AlertPayload → Result Bytes Bytes) (publish : Bytes → Bytes → Option Bytes)
    (tenant_id : Bytes) (payload : AlertPayload) (m : AdapterMetrics)
    → Lacks dot tenant_id
    → Published encode publish tenant_id payload m
        (publish_alert encode publish tenant_id payload m)
unfolding publish_alert publish_end
publish_alert-Published encode publish tenant_id payload m plain = encoded (encode payload) refl
  where
    at_end :
        (content : Bytes) (end : Option Bytes)
        → encode payload ≡ ok content
        → publish (alert_subject tenant_id) content ≡ end
        → Published encode publish tenant_id payload m (publish_end (alert_subject tenant_id) end m)
    at_end content none there done =
        sent (alert_subject tenant_id) content there (alert_subject-parts tenant_id plain) done
    at_end content (some e) there failed =
        refused (alert_subject tenant_id) content e there (alert_subject-parts tenant_id plain)
          failed

    encoded :
        (r : Result Bytes Bytes)
        → encode payload ≡ r
        → Published encode publish tenant_id payload m (elim r [
          | err e ↦ (some (unencodable e), m)
          | ok content ↦
              publish_end (alert_subject tenant_id) (publish (alert_subject tenant_id) content) m
        ])
    encoded (err e) there = not_encoded e there
    encoded (ok content) there =
        at_end content (publish (alert_subject tenant_id) content) there refl
