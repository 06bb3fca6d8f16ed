-- ===== src/Subject.antt =====
-- The subjects of NATS messages: `strings.Split(subject, ".")`, and the parsers of
-- internal/adapter/driving/nats_telemetry_consumer.go and nats_decommission_consumer.go.
pub mod Split
use notip_data_consumer.Prelude.{ℕ, Option, none, some, List, [], ◌∷◌, ◌++◌, eqb, if◌then◌else◌}
use notip_data_consumer.Prelude.Bytes.{Bytes}

abbrev pub dot : ℕ
dot = b'.'

abbrev pub extend_head : ℕ → List Bytes → List Bytes
extend_head c [] = (c ∷ []) ∷ []
extend_head c (part ∷ parts) = (c ∷ part) ∷ parts

-- `strings.Split` at a separator of one byte
unfoldable pub split : ℕ → Bytes → List Bytes
split sep [] = [] ∷ []
split sep (c ∷ s) = let parts = split sep s in if eqb c sep then [] ∷ parts else extend_head c parts

third_of_four : List Bytes → Option Bytes
third_of_four (_ ∷ _ ∷ tenant_id ∷ _ ∷ []) = some tenant_id
third_of_four _ = none

-- `extractTenantID`; an error is `none`
unfoldable pub extract_tenant_id : Bytes → Option Bytes
unfolding third_of_four
extract_tenant_id subject = third_of_four (split dot subject)

last_two_of_four : List Bytes → Option (Bytes × Bytes)
last_two_of_four (_ ∷ _ ∷ tenant_id ∷ gateway_id ∷ []) = some (tenant_id, gateway_id)
last_two_of_four _ = none

-- `extractIDs`; an error is `none`
unfoldable pub extract_ids : Bytes → Option (Bytes × Bytes)
unfolding last_two_of_four
extract_ids subject = last_two_of_four (split dot subject)
