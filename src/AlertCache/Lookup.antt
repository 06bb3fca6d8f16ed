-- ===== src/AlertCache/Lookup.antt =====
-- Which timeout a gateway gets from the fetched configurations.
use notip_data_consumer.Prelude.{
  Bool, false, ◌&&◌, ◌≡◌, refl, ap, ◌∙◌, Option, none, some, List, [], ◌∷◌, if◌then◌else◌, ◌==◌,
  ==-refl, arith, Bool-cases, inl, inr, All,
}
use notip_data_consumer.Prelude.Bytes.{Bytes, bytes_eq, bytes_eqb_iff, Lacks}
use notip_data_consumer.Prelude.GoMap.{lookup, lookup-insert}
use notip_data_consumer.Prelude.Int.{ℤ}
use notip_data_consumer.Prelude.Outcome.{ok}
use notip_data_consumer.Model.{Time, AlertConfig}
use notip_data_consumer.AlertCache.{
  AlertConfigSnapshot, AlertConfigCache, slash, gateway_config_key, timeout_for, file_config,
  file_configs, refresh, empty_snapshot,
}

-- A tenant with no slash in its name can be read off the key.
key_parts :
    (t t' g g' : Bytes)
    → Lacks slash t
    → Lacks slash t'
    → gateway_config_key t g ≡ gateway_config_key t' g'
    → (t ≡ t') × (g ≡ g')
unfolding gateway_config_key
key_parts [] [] g g' l l' e = (refl, cc)
key_parts [] (c ∷ t') g g' l l' e = absurd (ground arith)
key_parts (c ∷ t) [] g g' l l' e = absurd (ground arith)
key_parts (c ∷ t) (c' ∷ t') g g' l l' e =
    let (same, rest) = key_parts t t' g g' l.1 l'.1 (ground arith) in (ground arith, rest)

-- A configuration of the gateway itself, and one of its tenant.
abbrev gateway_matches : Bytes → Bytes → AlertConfig → Bool
gateway_matches tenant_id gateway_id cfg = elim cfg.gateway_id [
  | none ↦ false
  | some g ↦ cfg.tenant_id == tenant_id && g == gateway_id
]

abbrev tenant_matches : Bytes → AlertConfig → Bool
tenant_matches tenant_id cfg = elim cfg.gateway_id [
  | none ↦ cfg.tenant_id == tenant_id
  | some g ↦ false
]

abbrev or_later : Option AlertConfig → Option AlertConfig → Option AlertConfig
or_later (some later) _ = some later
or_later none first = first

-- The last configuration of a list that passes a test.
pub last_such : (AlertConfig → Bool) → List AlertConfig → Option AlertConfig
last_such p [] = none
last_such p (cfg ∷ configs) = or_later (last_such p configs) (if p cfg then some cfg else none)

or_later_assoc :
    (a b c : Option AlertConfig) → or_later a (or_later b c) ≡ or_later (or_later a b) c
or_later_assoc (some a) b c = refl
or_later_assoc none b c = refl

-- The comparison of two keys is that of their parts.
key_test :
    (t t' g g' : Bytes)
    → Lacks slash t
    → Lacks slash t'
    → (gateway_config_key t g == gateway_config_key t' g') ≡ (t == t' && g == g')
key_test t t' g g' l l' = elim (Bool-cases (gateway_config_key t g == gateway_config_key t' g')) [
  | inl same ↦
      let (p, q) = key_parts t t' g g' l l' ((bytes_eqb_iff _ _).0 same) in
      ground (arith, bytes_eqb_iff t t', bytes_eqb_iff g g')
  | inr other ↦
      ground (arith, bytes_eqb_iff t t', bytes_eqb_iff g g', ==-refl (gateway_config_key t' g'))
]

module _ (tenant_id gateway_id : Bytes) (plain : Lacks slash tenant_id) where
  by_gateway-file_config :
      (cfg : AlertConfig) (o : Option Bytes) (snap : AlertConfigSnapshot)
      → cfg.gateway_id ≡ o
      → Lacks slash cfg.tenant_id
      → lookup (gateway_config_key tenant_id gateway_id) (file_config o cfg snap).by_gateway
        ≡ or_later
            (if gateway_matches tenant_id gateway_id cfg then some cfg else none)
            (lookup (gateway_config_key tenant_id gateway_id) snap.by_gateway)
  unfolding file_config
  by_gateway-file_config cfg none snap e l = ground arith
  by_gateway-file_config cfg (some g) snap e l = ground (
    arith,
    key_test cfg.tenant_id tenant_id g gateway_id l plain,
    lookup-insert (gateway_config_key cfg.tenant_id g) (gateway_config_key tenant_id gateway_id) cfg
        snap.by_gateway,
  )

  by_gateway-file_configs :
      (configs : List AlertConfig) (snap : AlertConfigSnapshot)
      → All (λ cfg. Lacks slash cfg.tenant_id) configs
      → lookup (gateway_config_key tenant_id gateway_id) (file_configs configs snap).by_gateway
        ≡ or_later
            (last_such (gateway_matches tenant_id gateway_id) configs)
            (lookup (gateway_config_key tenant_id gateway_id) snap.by_gateway)
  unfolding file_configs last_such
  by_gateway-file_configs [] snap l = refl
  by_gateway-file_configs (cfg ∷ configs) snap l =
      by_gateway-file_configs configs (file_config cfg.gateway_id cfg snap) l.1
      ∙ ap (or_later (last_such (gateway_matches tenant_id gateway_id) configs))
          (by_gateway-file_config cfg cfg.gateway_id snap refl l.0)
      ∙ or_later_assoc (last_such (gateway_matches tenant_id gateway_id) configs) _ _

by_tenant-file_config :
    (tenant_id : Bytes) (cfg : AlertConfig) (o : Option Bytes) (snap : AlertConfigSnapshot)
    → cfg.gateway_id ≡ o
    → lookup tenant_id (file_config o cfg snap).by_tenant
      ≡ or_later
          (if tenant_matches tenant_id cfg then some cfg else none)
          (lookup tenant_id snap.by_tenant)
unfolding file_config
by_tenant-file_config tenant_id cfg none snap e =
    ground (arith, lookup-insert cfg.tenant_id tenant_id cfg snap.by_tenant)
by_tenant-file_config tenant_id cfg (some g) snap e = ground arith

by_tenant-file_configs :
    (tenant_id : Bytes) (configs : List AlertConfig) (snap : AlertConfigSnapshot)
    → lookup tenant_id (file_configs configs snap).by_tenant
      ≡ or_later (last_such (tenant_matches tenant_id) configs) (lookup tenant_id snap.by_tenant)
unfolding file_configs last_such
by_tenant-file_configs tenant_id [] snap = refl
by_tenant-file_configs tenant_id (cfg ∷ configs) snap =
    by_tenant-file_configs tenant_id configs (file_config cfg.gateway_id cfg snap)
    ∙ ap (or_later (last_such (tenant_matches tenant_id) configs))
        (by_tenant-file_config tenant_id cfg cfg.gateway_id snap refl)
    ∙ or_later_assoc (last_such (tenant_matches tenant_id) configs) _ _

-- The timeout that a list of configurations gives to a gateway: that of the last one for the
-- gateway itself, else that of the last one for its tenant, else the default.
abbrev pub configured_timeout : List AlertConfig → Bytes → Bytes → ℤ → ℤ
configured_timeout configs tenant_id gateway_id default =
    elim (last_such (gateway_matches tenant_id gateway_id) configs) [
      | some cfg ↦ cfg.timeout_ms
      | none ↦ elim (last_such (tenant_matches tenant_id) configs) [
        | some cfg ↦ cfg.timeout_ms
        | none ↦ default
      ]
    ]

or_later-none : (o : Option AlertConfig) → or_later o none ≡ o
or_later-none none = refl
or_later-none (some a) = refl

-- After a refresh whose fetch succeeded, where no tenant's identifier holds a slash, every gateway
-- has the timeout of the last configuration for it, else of the last for its tenant, else the
-- default, whatever the cache held before.
pub timeout_for-refresh :
    (configs : List AlertConfig) (now : Time) (c : AlertConfigCache) (tenant_id gateway_id : Bytes)
    → Lacks slash tenant_id
    → All (λ cfg. Lacks slash cfg.tenant_id) configs
    → timeout_for (refresh (ok configs) now c).0 tenant_id gateway_id
      ≡ configured_timeout configs tenant_id gateway_id c.default_timeout_ms
unfolding timeout_for refresh lookup
timeout_for-refresh configs now c tenant_id gateway_id plain all_plain = ground (
  arith,
  by_gateway-file_configs tenant_id gateway_id plain configs (empty_snapshot (some now)) all_plain,
  by_tenant-file_configs tenant_id configs (empty_snapshot (some now)),
  or_later-none (last_such (gateway_matches tenant_id gateway_id) configs),
  or_later-none (last_such (tenant_matches tenant_id) configs),
)
