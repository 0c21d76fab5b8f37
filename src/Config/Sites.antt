-- ===== src/Config/Sites.antt =====
-- internal/config/site.go: `Site`, `Validate` and the settings that broker and tier decide.
use controlai.Prelude.{
  ℕ, ◌+◌, String, ℤ, pos, pos_part, neg_part, Bool, ◌&&◌, ◌||◌, not, Option, none, some, List, [],
  ◌∷◌, codes, concat, ◌==◌, ltb, nat_eq, if◌then◌else◌,
}
use controlai.Config.Slugs.{tenant_id_pattern, site_id_pattern}
use controlai.Config.Tenants.{max_supported_yaml_schema_version, lt_int}

pub record Site : Type 0 where
  pub schema_version : ℤ
  pub id : String
  pub tenant_id : String
  pub broker_kind : String
  pub san_aliases : List String
  pub direction : String
  pub throughput : String
  pub payload_codec : String
  pub leaf_ttl_days : ℤ

pub data SiteError : Type 0 where
  unsupported_schema invalid_site_id invalid_tenant_id invalid_broker invalid_tier : SiteError
  invalid_direction invalid_codec mosquitto_mid high_tier : SiteError

abbrev pub valid_broker_kind : String → Bool
valid_broker_kind k = "mosquitto" == k || "emqx" == k

abbrev pub valid_tier : String → Bool
valid_tier t = "low" == t || ("mid" == t || "high" == t)

abbrev pub valid_direction : String → Bool
valid_direction d = "uni" == d || "bi" == d

abbrev pub valid_codec : String → Bool
valid_codec c = "cbor" == c || ("json" == c || "raw_passthrough" == c)

abbrev zero_int : ℤ → Bool
zero_int z = nat_eq (pos_part z + neg_part z) 0

-- The checks of `Site.Validate`, in their order; `none` when all of them pass.
unfoldable pub check_site : Site → Option SiteError
check_site s =
    if lt_int s.schema_version (pos 1) || lt_int max_supported_yaml_schema_version s.schema_version
    then some unsupported_schema
    else if not (site_id_pattern (codes s.id))
    then some invalid_site_id
    else if not (tenant_id_pattern (codes s.tenant_id))
    then some invalid_tenant_id
    else if not (valid_broker_kind s.broker_kind)
    then some invalid_broker
    else if not (valid_tier s.throughput)
    then some invalid_tier
    else if not (valid_direction s.direction)
    then some invalid_direction
    else if not (valid_codec s.payload_codec)
    then some invalid_codec
    else if "mosquitto" == s.broker_kind && "mid" == s.throughput
    then some mosquitto_mid
    else if "high" == s.throughput
    then some high_tier
    else none

-- The assignment at the end of `Validate`.
unfoldable pub default_leaf_ttl : Site → Site
default_leaf_ttl s = if zero_int s.leaf_ttl_days then record s { leaf_ttl_days = pos 365 } else s

-- `Site.Validate`: the error, and the site that the pointer receiver holds afterwards.
unfoldable pub validate_site : Site → Option SiteError × Site
unfolding check_site default_leaf_ttl
validate_site s = elim (check_site s) [ some e ↦ (some e, s) | none ↦ (none, default_leaf_ttl s) ]

unfoldable pub ingest_replicas : Site → ℕ
ingest_replicas s = if "emqx" == s.broker_kind && "mid" == s.throughput then 2 else 1

unfoldable pub batch_size : Site → ℕ
batch_size s = if "mid" == s.throughput then 1000 else 200

unfoldable pub flush_interval_ms : Site → ℕ
flush_interval_ms s = if "mid" == s.throughput then 500 else 1000

unfoldable pub use_shared_subscription : Site → Bool
unfolding ingest_replicas
use_shared_subscription s = "emqx" == s.broker_kind && ltb 1 (ingest_replicas s)

unfoldable pub mqtt_topic_filter : Site → String
unfolding use_shared_subscription
mqtt_topic_filter s =
    let base = concat (s.tenant_id ∷ "/" ∷ s.id ∷ "/+/+" ∷ []) in
    if use_shared_subscription s then concat ("$share/" ∷ s.id ∷ "/" ∷ base ∷ []) else base
