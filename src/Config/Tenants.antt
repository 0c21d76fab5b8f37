-- ===== src/Config/Tenants.antt =====
-- internal/config/tenant.go: `Tenant`, `Validate` and the settings that the retention decides.
use controlai.Prelude.{
  String, ℤ, pos, pos_part, neg_part, ◌+◌, Bool, ◌||◌, Option, none, some, codes, ◌==◌, ltb, not,
  if◌then◌else◌,
}
use controlai.Config.Slugs.{tenant_id_pattern}

-- internal/version/version.go: `MaxSupportedYAMLSchemaVersion`.
abbrev pub max_supported_yaml_schema_version : ℤ
max_supported_yaml_schema_version = pos 1

abbrev pub lt_int : ℤ → ℤ → Bool
lt_int a b = ltb (pos_part a + neg_part b) (pos_part b + neg_part a)

pub record Tenant : Type 0 where
  pub schema_version : ℤ
  pub id : String
  pub name : String
  pub domain : String
  pub retention : String
  pub memory_limit : String

pub data TenantError : Type 0 where
  unsupported_schema invalid_id domain_unset invalid_retention : TenantError

-- `validRetentions`.
abbrev pub valid_retention : String → Bool
valid_retention r = "1m" == r || ("1h" == r || ("1d" == r || ("7d" == r || "30d" == r)))

-- `Tenant.Validate`: `none` is a nil error.
unfoldable pub validate_tenant : Tenant → Option TenantError
validate_tenant t =
    if lt_int t.schema_version (pos 1) || lt_int max_supported_yaml_schema_version t.schema_version
    then some unsupported_schema
    else if not (tenant_id_pattern (codes t.id))
    then some invalid_id
    else if t.domain == ""
    then some domain_unset
    else if not (valid_retention t.retention)
    then some invalid_retention
    else none

unfoldable pub compression_enabled : String → Bool
compression_enabled retention = "7d" == retention || "30d" == retention

unfoldable pub chunk_time_interval : String → String
chunk_time_interval retention =
    if "1m" == retention || "1h" == retention
    then "1 minute"
    else if "1d" == retention
    then "15 minutes"
    else if "7d" == retention
    then "1 hour"
    else if "30d" == retention
    then "6 hours"
    else "1 hour"
