-- ===== src/Store/Rows.antt =====
-- The row types of internal/store/sqlite/store.go, the events of internal/audit/audit.go and the
-- tables of the schema. Times are numbers of a clock; texts in RFC 3339 are the times they show.
use controlai.Prelude.{ℕ, String, Bool, Option, List, ℤ}

-- A row of `tenants`. NULL in the column project_id is `none`.
pub record TenantRecord : Type 0 where
  pub id : String
  pub name : String
  pub domain : String
  pub retention : String
  pub schema_version : ℤ
  pub status : String
  pub project_id : Option String
  pub created_at : ℕ
  pub updated_at : ℕ

-- The Go struct that the queries fill.
pub record TenantRow : Type 0 where
  pub id : String
  pub name : String
  pub domain : String
  pub retention : String
  pub schema_version : ℤ
  pub status : String
  pub project_id : String
  pub created_at : ℕ
  pub updated_at : ℕ

pub record SiteRow : Type 0 where
  pub id : String
  pub tenant_id : String
  pub broker_kind : String
  pub throughput : String
  pub direction : String
  pub payload_codec : String
  pub leaf_ttl_days : ℤ
  pub schema_version : ℤ
  pub status : String
  pub created_at : ℕ
  pub updated_at : ℕ

pub record DesiredStateRow : Type 0 where
  pub project_id : String
  pub tenant_id : String
  pub site_id : String
  pub state : String
  pub config_hash : String
  pub updated_at : ℕ

-- A row of `actual_state_cache`.
pub record FileHashRow : Type 0 where
  pub project_id : String
  pub file_path : String
  pub content_hash : String
  pub updated_at : ℕ

-- internal/audit/audit.go: `Kind`.
pub data Kind : Type 0 where
  tenant_create tenant_update tenant_delete tenant_migrate : Kind
  site_create site_update site_delete site_start site_stop : Kind
  reconciler_success reconciler_failure reconciler_backoff : Kind
  broker_restart pki_rotate pki_issue_cert pki_revoke_cert : Kind
  migrate_apply token_create token_revoke : Kind

unfoldable pub kind_text : Kind → String
kind_text tenant_create = "tenant.create"
kind_text tenant_update = "tenant.update"
kind_text tenant_delete = "tenant.delete"
kind_text tenant_migrate = "tenant.migrate"
kind_text site_create = "site.create"
kind_text site_update = "site.update"
kind_text site_delete = "site.delete"
kind_text site_start = "site.start"
kind_text site_stop = "site.stop"
kind_text reconciler_success = "reconciler.success"
kind_text reconciler_failure = "reconciler.failure"
kind_text reconciler_backoff = "reconciler.backoff"
kind_text broker_restart = "broker.listener_restart"
kind_text pki_rotate = "pki.rotate"
kind_text pki_issue_cert = "pki.cert_issue"
kind_text pki_revoke_cert = "pki.cert_revoke"
kind_text migrate_apply = "migrate.apply"
kind_text token_create = "token.create"
kind_text token_revoke = "token.revoke"

-- internal/audit/audit.go: `Event`.
pub record Event : Type 0 where
  pub id : ℕ
  pub kind : Kind
  pub tenant_id : String
  pub site_id : String
  pub actor_ip : String
  pub detail : String
  pub success : Bool
  pub project_id : String
  pub created_at : ℕ

pub record TokenRow : Type 0 where
  pub id : String
  pub display_name : String
  pub hash : String
  pub prefix : String
  pub revoked : Bool
  pub created_at : ℕ
  pub revoked_at : Option ℕ

pub record TsdbCreds : Type 0 where
  pub tenant_id : String
  pub superuser_name : String
  pub superuser_pass : String
  pub ingest_name : String
  pub ingest_pass : String

pub record Setting : Type 0 where
  pub name : String
  pub value : String

-- The wrapped key and its nonce are bytes, as texts.
pub record CaCertRow : Type 0 where
  pub site_id : String
  pub cert_pem : String
  pub key_enc : String
  pub key_nonce : String
  pub fingerprint : String
  pub not_before : ℕ
  pub not_after : ℕ
  pub created_at : ℕ

pub record CertRow : Type 0 where
  pub id : String
  pub site_id : String
  pub kind : String
  pub common_name : String
  pub cert_pem : String
  pub fingerprint : String
  pub not_before : ℕ
  pub not_after : ℕ
  pub revoked : Bool
  pub revoked_at : Option ℕ
  pub created_at : ℕ

pub record EmqxApiKey : Type 0 where
  pub site_id : String
  pub key_id : String
  pub key_secret : String

-- The tables of migrations 0001 and 0002.
pub record Tables : Type 0 where
  pub tenants : List TenantRecord
  pub sites : List SiteRow
  pub desired_state : List DesiredStateRow
  pub actual_state_cache : List FileHashRow
  pub audit_events : List Event
  pub next_event_id : ℕ
  pub auth_tokens : List TokenRow
  pub tsdb_credentials : List TsdbCreds
  pub settings : List Setting
  pub cas : List CaCertRow
  pub certs : List CertRow
  pub emqx_api_keys : List EmqxApiKey
