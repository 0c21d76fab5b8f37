-- ===== src/Store/Integrity/Predicate.antt =====
-- What holds of the tables between two statements.
use controlai.Prelude.{ℕ, String}
use controlai.Store.Tables.Statements.{Unique}
use controlai.Store.Tables.References.{References}
use controlai.Store.Rows.{SiteRow, CertRow, Tables}
use controlai.Store.Tenants.{tenant_id_of}
use controlai.Store.Sites.{site_id_of}
use controlai.Store.States.{project_of}
use controlai.Store.Integrity.Keys.{UniqueFiles, UniqueEvents}
use controlai.Store.Tokens.{token_id_of, hash_of}
use controlai.Store.Secrets.{creds_tenant, setting_name, key_site}
use controlai.Store.Certs.{ca_site, cert_id_of, fingerprint_of}

abbrev pub site_tenant : SiteRow → String
site_tenant s = s.tenant_id

abbrev pub cert_site : CertRow → String
cert_site c = c.site_id

pub record IsSound (t : Tables) : Type 0 where
  pub tenant_keys : Unique tenant_id_of t.tenants
  pub site_keys : Unique site_id_of t.sites
  pub desired_keys : Unique project_of t.desired_state
  pub file_keys : UniqueFiles t.actual_state_cache
  pub event_keys : UniqueEvents t.next_event_id t.audit_events
  pub token_keys : Unique token_id_of t.auth_tokens
  pub creds_keys : Unique creds_tenant t.tsdb_credentials
  pub setting_keys : Unique setting_name t.settings
  pub ca_keys : Unique ca_site t.cas
  pub cert_keys : Unique cert_id_of t.certs
  pub emqx_keys : Unique key_site t.emqx_api_keys
  pub token_hashes : Unique hash_of t.auth_tokens
  pub fingerprints : Unique fingerprint_of t.certs
  pub site_tenants : References site_tenant tenant_id_of t.sites t.tenants
  pub creds_tenants : References creds_tenant tenant_id_of t.tsdb_credentials t.tenants
  pub ca_sites : References ca_site site_id_of t.cas t.sites
  pub cert_sites : References cert_site site_id_of t.certs t.sites
  pub emqx_sites : References key_site site_id_of t.emqx_api_keys t.sites

-- A statement that keeps it, given the tables that it leaves.
abbrev pub Sound : (ℕ → Tables → Tables) → Type 0
Sound f = (now : ℕ) (t : Tables) → IsSound t → IsSound (f now t)
