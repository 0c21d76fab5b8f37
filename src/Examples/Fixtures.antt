-- ===== src/Examples/Fixtures.antt =====
-- Tables with a tenant and its site, rows to write, and an outside for the reconciler.
use controlai.Prelude.{
  String, true, false, none, some, List, [], ◌∷◌, any, ◌==◌, refl, pos, if◌then◌else◌,
}
use controlai.Store.Rows.{TenantRecord, TenantRow, SiteRow, DesiredStateRow, Tables}
use controlai.Store.Query.{Db}
use controlai.Store.Integrity.Predicate.{IsSound}
use controlai.Recon.Runtime.{Runtime, Config}

abbrev pub acme : TenantRecord
acme = record {
  id = "tnt_acme";
  name = "Acme";
  domain = "acme.example";
  retention = "30d";
  schema_version = pos 1;
  status = "active";
  project_id = none;
  created_at = 3;
  updated_at = 3;
}

abbrev pub plant : SiteRow
plant = record {
  id = "ste_plant";
  tenant_id = "tnt_acme";
  broker_kind = "emqx";
  throughput = "mid";
  direction = "uni";
  payload_codec = "json";
  leaf_ttl_days = pos 90;
  schema_version = pos 1;
  status = "active";
  created_at = 4;
  updated_at = 4;
}

abbrev pub wanted : DesiredStateRow
wanted = record {
  project_id = "tnt_acme-ste_plant";
  tenant_id = "tnt_acme";
  site_id = "ste_plant";
  state = "running";
  config_hash = "abc";
  updated_at = 0;
}

abbrev pub new_row : TenantRow
new_row = record {
  id = "tnt_beta";
  name = "Beta";
  domain = "beta.example";
  retention = "7d";
  schema_version = pos 1;
  status = "";
  project_id = "";
  created_at = 0;
  updated_at = 0;
}

abbrev pub one_tenant : Tables
one_tenant = record {
  tenants = acme ∷ [];
  sites = plant ∷ [];
  desired_state = wanted ∷ [];
  actual_state_cache = [];
  audit_events = [];
  next_event_id = 1;
  auth_tokens = [];
  tsdb_credentials = [];
  settings = [];
  cas = [];
  certs = [];
  emqx_api_keys = [];
}

pub one_tenant-IsSound : IsSound one_tenant
one_tenant-IsSound = record {
  tenant_keys = (refl, tt);
  site_keys = (refl, tt);
  desired_keys = (refl, tt);
  file_keys = tt;
  event_keys = tt;
  token_keys = tt;
  creds_keys = tt;
  setting_keys = tt;
  ca_keys = tt;
  cert_keys = tt;
  emqx_keys = tt;
  token_hashes = tt;
  fingerprints = tt;
  site_tenants = (refl, tt);
  creds_tenants = tt;
  ca_sites = tt;
  cert_sites = tt;
  emqx_sites = tt;
}

-- Its second statement fails.
abbrev pub one_tenant_db : Db
one_tenant_db = record { tables = one_tenant; now = 10; faults = [] }

abbrev pub faulty_db : Db
faulty_db = record { tables = one_tenant; now = 10; faults = false ∷ true ∷ [] }

-- The projects that are up; `up` always succeeds and `down` never.
abbrev pub machine : Runtime
machine = record {
  World = List String;
  now = λ w. 1000;
  list_by_project = λ w p.
      some
        (if any (λ q. q == p) w then record { id = "1"; name = p; state = "running" } ∷ [] else []);
  up = λ w p f. (true, p ∷ w);
  down = λ w p f. (false, w);
  failure_detail = λ w d. "{}";
  backoff_detail = λ d. "{}";
  write_dynamic = λ w a b c d e. (true, w);
}

abbrev pub conf : Config
conf = record { data_dir = "/data"; has_docker = true; has_master_key = false; reports_tick = true }
