-- ===== src/Daemon/Rendering.antt =====
-- internal/daemon/provision.go: `buildTenantRenderCtx`, `computeCombinedHash`, `renderAndWriteTSDB`.
-- The templates and the files are outside: `Renderer` has what `RenderTenantTSDB` makes of a context, and
-- `os.MkdirAll` with `WriteResults` on a directory. SHA-256 is a function on texts.
use controlai.Prelude.{
  ℕ, path, text_before, String, ℤ, Bool, true, false, Option, none, some, List, [], ◌∷◌, map,
  concat,
}
use controlai.Config.Tenants.{chunk_time_interval, compression_enabled}
use controlai.Render.Results.{RenderResult}
use controlai.Store.Tables.Statements.{order_by}
use controlai.Store.Rows.{TenantRow, TsdbCreds, DesiredStateRow}
use controlai.Store.Query.{StoreError, Result, ok, err, Db}
use controlai.Store.Tenants.{get_tenant}
use controlai.Store.States.{upsert_desired_state}
use controlai.Daemon.Lifecycle.{tsdb_project}
use controlai.Daemon.Provision.{ensure_tsdb_creds}

-- internal/render/render.go: the parts of `RenderContext`.
pub record TenantCtx : Type 0 where
  pub id : String
  pub name : String
  pub domain : String
  pub retention : String
  pub chunk_interval : String
  pub compression_on : Bool
  pub schema_version : ℤ

pub record CredsCtx : Type 0 where
  pub superuser_name : String
  pub superuser_pass : String
  pub ingest_name : String
  pub ingest_pass : String
  pub emqx_key_id : String
  pub emqx_key_secret : String

pub record SiteCtx : Type 0 where
  pub id : String
  pub tenant_id : String
  pub broker_kind : String
  pub throughput : String
  pub direction : String
  pub payload_codec : String
  pub ingest_replicas : ℕ
  pub batch_size : ℕ
  pub flush_interval_ms : ℕ
  pub use_shared_subscription : Bool
  pub mqtt_topic_filter : String
  pub sni_hostname : String
  pub sans : List String
  pub schema_version : ℤ

pub record PkiCtx : Type 0 where
  pub ca_path : String
  pub cert_path : String
  pub key_path : String

-- `RenderContext` of a site.
pub record SiteContext : Type 0 where
  pub tenant : TenantCtx
  pub site : SiteCtx
  pub creds : CredsCtx
  pub pki : PkiCtx

-- `RenderSite` and `RenderTraefikDynamicForSite` render a site's context.
pub record Renderer : Type 1 where
  pub World : Type 0
  pub render_tenant_tsdb : TenantCtx → CredsCtx → Option (List RenderResult)
  pub render_site : SiteContext → Option (List RenderResult)
  pub render_traefik_dynamic : SiteContext → Option (List RenderResult)
  pub write_results : World → String → List RenderResult → Bool × World

-- An error of `renderAndWriteTSDB`.
pub data ProvisionError : Type 0 where
  store_error : StoreError → ProvisionError
  render_failed write_failed : ProvisionError

pub data Provided (A : Type 0) : Type 0 where
  provided : A → Provided A
  failed : ProvisionError → Provided A

-- `buildTenantRenderCtx`, of the two rows that it reads.
unfoldable pub tenant_ctx : TenantRow → TenantCtx
tenant_ctx t = record {
  id = t.id;
  name = t.name;
  domain = t.domain;
  retention = t.retention;
  chunk_interval = chunk_time_interval t.retention;
  compression_on = compression_enabled t.retention;
  schema_version = t.schema_version;
}

abbrev pub creds_ctx : TsdbCreds → CredsCtx
creds_ctx c = record {
  superuser_name = c.superuser_name;
  superuser_pass = c.superuser_pass;
  ingest_name = c.ingest_name;
  ingest_pass = c.ingest_pass;
  emqx_key_id = "";
  emqx_key_secret = "";
}

abbrev pub hash_line : RenderResult → String
hash_line r = concat (r.rel_path ∷ ":" ∷ r.hash ∷ "\n" ∷ [])

-- `computeCombinedHash`; the paths of the results are different.
unfoldable pub compute_combined_hash : (String → String) → List RenderResult → String
compute_combined_hash sha256_hex results =
    sha256_hex
      (concat (map hash_line (order_by (λ a b. text_before a.rel_path b.rel_path) results)))

abbrev pub wanted_tsdb : String → String → DesiredStateRow
wanted_tsdb tid hash = record {
  project_id = tsdb_project tid;
  tenant_id = tid;
  site_id = "";
  state = "running";
  config_hash = hash;
  updated_at = 0;
}

module _ (rn : Renderer) (sha256_hex : String → String) (data_dir : String) where
  abbrev pub Step : Type 0
  Step = Provided String × (Db × rn.World)

  -- After the files: the hash, and the desired state with it.
  abbrev pub record_wanted : String → String → Db → rn.World → Step
  record_wanted tid hash db w =
      (provided hash, ((upsert_desired_state (wanted_tsdb tid hash) db).1, w))

  abbrev pub after_write : String → List RenderResult → Db → Bool × rn.World → Step
  after_write tid results db (false, w) = (failed write_failed, (db, w))
  after_write tid results db (true, w) =
      record_wanted tid (compute_combined_hash sha256_hex results) db w

  abbrev pub after_render : String → Db → rn.World → Option (List RenderResult) → Step
  after_render tid db w none = (failed render_failed, (db, w))
  after_render tid db w (some results) =
      after_write tid results db
        (rn.write_results w (path (data_dir ∷ "tenants" ∷ tid ∷ "tsdb" ∷ [])) results)

  abbrev pub with_creds : String → TenantRow → rn.World → Result TsdbCreds × Db → Step
  with_creds tid tenant w (err e, db) = (failed (store_error e), (db, w))
  with_creds tid tenant w (ok c, db) =
      after_render tid db w (rn.render_tenant_tsdb (tenant_ctx tenant) (creds_ctx c))

  abbrev pub with_tenant : String → String → String → rn.World → Result TenantRow × Db → Step
  with_tenant p q tid w (err e, db) = (failed (store_error e), (db, w))
  with_tenant p q tid w (ok tenant, db) = with_creds tid tenant w (ensure_tsdb_creds p q tid db)

  -- `renderAndWriteTSDB`, with the texts that `randomHex` returns.
  unfoldable pub render_and_write_tsdb : String → String → String → Db → rn.World → Step
  render_and_write_tsdb p q tid db w = with_tenant p q tid w (get_tenant tid db)
