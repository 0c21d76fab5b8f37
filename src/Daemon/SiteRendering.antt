-- ===== src/Daemon/SiteRendering.antt =====
-- internal/daemon/provision.go: `buildSiteRenderCtx` and `renderAndWriteSite`. The rendered Traefik files
-- are the renderer's, with the names that `RenderTraefikDynamicForSite` gives them.
use controlai.Prelude.{
  String, ◌==◌, pos, true, false, Bool, Option, none, some, List, [], ◌∷◌, concat, path,
  if◌then◌else◌,
}
use controlai.Config.Sites.{
  Site, ingest_replicas, batch_size, flush_interval_ms, use_shared_subscription, mqtt_topic_filter,
}
use controlai.Store.Rows.{TenantRow, SiteRow, EmqxApiKey, DesiredStateRow}
use controlai.Store.Query.{Result, ok, err, Db, Query, pure, ◌>>=◌}
use controlai.Store.Tenants.{get_tenant}
use controlai.Store.Sites.{get_site}
use controlai.Store.States.{upsert_desired_state}
use controlai.Render.Results.{RenderResult}
use controlai.Daemon.Lifecycle.{site_project}
use controlai.Daemon.Provision.{ensure_tsdb_creds, ensure_emqx_key}
use controlai.Daemon.Rendering.{
  TenantCtx, SiteCtx, PkiCtx, SiteContext, Renderer, Provided, provided, failed, store_error,
  render_failed, write_failed, creds_ctx, compute_combined_hash,
}

-- The `config.Site` whose settings are asked for; the fields that are not set are zero.
abbrev pub site_config : SiteRow → Site
site_config s = record {
  schema_version = pos 0;
  id = s.id;
  tenant_id = s.tenant_id;
  broker_kind = s.broker_kind;
  san_aliases = [];
  direction = s.direction;
  throughput = s.throughput;
  payload_codec = s.payload_codec;
  leaf_ttl_days = pos 0;
}

abbrev pub sni_hostname : SiteRow → TenantRow → String
sni_hostname s t = concat (s.id ∷ "." ∷ s.tenant_id ∷ "." ∷ t.domain ∷ [])

abbrev pub cert_dir : String → String → String → String
cert_dir data_dir tid sid =
    path (data_dir ∷ "tenants" ∷ tid ∷ "sites" ∷ sid ∷ "deploy" ∷ "certs" ∷ "active" ∷ [])

unfoldable pub site_ctx : SiteRow → TenantRow → SiteCtx
site_ctx s t = record {
  id = s.id;
  tenant_id = s.tenant_id;
  broker_kind = s.broker_kind;
  throughput = s.throughput;
  direction = s.direction;
  payload_codec = s.payload_codec;
  ingest_replicas = ingest_replicas (site_config s);
  batch_size = batch_size (site_config s);
  flush_interval_ms = flush_interval_ms (site_config s);
  use_shared_subscription = use_shared_subscription (site_config s);
  mqtt_topic_filter = mqtt_topic_filter (site_config s);
  sni_hostname = sni_hostname s t;
  sans = sni_hostname s t ∷ [];
  schema_version = s.schema_version;
}

abbrev pub bare_tenant_ctx : TenantRow → TenantCtx
bare_tenant_ctx t = record {
  id = t.id;
  name = t.name;
  domain = t.domain;
  retention = "";
  chunk_interval = "";
  compression_on = false;
  schema_version = pos 0;
}

abbrev pub pki_ctx : String → PkiCtx
pki_ctx dir = record {
  ca_path = path (dir ∷ "ca.crt" ∷ []);
  cert_path = path (dir ∷ "server.crt" ∷ []);
  key_path = path (dir ∷ "server.key" ∷ []);
}

abbrev pub with_key : SiteContext → EmqxApiKey → SiteContext
with_key ctx k = record ctx {
  creds = record ctx.creds { emqx_key_id = k.key_id; emqx_key_secret = k.key_secret };
}

-- The key of the REST API, for sites with EMQX.
abbrev pub add_key : String → SiteRow → SiteContext → Query SiteContext
add_key secret s ctx =
    if s.broker_kind == "emqx"
    then (do k ← ensure_emqx_key secret s.id; pure (with_key ctx k))
    else pure ctx

-- `buildSiteRenderCtx`, with the texts that `randomHex` returns.
unfoldable pub build_site_render_ctx :
    String → String → String → String → String → Query SiteContext
unfolding site_ctx
build_site_render_ctx data_dir p q secret sid = do
  s ← get_site sid
  t ← get_tenant s.tenant_id
  c ← ensure_tsdb_creds p q s.tenant_id
  add_key secret s (record {
    tenant = bare_tenant_ctx t;
    site = site_ctx s t;
    creds = creds_ctx c;
    pki = pki_ctx (cert_dir data_dir s.tenant_id s.id);
  })

abbrev pub wanted_site : String → String → String → DesiredStateRow
wanted_site tid sid hash = record {
  project_id = site_project tid sid;
  tenant_id = tid;
  site_id = sid;
  state = "running";
  config_hash = hash;
  updated_at = 0;
}

module _ (rn : Renderer) (sha256_hex : String → String) (data_dir : String) where
  abbrev pub SiteStep : Type 0
  SiteStep = Provided String × (Db × rn.World)

  abbrev pub record_site : SiteRow → String → String → Db → rn.World → SiteStep
  record_site s sid hash db w =
      (provided hash, ((upsert_desired_state (wanted_site s.tenant_id sid hash) db).1, w))

  abbrev pub after_dynamic : SiteRow → String → List RenderResult → Db → Bool × rn.World → SiteStep
  after_dynamic s sid results db (false, w) = (failed write_failed, (db, w))
  after_dynamic s sid results db (true, w) =
      record_site s sid (compute_combined_hash sha256_hex results) db w

  abbrev pub write_dynamic :
      SiteRow → String → List RenderResult → Db → rn.World → Option (List RenderResult) → SiteStep
  write_dynamic s sid results db w none = (failed render_failed, (db, w))
  write_dynamic s sid results db w (some dynamic) =
      after_dynamic s sid results db
        (rn.write_results w (path (data_dir ∷ "shared" ∷ "traefik" ∷ "dynamic" ∷ [])) dynamic)

  abbrev pub after_site_files :
      SiteRow → String → SiteContext → List RenderResult → Db → Bool × rn.World → SiteStep
  after_site_files s sid ctx results db (false, w) = (failed write_failed, (db, w))
  after_site_files s sid ctx results db (true, w) =
      write_dynamic s sid results db w (rn.render_traefik_dynamic ctx)

  abbrev pub write_site_files :
      SiteRow → String → SiteContext → Db → rn.World → Option (List RenderResult) → SiteStep
  write_site_files s sid ctx db w none = (failed render_failed, (db, w))
  write_site_files s sid ctx db w (some results) =
      after_site_files s sid ctx results db (
        rn.write_results w (path (data_dir ∷ "tenants" ∷ s.tenant_id ∷ "sites" ∷ sid ∷ [])) results)

  abbrev pub with_site_ctx : SiteRow → String → rn.World → Result SiteContext × Db → SiteStep
  with_site_ctx s sid w (err e, db) = (failed (store_error e), (db, w))
  with_site_ctx s sid w (ok ctx, db) = write_site_files s sid ctx db w (rn.render_site ctx)

  abbrev pub with_site :
      String → String → String → String → rn.World → Result SiteRow × Db → SiteStep
  with_site p q secret sid w (err e, db) = (failed (store_error e), (db, w))
  with_site p q secret sid w (ok s, db) =
      with_site_ctx s sid w (build_site_render_ctx data_dir p q secret sid db)

  -- `renderAndWriteSite`, with the texts that `randomHex` returns.
  unfoldable pub render_and_write_site :
      String → String → String → String → Db → rn.World → SiteStep
  render_and_write_site p q secret sid db w = with_site p q secret sid w (get_site sid db)
