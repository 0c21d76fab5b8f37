-- ===== src/Recon/Trust.antt =====
-- internal/recon/reconciler.go: `ensureAllTrustFiles`, the pass over the certificates of all active sites.
use controlai.Prelude.{
  String, ◌==◌, Bool, true, false, ◌&&◌, ◌||◌, Option, none, some, List, [], ◌∷◌, concat, path,
  if◌then◌else◌,
}
use controlai.Files.Attempts.{Attempt, done, failed}
use controlai.Store.Rows.{TenantRow, SiteRow, CaCertRow, Event, Kind, pki_rotate, broker_restart}
use controlai.Store.Query.{Result, ok, err}
use controlai.Store.Tenants.{get_tenant}
use controlai.Store.Sites.{list_all_sites}
use controlai.Store.Certs.{get_ca_cert}
use controlai.Store.Audit.{emit}
use controlai.Pki.X509.{X509, PkiError}
use controlai.Pki.Authority.{Host}
use controlai.Pki.Trust.{TrustFileConfig, TrustFileResult, ensure_trust_files}
use controlai.Recon.Runtime.{Runtime, State, call, Config}

abbrev pub truth : Bool → String
truth true = "true"
truth false = "false"

abbrev pub site_event : Kind → SiteRow → String → Bool → Event
site_event kind site detail success = record {
  id = 0;
  kind = kind;
  tenant_id = site.tenant_id;
  site_id = site.id;
  actor_ip = "";
  detail = detail;
  success = success;
  project_id = "";
  created_at = 0;
}

abbrev pub rotated_detail : TrustFileResult → String
rotated_detail r = concat (
    "{\"server_rotated\":"
    ∷ truth r.server_rotated
    ∷ ",\"ingestor_rotated\":"
    ∷ truth r.ingestor_rotated
    ∷ "}"
    ∷ [])

-- `host_of` and `put_host` are the files and the cryptography within the outside; `restart` is
-- `runner.Restart` of a project's broker, with the quoted text of its error.
module _ (rt : Runtime) (cfg : Config) (x : X509) (host_of : rt.World → Host x)
    (put_host : Host x → rt.World → rt.World)
    (restart : rt.World → String → String → Option String × rt.World) (master_key : String) where
  abbrev pub trust_config : SiteRow → TenantRow → CaCertRow → TrustFileConfig
  trust_config site tenant ca = record {
    site_id = site.id;
    tenant_id = site.tenant_id;
    cert_dir = path (
        cfg.data_dir ∷ "tenants" ∷ site.tenant_id ∷ "sites" ∷ site.id ∷ "deploy" ∷ "certs"
        ∷ "active" ∷ []);
    sni_hostname = concat (site.id ∷ "." ∷ site.tenant_id ∷ "." ∷ tenant.domain ∷ []);
    master_key = master_key;
    ca_cert_pem = ca.cert_pem;
    ca_key_enc = ca.key_enc;
    ca_key_nonce = ca.key_nonce;
  }

  abbrev pub emitted : Event → State rt → State rt
  emitted e s = (call rt (emit e) s).1

  abbrev pub after_restart : SiteRow → State rt → Option String × rt.World → State rt
  after_restart site s (none, w) =
      emitted (site_event broker_restart site "{}" true) (record s { world = w })
  after_restart site s (some e, w) =
      emitted (site_event broker_restart site (concat ("{\"err\":" ∷ e ∷ "}" ∷ [])) false)
        (record s { world = w })

  -- A broker that is EMQX is restarted for a new server certificate.
  abbrev pub restart_broker : SiteRow → TrustFileResult → State rt → State rt
  restart_broker site r s =
      if site.broker_kind == "emqx" && r.server_rotated
      then after_restart site s (
          restart s.world (concat (site.tenant_id ∷ "-" ∷ site.id ∷ [])) (
            path (
              cfg.data_dir ∷ "tenants" ∷ site.tenant_id ∷ "sites" ∷ site.id ∷ "docker-compose.yml"
              ∷ [])))
      else s

  abbrev pub report_rotation : SiteRow → TrustFileResult → State rt → State rt
  report_rotation site r s =
      if r.server_rotated || r.ingestor_rotated
      then restart_broker site r (emitted (site_event pki_rotate site (rotated_detail r) true) s)
      else s

  abbrev pub after_ensure :
      SiteRow → State rt → Attempt PkiError TrustFileResult × Host x → State rt
  after_ensure site s (failed e, h) = record s { world = put_host h s.world }
  after_ensure site s (done r, h) = report_rotation site r (record s { world = put_host h s.world })

  abbrev pub with_ca : SiteRow → TenantRow → Result CaCertRow × State rt → State rt
  with_ca site tenant (err e, s) = s
  with_ca site tenant (ok ca, s) =
      after_ensure site s (ensure_trust_files x (trust_config site tenant ca) (host_of s.world))

  abbrev pub with_tenant : SiteRow → Result TenantRow × State rt → State rt
  with_tenant site (err e, s) = s
  with_tenant site (ok tenant, s) = with_ca site tenant (call rt (get_ca_cert site.id) s)

  -- One round of the loop.
  unfoldable pub ensure_site : SiteRow → State rt → State rt
  ensure_site site s =
      if site.status == "active"
      then with_tenant site (call rt (get_tenant site.tenant_id) s)
      else s

  unfoldable pub ensure_sites : List SiteRow → State rt → State rt
  unfolding ensure_site
  ensure_sites [] s = s
  ensure_sites (site ∷ rest) s = ensure_sites rest (ensure_site site s)

  abbrev pub with_sites : Result (List SiteRow) × State rt → State rt
  with_sites (err e, s) = s
  with_sites (ok sites, s) = ensure_sites sites s

  -- `ensureAllTrustFiles`.
  unfoldable pub ensure_all_trust_files : State rt → State rt
  unfolding ensure_sites
  ensure_all_trust_files s = with_sites (call rt list_all_sites s)

  -- `EnsureInitialTrustFiles`.
  unfoldable pub ensure_initial_trust_files : State rt → State rt
  unfolding ensure_all_trust_files
  ensure_initial_trust_files s = if cfg.has_master_key then ensure_all_trust_files s else s
