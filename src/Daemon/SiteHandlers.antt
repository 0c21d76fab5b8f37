-- ===== src/Daemon/SiteHandlers.antt =====
-- internal/daemon/server.go: the handlers that create, list, get and update sites. A request is `none`
-- where its body is not the JSON that the handler expects.
use controlai.Prelude.{
  ℕ, ◌-◌, String, ◌==◌, ℤ, pos, Bool, false, not, ◌&&◌, ◌||◌, Option, none, some, List, [], ◌∷◌,
  codes, concat, if◌then◌else◌,
}
use controlai.Config.Slugs.{validate_slug_http}
use controlai.Config.Sites.{valid_direction, valid_codec}
use controlai.Files.Attempts.{Attempt, done, failed}
use controlai.Store.Rows.{TenantRow, SiteRow, CaCertRow, site_create, site_update}
use controlai.Store.Query.{not_found, duplicate, wrapped, Result, ok, err, Db}
use controlai.Store.Tenants.{get_tenant}
use controlai.Store.Sites.{create_site, get_site, list_sites_by_tenant, update_site}
use controlai.Store.Certs.{get_ca_cert, store_ca_cert}
use controlai.Store.Audit.{emit}
use controlai.Pki.X509.{X509, PkiError}
use controlai.Pki.Authority.{Ca, Host, generate_ca, clock_skew, ca_ttl_years}
use controlai.Daemon.Admission.{AdmissionError, ProposedSite, admission_check}
use controlai.Daemon.Lifecycle.{Reply, drop_result, error_status, event_of, tenant_project_id}
use controlai.Daemon.Rendering
use controlai.Daemon.Rendering.{Renderer, Provided}
use controlai.Daemon.SiteRendering.{render_and_write_site}

pub record CreateSiteRequest : Type 0 where
  pub slug : String
  pub broker_kind : String
  pub throughput : String
  pub direction : String
  pub payload_codec : String

pub record UpdateSiteRequest : Type 0 where
  pub payload_codec : String
  pub direction : String

abbrev pub or_else : String → String → String
or_else s default = if s == "" then default else s

-- The request with its defaults.
unfoldable pub with_defaults : CreateSiteRequest → CreateSiteRequest
with_defaults req = record {
  slug = req.slug;
  broker_kind = or_else req.broker_kind "mosquitto";
  throughput = or_else req.throughput "low";
  direction = or_else req.direction "uni";
  payload_codec = or_else req.payload_codec "cbor";
}

abbrev pub new_site_id : CreateSiteRequest → String
new_site_id req = concat ("ste_" ∷ req.slug ∷ [])

abbrev pub proposed : CreateSiteRequest → ProposedSite
proposed req = record {
  broker_kind = req.broker_kind;
  throughput = req.throughput;
  direction = req.direction;
}

abbrev pub site_row_of : String → CreateSiteRequest → SiteRow
site_row_of tid req = record {
  id = new_site_id req;
  tenant_id = tid;
  broker_kind = req.broker_kind;
  throughput = req.throughput;
  direction = req.direction;
  payload_codec = req.payload_codec;
  leaf_ttl_days = pos 365;
  schema_version = pos 1;
  status = "";
  created_at = 0;
  updated_at = 0;
}

-- The checks of a request after its defaults: a tier or a pair that is not supported.
unfoldable pub supported : CreateSiteRequest → Bool
supported req =
    not (req.throughput == "high")
    && not (req.broker_kind == "mosquitto" && req.throughput == "mid")

abbrev pub sites_reply : Result (List SiteRow) × Db → (ℕ × List SiteRow) × Db
sites_reply (ok rows, db) = ((200, rows), db)
sites_reply (err e, db) = ((500, []), db)

-- `handleListSites`.
unfoldable pub handle_list_sites : String → Db → (ℕ × List SiteRow) × Db
handle_list_sites tid db = sites_reply (list_sites_by_tenant tid db)

abbrev pub site_reply : Result SiteRow × Db → (ℕ × Option SiteRow) × Db
site_reply (ok row, db) = ((200, some row), db)
site_reply (err e, db) = ((error_status e, none), db)

-- `handleGetSite`.
unfoldable pub handle_get_site : String → Db → (ℕ × Option SiteRow) × Db
handle_get_site sid db = site_reply (get_site sid db)

-- The checks of an update.
unfoldable pub valid_update : UpdateSiteRequest → Bool
valid_update req =
    (req.direction == "" || valid_direction req.direction)
    && ((req.payload_codec == "" || valid_codec req.payload_codec)
        && not (req.direction == "" && req.payload_codec == ""))

-- `p`, `q` and `secret` are the texts of `randomHex`.
module _ (rn : Renderer) (x : X509) (sha256_hex : String → String) (data_dir : String)
    (has_recon : Bool) (master_key : String) (mem : Option ℤ) (p q secret : String) where
  pub record Outside : Type 0 where
    pub files : rn.World
    pub host : Host x

  abbrev pub SiteServed : Type 0
  SiteServed = Reply × (Db × Outside)

  abbrev pub serve_site : ℕ → Bool → Db → Outside → SiteServed
  serve_site status triggered db o = (record { status = status; triggered = triggered }, (db, o))

  abbrev pub triggers_site : Provided String → Bool
  triggers_site (Rendering.provided hash) = has_recon
  triggers_site (Rendering.failed e) = false

  abbrev pub ca_row : String → Ca x → ℕ → CaCertRow
  ca_row sid ca now = record {
    site_id = sid;
    cert_pem = ca.cert_pem;
    key_enc = ca.key_encrypted;
    key_nonce = ca.key_nonce;
    fingerprint = ca.fingerprint;
    not_before = now - clock_skew;
    not_after = x.add_date now ca_ttl_years 0;
    created_at = 0;
  }

  abbrev pub store_generated :
      String → Db → rn.World → Attempt PkiError (Ca x) × Host x → Db × Outside
  store_generated sid db w (failed e, h) = (db, record { files = w; host = h })
  store_generated sid db w (done ca, h) = (
    drop_result (store_ca_cert (ca_row sid ca (x.now h.world))) db,
    record { files = w; host = h },
  )

  abbrev pub generate_missing : String → String → Outside → Result CaCertRow × Db → Db × Outside
  generate_missing tid sid o (ok row, db) = (db, o)
  generate_missing tid sid o (err not_found, db) =
      store_generated sid db o.files (generate_ca x tid sid master_key o.host)
  generate_missing tid sid o (err duplicate, db) = (db, o)
  generate_missing tid sid o (err (wrapped e), db) = (db, o)

  -- The authority of a new site, where there is a master key and the site has none yet.
  unfoldable pub ensure_site_ca : String → String → Db → Outside → Db × Outside
  ensure_site_ca tid sid db o =
      if master_key == "" then (db, o) else generate_missing tid sid o (get_ca_cert sid db)

  abbrev pub finish_site : String → String → Host x → Provided String × (Db × rn.World) → SiteServed
  finish_site tid sid h (out, (db, w)) =
      let (project, db') = tenant_project_id tid db in
      serve_site 201 (triggers_site out)
        (drop_result (emit (event_of site_create tid sid project "")) db')
        (record { files = w; host = h })

  abbrev pub render_new : String → String → Db × Outside → SiteServed
  render_new tid sid (db, o) =
      finish_site tid sid o.host
        (render_and_write_site rn sha256_hex data_dir p q secret sid db o.files)

  abbrev pub after_create_site : String → String → Outside → Result (Unit {0}) × Db → SiteServed
  after_create_site tid sid o (ok u, db) = render_new tid sid (ensure_site_ca tid sid db o)
  after_create_site tid sid o (err duplicate, db) = serve_site 409 false db o
  after_create_site tid sid o (err not_found, db) = serve_site 500 false db o
  after_create_site tid sid o (err (wrapped e), db) = serve_site 500 false db o

  abbrev pub site_admitted :
      String → CreateSiteRequest → Outside → Option AdmissionError × Db → SiteServed
  site_admitted tid req o (some e, db) = serve_site 409 false db o
  site_admitted tid req o (none, db) =
      after_create_site tid (new_site_id req) o (create_site (site_row_of tid req) db)

  abbrev pub check_request : String → CreateSiteRequest → Db → Outside → SiteServed
  check_request tid req db o =
      if supported req
      then site_admitted tid req o (admission_check mem tid (some (proposed req)) db)
      else serve_site 400 false db o

  abbrev pub tenant_there :
      String → Option CreateSiteRequest → Outside → Result TenantRow × Db → SiteServed
  tenant_there tid req o (err e, db) = serve_site (error_status e) false db o
  tenant_there tid none o (ok t, db) = serve_site 400 false db o
  tenant_there tid (some req) o (ok t, db) =
      if validate_slug_http (codes req.slug)
      then check_request tid (with_defaults req) db o
      else serve_site 400 false db o

  -- `handleCreateSite`.
  unfoldable pub handle_create_site : String → Option CreateSiteRequest → Db → Outside → SiteServed
  unfolding ensure_site_ca supported with_defaults
  handle_create_site tid req db o = tenant_there tid req o (get_tenant tid db)

  abbrev pub finish_site_update :
      String → String → UpdateSiteRequest → Host x → Provided String × (Db × rn.World) → SiteServed
  finish_site_update tid sid req h (out, (db, w)) =
      let (project, db') = tenant_project_id tid db in
      serve_site 204 (triggers_site out)
        (drop_result
          (emit (
            event_of site_update tid sid project (
              concat (
                "{\"codec\":\"" ∷ req.payload_codec ∷ "\",\"direction\":\"" ∷ req.direction ∷ "\"}"
                ∷ []))))
          db')
        (record { files = w; host = h })

  abbrev pub after_site_update :
      String → String → UpdateSiteRequest → Outside → Result (Unit {0}) × Db → SiteServed
  after_site_update tid sid req o (err e, db) = serve_site (error_status e) false db o
  after_site_update tid sid req o (ok u, db) =
      finish_site_update tid sid req o.host
        (render_and_write_site rn sha256_hex data_dir p q secret sid db o.files)

  -- `handleUpdateSite`.
  unfoldable pub handle_update_site :
      String → String → Option UpdateSiteRequest → Db → Outside → SiteServed
  unfolding valid_update
  handle_update_site tid sid none db o = serve_site 400 false db o
  handle_update_site tid sid (some req) db o =
      if valid_update req
      then after_site_update tid sid req o (update_site sid req.payload_codec req.direction db)
      else serve_site 400 false db o
