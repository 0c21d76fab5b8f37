-- ===== src/Daemon/TenantHandlers.antt =====
-- internal/daemon/server.go: the handlers that create, list, get and update tenants. A request is `none`
-- where its body is not the JSON that the handler expects. Replies have the status, whether the
-- reconciler is triggered, and the rows that a body holds.
use controlai.Prelude.{
  ℕ, String, ◌==◌, ℤ, pos, Bool, true, false, not, Option, none, some, List, [], ◌∷◌, codes, concat,
  if◌then◌else◌,
}
use controlai.Config.Slugs.{validate_slug_http, validate_project_id_http}
use controlai.Config.Tenants.{valid_retention}
use controlai.Store.Rows.{TenantRow, tenant_create, tenant_update}
use controlai.Store.Query.{not_found, duplicate, wrapped, Result, ok, err, Db}
use controlai.Store.Tenants.{
  create_tenant, get_tenant, list_tenants_filtered, update_tenant_retention,
  update_tenant_project_id,
}
use controlai.Store.Audit.{emit}
use controlai.Daemon.Admission.{AdmissionError, admission_check}
use controlai.Daemon.Lifecycle.{Reply, drop_result, error_status, event_of}
use controlai.Daemon.Rendering.{Renderer, Provided, provided, failed, render_and_write_tsdb}

pub record CreateTenantRequest : Type 0 where
  pub slug : String
  pub name : String
  pub domain : String
  pub retention : String
  pub project_id : String

pub record UpdateTenantRequest : Type 0 where
  pub retention : Option String
  pub project_id : Option String

abbrev pub new_tenant_id : CreateTenantRequest → String
new_tenant_id req = concat ("tnt_" ∷ req.slug ∷ [])

abbrev pub row_of : CreateTenantRequest → TenantRow
row_of req = record {
  id = new_tenant_id req;
  name = req.name;
  domain = req.domain;
  retention = if req.retention == "" then "7d" else req.retention;
  schema_version = pos 1;
  status = "";
  project_id = req.project_id;
  created_at = 0;
  updated_at = 0;
}

-- An empty project identifier is not checked.
abbrev pub acceptable_project : String → Bool
acceptable_project pid = if pid == "" then true else validate_project_id_http (codes pid)

abbrev pub Listed : Type 0
Listed = (ℕ × List TenantRow) × Db

abbrev pub list_reply : Result (List TenantRow) × Db → Listed
list_reply (ok rows, db) = ((200, rows), db)
list_reply (err e, db) = ((500, []), db)

-- `handleListTenants`; `filter` is the query parameter `project_id`, where it is there.
unfoldable pub handle_list_tenants : Option String → Db → Listed
handle_list_tenants none db = list_reply (list_tenants_filtered none db)
handle_list_tenants (some pid) db =
    if acceptable_project pid
    then list_reply (list_tenants_filtered (some pid) db)
    else ((400, []), db)

abbrev pub Got : Type 0
Got = (ℕ × Option TenantRow) × Db

abbrev pub get_reply : Result TenantRow × Db → Got
get_reply (ok row, db) = ((200, some row), db)
get_reply (err e, db) = ((error_status e, none), db)

-- `handleGetTenant`.
unfoldable pub handle_get_tenant : String → Db → Got
handle_get_tenant tid db = get_reply (get_tenant tid db)

-- The status of a failed step, `none` where it went well.
abbrev pub step_status : Result (Unit {0}) × Db → Option ℕ × Db
step_status (ok u, db) = (none, db)
step_status (err e, db) = (some (error_status e), db)

-- `req.Retention != nil && *req.Retention != ""`.
abbrev pub given : Option String → Option String
given none = none
given (some r) = if r == "" then none else some r

abbrev pub change_retention : String → Option String → Db → Option ℕ × Db
change_retention tid none db = (none, db)
change_retention tid (some r) db =
    if valid_retention r then step_status (update_tenant_retention tid r db) else (some 400, db)

abbrev pub change_project : String → Option String → Db → Option ℕ × Db
change_project tid none db = (none, db)
change_project tid (some pid) db =
    if acceptable_project pid
    then step_status (update_tenant_project_id tid pid db)
    else (some 400, db)

-- `installBackupTimer`: the unit is written and enabled outside dev mode; errors are dropped.
abbrev pub install_backup_timer : {W : Type 0} → Bool → (String → W → W) → String → W → W
install_backup_timer true enable tid w = w
install_backup_timer false enable tid w = enable tid w

abbrev pub text_of : Option String → String
text_of none = ""
text_of (some r) = r

-- `enable` writes and enables the timer of a tenant; `p` and `q` are the texts of `randomHex`.
module _ (rn : Renderer) (sha256_hex : String → String) (data_dir : String)
    (has_recon dev_mode : Bool) (enable : String → rn.World → rn.World) (mem : Option ℤ)
    (p q : String) where
  abbrev pub Served : Type 0
  Served = Reply × (Db × rn.World)

  abbrev pub serve : ℕ → Bool → Db → rn.World → Served
  serve status triggered db w = (record { status = status; triggered = triggered }, (db, w))

  -- Whether the reconciler is triggered after a rendering.
  abbrev pub triggers : Provided String → Bool
  triggers (provided hash) = has_recon
  triggers (failed e) = false

  abbrev pub finish_create : CreateTenantRequest → Provided String × (Db × rn.World) → Served
  finish_create req (out, (db, w)) =
      serve 201 (triggers out)
        (drop_result (emit (event_of tenant_create (new_tenant_id req) "" req.project_id "")) db)
        (install_backup_timer dev_mode enable (new_tenant_id req) w)

  abbrev pub after_create : CreateTenantRequest → rn.World → Result (Unit {0}) × Db → Served
  after_create req w (ok u, db) =
      finish_create req (render_and_write_tsdb rn sha256_hex data_dir p q (new_tenant_id req) db w)
  after_create req w (err duplicate, db) = serve 409 false db w
  after_create req w (err not_found, db) = serve 500 false db w
  after_create req w (err (wrapped e), db) = serve 500 false db w

  abbrev pub after_admission : CreateTenantRequest → rn.World → Option AdmissionError × Db → Served
  after_admission req w (some e, db) = serve 409 false db w
  after_admission req w (none, db) = after_create req w (create_tenant (row_of req) db)

  -- `handleCreateTenant`.
  unfoldable pub handle_create_tenant : Option CreateTenantRequest → Db → rn.World → Served
  handle_create_tenant none db w = serve 400 false db w
  handle_create_tenant (some req) db w =
      if not (validate_slug_http (codes req.slug))
      then serve 400 false db w
      else if not (acceptable_project req.project_id)
      then serve 400 false db w
      else after_admission req w (admission_check mem (new_tenant_id req) none db)

  abbrev pub Updated : Type 0
  Updated = (Reply × Option TenantRow) × (Db × rn.World)

  abbrev pub updated : ℕ → Bool → Option TenantRow → Db → rn.World → Updated
  updated status triggered row db w =
      ((record { status = status; triggered = triggered }, row), (db, w))

  abbrev pub finish_update :
      String → UpdateTenantRequest → Bool → rn.World → Result TenantRow × Db → Updated
  finish_update tid req triggered w (err e, db) = updated (error_status e) triggered none db w
  finish_update tid req triggered w (ok row, db) =
      updated 200 triggered (some row)
        (drop_result
          (emit (
            event_of tenant_update tid "" row.project_id
              (concat ("{\"retention\":\"" ∷ text_of req.retention ∷ "\"}" ∷ []))))
          db)
        w

  abbrev pub after_render :
      String → UpdateTenantRequest → Provided String × (Db × rn.World) → Updated
  after_render tid req (out, (db, w)) = finish_update tid req (triggers out) w (get_tenant tid db)

  -- The files are rendered again where a retention is given.
  abbrev pub render_again : String → UpdateTenantRequest → Option String → Db → rn.World → Updated
  render_again tid req none db w = finish_update tid req false w (get_tenant tid db)
  render_again tid req (some r) db w =
      after_render tid req (render_and_write_tsdb rn sha256_hex data_dir p q tid db w)

  abbrev pub after_project : String → UpdateTenantRequest → rn.World → Option ℕ × Db → Updated
  after_project tid req w (some status, db) = updated status false none db w
  after_project tid req w (none, db) = render_again tid req (given req.retention) db w

  abbrev pub after_retention : String → UpdateTenantRequest → rn.World → Option ℕ × Db → Updated
  after_retention tid req w (some status, db) = updated status false none db w
  after_retention tid req w (none, db) =
      after_project tid req w (change_project tid req.project_id db)

  -- `handleUpdateTenant`.
  unfoldable pub handle_update_tenant :
      String → Option UpdateTenantRequest → Db → rn.World → Updated
  handle_update_tenant tid none db w = updated 400 false none db w
  handle_update_tenant tid (some req) db w =
      after_retention tid req w (change_retention tid (given req.retention) db)
