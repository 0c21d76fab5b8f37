-- ===== src/Daemon/Lifecycle.antt =====
-- internal/daemon/server.go: the handlers that delete, start and stop tenants and sites, over the
-- store. A reply has the status code, and whether the reconciler is triggered; the trigger runs in a
-- goroutine of its own, so it is no part of the handler's effect on the store.
use controlai.Prelude.{ℕ, String, ◌==◌, Bool, true, false, List, [], ◌∷◌, concat, if◌then◌else◌}
use controlai.Store.Rows.{
  TenantRow, SiteRow, DesiredStateRow, Event, Kind, tenant_update, site_start, site_stop,
}
use controlai.Store.Query.{StoreError, not_found, duplicate, wrapped, Result, ok, err, Db, Query}
use controlai.Store.Tenants.{get_tenant, update_tenant_status}
use controlai.Store.Sites.{get_site, list_sites_by_tenant}
use controlai.Store.States.{upsert_desired_state}
use controlai.Store.Audit.{emit}

pub record Reply : Type 0 where
  pub status : ℕ
  pub triggered : Bool

abbrev pub Handler : Type 0
Handler = Db → Reply × Db

-- `_ = …`.
abbrev pub drop_result : {A : Type 0} → Query A → Db → Db
drop_result q db = (q db).1

abbrev pub reply : ℕ → Bool → Db → Reply × Db
reply status triggered db = (record { status = status; triggered = triggered }, db)

-- `ErrNotFound` is 404 and any other error 500.
abbrev pub error_status : StoreError → ℕ
error_status not_found = 404
error_status duplicate = 500
error_status (wrapped e) = 500

abbrev pub tsdb_project : String → String
tsdb_project tid = concat (tid ∷ "-tsdb" ∷ [])

abbrev pub site_project : String → String → String
site_project tid sid = concat (tid ∷ "-" ∷ sid ∷ [])

abbrev pub desired_row : String → String → String → String → DesiredStateRow
desired_row project tid sid state = record {
  project_id = project;
  tenant_id = tid;
  site_id = sid;
  state = state;
  config_hash = "";
  updated_at = 0;
}

abbrev pub event_of : Kind → String → String → String → String → Event
event_of kind tid sid project detail = record {
  id = 0;
  kind = kind;
  tenant_id = tid;
  site_id = sid;
  actor_ip = "";
  detail = detail;
  success = true;
  project_id = project;
  created_at = 0;
}

-- `tenantProjectID`.
abbrev project_or_empty : Result TenantRow → String
project_or_empty (ok t) = t.project_id
project_or_empty (err e) = ""

unfoldable pub tenant_project_id : String → Db → String × Db
tenant_project_id tid db =
    if tid == "" then ("", db) else let (r, db') = get_tenant tid db in (project_or_empty r, db')

abbrev pub set_tsdb : String → String → Db → Db
set_tsdb state tid =
    drop_result (upsert_desired_state (desired_row (tsdb_project tid) tid "" state))

abbrev pub set_site : String → String → String → Db → Db
set_site state tid sid =
    drop_result (upsert_desired_state (desired_row (site_project tid sid) tid sid state))

-- The loop over the sites.
unfoldable pub set_sites : String → String → List SiteRow → Db → Db
set_sites state tid [] db = db
set_sites state tid (s ∷ rest) db = set_sites state tid rest (set_site state tid s.id db)

abbrev pub set_listed : String → String → Result (List SiteRow) × Db → Db
set_listed state tid (err e, db) = db
set_listed state tid (ok sites, db) = set_sites state tid sites db

-- The state for the TSDB project and then for every site of the tenant.
unfoldable pub set_tenant : String → String → Db → Db
unfolding set_sites
set_tenant state tid db = set_listed state tid (list_sites_by_tenant tid (set_tsdb state tid db))

-- `handleStopTenant`; `has_recon` is `s.recon != nil`.
abbrev stop_found : Bool → String → Result TenantRow × Db → Reply × Db
stop_found has_recon tid (err e, db) = reply (error_status e) false db
stop_found has_recon tid (ok tenant, db) = reply 202 has_recon (
    drop_result (emit (event_of tenant_update tid "" tenant.project_id "{\"action\":\"stop\"}"))
      (set_tenant "stopped" tid db))

unfoldable pub handle_stop_tenant : Bool → String → Handler
handle_stop_tenant has_recon tid db = stop_found has_recon tid (get_tenant tid db)

-- `handleStartTenant`.
abbrev start_found : Bool → String → Result TenantRow × Db → Reply × Db
start_found has_recon tid (err e, db) = reply (error_status e) false db
start_found has_recon tid (ok tenant, db) = reply 202 has_recon (
    drop_result (emit (event_of tenant_update tid "" tenant.project_id "{\"action\":\"start\"}"))
      (drop_result (update_tenant_status tid "active") (set_tsdb "running" tid db)))

unfoldable pub handle_start_tenant : Bool → String → Handler
handle_start_tenant has_recon tid db = start_found has_recon tid (get_tenant tid db)

-- `handleStartSite` and `handleStopSite`, which differ in the state and the kind of the event.
abbrev site_found : Bool → String → Kind → String → String → Result SiteRow × Db → Reply × Db
site_found has_recon state kind tid sid (err e, db) = reply (error_status e) false db
site_found has_recon state kind tid sid (ok site, db) =
    let (project, db') = tenant_project_id tid (set_site state tid sid db) in
    reply 202 has_recon (drop_result (emit (event_of kind tid sid project "")) db')

unfoldable pub handle_start_site : Bool → String → String → Handler
handle_start_site has_recon tid sid db =
    site_found has_recon "running" site_start tid sid (get_site sid db)

unfoldable pub handle_stop_site : Bool → String → String → Handler
handle_stop_site has_recon tid sid db =
    site_found has_recon "stopped" site_stop tid sid (get_site sid db)
