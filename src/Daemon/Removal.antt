-- ===== src/Daemon/Removal.antt =====
-- internal/daemon/server.go: `handleDeleteTenant` and `handleDeleteSite`.
use controlai.Prelude.{String, Bool, if◌then◌else◌}
use controlai.Store.Rows.{tenant_delete, site_delete}
use controlai.Store.Query.{Result, ok, err, Db}
use controlai.Store.Tenants.{delete_tenant}
use controlai.Store.Sites.{delete_site}
use controlai.Store.Audit.{emit}
use controlai.Daemon.Lifecycle.{
  Reply, Handler, drop_result, reply, event_of, tenant_project_id, set_tenant, set_site,
}

abbrev pub final_state : Bool → String
final_state purge = if purge then "removed" else "stopped"

abbrev pub purge_detail : Bool → String
purge_detail purge = if purge then "{\"purge\":true}" else "{\"purge\":false}"

-- The end of `handleDeleteTenant`.
abbrev pub tenant_gone : Bool → Bool → String → String → Result (Unit {0}) × Db → Reply × Db
tenant_gone has_recon purge tid project (err e, db) = reply 500 has_recon db
tenant_gone has_recon purge tid project (ok u, db) =
    reply 204 has_recon
      (drop_result (emit (event_of tenant_delete tid "" project (purge_detail purge))) db)

unfoldable pub handle_delete_tenant : Bool → String → Bool → Handler
handle_delete_tenant has_recon tid purge db =
    let (project, db') = tenant_project_id tid db in
    tenant_gone has_recon purge tid project
      (delete_tenant tid purge (set_tenant (final_state purge) tid db'))

-- The end of `handleDeleteSite`.
abbrev pub site_gone : Bool → Bool → String → String → Result (Unit {0}) × Db → Reply × Db
site_gone has_recon purge tid sid (err e, db) = reply 500 has_recon db
site_gone has_recon purge tid sid (ok u, db) =
    let (project, db') = tenant_project_id tid db in
    reply 204 has_recon
      (drop_result (emit (event_of site_delete tid sid project (purge_detail purge))) db')

unfoldable pub handle_delete_site : Bool → String → String → Bool → Handler
handle_delete_site has_recon tid sid purge db =
    site_gone has_recon purge tid sid
      (delete_site sid purge (set_site (final_state purge) tid sid db))
