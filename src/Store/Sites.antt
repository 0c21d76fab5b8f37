-- ===== src/Store/Sites.antt =====
-- internal/store/sqlite/store.go: the methods on `sites`.
use controlai.Prelude.{
  text_before, ℕ, String, Bool, true, false, ◌&&◌, List, select, ◌==◌, length, if◌then◌else◌,
}
use controlai.Store.Tables.Statements.{insert, delete, update, order_by, has, lookup}
use controlai.Store.Rows.{SiteRow}
use controlai.Store.Query.{
  unique_constraint, foreign_key_constraint, wrapped, ok, err, Query, Statement, pure, run,
  transaction, ◌>>=◌, ◌>>◌,
}
use controlai.Store.Tenants.{
  tenant_id_of, as_duplicate, found, require_rows, ignore_rows, delete_sites,
}

abbrev pub site_id_of : SiteRow → String
site_id_of s = s.id

abbrev pub new_site : SiteRow → ℕ → SiteRow
new_site s now = record s { status = "active"; created_at = now; updated_at = now }

unfoldable pub insert_site : SiteRow → Statement Unit
insert_site s now t =
    if has site_id_of s.id t.sites
    then (err (wrapped unique_constraint), t)
    else if has tenant_id_of s.tenant_id t.tenants
    then (ok tt, record t { sites = insert (new_site s now) t.sites })
    else (err (wrapped foreign_key_constraint), t)

unfoldable pub create_site : SiteRow → Query Unit
create_site s db = as_duplicate (run (insert_site s) db)

unfoldable pub select_site : String → Statement SiteRow
select_site id now t = (found (λ s. s) (lookup site_id_of id t.sites), t)

unfoldable pub get_site : String → Query SiteRow
get_site id = run (select_site id)

abbrev by_id : SiteRow → SiteRow → Bool
by_id a b = text_before a.id b.id

unfoldable pub select_sites_of : String → Statement (List SiteRow)
select_sites_of tenant_id now t =
    (ok (order_by by_id (select (λ s. s.tenant_id == tenant_id) t.sites)), t)

unfoldable pub list_sites_by_tenant : String → Query (List SiteRow)
list_sites_by_tenant tenant_id = run (select_sites_of tenant_id)

-- ORDER BY tenant_id, id.
abbrev by_tenant_and_id : SiteRow → SiteRow → Bool
by_tenant_and_id a b =
    if a.tenant_id == b.tenant_id
    then text_before a.id b.id
    else text_before a.tenant_id b.tenant_id

unfoldable pub select_all_sites : Statement (List SiteRow)
select_all_sites now t = (ok (order_by by_tenant_and_id t.sites), t)

unfoldable pub list_all_sites : Query (List SiteRow)
list_all_sites = run select_all_sites

-- DELETE FROM desired_state WHERE site_id = ?.
unfoldable pub delete_desired_of_site : String → Statement Unit
delete_desired_of_site id now t =
    (ok tt, record t { desired_state = delete (λ d. d.site_id == id) t.desired_state })

unfoldable pub purge_site : String → Query Unit
purge_site id = transaction do run (delete_desired_of_site id); run (delete_sites (λ s. s.id == id))

-- UPDATE sites SET … WHERE id = ?: the number of rows affected.
unfoldable pub update_sites : String → (SiteRow → SiteRow) → Statement ℕ
update_sites id f now t = (
  ok (length (select (λ s. site_id_of s == id) t.sites)),
  record t {
    sites = update (λ s. site_id_of s == id) (λ s. record (f s) { updated_at = now }) t.sites;
  },
)

unfoldable pub update_site_status : String → String → Query Unit
update_site_status id status = do
  n ← run (update_sites id (λ s. record s { status = status }))
  ignore_rows n

unfoldable pub delete_site : String → Bool → Query Unit
unfolding purge_site
delete_site id true = purge_site id
delete_site id false = update_site_status id "orphaned"

-- The SET clauses of `UpdateSite`: an empty text leaves its column out.
abbrev pub set_codec_and_direction : String → String → SiteRow → SiteRow
set_codec_and_direction codec direction s = record s {
  payload_codec = if codec == "" then s.payload_codec else codec;
  direction = if direction == "" then s.direction else direction;
}

unfoldable pub update_site : String → String → String → Query Unit
update_site id codec direction =
    if codec == "" && direction == ""
    then pure tt
    else do n ← run (update_sites id (set_codec_and_direction codec direction)); require_rows n
