-- ===== src/Store/Tenants.antt =====
-- internal/store/sqlite/store.go: the methods on `tenants`.
use controlai.Prelude.{
  text_before, ℕ, String, Bool, true, false, Option, none, some, List, [], ◌∷◌, map, any, select,
  ◌==◌, concat, length, nat_eq, if◌then◌else◌,
}
use controlai.Store.Tables.Statements.{insert, delete, update, order_by, has, lookup}
use controlai.Store.Tables.References.{cascade}
use controlai.Store.Rows.{TenantRecord, TenantRow, SiteRow}
use controlai.Store.Query.{
  unique_constraint, foreign_key_constraint, not_found, duplicate, wrapped, Result, ok, err, Db,
  Query, Statement, run, transaction, ◌>>=◌, ◌>>◌,
}

-- `nullableStr`.
abbrev pub nullable_str : String → Option String
nullable_str s = if s == "" then none else some s

-- COALESCE(project_id, '').
abbrev pub coalesce : Option String → String
coalesce none = ""
coalesce (some s) = s

-- `isSQLiteDuplicate` and the `return ErrDuplicate` that it guards.
abbrev pub as_duplicate : {A : Type 0} → Result A × Db → Result A × Db
as_duplicate (ok a, db) = (ok a, db)
as_duplicate (err (wrapped unique_constraint), db) = (err duplicate, db)
as_duplicate (err e, db) = (err e, db)

abbrev pub scan_tenant : TenantRecord → TenantRow
scan_tenant r = record {
  id = r.id;
  name = r.name;
  domain = r.domain;
  retention = r.retention;
  schema_version = r.schema_version;
  status = r.status;
  project_id = coalesce r.project_id;
  created_at = r.created_at;
  updated_at = r.updated_at;
}

abbrev pub tenant_id_of : TenantRecord → String
tenant_id_of r = r.id

abbrev pub new_tenant : TenantRow → ℕ → TenantRecord
new_tenant t now = record {
  id = t.id;
  name = t.name;
  domain = t.domain;
  retention = t.retention;
  schema_version = t.schema_version;
  status = "active";
  project_id = nullable_str t.project_id;
  created_at = now;
  updated_at = now;
}

unfoldable pub insert_tenant : TenantRow → Statement Unit
insert_tenant r now t =
    if has tenant_id_of r.id t.tenants
    then (err (wrapped unique_constraint), t)
    else (ok tt, record t { tenants = insert (new_tenant r now) t.tenants })

unfoldable pub create_tenant : TenantRow → Query Unit
create_tenant r db = as_duplicate (run (insert_tenant r) db)

abbrev pub found : {A B : Type 0} → (A → B) → Option A → Result B
found f none = err not_found
found f (some a) = ok (f a)

unfoldable pub select_tenant : String → Statement TenantRow
select_tenant id now t = (found scan_tenant (lookup tenant_id_of id t.tenants), t)

unfoldable pub get_tenant : String → Query TenantRow
get_tenant id = run (select_tenant id)

abbrev by_tenant_id : TenantRecord → TenantRecord → Bool
by_tenant_id a b = text_before a.id b.id

unfoldable pub select_tenants : (TenantRecord → Bool) → Statement (List TenantRow)
select_tenants p now t = (ok (map scan_tenant (order_by by_tenant_id (select p t.tenants))), t)

unfoldable pub list_tenants : Query (List TenantRow)
list_tenants = run (select_tenants (λ _. true))

-- WHERE project_id IS NULL OR project_id = ''.
abbrev is_untagged : TenantRecord → Bool
is_untagged r = coalesce r.project_id == ""

-- WHERE project_id = ?: NULL equals nothing.
abbrev is_tagged : String → TenantRecord → Bool
is_tagged tag r = elim r.project_id [ none ↦ false | some p ↦ p == tag ]

unfoldable pub list_tenants_filtered : Option String → Query (List TenantRow)
list_tenants_filtered none = list_tenants
list_tenants_filtered (some filter) =
    if filter == ""
    then run (select_tenants is_untagged)
    else run (select_tenants (is_tagged filter))

-- UPDATE tenants SET … WHERE id = ?: the number of rows affected.
unfoldable pub update_tenants : String → (TenantRecord → TenantRecord) → Statement ℕ
update_tenants id f now t = (
  ok (length (select (λ r. tenant_id_of r == id) t.tenants)),
  record t {
    tenants = update (λ r. tenant_id_of r == id) (λ r. record (f r) { updated_at = now }) t.tenants;
  },
)

-- `if n == 0 { return ErrNotFound }`.
abbrev pub require_rows : ℕ → Query Unit
require_rows n db = (if nat_eq n 0 then err not_found else ok tt, db)

unfoldable pub update_tenant_project_id : String → String → Query Unit
update_tenant_project_id id project_id = do
  n ← run (update_tenants id (λ r. record r { project_id = nullable_str project_id }))
  require_rows n

-- `_, err := …`: the number of rows is not looked at.
abbrev pub ignore_rows : ℕ → Query Unit
ignore_rows n db = (ok tt, db)

unfoldable pub update_tenant_status : String → String → Query Unit
update_tenant_status id status = do
  n ← run (update_tenants id (λ r. record r { status = status }))
  ignore_rows n

unfoldable pub update_tenant_retention : String → String → Query Unit
update_tenant_retention id retention = do
  n ← run (update_tenants id (λ r. record r { retention = retention }))
  require_rows n

-- DELETE FROM desired_state WHERE tenant_id = ?.
unfoldable pub delete_desired_of_tenant : String → Statement Unit
delete_desired_of_tenant id now t =
    (ok tt, record t { desired_state = delete (λ d. d.tenant_id == id) t.desired_state })

-- DELETE FROM desired_state WHERE project_id = ?.
unfoldable pub delete_desired_project : String → Statement Unit
delete_desired_project project_id now t =
    (ok tt, record t { desired_state = delete (λ d. d.project_id == project_id) t.desired_state })

-- DELETE FROM sites WHERE …, with ON DELETE CASCADE to cas, certs and emqx_api_keys.
unfoldable pub delete_sites : (SiteRow → Bool) → Statement Unit
delete_sites p now t = (
  ok tt,
  record t {
    sites = delete p t.sites;
    cas = cascade (λ c. c.site_id) (λ s. s.id) p t.sites t.cas;
    certs = cascade (λ c. c.site_id) (λ s. s.id) p t.sites t.certs;
    emqx_api_keys = cascade (λ c. c.site_id) (λ s. s.id) p t.sites t.emqx_api_keys;
  },
)

-- DELETE FROM tenants WHERE id = ?: RESTRICT for sites, CASCADE for tsdb_credentials.
unfoldable pub delete_tenants : String → Statement Unit
delete_tenants id now t =
    if any (λ s. has tenant_id_of s.tenant_id (select (λ r. r.id == id) t.tenants)) t.sites
    then (err (wrapped foreign_key_constraint), t)
    else (
      ok tt,
      record t {
        tenants = delete (λ r. r.id == id) t.tenants;
        tsdb_credentials =
            cascade (λ c. c.tenant_id) tenant_id_of (λ r. r.id == id) t.tenants t.tsdb_credentials;
      },
    )

unfoldable pub purge_tenant : String → Query Unit
purge_tenant id = transaction do
  run (delete_desired_of_tenant id)
  run (delete_desired_project (concat (id ∷ "-tsdb" ∷ [])))
  run (delete_sites (λ s. s.tenant_id == id))
  run (delete_tenants id)

unfoldable pub delete_tenant : String → Bool → Query Unit
unfolding purge_tenant
delete_tenant id true = purge_tenant id
delete_tenant id false = update_tenant_status id "orphaned"
