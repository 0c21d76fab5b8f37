-- ===== src/Daemon/Updates.antt =====
-- internal/daemon/server.go: what `handleUpdateTenant` and `handleCreateTenant` leave behind when they refuse.
use controlai.Prelude.{
  ℕ, String, ℤ, ◌==◌, eq_refl, nat_eq, Bool, true, false, Option, some, List, [], ◌∷◌, ◌≡◌, refl,
  length, select, Bool-cases, inl, inr, arith,
}
use controlai.Config.Tenants.{valid_retention}
use controlai.Store.Tables.Statements.{lookup, update}
use controlai.Store.Tables.Lookups.{lookup-update}
use controlai.Store.Rows.{TenantRecord, Tables}
use controlai.Store.Query.{ok, Db, run}
use controlai.Store.RoundTrips.{quiet}
use controlai.Store.Tenants.{
  tenant_id_of, scan_tenant, update_tenants, update_tenant_retention, get_tenant, select_tenant,
}
use controlai.Daemon.Rendering.{Renderer}
use controlai.Daemon.TenantHandlers.{
  UpdateTenantRequest, acceptable_project, handle_update_tenant, Updated,
}

counted :
    (k : String) (row : TenantRecord) (rows : List TenantRecord)
    → lookup tenant_id_of k rows ≡ some row
    → nat_eq (length (select (λ r. tenant_id_of r == k) rows)) 0 ≡ false
counted k row [] h = absurd (cc h)
counted k row (r ∷ rows) h = elim (Bool-cases (tenant_id_of r == k)) [
  | inl e ↦ rw e (ground arith)
  | inr e ↦ rw e (counted k row rows (ground (arith, h, e)))
]

abbrev pub with_retention : String → ℕ → TenantRecord → TenantRecord
with_retention r now s = record s { retention = r; updated_at = now }

update_tenant_retention-quiet :
    (tid r : String) (row : TenantRecord) (now : ℕ) (t : Tables)
    → lookup tenant_id_of tid t.tenants ≡ some row
    → update_tenant_retention tid r (quiet now t) ≡ (
      ok tt,
      quiet now (record t {
        tenants = update (λ s. tenant_id_of s == tid) (with_retention r now) t.tenants;
      }),
    )
unfolding update_tenant_retention update_tenants run
update_tenant_retention-quiet tid r row now t h = rw (counted tid row t.tenants h) refl

-- A request for a retention and a project.
abbrev pub both : String → String → UpdateTenantRequest
both r pid = record { retention = some r; project_id = some pid }

module _ (rn : Renderer) (sha256_hex : String → String) (data_dir : String)
    (has_recon dev_mode : Bool) (enable : String → rn.World → rn.World) (mem : Option ℤ)
    (p q : String) where
  abbrev pub updating :
      String
      → UpdateTenantRequest
      → Db
      → rn.World
      → Updated rn sha256_hex data_dir has_recon dev_mode enable mem p q
  updating tid req db w =
      handle_update_tenant rn sha256_hex data_dir has_recon dev_mode enable mem p q tid (some req)
        db w

  -- For a tenant that is there and where no statement fails: an update with a retention that is valid and a
  -- project identifier that is not is refused with 400, but the retention is stored all the same, and no
  -- file is rendered for it.
  pub handle_update_tenant-keeps_half :
      (tid r pid : String) (row : TenantRecord) (now : ℕ) (t : Tables) (w : rn.World)
      → lookup tenant_id_of tid t.tenants ≡ some row
      → (r == "") ≡ false
      → valid_retention r ≡ true
      → acceptable_project pid ≡ false
      → ((updating tid (both r pid) (quiet now t) w).0.0.status ≡ 400)
        × ((updating tid (both r pid) (quiet now t) w).1.1 ≡ w)
        × ((get_tenant tid (updating tid (both r pid) (quiet now t) w).1.0).0
            ≡ ok (scan_tenant (with_retention r now row)))
  unfolding handle_update_tenant get_tenant select_tenant run
  handle_update_tenant-keeps_half tid r pid row now t w h given_r valid refused =
      rw (given_r, valid, update_tenant_retention-quiet tid r row now t h, refused)
        (
          refl,
          refl,
          rw
              (
                lookup-update tenant_id_of (with_retention r now) (λ s. refl) tid tid t.tenants,
                h,
                eq_refl tid,
              )
              refl,
        )
