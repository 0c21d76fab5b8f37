-- ===== src/Store/RoundTrips.antt =====
-- What the store answers after it has written, where no statement fails.
use controlai.Prelude.{
  ℕ, String, not, ◌≡◌, refl, [], ◌==◌, ◌&&◌, arith, if◌then◌else◌, Bool-cases, inl, inr,
}
use controlai.Store.Tables.Statements.{has, lookup}
use controlai.Store.Tables.Lookups.{lookup-insert, lookup-upsert, merged}
use controlai.Store.Rows.{TenantRow, DesiredStateRow, Tables}
use controlai.Store.Query.{ok, err, duplicate, Db, run}
use controlai.Store.Tenants.{
  tenant_id_of, new_tenant, scan_tenant, create_tenant, insert_tenant, get_tenant, select_tenant,
}
use controlai.Store.States.{
  project_of, merge_desired, stamp_desired, upsert_desired_state, put_desired, get_desired_state,
  select_desired,
}

-- The handle at a time of the clock, with no failing statement ahead.
abbrev pub quiet : ℕ → Tables → Db
quiet now t = record { tables = t; now = now; faults = [] }

-- Where no statement fails, for every row and every identifier j: `CreateTenant` answers `ErrDuplicate` exactly when the
-- identifier of the row is in use; if it is free, `GetTenant` answers it afterwards with what was
-- given, the status "active" and the time. Every other answer of `GetTenant` is as before.
pub get_tenant-create_tenant :
    (r : TenantRow) (j : String) (now : ℕ) (t : Tables)
    → ((create_tenant r (quiet now t)).0
        ≡ (if has tenant_id_of r.id t.tenants then err duplicate else ok tt))
      × ((get_tenant j (create_tenant r (quiet now t)).1).0 ≡ (
          if not (has tenant_id_of r.id t.tenants) && r.id == j
          then ok (scan_tenant (new_tenant r now))
          else (get_tenant j (quiet now t)).0))
unfolding create_tenant insert_tenant get_tenant select_tenant run
get_tenant-create_tenant r j now t = elim (Bool-cases (has tenant_id_of r.id t.tenants)) [
  | inl e ↦ rw e (refl, refl)
  | inr e ↦
      rw e (refl, rw (lookup-insert tenant_id_of j (new_tenant r now) t.tenants e) (ground arith))
]

-- Where no statement fails, `UpsertDesiredState` writes the state and the hash of its project, keeps the
-- tenant and the site of a row that is there, and changes the answer for no other project.
get_desired_state-upsert :
    (d : DesiredStateRow) (j : String) (now : ℕ) (t : Tables)
    → (get_desired_state j (upsert_desired_state d (quiet now t)).1).0 ≡ (
        if d.project_id == j
        then ok (
            merged project_of merge_desired
              (stamp_desired now d)
              (lookup project_of j t.desired_state))
        else (get_desired_state j (quiet now t)).0)
unfolding get_desired_state select_desired upsert_desired_state put_desired run
get_desired_state-upsert d j now t =
    rw
      (lookup-upsert project_of merge_desired (λ s r. refl) (stamp_desired now d) j t.desired_state)
      (ground arith)
