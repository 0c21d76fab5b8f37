-- ===== src/Daemon/Stops.antt =====
-- What the handlers of internal/daemon/server.go leave as the desired states.
use controlai.Prelude.{
  text_before, ℕ, String, ◌==◌, Bool, true, false, ◌&&◌, ◌||◌, Option, none, some, List, [], ◌∷◌,
  any, select, ◌≡◌, refl, ◌∙◌, ap, arith, if◌then◌else◌, Bool-cases, Option-cases, inl, inr,
}
use controlai.Store.Tables.Statements.{lookup, has, place, order_by}
use controlai.Store.Tables.Lookups.{lookup-upsert, has-lookup, has-lookup_some, merged}
use controlai.Store.Rows.{SiteRow, DesiredStateRow, Tables}
use controlai.Store.Query.{run}
use controlai.Store.RoundTrips.{quiet}
use controlai.Store.Tenants.{tenant_id_of, get_tenant, select_tenant}
use controlai.Store.Sites.{list_sites_by_tenant, select_sites_of}
use controlai.Store.States.{
  project_of, merge_desired, stamp_desired, put_desired, upsert_desired_state,
}
use controlai.Store.Audit.{emit, insert_event}
use controlai.Daemon.Lifecycle.{
  tsdb_project, site_project, desired_row, set_sites, set_tenant, handle_stop_tenant,
}

-- The state that a project is to have, if any.
abbrev state_in : Option DesiredStateRow → Option String
state_in none = none
state_in (some d) = some d.state

abbrev pub wanted_state : String → Tables → Option String
wanted_state j t = state_in (lookup project_of j t.desired_state)

abbrev pub put_row : DesiredStateRow → ℕ → Tables → Tables
put_row d now t = (put_desired d now t).1

state_in-merged :
    (d : DesiredStateRow) (r : Option DesiredStateRow)
    → state_in (some (merged project_of merge_desired d r)) ≡ some d.state
state_in-merged d none = refl
state_in-merged d (some r) = refl

wanted_state-put_row :
    (j : String) (d : DesiredStateRow) (now : ℕ) (t : Tables)
    → wanted_state j (put_row d now t)
      ≡ (if d.project_id == j then some d.state else wanted_state j t)
unfolding put_desired
wanted_state-put_row j d now t =
    rw
      (lookup-upsert project_of merge_desired (λ s r. refl) (stamp_desired now d) j t.desired_state)
      (elim (Bool-cases (d.project_id == j)) [
        | inl e ↦ rw e (state_in-merged (stamp_desired now d) (lookup project_of j t.desired_state))
        | inr e ↦ rw e refl
      ])

abbrev pub put_sites : String → String → List SiteRow → ℕ → Tables → Tables
put_sites state tid [] now t = t
put_sites state tid (s ∷ rest) now t =
    put_sites state tid rest now
      (put_row (desired_row (site_project tid s.id) tid s.id state) now t)

set_sites-quiet :
    (state tid : String) (sites : List SiteRow) (now : ℕ) (t : Tables)
    → set_sites state tid sites (quiet now t) ≡ quiet now (put_sites state tid sites now t)
unfolding set_sites upsert_desired_state run put_desired
set_sites-quiet state tid [] now t = refl
set_sites-quiet state tid (s ∷ rest) now t =
    set_sites-quiet state tid rest now
      (put_row (desired_row (site_project tid s.id) tid s.id state) now t)

if_or :
    {A : Type 0} (x y : Bool) (a b : A)
    → (if x then a else if y then a else b) ≡ (if y || x then a else b)
if_or true true a b = refl
if_or true false a b = refl
if_or false true a b = refl
if_or false false a b = refl

wanted_state-put_sites :
    (j state tid : String) (sites : List SiteRow) (now : ℕ) (t : Tables)
    → wanted_state j (put_sites state tid sites now t)
      ≡ (if any (λ s. site_project tid s.id == j) sites then some state else wanted_state j t)
wanted_state-put_sites j state tid [] now t = refl
wanted_state-put_sites j state tid (s ∷ rest) now t =
    wanted_state-put_sites j state tid rest now
      (put_row (desired_row (site_project tid s.id) tid s.id state) now t)
    ∙ rw (wanted_state-put_row j (desired_row (site_project tid s.id) tid s.id state) now t)
        (if_or (any (λ r. site_project tid r.id == j) rest) (site_project tid s.id == j) _ _)

module _ {R : Type 0} (p : R → Bool) (before : R → R → Bool) where
  any-place : (r : R) (rows : List R) → any p (place before r rows) ≡ (p r || any p rows)
  unfolding place
  any-place r [] = refl
  any-place r (s ∷ rows) = ground (arith, any-place r rows)

  pub any-order_by : (rows : List R) → any p (order_by before rows) ≡ any p rows
  unfolding order_by
  any-order_by [] = refl
  any-order_by (r ∷ rows) =
      any-place r (order_by before rows) ∙ ap (λ b. p r || b) (any-order_by rows)

module _ {R : Type 0} (p : R → Bool) where
  pub any-select :
      (q : R → Bool) (rows : List R) → any p (select q rows) ≡ any (λ r. q r && p r) rows
  any-select q [] = refl
  any-select q (r ∷ rows) = ground (arith, any-select q rows)

-- Whether a project is the tenant's TSDB project, or that of one of its sites.
abbrev pub is_project_of : String → String → List SiteRow → Bool
is_project_of tid j sites =
    tsdb_project tid == j || any (λ s. s.tenant_id == tid && site_project tid s.id == j) sites

abbrev pub listed_sites : String → Tables → List SiteRow
listed_sites tid t =
    order_by (λ a b. text_before a.id b.id) (select (λ s. s.tenant_id == tid) t.sites)

abbrev pub tsdb_row : String → String → DesiredStateRow
tsdb_row state tid = desired_row (tsdb_project tid) tid "" state

abbrev pub put_tenant : String → String → ℕ → Tables → Tables
put_tenant state tid now t =
    put_sites state tid (listed_sites tid t) now (put_row (tsdb_row state tid) now t)

pub set_tenant-quiet :
    (state tid : String) (now : ℕ) (t : Tables)
    → set_tenant state tid (quiet now t) ≡ quiet now (put_tenant state tid now t)
unfolding set_tenant list_sites_by_tenant select_sites_of upsert_desired_state run put_desired
set_tenant-quiet state tid now t =
    set_sites-quiet state tid (listed_sites tid t) now (put_row (tsdb_row state tid) now t)

pub wanted_state-put_tenant :
    (state tid j : String) (now : ℕ) (t : Tables)
    → wanted_state j (put_tenant state tid now t)
      ≡ (if is_project_of tid j t.sites then some state else wanted_state j t)
wanted_state-put_tenant state tid j now t =
    wanted_state-put_sites j state tid (listed_sites tid t) now (put_row (tsdb_row state tid) now t)
    ∙ rw
        (
          wanted_state-put_row j (tsdb_row state tid) now t,
          any-order_by (λ s. site_project tid s.id == j) (λ a b. text_before a.id b.id)
              (select (λ s. s.tenant_id == tid) t.sites),
          any-select (λ s. site_project tid s.id == j) (λ s. s.tenant_id == tid) t.sites,
        )
        (if_or (any (λ s. s.tenant_id == tid && site_project tid s.id == j) t.sites)
          (tsdb_project tid == j) _ _)

-- Where no statement fails: `handleStopTenant` of a tenant that is not there answers 404 and changes no desired state. Of one that
-- is there it answers 202, and then the project of its TSDB and those of all its sites are to be
-- stopped, and every other project has the desired state that it had.
pub handle_stop_tenant-stops :
    (has_recon : Bool) (tid j : String) (now : ℕ) (t : Tables)
    → ((handle_stop_tenant has_recon tid (quiet now t)).0.status
        ≡ (if has tenant_id_of tid t.tenants then 202 else 404))
      × (wanted_state j (handle_stop_tenant has_recon tid (quiet now t)).1.tables ≡ (
          if has tenant_id_of tid t.tenants && is_project_of tid j t.sites
          then some "stopped"
          else wanted_state j t))
unfolding handle_stop_tenant get_tenant select_tenant emit insert_event run
handle_stop_tenant-stops has_recon tid j now t =
    elim (Bool-cases (has tenant_id_of tid t.tenants)) [
      | inl e ↦ elim (Option-cases (lookup tenant_id_of tid t.tenants)) [
        | inl missing ↦ absurd (has-lookup_some tenant_id_of tid t.tenants e missing)
        | inr (r, found) ↦
            rw (e, found, set_tenant-quiet "stopped" tid now t)
              (refl, wanted_state-put_tenant "stopped" tid j now t)
      ]
      | inr e ↦ rw (e, has-lookup tenant_id_of tid t.tenants e) (refl, refl)
    ]
