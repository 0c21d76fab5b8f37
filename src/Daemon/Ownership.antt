-- ===== src/Daemon/Ownership.antt =====
-- Which desired states are stored under a tenant, through `handleDeleteTenant` of internal/daemon/server.go.
use controlai.Prelude.{
  ℕ, String, ◌==◌, Bool, true, false, not, ◌||◌, List, [], ◌∷◌, any, all, ◌≡◌, refl, arith, eq_refl,
  Bool-cases, inl, inr, select,
}
use controlai.Store.Tables.Statements.{insert, delete, update, has}
use controlai.Store.Rows.{SiteRow, DesiredStateRow, Tables}
use controlai.Store.Keeps.{Keeps, run-Keeps, then-Keeps, transaction-Keeps}
use controlai.Store.Tenants.{
  tenant_id_of, purge_tenant, delete_desired_of_tenant, delete_desired_project, delete_sites,
  delete_tenants,
}
use controlai.Store.States.{project_of, merge_desired, stamp_desired, put_desired}
use controlai.Store.Integrity.Predicate.{site_tenant}
use controlai.Daemon.Lifecycle.{site_project, desired_row}
use controlai.Daemon.Stops.{put_row, put_sites, put_tenant, tsdb_row, listed_sites}

-- Every row of the project is stored under the tenant.
abbrev pub is_owned : String → String → DesiredStateRow → Bool
is_owned tid p d = not (d.project_id == p) || d.tenant_id == tid

all-update :
    {R : Type 0} (q p : R → Bool) (f : R → R)
    → ((r : R) → q (f r) ≡ q r)
    → (rows : List R) → all q (update p f rows) ≡ all q rows
all-update q p f keep [] = refl
all-update q p f keep (r ∷ rows) = elim (Bool-cases (p r)) [
  | inl e ↦ rw (e, keep r, all-update q p f keep rows) refl
  | inr e ↦ rw (e, all-update q p f keep rows) refl
]

all-insert :
    {R : Type 0} (q : R → Bool) (r : R) (rows : List R)
    → q r ≡ true
    → all q rows ≡ true
    → all q (insert r rows) ≡ true
all-insert q r [] h k = ground (arith, h)
all-insert q r (s ∷ rows) h k = ground (arith, all-insert q r rows h)

all-delete :
    {R : Type 0} (q p : R → Bool) (rows : List R) → all q rows ≡ true → all q (delete p rows) ≡ true
all-delete q p [] h = refl
all-delete q p (r ∷ rows) h = ground (arith, all-delete q p rows)

module _ (tid p : String) where
  abbrev pub Owned : Tables → Type 0
  Owned t = all (is_owned tid p) t.desired_state ≡ true

  put_row-Owned :
      (d : DesiredStateRow) (now : ℕ) (t : Tables)
      → is_owned tid p d ≡ true
      → Owned t
      → Owned (put_row d now t)
  unfolding put_desired
  put_row-Owned d now t own h = elim (Bool-cases (has project_of d.project_id t.desired_state)) [
    | inl e ↦ rw e (
        rw
          (all-update (is_owned tid p) (λ s. project_of s == d.project_id)
            (λ s. merge_desired s (stamp_desired now d)) (λ s. refl) t.desired_state)
          h)
    | inr e ↦ rw e (all-insert (is_owned tid p) (stamp_desired now d) t.desired_state own h)
  ]

  owned_row :
      (project sid state : String) → is_owned tid p (desired_row project tid sid state) ≡ true
  owned_row project sid state = ground (arith, eq_refl tid)

  put_sites-Owned :
      (state : String) (sites : List SiteRow) (now : ℕ) (t : Tables)
      → Owned t
      → Owned (put_sites state tid sites now t)
  put_sites-Owned state [] now t h = h
  put_sites-Owned state (s ∷ rest) now t h = put_sites-Owned state rest now _ (
      put_row-Owned (desired_row (site_project tid s.id) tid s.id state) now t
        (owned_row (site_project tid s.id) s.id state) h)

  pub put_tenant-Owned :
      (state : String) (now : ℕ) (t : Tables) → Owned t → Owned (put_tenant state tid now t)
  put_tenant-Owned state now t h =
      put_sites-Owned state (listed_sites tid t) now (put_row (tsdb_row state tid) now t)
        (put_row-Owned (tsdb_row state tid) now t (ground (arith, eq_refl tid)) h)

  delete_tenants-Owned :
      (id : String) (now : ℕ) (t : Tables) → Owned t → Owned (delete_tenants id now t).1
  unfolding delete_tenants
  delete_tenants-Owned id now t h =
      elim (Bool-cases (
        any (λ s. has tenant_id_of (site_tenant s) (select (λ r. r.id == id) t.tenants)) t.sites)) [
          | inl e ↦ rw e h
          | inr e ↦ rw e h
        ]

  pub purge_tenant-Owned : (id : String) → Keeps Owned (purge_tenant id)
  unfolding purge_tenant delete_desired_of_tenant delete_desired_project delete_sites
  purge_tenant-Owned id = transaction-Keeps _ (
      then-Keeps _ _ (run-Keeps _ (λ now t h. all-delete (is_owned tid p) _ t.desired_state h)) (
        then-Keeps _ _ (run-Keeps _ (λ now t h. all-delete (is_owned tid p) _ t.desired_state h))
          (then-Keeps _ _ (run-Keeps _ (λ now t h. h)) (run-Keeps _ (delete_tenants-Owned id)))))

  -- A project whose rows are all the tenant's has none where the tenant has none.
  pub none_left :
      (rows : List DesiredStateRow)
      → any (λ d. d.tenant_id == tid) rows ≡ false
      → all (is_owned tid p) rows ≡ true
      → has project_of p rows ≡ false
  none_left [] h k = refl
  none_left (d ∷ rows) h k = ground (arith, none_left rows)
