-- ===== src/Recon/Convergence.antt =====
-- When `reconcileProject` of internal/recon/reconciler.go acts, and what it has recorded when it says
-- that it brought a project up.
use controlai.Prelude.{
  ℕ, String, true, false, not, ◌&&◌, Option, none, List, ◌≡◌, ◌⊎◌, refl, ◌∙◌, ap, sym, subst, ◌==◌,
  eq_refl, eq_iff, inl, inr, Bool-cases,
}
use controlai.Store.Rows.{DesiredStateRow, TenantRow, SiteRow, Tables}
use controlai.Store.Query.{ok, err, Result, run}
use controlai.Store.Tenants.{get_tenant, select_tenant}
use controlai.Store.Sites.{get_site, select_site}
use controlai.Store.States.{
  get_combined_hash, upsert_combined_hash, get_file_hash, select_file_hash, upsert_file_hash,
  put_file_hash,
}
use controlai.Store.Audit.{emit, insert_event}
use controlai.Store.RoundTrips.{quiet}
use controlai.Store.FileHashes.{get_file_hash-upsert}
use controlai.Recon.Runtime.{Runtime, ProjectState, Config, State}
use controlai.Recon.Projects.{
  ensure_traefik_dynamic, write_site, write_for, before_up, bring_up, after_up, containers_of,
  all_up, needs_up, drifted, keep_up, same_hash, reconcile_project,
}

module _ (rt : Runtime) (cfg : Config) where
  -- A moment of the reconciler in which no statement of the store is about to fail.
  abbrev pub calm : ℕ → Tables → rt.World → List (String × ProjectState) → Option ℕ → State rt
  calm now t w m last = record { db = quiet now t; world = w; states = m; last_tick = last }

  not_drifted :
      (d : DesiredStateRow) (now : ℕ) (t : Tables) (w : rt.World) (m : List (String × ProjectState))
      (last : Option ℕ)
      → (d.config_hash ≡ "") ⊎ ((get_combined_hash d.project_id (quiet now t)).0 ≡ ok d.config_hash)
      → drifted rt cfg d (calm now t w m last) ≡ (false, calm now t w m last)
  unfolding get_combined_hash get_file_hash select_file_hash run
  not_drifted d now t w m last (inl empty) = rw empty refl
  not_drifted d now t w m last (inr hash) = elim (Bool-cases (d.config_hash == "")) [
    | inl e ↦ rw e refl
    | inr e ↦ rw (e, hash, eq_refl d.config_hash) refl
  ]

  -- A project that runs as it should is left alone: where no statement of the store fails, if the desired state is "running", docker shows at
  -- least one container and all of them are running, and no hash is desired or the stored one is the
  -- desired one, then nothing is called, nothing is written and no error is returned.
  pub reconcile_project-converged :
      (d : DesiredStateRow) (file : String) (now : ℕ) (t : Tables) (w : rt.World)
      (m : List (String × ProjectState)) (last : Option ℕ)
      → d.state ≡ "running"
      → all_up rt cfg (containers_of rt cfg d.project_id (calm now t w m last)) ≡ true
      → (d.config_hash ≡ "") ⊎ ((get_combined_hash d.project_id (quiet now t)).0 ≡ ok d.config_hash)
      → reconcile_project rt cfg d file (calm now t w m last) ≡ (none, calm now t w m last)
  unfolding reconcile_project needs_up
  reconcile_project-converged d file now t w m last running up hash =
      rw (running, up, not_drifted d now t w m last hash) refl

  write_site-db :
      (tenant_id site_id : String) (tenant : TenantRow) (r : Result SiteRow) (s : State rt)
      → (write_site rt cfg tenant_id site_id tenant r s).1.db ≡ s.db
  write_site-db tenant_id site_id tenant (err e) s = refl
  write_site-db tenant_id site_id tenant (ok site) s = refl

  write_for-db :
      (tenant_id site_id : String) (r : Result TenantRow) (now : ℕ) (t : Tables) (w : rt.World)
      (m : List (String × ProjectState)) (last : Option ℕ)
      → (write_for rt cfg tenant_id site_id r (calm now t w m last)).1.db ≡ quiet now t
  unfolding get_site select_site run
  write_for-db tenant_id site_id (err e) now t w m last = refl
  write_for-db tenant_id site_id (ok tenant) now t w m last =
      write_site-db tenant_id site_id tenant (get_site site_id (quiet now t)).0
        (calm now t w m last)

  -- The store after the reads of the Traefik step.
  before_up-db :
      (d : DesiredStateRow) (now : ℕ) (t : Tables) (w : rt.World) (m : List (String × ProjectState))
      (last : Option ℕ)
      → (before_up rt cfg d (calm now t w m last)).1.db ≡ quiet now t
  unfolding ensure_traefik_dynamic get_tenant select_tenant run
  before_up-db d now t w m last =
      elim (Bool-cases (not (d.site_id == "") && not (d.tenant_id == ""))) [
        | inl e ↦ rw e (
            write_for-db d.tenant_id d.site_id (get_tenant d.tenant_id (quiet now t)).0 now t w m
              last)
        | inr e ↦ rw e refl
      ]

  after_up-hash :
      (d : DesiredStateRow) (now : ℕ) (t : Tables) (w : rt.World) (m : List (String × ProjectState))
      (last : Option ℕ)
      → (d.config_hash == "") ≡ false
      → ((after_up rt cfg d true (calm now t w m last)).0 ≡ none)
        × ((get_combined_hash d.project_id (after_up rt cfg d true (calm now t w m last)).1.db).0
            ≡ ok d.config_hash)
  unfolding after_up get_combined_hash upsert_combined_hash emit insert_event get_file_hash
      select_file_hash upsert_file_hash put_file_hash run
  after_up-hash d now t w m last named = (
    refl,
    rw named (
        get_file_hash-upsert d.project_id "_combined" d.project_id "_combined" d.config_hash now t
        ∙ rw (eq_refl d.project_id) refl),
  )

  after_up-hash_at :
      (d : DesiredStateRow) (s : State rt) (now : ℕ) (t : Tables)
      → s.db ≡ quiet now t
      → (d.config_hash == "") ≡ false
      → ((after_up rt cfg d true s).0 ≡ none)
        × ((get_combined_hash d.project_id (after_up rt cfg d true s).1.db).0 ≡ ok d.config_hash)
  after_up-hash_at d s now t calm_db named =
      subst
        (λ db.
          ((after_up rt cfg d true (record s { db = db })).0 ≡ none)
          × ((get_combined_hash d.project_id (after_up rt cfg d true (record s { db = db })).1.db).0
              ≡ ok d.config_hash))
        (sym calm_db) (after_up-hash d now t s.world s.states s.last_tick named)

  -- What `up` leaves, whatever the step before it did outside.
  bring_up-hash :
      (d : DesiredStateRow) (file : String) (now : ℕ) (t : Tables) (w : rt.World)
      (m : List (String × ProjectState)) (last : Option ℕ)
      → ((w' : rt.World) → (rt.up w' d.project_id file).0 ≡ true)
      → (d.config_hash == "") ≡ false
      → ((bring_up rt cfg d file (calm now t w m last)).0 ≡ none)
        × ((get_combined_hash d.project_id (bring_up rt cfg d file (calm now t w m last)).1.db).0
            ≡ ok d.config_hash)
  unfolding bring_up
  bring_up-hash d file now t w m last works named =
      rw (works (before_up rt cfg d (calm now t w m last)).1.world)
        (after_up-hash_at d _ now t (before_up-db d now t w m last) named)

  same_hash-ok : (hash : String) (r : Result String) → same_hash rt cfg hash r ≡ true → r ≡ ok hash
  same_hash-ok hash (err e) h = cc
  same_hash-ok hash (ok actual) h = ap ok ((eq_iff actual hash).0 h)

  keep_up-records_hash :
      (d : DesiredStateRow) (file : String) (now : ℕ) (t : Tables) (w : rt.World)
      (m : List (String × ProjectState)) (last : Option ℕ)
      → ((w' : rt.World) → (rt.up w' d.project_id file).0 ≡ true)
      → (d.config_hash == "") ≡ false
      → ((keep_up rt cfg d file (calm now t w m last)).0 ≡ none)
        × ((get_combined_hash d.project_id (keep_up rt cfg d file (calm now t w m last)).1.db).0
            ≡ ok d.config_hash)
  unfolding needs_up get_combined_hash get_file_hash select_file_hash run
  keep_up-records_hash d file now t w m last works named =
      elim (Bool-cases (all_up rt cfg (containers_of rt cfg d.project_id (calm now t w m last)))) [
        | inl up ↦
            elim (Bool-cases
              (same_hash rt cfg d.config_hash (get_combined_hash d.project_id (quiet now t)).0)) [
                | inl same ↦
                    rw (up, named, same)
                      (
                        refl,
                        same_hash-ok d.config_hash (get_combined_hash d.project_id (quiet now t)).0
                            same,
                      )
                | inr other ↦
                    rw (up, named, other) (bring_up-hash d file now t w m last works named)
              ]
        | inr down ↦ rw down (bring_up-hash d file now t w m last works named)
      ]

  -- If no statement of the store fails and `docker compose up` succeeds for the project, then `reconcileProject` of a row with the desired
  -- state "running" and a hash returns no error, and afterwards the stored hash is the desired one.
  pub reconcile_project-records_hash :
      (d : DesiredStateRow) (file : String) (now : ℕ) (t : Tables) (w : rt.World)
      (m : List (String × ProjectState)) (last : Option ℕ)
      → ((w' : rt.World) → (rt.up w' d.project_id file).0 ≡ true)
      → d.state ≡ "running"
      → (d.config_hash == "") ≡ false
      → ((reconcile_project rt cfg d file (calm now t w m last)).0 ≡ none)
        × ((get_combined_hash d.project_id
              (reconcile_project rt cfg d file (calm now t w m last)).1.db).0
            ≡ ok d.config_hash)
  unfolding reconcile_project needs_up
  reconcile_project-records_hash d file now t w m last works running named =
      rw is_wanted (keep_up-records_hash d file now t w m last works named)
    where
      is_wanted : (d.state == "running") ≡ true
      is_wanted = rw running refl
