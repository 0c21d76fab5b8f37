-- ===== src/Daemon/Wanted.antt =====
-- What `renderAndWriteTSDB` of internal/daemon/provision.go leaves for the reconciler.
use controlai.Prelude.{
  path, ℕ, String, eq_refl, true, Option, none, some, List, [], ◌∷◌, ◌≡◌, refl, Option-cases, inl,
  inr,
}
use controlai.Store.Tables.Statements.{lookup, has}
use controlai.Store.Tables.Lookups.{lookup-upsert, merged, has-lookup_some}
use controlai.Store.Rows.{TsdbCreds, DesiredStateRow, Tables}
use controlai.Store.Query.{ok, run}
use controlai.Store.RoundTrips.{quiet}
use controlai.Store.Tenants.{tenant_id_of, scan_tenant, get_tenant, select_tenant}
use controlai.Store.States.{
  project_of, merge_desired, stamp_desired, upsert_desired_state, put_desired,
}
use controlai.Store.Secrets.{
  creds_tenant, put_creds, upsert_tsdb_creds, get_tsdb_creds, select_creds,
}
use controlai.Daemon.Lifecycle.{tsdb_project}
use controlai.Daemon.Provision.{new_creds, ensure_tsdb_creds}
use controlai.Render.Results.{RenderResult}
use controlai.Daemon.Rendering.{
  tenant_ctx, creds_ctx, compute_combined_hash, TenantCtx, CredsCtx, Renderer, provided,
  record_wanted, after_render, wanted_tsdb, render_and_write_tsdb,
}

abbrev target_in : Option DesiredStateRow → Option (String × String)
target_in none = none
target_in (some d) = some (d.state, d.config_hash)

-- The state and the hash that a project is to have.
abbrev pub target : String → Tables → Option (String × String)
target j t = target_in (lookup project_of j t.desired_state)

target_in-merged :
    (d : DesiredStateRow) (r : Option DesiredStateRow)
    → target_in (some (merged project_of merge_desired d r)) ≡ some (d.state, d.config_hash)
target_in-merged d none = refl
target_in-merged d (some r) = refl

ensure-answers :
    (p q tid : String) (now : ℕ) (t : Tables)
    → has tenant_id_of tid t.tenants ≡ true
    → (c : TsdbCreds) × (t' : Tables) × (ensure_tsdb_creds p q tid (quiet now t)
        ≡ (ok c, quiet now t'))
unfolding ensure_tsdb_creds get_tsdb_creds select_creds upsert_tsdb_creds put_creds run
ensure-answers p q tid now t h = elim (Option-cases (lookup creds_tenant tid t.tsdb_credentials)) [
  | inl e ↦ (new_creds p q tid, (put_creds (new_creds p q tid) now t).1, rw (e, h) refl)
  | inr (c, e) ↦ (c, t, rw e refl)
]

module _ (rn : Renderer) (sha256_hex : String → String) (data_dir : String) where
  wanted-record_wanted :
      (tid hash : String) (now : ℕ) (t : Tables) (w : rn.World)
      → target
          (tsdb_project tid)
          (record_wanted rn sha256_hex data_dir tid hash (quiet now t) w).1.0.tables
        ≡ some ("running", hash)
  unfolding upsert_desired_state put_desired run
  wanted-record_wanted tid hash now t w =
      rw
        (
          lookup-upsert project_of merge_desired (λ s r. refl)
              (stamp_desired now (wanted_tsdb tid hash)) (tsdb_project tid) t.desired_state,
          eq_refl (tsdb_project tid),
        )
        (target_in-merged (stamp_desired now (wanted_tsdb tid hash))
          (lookup project_of (tsdb_project tid) t.desired_state))

  after_render-wanted :
      (tid : String) (ctx : TenantCtx) (c : CredsCtx) (now : ℕ) (t : Tables) (w : rn.World)
      (results : TenantCtx → CredsCtx → List RenderResult)
      → ((x : TenantCtx) (y : CredsCtx) → rn.render_tenant_tsdb x y ≡ some (results x y))
      → ((w' : rn.World) (dir : String) (rs : List RenderResult)
          → (rn.write_results w' dir rs).0 ≡ true)
      → (hash : String) × ((after_render rn sha256_hex data_dir tid
            (quiet now t)
            w
            (rn.render_tenant_tsdb ctx c)).0
          ≡ provided hash)
        × (target
              (tsdb_project tid)
              (after_render rn sha256_hex data_dir tid
                (quiet now t)
                w
                (rn.render_tenant_tsdb ctx c)).1.0.tables
            ≡ some ("running", hash))
  after_render-wanted tid ctx c now t w results renders writes = (
    compute_combined_hash sha256_hex (results ctx c),
    rw (renders ctx c, writes w (path (data_dir ∷ "tenants" ∷ tid ∷ "tsdb" ∷ [])) (results ctx c))
        refl,
    rw (renders ctx c, writes w (path (data_dir ∷ "tenants" ∷ tid ∷ "tsdb" ∷ [])) (results ctx c))
        (wanted-record_wanted tid (compute_combined_hash sha256_hex (results ctx c)) now t
          (rn.write_results w (path (data_dir ∷ "tenants" ∷ tid ∷ "tsdb" ∷ [])) (results ctx c)).1),
  )

  -- For a tenant that is there, where no statement fails and the rendering and the writing succeed,
  -- `renderAndWriteTSDB` answers a hash, and the desired state of the TSDB project is then to run with
  -- this hash.
  pub render_and_write_tsdb-wanted :
      (p q tid : String) (now : ℕ) (t : Tables) (w : rn.World)
      (results : TenantCtx → CredsCtx → List RenderResult)
      → ((ctx : TenantCtx) (c : CredsCtx) → rn.render_tenant_tsdb ctx c ≡ some (results ctx c))
      → ((w' : rn.World) (dir : String) (rs : List RenderResult)
          → (rn.write_results w' dir rs).0 ≡ true)
      → has tenant_id_of tid t.tenants ≡ true
      → (hash : String) × ((render_and_write_tsdb rn sha256_hex data_dir p q tid (quiet now t) w).0
          ≡ provided hash)
        × (target
              (tsdb_project tid)
              (render_and_write_tsdb rn sha256_hex data_dir p q tid (quiet now t) w).1.0.tables
            ≡ some ("running", hash))
  unfolding render_and_write_tsdb get_tenant select_tenant run
  render_and_write_tsdb-wanted p q tid now t w results renders writes h =
      elim (Option-cases (lookup tenant_id_of tid t.tenants)) [
        | inl missing ↦ absurd (has-lookup_some tenant_id_of tid t.tenants h missing)
        | inr (r, found) ↦
            let (c, t', e) = ensure-answers p q tid now t h in
            rw (found, e)
              (after_render-wanted tid (tenant_ctx (scan_tenant r)) (creds_ctx c) now t' w results
                renders writes)
      ]
