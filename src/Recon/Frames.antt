-- ===== src/Recon/Frames.antt =====
-- What the steps of internal/recon/reconciler.go leave alone: the map of backoff states and the time of
-- the last tick.
use controlai.Prelude.{
  String, Bool, Option, none, some, true, false, not, ◌&&◌, ◌≡◌, refl, ◌∙◌, ◌==◌, if◌then◌else◌,
}
use controlai.Store.Rows.{DesiredStateRow, TenantRow, SiteRow}
use controlai.Store.Query.{ok, err, Result, Query}
use controlai.Store.Tenants.{get_tenant}
use controlai.Store.Sites.{get_site}
use controlai.Store.States.{get_combined_hash, upsert_combined_hash}
use controlai.Recon.Runtime.{Runtime, Config, State, Act, bind, call, outside, done}
use controlai.Recon.Projects.{
  ensure_traefik_dynamic, write_site, write_for, before_up, bring_up, after_up, take_down,
  after_down, record_hash, emit_success, containers_of, all_up, is_absent, needs_up, same_hash,
  reconcile_project, drifted, keep_up, stop, ReconcileError, unknown_state,
}

module _ (rt : Runtime) where
  -- A step that writes neither.
  abbrev pub IsFrame : {A : Type 0} → Act rt A → Type 0
  IsFrame m = (s : State rt) → ((m s).1.states ≡ s.states) × ((m s).1.last_tick ≡ s.last_tick)

  done-IsFrame : {A : Type 0} (a : A) → IsFrame (done rt a)
  done-IsFrame a s = (refl, refl)

  call-IsFrame : {A : Type 0} (q : Query A) → IsFrame (call rt q)
  call-IsFrame q s = (refl, refl)

  outside-IsFrame : (f : rt.World → Bool × rt.World) → IsFrame (outside rt f)
  outside-IsFrame f s = (refl, refl)

  bind-IsFrame :
      {A B : Type 0} (m : Act rt A) (f : A → Act rt B)
      → IsFrame m
      → ((a : A) → IsFrame (f a))
      → IsFrame (bind rt m f)
  bind-IsFrame m f hm hf s = ((hf (m s).0 (m s).1).0 ∙ (hm s).0, (hf (m s).0 (m s).1).1 ∙ (hm s).1)

  choice-IsFrame :
      {A : Type 0} (b : Bool) (m n : Act rt A)
      → IsFrame m
      → IsFrame n
      → IsFrame (if b then m else n)
  choice-IsFrame true m n hm hn = hm
  choice-IsFrame false m n hm hn = hn

  -- One that tests what it reads.
  frame_test :
      {A : Type 0} (b : Bool) (m n : Act rt A) (s : State rt)
      → IsFrame m
      → IsFrame n
      → ((if b then m s else n s).1.states ≡ s.states)
        × ((if b then m s else n s).1.last_tick ≡ s.last_tick)
  frame_test true m n s hm hn = hm s
  frame_test false m n s hm hn = hn s

module _ (rt : Runtime) (cfg : Config) where
  write_site-IsFrame :
      (tenant_id site_id : String) (tenant : TenantRow) (r : Result SiteRow)
      → IsFrame rt (write_site rt cfg tenant_id site_id tenant r)
  write_site-IsFrame tenant_id site_id tenant (err e) s = (refl, refl)
  write_site-IsFrame tenant_id site_id tenant (ok site) s = (refl, refl)

  write_for-IsFrame :
      (tenant_id site_id : String) (r : Result TenantRow)
      → IsFrame rt (write_for rt cfg tenant_id site_id r)
  write_for-IsFrame tenant_id site_id (err e) = done-IsFrame rt false
  write_for-IsFrame tenant_id site_id (ok tenant) =
      bind-IsFrame rt (call rt (get_site site_id)) (write_site rt cfg tenant_id site_id tenant)
        (call-IsFrame rt (get_site site_id)) (write_site-IsFrame tenant_id site_id tenant)

  before_up-IsFrame : (d : DesiredStateRow) → IsFrame rt (before_up rt cfg d)
  unfolding ensure_traefik_dynamic
  before_up-IsFrame d =
      choice-IsFrame rt (not (d.site_id == "") && not (d.tenant_id == ""))
        (bind rt (call rt (get_tenant d.tenant_id)) (write_for rt cfg d.tenant_id d.site_id))
        (done rt true)
        (bind-IsFrame rt (call rt (get_tenant d.tenant_id)) (write_for rt cfg d.tenant_id d.site_id)
          (call-IsFrame rt (get_tenant d.tenant_id)) (write_for-IsFrame d.tenant_id d.site_id))
        (done-IsFrame rt true)

  after_up-IsFrame : (d : DesiredStateRow) (b : Bool) → IsFrame rt (after_up rt cfg d b)
  unfolding after_up
  after_up-IsFrame d false s = (refl, refl)
  after_up-IsFrame d true s =
      bind-IsFrame rt {B = Option ReconcileError} (record_hash rt cfg d)
        (λ _. bind rt (emit_success rt cfg d "{\"action\":\"up\"}") (λ _. done rt none))
        (choice-IsFrame rt (d.config_hash == "") (done rt (ok tt))
          (call rt (upsert_combined_hash d.project_id d.config_hash)) (done-IsFrame rt (ok tt))
          (call-IsFrame rt (upsert_combined_hash d.project_id d.config_hash)))
        (λ r s'. (refl, refl)) s

  bring_up-IsFrame : (d : DesiredStateRow) (file : String) → IsFrame rt (bring_up rt cfg d file)
  unfolding bring_up
  bring_up-IsFrame d file =
      bind-IsFrame rt (before_up rt cfg d)
        (λ _. bind rt (outside rt (λ w. rt.up w d.project_id file)) (after_up rt cfg d))
        (before_up-IsFrame d)
        (λ _ s.
          after_up-IsFrame d (rt.up s.world d.project_id file).0
            (record s { world = (rt.up s.world d.project_id file).1 }))

  after_down-IsFrame :
      (d : DesiredStateRow) (audited b : Bool) → IsFrame rt (after_down rt cfg d audited b)
  unfolding after_down
  after_down-IsFrame d true false s = (refl, refl)
  after_down-IsFrame d false false s = (refl, refl)
  after_down-IsFrame d true true s = (refl, refl)
  after_down-IsFrame d false true s = (refl, refl)

  take_down-IsFrame :
      (d : DesiredStateRow) (audited : Bool) (file : String)
      → IsFrame rt (take_down rt cfg d audited file)
  unfolding take_down
  take_down-IsFrame d audited file s =
      after_down-IsFrame d audited (rt.down s.world d.project_id file).0
        (record s { world = (rt.down s.world d.project_id file).1 })

  needs_up-IsFrame : (d : DesiredStateRow) → IsFrame rt (needs_up rt cfg d)
  unfolding needs_up
  needs_up-IsFrame d s =
      frame_test rt (all_up rt cfg (containers_of rt cfg d.project_id s)) (drifted rt cfg d)
        (done rt true) s
        (choice-IsFrame rt (d.config_hash == "") (done rt false)
          (bind rt (call rt (get_combined_hash d.project_id))
            (λ r. done rt (not (same_hash rt cfg d.config_hash r))))
          (done-IsFrame rt false) (λ s'. (refl, refl)))
        (done-IsFrame rt true)

  keep_up-IsFrame : (d : DesiredStateRow) (file : String) → IsFrame rt (keep_up rt cfg d file)
  keep_up-IsFrame d file =
      bind-IsFrame rt (needs_up rt cfg d)
        (λ up. if up then bring_up rt cfg d file else done rt none) (needs_up-IsFrame d)
        (λ up.
          choice-IsFrame rt up (bring_up rt cfg d file) (done rt none) (bring_up-IsFrame d file)
            (done-IsFrame rt {A = Option ReconcileError} none))

  stop-IsFrame : (d : DesiredStateRow) (file : String) → IsFrame rt (stop rt cfg d file)
  stop-IsFrame d file s =
      frame_test rt (is_absent rt cfg (containers_of rt cfg d.project_id s)) (done rt none)
        (take_down rt cfg d true file) s (done-IsFrame rt {A = Option ReconcileError} none)
        (take_down-IsFrame d true file)

  pub reconcile_project-IsFrame :
      (d : DesiredStateRow) (file : String) → IsFrame rt (reconcile_project rt cfg d file)
  unfolding reconcile_project
  reconcile_project-IsFrame d file =
      choice-IsFrame rt (d.state == "running") (keep_up rt cfg d file)
        (if d.state == "stopped"
          then stop rt cfg d file
          else if d.state == "removed"
          then take_down rt cfg d false file
          else done rt (some unknown_state))
        (keep_up-IsFrame d file)
        (choice-IsFrame rt (d.state == "stopped") (stop rt cfg d file)
          (if d.state == "removed"
            then take_down rt cfg d false file
            else done rt (some unknown_state))
          (stop-IsFrame d file)
          (choice-IsFrame rt (d.state == "removed") (take_down rt cfg d false file)
            (done rt (some unknown_state)) (take_down-IsFrame d false file)
            (done-IsFrame rt (some unknown_state))))
