-- ===== src/Recon/Projects.antt =====
-- internal/recon/reconciler.go: `reconcileProject`, `composeFile`, `ensureTraefikDynamic`, `IsConverged`.
use controlai.Prelude.{
  path, String, Bool, true, false, not, ◌&&◌, Option, none, some, List, [], ◌∷◌, ◌==◌, all, concat,
  if◌then◌else◌,
}
use controlai.Store.Rows.{TenantRow, SiteRow, DesiredStateRow, Event, Kind, reconciler_success}
use controlai.Store.Query.{Result, ok, err}
use controlai.Store.Tenants.{get_tenant}
use controlai.Store.Sites.{get_site}
use controlai.Store.States.{get_combined_hash, upsert_combined_hash}
use controlai.Store.Audit.{emit}
use controlai.Recon.Runtime.{
  ContainerSummary, Runtime, Config, State, Act, done, bind, call, outside,
}

-- `composeFile`.
unfoldable pub compose_file : String → DesiredStateRow → String
compose_file data_dir d =
    if not (d.site_id == "")
    then path (data_dir ∷ "tenants" ∷ d.tenant_id ∷ "sites" ∷ d.site_id ∷ "docker-compose.yml" ∷ [])
    else if not (d.tenant_id == "")
    then path (data_dir ∷ "tenants" ∷ d.tenant_id ∷ "tsdb" ∷ "docker-compose.yml" ∷ [])
    else path (data_dir ∷ "shared" ∷ "docker-compose.yml" ∷ [])

abbrev pub is_running : ContainerSummary → Bool
is_running c = c.state == "running"

-- An error of `reconcileProject`.
pub data ReconcileError : Type 0 where
  compose_failed unknown_state : ReconcileError

abbrev pub event_of : DesiredStateRow → Kind → String → Bool → Event
event_of d kind detail success = record {
  id = 0;
  kind = kind;
  tenant_id = d.tenant_id;
  site_id = d.site_id;
  actor_ip = "";
  detail = detail;
  success = success;
  project_id = "";
  created_at = 0;
}

module _ (rt : Runtime) (cfg : Config) where
  abbrev pub Outcome : Type 0
  Outcome = Option ReconcileError

  -- The list that a nil client, or an error of the SDK, does not give.
  unfoldable pub containers_of : String → State rt → Option (List ContainerSummary)
  containers_of project s = if cfg.has_docker then rt.list_by_project s.world project else none

  -- `len(containers) > 0` and all of them are running.
  abbrev pub all_up : Option (List ContainerSummary) → Bool
  all_up none = false
  all_up (some []) = false
  all_up (some (c ∷ cs)) = all is_running (c ∷ cs)

  -- `hashErr == nil && actualHash == desired.ConfigHash`.
  abbrev pub same_hash : String → Result String → Bool
  same_hash hash (ok actual) = actual == hash
  same_hash hash (err e) = false

  -- The drift test on the stored hash.
  abbrev pub drifted : DesiredStateRow → Act rt Bool
  drifted d =
      if d.config_hash == ""
      then done rt false
      else bind rt (call rt (get_combined_hash d.project_id))
          (λ r. done rt (not (same_hash d.config_hash r)))

  -- `needsUp`.
  unfoldable pub needs_up : DesiredStateRow → Act rt Bool
  unfolding containers_of
  needs_up d s = if all_up (containers_of d.project_id s) then drifted d s else done rt true s

  -- `ensureTraefikDynamic`: whether the error is nil.
  abbrev pub write_site : String → String → TenantRow → Result SiteRow → Act rt Bool
  write_site tenant_id site_id tenant (err e) = done rt false
  write_site tenant_id site_id tenant (ok site) = outside rt (λ w.
      rt.write_dynamic w site.tenant_id site.id tenant.domain site.broker_kind
        (concat (site_id ∷ "." ∷ tenant_id ∷ "." ∷ tenant.domain ∷ [])))

  abbrev pub write_for : String → String → Result TenantRow → Act rt Bool
  write_for tenant_id site_id (err e) = done rt false
  write_for tenant_id site_id (ok tenant) =
      bind rt (call rt (get_site site_id)) (write_site tenant_id site_id tenant)

  unfoldable pub ensure_traefik_dynamic : String → String → Act rt Bool
  ensure_traefik_dynamic tenant_id site_id =
      bind rt (call rt (get_tenant tenant_id)) (write_for tenant_id site_id)

  -- The write before the site comes up; its error is logged only.
  abbrev pub before_up : DesiredStateRow → Act rt Bool
  before_up d =
      if not (d.site_id == "") && not (d.tenant_id == "")
      then ensure_traefik_dynamic d.tenant_id d.site_id
      else done rt true

  abbrev pub record_hash : DesiredStateRow → Act rt (Result Unit)
  record_hash d =
      if d.config_hash == ""
      then done rt (ok tt)
      else call rt (upsert_combined_hash d.project_id d.config_hash)

  abbrev pub emit_success : DesiredStateRow → String → Act rt (Result Unit)
  emit_success d detail = call rt (emit (event_of d reconciler_success detail true))

  unfoldable pub after_up : DesiredStateRow → Bool → Act rt Outcome
  after_up d false = done rt (some compose_failed)
  after_up d true =
      bind rt (record_hash d)
        (λ _. bind rt (emit_success d "{\"action\":\"up\"}") (λ _. done rt none))

  unfoldable pub bring_up : DesiredStateRow → String → Act rt Outcome
  unfolding ensure_traefik_dynamic
  bring_up d file =
      bind rt (before_up d)
        (λ _. bind rt (outside rt (λ w. rt.up w d.project_id file)) (after_up d))

  unfoldable pub after_down : DesiredStateRow → Bool → Bool → Act rt Outcome
  after_down d audited false = done rt (some compose_failed)
  after_down d true true = bind rt (emit_success d "{\"action\":\"down\"}") (λ _. done rt none)
  after_down d false true = done rt none

  unfoldable pub take_down : DesiredStateRow → Bool → String → Act rt Outcome
  unfolding after_down
  take_down d audited file =
      bind rt (outside rt (λ w. rt.down w d.project_id file)) (after_down d audited)

  -- `err == nil && len(containers) == 0`.
  abbrev pub is_absent : Option (List ContainerSummary) → Bool
  is_absent none = false
  is_absent (some []) = true
  is_absent (some (c ∷ cs)) = false

  abbrev pub keep_up : DesiredStateRow → String → Act rt Outcome
  keep_up d file = bind rt (needs_up d) (λ up. if up then bring_up d file else done rt none)

  abbrev pub stop : DesiredStateRow → String → Act rt Outcome
  stop d file s =
      if is_absent (containers_of d.project_id s) then done rt none s else take_down d true file s

  -- `reconcileProject`: `none` is a nil error.
  unfoldable pub reconcile_project : DesiredStateRow → String → Act rt Outcome
  reconcile_project d file =
      if d.state == "running"
      then keep_up d file
      else if d.state == "stopped"
      then stop d file
      else if d.state == "removed"
      then take_down d false file
      else done rt (some unknown_state)

  -- `IsConverged`; `none` is an error.
  unfoldable pub is_converged : String → State rt → Option Bool
  is_converged project s =
      if cfg.has_docker
      then elim (rt.list_by_project s.world project) [
        | none ↦ none
        | some cs ↦ some (all_up (some cs))
      ]
      else some false
