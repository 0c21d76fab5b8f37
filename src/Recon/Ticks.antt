-- ===== src/Recon/Ticks.antt =====
-- internal/recon/reconciler.go: `tick`.
use controlai.Prelude.{
  ℕ, ◌+◌, String, Bool, true, false, Option, none, some, List, [], ◌∷◌, ◌==◌, pos, ltb,
  if◌then◌else◌,
}
use controlai.Store.Rows.{DesiredStateRow, reconciler_failure, reconciler_backoff}
use controlai.Store.Query.{Result, ok, err}
use controlai.Store.States.{list_desired_states}
use controlai.Store.Audit.{emit}
use controlai.Recon.Backoff.{backoff_delay}
use controlai.Recon.Runtime.{Runtime, ProjectState, Config, State, bind, call}
use controlai.Recon.Projects.{ReconcileError, compose_file, event_of, reconcile_project}

abbrev pub fresh : ProjectState
fresh = record { failure_count = 0; next_retry = none }

-- `r.states[pid]`, and the new state where there is none.
abbrev pub state_of : String → List (String × ProjectState) → ProjectState
state_of pid [] = fresh
state_of pid ((p, ps) ∷ rest) = let later = state_of pid rest in if p == pid then ps else later

abbrev pub put_state :
    String → ProjectState → List (String × ProjectState) → List (String × ProjectState)
put_state pid ps [] = (pid, ps) ∷ []
put_state pid ps ((p, old) ∷ rest) =
    let later = put_state pid ps rest in if p == pid then (pid, ps) ∷ rest else (p, old) ∷ later

-- `!ps.nextRetry.IsZero() && time.Now().Before(ps.nextRetry)`.
abbrev pub in_backoff : ℕ → ProjectState → Bool
in_backoff now ps = elim ps.next_retry [ none ↦ false | some t ↦ ltb now t ]

abbrev pub failed_once_more : ℕ → ProjectState → ProjectState
failed_once_more now ps = record {
  failure_count = ps.failure_count + 1;
  next_retry = some (now + backoff_delay (pos (ps.failure_count + 1)));
}

-- `trust` is the pass over the certificates, `ensureAllTrustFiles`.
module _ (rt : Runtime) (cfg : Config) (trust : State rt → State rt) where
  abbrev pub set_state : String → ProjectState → State rt → State rt
  set_state pid ps s = record s { states = put_state pid ps s.states }

  -- The two events of a failure; their errors are dropped.
  abbrev pub report_failure : DesiredStateRow → ℕ → ProjectState → State rt → State rt
  report_failure d now ps s =
      (bind rt
        (call rt (
          emit (
            event_of d reconciler_failure
              (rt.failure_detail s.world (backoff_delay (pos ps.failure_count))) false)))
        (λ _. call rt (
          emit (
            event_of d reconciler_backoff
              (rt.backoff_detail (now + backoff_delay (pos ps.failure_count))) true)))
        s).1

  -- What follows `reconcileProject`.
  abbrev pub settle : DesiredStateRow → ProjectState → Option ReconcileError × State rt → State rt
  settle d ps (some e, s) =
      let ps' = failed_once_more (rt.now s.world) ps in
      report_failure d (rt.now s.world) ps' (set_state d.project_id ps' s)
  settle d ps (none, s) = set_state d.project_id fresh s

  -- One round of the loop of `tick`.
  unfoldable pub visit : DesiredStateRow → State rt → State rt
  visit d s =
      let ps = state_of d.project_id s.states in
      let s' = set_state d.project_id ps s in
      if in_backoff (rt.now s'.world) ps
      then s'
      else settle d ps (reconcile_project rt cfg d (compose_file cfg.data_dir d) s')

  unfoldable pub visit_all : List DesiredStateRow → State rt → State rt
  unfolding visit
  visit_all [] s = s
  visit_all (d ∷ rest) s = visit_all rest (visit d s)

  abbrev finish : State rt → State rt
  finish s = if cfg.reports_tick then record s { last_tick = some (rt.now s.world) } else s

  abbrev with_list : Result (List DesiredStateRow) × State rt → State rt
  with_list (err e, s) = s
  with_list (ok ds, s) = finish (visit_all ds (if cfg.has_master_key then trust s else s))

  unfoldable pub tick : State rt → State rt
  unfolding visit_all
  tick s = with_list (call rt list_desired_states s)
