-- ===== src/Daemon/Applying.antt =====
-- internal/daemon/server.go: `handleApply` and `pollConvergence`. Docker, the clock, the ticker and the
-- request's context are outside: `World` is their state.
use controlai.Prelude.{
  ℕ, zero, suc, ◌+◌, ◌*◌, String, ◌==◌, ℤ, pos, negsuc, Bool, true, false, Option, none, some, List,
  [], ◌∷◌, ltb, if◌then◌else◌,
}
use controlai.Store.Rows.{DesiredStateRow}
use controlai.Store.Query.{Db}
use controlai.Store.States.{upsert_desired_state}
use controlai.Daemon.Lifecycle.{drop_result}

pub record ContainerState : Type 0 where
  pub name : String
  pub state : String

pub record Waiting : Type 1 where
  pub World : Type 0
  -- `time.Now`.
  pub now : World → ℕ
  -- `DockerListByProject`; `none` is an error.
  pub list : World → String → Option (List ContainerState) × World
  -- The `select`: whether the context was done before the next tick.
  pub wait : World → Bool × World

-- `lastReason`.
pub data Reason : Type 0 where
  no_reason list_error no_containers : Reason
  container_in : String → String → Reason

pub data Poll : Type 0 where
  converged cancelled no_docker : Poll
  timed_out : Reason → Poll

-- The loop over the containers: the first one that does not run.
unfoldable pub not_running : List ContainerState → Option ContainerState
not_running [] = none
not_running (c ∷ rest) =
    let later = not_running rest in if c.state == "running" then later else some c

-- What one listing says: converged, or the reason that is kept.
abbrev pub reason_of : Option ContainerState → Option Reason
reason_of none = none
reason_of (some c) = some (container_in c.name c.state)

unfoldable pub judge_listing : Option (List ContainerState) → Option Reason
unfolding not_running
judge_listing none = some list_error
judge_listing (some []) = some no_containers
judge_listing (some (c ∷ rest)) = reason_of (not_running (c ∷ rest))

module _ (o : Waiting) where
  -- After a listing that does not end the loop: the deadline, then the wait. `again` is the next round.
  abbrev pub go_on :
      ℕ → Reason → (o.World → Option (Poll × o.World)) → o.World → Option (Poll × o.World)
  go_on deadline reason again w =
      if ltb deadline (o.now w)
      then some (timed_out reason, w)
      else let (stopped, w') = o.wait w in if stopped then some (cancelled, w') else again w'

  abbrev pub after_listing :
      ℕ → (o.World → Option (Poll × o.World)) → o.World → Option Reason → Option (Poll × o.World)
  after_listing deadline again w none = some (converged, w)
  after_listing deadline again w (some reason) = go_on deadline reason again w

  -- The loop of `pollConvergence`; `none` where the fuel does not suffice. The reason that is reported
  -- at the deadline is that of the listing before it.
  unfoldable pub poll_loop : ℕ → String → ℕ → o.World → Option (Poll × o.World)
  unfolding judge_listing
  poll_loop zero project deadline w = none
  poll_loop (suc fuel) project deadline w =
      let (listing, w') = o.list w project in
      after_listing deadline (poll_loop fuel project deadline) w' (judge_listing listing)

  -- `pollConvergence`; `has_docker` is `s.cfg.DockerListByProject != nil`.
  unfoldable pub poll_convergence : ℕ → Bool → String → ℕ → o.World → Option (Poll × o.World)
  unfolding poll_loop
  poll_convergence fuel false project deadline w = some (no_docker, w)
  poll_convergence fuel true project deadline w = poll_loop fuel project deadline w

  abbrev pub status_of : Poll → ℕ
  status_of converged = 200
  status_of cancelled = 202
  status_of no_docker = 202
  status_of (timed_out r) = 202

  -- The seconds to wait: at most 300, `none` where the handler answers at once. `wait` is what
  -- `strconv.Atoi` makes of the parameter.
  unfoldable pub wait_seconds : Option ℤ → Option ℕ
  wait_seconds none = none
  wait_seconds (some (pos zero)) = none
  wait_seconds (some (pos (suc n))) = some (if ltb 300 (suc n) then 300 else suc n)
  wait_seconds (some (negsuc n)) = none

  abbrev pub applied : String → DesiredStateRow
  applied selector = record {
    project_id = selector;
    tenant_id = "";
    site_id = "";
    state = "running";
    config_hash = "";
    updated_at = 0;
  }

  abbrev pub polled : Db → Option (Poll × o.World) → Option (ℕ × (Db × o.World))
  polled db none = none
  polled db (some (p, w)) = some (status_of p, (db, w))

  abbrev pub after_apply :
      ℕ → ℕ → Bool → String → Db → o.World → Option ℕ → Option (ℕ × (Db × o.World))
  after_apply fuel second has_docker selector db w none = some (202, (db, w))
  after_apply fuel second has_docker selector db w (some n) =
      polled db (poll_convergence fuel has_docker selector (o.now w + n * second) w)

  -- `handleApply`, with the ticks of the clock in a second.
  unfoldable pub handle_apply :
      ℕ → ℕ → Bool → String → Option ℤ → Db → o.World → Option (ℕ × (Db × o.World))
  unfolding wait_seconds poll_convergence
  handle_apply fuel second has_docker selector wait db w =
      after_apply fuel second has_docker selector
        (drop_result (upsert_desired_state (applied selector)) db) w (wait_seconds wait)
