-- ===== src/Recon/Retries.antt =====
-- The backoff of internal/recon/reconciler.go: what one round of the loop of `tick` does to the map of
-- backoff states and to the outside.
use controlai.Prelude.{
  ℕ, ◌+◌, ltb, Bool, false, arith, String, Option, none, some, List, [], ◌∷◌, ◌≡◌, refl, ◌∙◌, ap,
  sym, ◌==◌, eq_iff, inl, inr, Bool-cases, if◌then◌else◌,
}
use controlai.Store.Rows.{DesiredStateRow}
use controlai.Recon.Backoff.{rung, backoff_delay-eq-rung}
use controlai.Recon.Runtime.{Runtime, ProjectState, Config, State}
use controlai.Recon.Projects.{ReconcileError, compose_file, reconcile_project}
use controlai.Recon.Frames.{reconcile_project-IsFrame}
use controlai.Recon.Ticks.{
  fresh, state_of, put_state, in_backoff, failed_once_more, set_state, settle, visit,
}

state_of-put :
    (j pid : String) (ps : ProjectState) (m : List (String × ProjectState))
    → state_of j (put_state pid ps m) ≡ (if pid == j then ps else state_of j m)
state_of-put j pid ps [] = refl
state_of-put j pid ps ((p, old) ∷ rest) =
    ground (arith, state_of-put j pid ps rest, eq_iff p pid, eq_iff p j, eq_iff pid j)

-- A lookup that finds nothing new.
state_of-same :
    (j pid : String) (m : List (String × ProjectState))
    → state_of j (put_state pid (state_of pid m) m) ≡ state_of j m
state_of-same j pid m = state_of-put j pid (state_of pid m) m ∙ elim (Bool-cases (pid == j)) [
  | inl e ↦ rw e (ap (λ x. state_of x m) ((eq_iff pid j).0 e))
  | inr e ↦ rw e refl
]

if_same :
    (j pid : String) (m : List (String × ProjectState))
    → state_of j m ≡ (if pid == j then state_of pid m else state_of j m)
if_same j pid m = elim (Bool-cases (pid == j)) [
  | inl e ↦ rw e (ap (λ x. state_of x m) (sym ((eq_iff pid j).0 e)))
  | inr e ↦ rw e refl
]

-- Whether the time of the next try, if there is one, is still to come.
abbrev pub must_wait : ℕ → Option ℕ → Bool
must_wait now none = false
must_wait now (some next) = ltb now next

in_backoff-eq-must_wait :
    (now n : ℕ) (o : Option ℕ)
    → in_backoff now (record { failure_count = n; next_retry = o }) ≡ must_wait now o
in_backoff-eq-must_wait now n none = refl
in_backoff-eq-must_wait now n (some next) = refl

-- One failure more, and the next try after the delay of the ladder for the new count.
abbrev pub one_failure_more : ℕ → ProjectState → ProjectState
one_failure_more now ps = record {
  failure_count = ps.failure_count + 1;
  next_retry = some (now + rung (ps.failure_count + 1));
}

failed_once_more-eq :
    (now : ℕ) (ps : ProjectState) → failed_once_more now ps ≡ one_failure_more now ps
failed_once_more-eq now ps = rw (backoff_delay-eq-rung (ps.failure_count + 1)) refl

module _ (rt : Runtime) (cfg : Config) (trust : State rt → State rt) where
  -- What the reconciler does for a row whose project may be tried now.
  abbrev pub attempt : DesiredStateRow → State rt → Option ReconcileError × State rt
  attempt d s =
      reconcile_project rt cfg d (compose_file cfg.data_dir d)
        (set_state rt cfg trust d.project_id (state_of d.project_id s.states) s)

  -- The state that an attempt leaves for its project.
  abbrev pub settled : ProjectState → Option ReconcileError × State rt → ProjectState
  settled ps (none, s) = record { failure_count = 0; next_retry = none }
  settled ps (some e, s) = one_failure_more (rt.now s.world) ps

  settle-states :
      (d : DesiredStateRow) (j : String) (ps : ProjectState) (r : Option ReconcileError × State rt)
      → (state_of j (settle rt cfg trust d ps r).states
          ≡ (if d.project_id == j then settled ps r else state_of j r.1.states))
        × ((settle rt cfg trust d ps r).world ≡ r.1.world)
  settle-states d j ps (none, s) = (state_of-put j d.project_id fresh s.states, refl)
  settle-states d j ps (some e, s) = (
    rw (sym (failed_once_more-eq (rt.now s.world) ps))
        (state_of-put j d.project_id (failed_once_more (rt.now s.world) ps) s.states),
    refl,
  )

  attempt-states :
      (d : DesiredStateRow) (j : String) (s : State rt)
      → state_of j (attempt d s).1.states ≡ state_of j s.states
  attempt-states d j s =
      ap (state_of j)
        (reconcile_project-IsFrame rt cfg d (compose_file cfg.data_dir d)
          (set_state rt cfg trust d.project_id (state_of d.project_id s.states) s)).0
      ∙ state_of-same j d.project_id s.states

  -- For the visit of a row, and any project j. Where the time of the next try of the row's project is
  -- still to come, its backoff state and the outside are as before. Otherwise the outside is as
  -- `reconcileProject` leaves it; after a success the count of failures is 0 and no next try is set, and
  -- after a failure the count is one more and the next try comes 30, 60, 300 or 1800 seconds later, as
  -- the new count is 1, 2, 3 or more. The backoff states of other projects are as before.
  pub visit-retries :
      (d : DesiredStateRow) (j : String) (s : State rt)
      → (state_of j (visit rt cfg trust d s).states ≡ (
          if d.project_id == j
          then if must_wait (rt.now s.world) (state_of d.project_id s.states).next_retry
            then state_of d.project_id s.states
            else settled (state_of d.project_id s.states) (attempt d s)
          else state_of j s.states))
        × ((visit rt cfg trust d s).world ≡ (
            if must_wait (rt.now s.world) (state_of d.project_id s.states).next_retry
            then s.world
            else (attempt d s).1.world))
  unfolding visit
  visit-retries d j s =
      let ps = state_of d.project_id s.states in
      let now = rt.now s.world in
      let same = in_backoff-eq-must_wait now ps.failure_count ps.next_retry in
      elim (Bool-cases (in_backoff now ps)) [
        | inl e ↦
            rw (sym same, e)
              (state_of-same j d.project_id s.states ∙ if_same j d.project_id s.states, refl)
        | inr e ↦ rw (sym same, e, sym (attempt-states d j s)) (settle-states d j ps (attempt d s))
      ]
