-- ===== src/Runner/Compose.antt =====
-- internal/runner/compose.go: the arguments of `docker compose`, and the mutexes and the semaphore of
-- `runCompose` as steps of calls that run at the same time.
use controlai.Prelude.{
  ℕ, zero, suc, ◌+◌, ◌-◌, ◌≡◌, String, ◌==◌, Option, none, some, List, [], ◌∷◌, ◌++◌, ltb,
  if◌then◌else◌,
}

abbrev pub max_concurrent_compose : ℕ
max_concurrent_compose = 15

-- The arguments of `docker` in `runCompose`.
unfoldable pub compose_args : String → String → List String → List String
compose_args project_id compose_file args =
    ("compose" ∷ "-p" ∷ project_id ∷ "-f" ∷ compose_file ∷ []) ++ args

-- `Up`, `Down` and `Restart`.
unfoldable pub up_args : String → String → List String → List String
unfolding compose_args
up_args p file services = compose_args p file (("up" ∷ "-d" ∷ "--no-deps" ∷ []) ++ services)

unfoldable pub down_args : String → String → List String
unfolding compose_args
down_args p file = compose_args p file ("down" ∷ [])

unfoldable pub restart_args : String → String → List String → List String
unfolding compose_args
restart_args p file services = compose_args p file ("restart" ∷ services)

-- The calls of `runCompose` by their projects: the mutexes that are locked, the weight of the semaphore
-- that is taken, the calls that wait for the semaphore, those whose command runs, and those that have
-- only the deferred `mu.Unlock()` left.
pub record Calls : Type 0 where
  pub locked : List String
  pub taken : ℕ
  pub waiting : List String
  pub running : List String
  pub leaving : List String

abbrev pub no_calls : Calls
no_calls = record { locked = []; taken = 0; waiting = []; running = []; leaving = [] }

abbrev pub count : String → List String → ℕ
count p [] = 0
count p (x ∷ rest) = (if x == p then 1 else 0) + count p rest

abbrev pub put_back : String → Option (List String) → Option (List String)
put_back x none = none
put_back x (some rest) = some (x ∷ rest)

-- The list without one occurrence of the item; `none` where it has none.
unfoldable pub take_out : String → List String → Option (List String)
take_out p [] = none
take_out p (x ∷ rest) =
    let rest' = take_out p rest in if x == p then some rest else put_back x rest'

abbrev pub locked_if_free : String → Calls → ℕ → Option Calls
locked_if_free p s zero = some (record s { locked = p ∷ s.locked; waiting = p ∷ s.waiting })
locked_if_free p s (suc n) = none

-- `mu.Lock()` of the project's mutex; `none` while another call holds it.
unfoldable pub lock_project : String → Calls → Option Calls
lock_project p s = locked_if_free p s (count p s.locked)

abbrev pub admitted : String → Calls → Option (List String) → Option Calls
admitted p s none = none
admitted p s (some rest) =
    some (record s { taken = s.taken + 1; waiting = rest; running = p ∷ s.running })

-- `globalSem.Acquire(ctx, 1)`; `none` while the semaphore is full.
unfoldable pub acquire_slot : String → Calls → Option Calls
acquire_slot p s =
    if ltb s.taken max_concurrent_compose then admitted p s (take_out p s.waiting) else none

abbrev pub given_up : String → Calls → Option (List String) → Option Calls
given_up p s none = none
given_up p s (some rest) = some (record s { waiting = rest; leaving = p ∷ s.leaving })

-- `Acquire` fails because the context ends.
unfoldable pub give_up : String → Calls → Option Calls
give_up p s = given_up p s (take_out p s.waiting)

abbrev pub finished : String → Calls → Option (List String) → Option Calls
finished p s none = none
finished p s (some rest) =
    some (record s { taken = s.taken - 1; running = rest; leaving = p ∷ s.leaving })

-- The command ends, and `globalSem.Release(1)` follows.
unfoldable pub finish_command : String → Calls → Option Calls
finish_command p s = finished p s (take_out p s.running)

-- A mutex that is not locked has no next state: Go stops the program there.
abbrev pub unlocked : Calls → Option (List String) → Option Calls
unlocked s none = none
unlocked s (some rest) = some (record s { locked = rest })

abbrev pub left : String → Calls → Option (List String) → Option Calls
left p s none = none
left p s (some rest) = unlocked (record s { leaving = rest }) (take_out p s.locked)

-- The deferred `mu.Unlock()`.
unfoldable pub unlock_project : String → Calls → Option Calls
unlock_project p s = left p s (take_out p s.leaving)

-- What the calls reach, in any order of their steps.
pub data Reachable : Calls → Type 0 where
  at_start : Reachable no_calls
  locks : {s s' : Calls} (p : String) → Reachable s → lock_project p s ≡ some s' → Reachable s'
  acquires : {s s' : Calls} (p : String) → Reachable s → acquire_slot p s ≡ some s' → Reachable s'
  gives_up : {s s' : Calls} (p : String) → Reachable s → give_up p s ≡ some s' → Reachable s'
  finishes : {s s' : Calls} (p : String) → Reachable s → finish_command p s ≡ some s' → Reachable s'
  unlocks : {s s' : Calls} (p : String) → Reachable s → unlock_project p s ≡ some s' → Reachable s'
