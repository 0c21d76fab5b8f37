-- ===== src/Store/DesiredMap.antt =====
-- The table of desired states as a map from projects to a state and a hash, failing statements included.
use controlai.Prelude.{
  String, ◌==◌, Bool, true, false, Option, none, some, List, [], ◌∷◌, ◌≡◌, refl, arith,
  if◌then◌else◌, ℕ,
}
use controlai.Store.Tables.Statements.{lookup}
use controlai.Store.Tables.Lookups.{lookup-upsert, merged}
use controlai.Store.Rows.{DesiredStateRow, Tables}
use controlai.Store.Query.{
  not_found, duplicate, wrapped, io_failure, Result, ok, err, Db, run, attempt,
}
use controlai.Store.Tenants.{found}
use controlai.Store.States.{
  project_of, merge_desired, stamp_desired, put_desired, upsert_desired_state, select_desired,
  get_desired_state,
}

pub data Call : Type 0 where
  put : DesiredStateRow → Call
  get : String → Call

pub data Answer : Type 0 where
  put_answer : Result (Unit {0}) → Answer
  get_answer : Result DesiredStateRow → Answer

abbrev pub answer_put : Result (Unit {0}) × Db → Answer × Db
answer_put (r, db) = (put_answer r, db)

abbrev pub answer_get : Result DesiredStateRow × Db → Answer × Db
answer_get (r, db) = (get_answer r, db)

abbrev pub perform : Call → Db → Answer × Db
perform (put d) db = answer_put (upsert_desired_state d db)
perform (get j) db = answer_get (get_desired_state j db)

-- The answers of a sequence of calls.
unfoldable pub answers : List Call → Db → List Answer
answers [] db = []
answers (c ∷ rest) db = let (a, db') = perform c db in a ∷ answers rest db'

-- What the daemon keeps for a project: its state and its hash.
abbrev pub Target : Type 0
Target = String × String

abbrev pub target_of : DesiredStateRow → Target
target_of d = (d.state, d.config_hash)

-- The map after a call, of which the answer is known: an error has changed nothing.
abbrev pub put_target : (String → Option Target) → DesiredStateRow → String → Option Target
put_target f d j = if d.project_id == j then some (target_of d) else f j

abbrev pub after : (String → Option Target) → Call → Answer → String → Option Target
after f (put d) (put_answer (ok u)) = put_target f d
after f (put d) (put_answer (err e)) = f
after f (put d) (get_answer r) = f
after f (get j) a = f

-- What a call may answer: any error of the driver, else what the map says.
abbrev pub Allowed : (String → Option Target) → Call → Answer → Type 0
Allowed f (put d) (put_answer (ok u)) = Unit
Allowed f (put d) (put_answer (err e)) = e ≡ wrapped io_failure
Allowed f (put d) (get_answer r) = ⊥
Allowed f (get j) (put_answer r) = ⊥
Allowed f (get j) (get_answer (ok d)) = f j ≡ some (target_of d)
Allowed f (get j) (get_answer (err not_found)) = f j ≡ none
Allowed f (get j) (get_answer (err duplicate)) = ⊥
Allowed f (get j) (get_answer (err (wrapped e))) = e ≡ io_failure

-- Answers that the map allows, one after the other.
pub data Refines : (String → Option Target) → List Call → List Answer → Type 0 where
  no_call : {f : String → Option Target} → Refines f [] []
  one_call :
      {f : String → Option Target} {c : Call} {a : Answer} {rest : List Call} {more : List Answer}
      → Allowed f c a
      → Refines (after f c a) rest more
      → Refines f (c ∷ rest) (a ∷ more)

abbrev target_in : Option DesiredStateRow → Option Target
target_in none = none
target_in (some d) = some (target_of d)

abbrev pub view : Tables → String → Option Target
view t j = target_in (lookup project_of j t.desired_state)

-- The map shows what the table holds.
abbrev pub Shows : (String → Option Target) → Tables → Type 0
Shows f t = (j : String) → f j ≡ view t j

target_in-merged :
    (d : DesiredStateRow) (r : Option DesiredStateRow)
    → target_in (some (merged project_of merge_desired d r)) ≡ some (target_of d)
target_in-merged d none = refl
target_in-merged d (some r) = refl

put_desired-Shows :
    (f : String → Option Target) (d : DesiredStateRow) (now : ℕ) (t : Tables)
    → Shows f t
    → Shows (put_target f d) (put_desired d now t).1
unfolding put_desired
put_desired-Shows f d now t h j =
    rw
      (lookup-upsert project_of merge_desired (λ s r. refl) (stamp_desired now d) j t.desired_state)
      (ground
        (arith, h j, target_in-merged (stamp_desired now d) (lookup project_of j t.desired_state)))

-- One call: an answer that the map allows, and tables that the next map shows.
abbrev StepHolds : (String → Option Target) → Call → Answer × Db → Type 0
StepHolds f c out = Allowed f c out.0 × Shows (after f c out.0) out.1.tables

attempt_put :
    (f : String → Option Target) (d : DesiredStateRow) (fault : Bool) (db : Db)
    → Shows f db.tables
    → StepHolds f (put d) (answer_put (attempt fault (put_desired d) db))
unfolding put_desired
attempt_put f d true db h = (refl, h)
attempt_put f d false db h = (tt, put_desired-Shows f d db.now db.tables h)

found_row :
    (f : String → Option Target) (j : String) (o : Option DesiredStateRow)
    → f j ≡ target_in o
    → Allowed f (get j) (get_answer (found (λ d. d) o))
found_row f j none h = h
found_row f j (some d) h = h

attempt_get :
    (f : String → Option Target) (j : String) (fault : Bool) (db : Db)
    → Shows f db.tables
    → StepHolds f (get j) (answer_get (attempt fault (select_desired j) db))
unfolding select_desired
attempt_get f j true db h = (refl, h)
attempt_get f j false db h = (found_row f j (lookup project_of j db.tables.desired_state) (h j), h)

run_call :
    (f : String → Option Target) (c : Call) (faults : List Bool) (now : ℕ) (t : Tables)
    → Shows f t
    → StepHolds f c (perform c (record { tables = t; now = now; faults = faults }))
unfolding upsert_desired_state get_desired_state run
run_call f (put d) [] now t h =
    attempt_put f d false (record { tables = t; now = now; faults = [] }) h
run_call f (put d) (fault ∷ rest) now t h =
    attempt_put f d fault (record { tables = t; now = now; faults = rest }) h
run_call f (get j) [] now t h =
    attempt_get f j false (record { tables = t; now = now; faults = [] }) h
run_call f (get j) (fault ∷ rest) now t h =
    attempt_get f j fault (record { tables = t; now = now; faults = rest }) h

-- Any sequence of `UpsertDesiredState` and `GetDesiredState`, with whatever statements failing, answers as a
-- map from projects to a state and a hash does, which an upsert that succeeds overwrites at its project
-- and nothing else changes.
pub answers-Refines :
    (f : String → Option Target) (calls : List Call) (db : Db)
    → ((j : String) → f j ≡ view db.tables j)
    → Refines f calls (answers calls db)
unfolding answers
answers-Refines f [] db h = no_call
answers-Refines f (c ∷ rest) db h =
    let step = run_call f c db.faults db.now db.tables h in
    one_call step.0 (answers-Refines (after f c (perform c db).0) rest (perform c db).1 step.1)
