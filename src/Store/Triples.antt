-- ===== src/Store/Triples.antt =====
-- What the tables satisfy when a query answers without an error.
use controlai.Prelude.{ℕ, Bool, true, false, List, [], ◌∷◌, ◌≡◌, refl}
use controlai.Store.Rows.{Tables}
use controlai.Store.Query.{
  StoreError, Result, ok, err, Db, Query, Statement, continue, or_rollback, nothing, leave,
  run_with, run, transaction, ◌>>◌,
}

-- True of an error; of an answer, what Q says of the tables.
abbrev pub Holds : {A T : Type 0} → (T → Type 0) → Result A × T → Type 0
Holds Q (ok a, t) = Q t
Holds Q (err e, t) = Unit

pub record Triple (P Q : Tables → Type 0) {A : Type 0} (q : Query A) : Type 0 where
  pub at : (db : Db) → P db.tables → Holds (λ d. Q d.tables) (q db)

abbrev pub After : (Tables → Type 0) → Db → Type 0
After Q db = Q db.tables

leave-holds :
    {A : Type 0} (Q : Tables → Type 0) (db : Db) (x : Result A × Tables)
    → Holds Q x
    → Holds (After Q) (leave db x)
leave-holds Q db (ok a, t) h = h
leave-holds Q db (err e, t) h = tt

run_with-holds :
    {A : Type 0} (P Q : Tables → Type 0) (s : Statement A)
    → ((now : ℕ) (t : Tables) → P t → Holds Q (s now t))
    → (faults : List Bool) (db : Db) → P db.tables
    → Holds (After Q) (run_with faults s db)
run_with-holds P Q s step [] db h = leave-holds Q db _ (step db.now db.tables h)
run_with-holds P Q s step (true ∷ rest) db h = tt
run_with-holds P Q s step (false ∷ rest) db h =
    leave-holds Q (record db { faults = rest }) _ (step db.now db.tables h)

continue-holds :
    {A B : Type 0} (Q R : Tables → Type 0) (x : Result A × Db) (k : Query B)
    → Holds (After Q) x
    → ((db : Db) → Q db.tables → Holds (After R) (k db))
    → Holds (After R) (continue x (λ _. k))
continue-holds Q R (ok a, db) k h step = step db h
continue-holds Q R (err e, db) k h step = tt

or_rollback-holds :
    (Q : Tables → Type 0) (t : Tables) (x : Result (Unit {0}) × Db)
    → Holds (After Q) x
    → Holds (After Q) (or_rollback t x)
or_rollback-holds Q t (ok u, db) h = h
or_rollback-holds Q t (err e, db) h = tt

module _ {P Q : Tables → Type 0} where
  pub run-Triple :
      {A : Type 0} (s : Statement A)
      → ((now : ℕ) (t : Tables) → P t → Holds Q (s now t))
      → Triple P Q (run s)
  unfolding run
  run-Triple s step = record { at = λ db h. run_with-holds P Q s step db.faults db h }

  pub then-Triple :
      {R : Tables → Type 0} {B : Type 0} (m : Query (Unit {0})) (k : Query B)
      → Triple P Q m
      → Triple Q R k
      → Triple P R (m >> k)
  then-Triple {R} m k tm tk = record { at = λ db h. continue-holds Q R (m db) k (tm.at db h) tk.at }

pub nothing-Triple : (P : Tables → Type 0) → Triple P P (run nothing)
nothing-Triple P = run-Triple nothing (λ now t h. h)

pub transaction-Triple :
    {P Q : Tables → Type 0} (body : Query (Unit {0}))
    → Triple P Q body
    → Triple P Q (transaction body)
unfolding transaction
transaction-Triple {P} {Q} body k = record {
  at = λ db h. or_rollback-holds Q db.tables ((do run nothing; body; run nothing) db) (
      (then-Triple (run nothing) (do body; run nothing) (nothing-Triple P)
          (then-Triple body (run nothing) k (nothing-Triple Q))).at
        db h);
}

-- Whatever fails in a transaction, the tables are those that it began with.
or_rollback-restores :
    (t : Tables) (x : Result (Unit {0}) × Db) (e : StoreError)
    → (or_rollback t x).0 ≡ err e
    → (or_rollback t x).1.tables ≡ t
or_rollback-restores t (ok u, db) e h = cc
or_rollback-restores t (err e', db) e h = refl

pub transaction-restores :
    (body : Query (Unit {0})) (db : Db) (e : StoreError)
    → (transaction body db).0 ≡ err e
    → (transaction body db).1.tables ≡ db.tables
unfolding transaction
transaction-restores body db e h =
    or_rollback-restores db.tables ((do run nothing; body; run nothing) db) e h
