-- ===== src/Store/Keeps.antt =====
-- Predicates on the tables that a query keeps, whatever it answers and whichever faults it meets.
use controlai.Prelude.{ℕ, Bool, true, false, List, [], ◌∷◌}
use controlai.Store.Rows.{Tables}
use controlai.Store.Query.{
  StoreError, Result, ok, err, Db, Query, Statement, pure, raise, continue, or_rollback, nothing,
  run_with, run, transaction, ◌>>=◌, ◌>>◌,
}

pub record Keeps (P : Tables → Type 0) {A : Type 0} (q : Query A) : Type 0 where
  pub at : (db : Db) → P db.tables → P (q db).1.tables

module _ {P : Tables → Type 0} {A : Type 0} where
  pub pure-Keeps : (a : A) → Keeps P (pure a)
  pure-Keeps a = record { at = λ db h. h }

  pub raise-Keeps : (e : StoreError) → Keeps P (raise {A = A} e)
  raise-Keeps e = record { at = λ db h. h }

  run_with-keeps :
      (s : Statement A)
      → ((now : ℕ) (t : Tables) → P t → P (s now t).1)
      → (faults : List Bool) (db : Db) → P db.tables
      → P (run_with faults s db).1.tables
  run_with-keeps s step [] db h = step db.now db.tables h
  run_with-keeps s step (true ∷ rest) db h = h
  run_with-keeps s step (false ∷ rest) db h = step db.now db.tables h

  pub run-Keeps :
      (s : Statement A) → ((now : ℕ) (t : Tables) → P t → P (s now t).1) → Keeps P (run s)
  unfolding run
  run-Keeps s step = record { at = λ db h. run_with-keeps s step db.faults db h }

module _ {P : Tables → Type 0} {A B : Type 0} where
  continue-keeps :
      (x : Result A × Db) (f : A → Query B)
      → P x.1.tables
      → ((a : A) → Keeps P (f a))
      → P (continue x f).1.tables
  continue-keeps (ok a, db) f h k = (k a).at db h
  continue-keeps (err e, db) f h k = h

  pub bind-Keeps :
      (m : Query A) (f : A → Query B) → Keeps P m → ((a : A) → Keeps P (f a)) → Keeps P (m >>= f)
  bind-Keeps m f km kf = record { at = λ db h. continue-keeps (m db) f (km.at db h) kf }

or_rollback-keeps :
    (P : Tables → Type 0) (t : Tables) (x : Result (Unit {0}) × Db)
    → P t
    → P x.1.tables
    → P (or_rollback t x).1.tables
or_rollback-keeps P t (ok u, db) h k = k
or_rollback-keeps P t (err e, db) h k = h

module _ {P : Tables → Type 0} where
  pub then-Keeps :
      {B : Type 0} (m : Query (Unit {0})) (k : Query B) → Keeps P m → Keeps P k → Keeps P (m >> k)
  then-Keeps m k km kk = record {
    at = λ db h. continue-keeps (m db) (λ _. k) (km.at db h) (λ _. kk);
  }

  nothing-Keeps : Keeps P (run nothing)
  nothing-Keeps = run-Keeps nothing (λ now t h. h)

  pub transaction-Keeps : (body : Query (Unit {0})) → Keeps P body → Keeps P (transaction body)
  unfolding transaction
  transaction-Keeps body k = record {
    at = λ db h. or_rollback-keeps P db.tables ((do run nothing; body; run nothing) db) h (
        (then-Keeps (run nothing) (do body; run nothing) nothing-Keeps
            (then-Keeps body (run nothing) k nothing-Keeps)).at
          db h);
  }
