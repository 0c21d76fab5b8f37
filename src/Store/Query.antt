-- ===== src/Store/Query.antt =====
-- The database handle of internal/store/sqlite/store.go. The store has one connection, so statements
-- run one at a time. `faults` says, statement by statement, whether the driver fails it (a full disk, a
-- cancelled context, a lock); no entry left means that it does not.
use controlai.Prelude.{ℕ, Bool, true, false, List, [], ◌∷◌}
use controlai.Store.Rows.{Tables}

-- What the driver reports: a UNIQUE or FOREIGN KEY constraint, or that it could not do the work.
pub data DriverError : Type 0 where
  unique_constraint foreign_key_constraint io_failure : DriverError

-- `ErrNotFound`, `ErrDuplicate`, or an error of the driver with a text around it.
pub data StoreError : Type 0 where
  not_found duplicate : StoreError
  wrapped : DriverError → StoreError

pub data Result {ℓ} (A : Type ℓ) : Type ℓ where
  ok : A → Result A
  err : StoreError → Result A

pub record Db : Type 0 where
  pub tables : Tables
  pub now : ℕ
  pub faults : List Bool

abbrev pub Query : Type 0 → Type 0
Query A = Db → Result A × Db

-- One SQL statement at a time of the clock: its answer and the tables it leaves.
abbrev pub Statement : Type 0 → Type 0
Statement A = ℕ → Tables → Result A × Tables

abbrev pub pure : {A : Type 0} → A → Query A
pure a db = (ok a, db)

abbrev pub raise : {A : Type 0} → StoreError → Query A
raise e db = (err e, db)

abbrev pub continue : {A B : Type 0} → Result A × Db → (A → Query B) → Result B × Db
continue (ok a, db) f = f a db
continue (err e, db) f = (err e, db)

infixl 5 ◌>>=◌ ◌>>◌
abbrev pub ◌>>=◌ : {A B : Type 0} → Query A → (A → Query B) → Query B
◌>>=◌ m f db = continue (m db) f

abbrev pub ◌>>◌ : {B : Type 0} → Query (Unit {0}) → Query B → Query B
◌>>◌ m k db = continue (m db) (λ _. k)

abbrev pub leave : {A : Type 0} → Db → Result A × Tables → Result A × Db
leave db (r, t) = (r, record db { tables = t })

abbrev pub attempt : {A : Type 0} → Bool → Statement A → Query A
attempt true s db = (err (wrapped io_failure), db)
attempt false s db = leave db (s db.now db.tables)

abbrev pub run_with : {A : Type 0} → List Bool → Statement A → Query A
run_with [] s db = attempt false s db
run_with (fault ∷ rest) s db = attempt fault s (record db { faults = rest })

-- `ExecContext` and `QueryContext`.
unfoldable pub run : {A : Type 0} → Statement A → Query A
run s db = run_with db.faults s db

-- `BeginTx` and `Commit`.
abbrev pub nothing : Statement (Unit {0})
nothing now t = (ok tt, t)

abbrev pub or_rollback : Tables → Result (Unit {0}) × Db → Result (Unit {0}) × Db
or_rollback t (ok u, db) = (ok u, db)
or_rollback t (err e, db) = (err e, record db { tables = t })

-- A transaction: an error at its begin, in its body or at its commit takes everything back.
unfoldable pub transaction : Query (Unit {0}) → Query (Unit {0})
unfolding run
transaction body db = or_rollback db.tables ((do run nothing; body; run nothing) db)
