-- ===== src/Store/Tables/Statements.antt =====
-- A SQL table as the list of its rows in the order of insertion, and the statements of store.go on
-- one table: INSERT, SELECT with WHERE and ORDER BY, UPDATE, DELETE and INSERT ON CONFLICT UPDATE.
use controlai.Prelude.{
  ◌≡◌, Bool, false, not, Option, List, [], ◌∷◌, ◌++◌, String, ◌==◌, any, select, find_first,
  if◌then◌else◌,
}

module _ {R : Type 0} where
  abbrev pub insert : R → List R → List R
  insert r rows = rows ++ r ∷ []

  abbrev pub delete : (R → Bool) → List R → List R
  delete p rows = select (λ r. not (p r)) rows

  abbrev pub update : (R → Bool) → (R → R) → List R → List R
  update p f [] = []
  update p f (r ∷ rows) = let rest = update p f rows in (if p r then f r else r) ∷ rest

  -- ORDER BY, by insertion into a sorted list; equal keys keep their order.
  unfoldable pub place : (R → R → Bool) → R → List R → List R
  place before r [] = r ∷ []
  place before r (s ∷ rows) =
      let rest = place before r rows in if before r s then r ∷ s ∷ rows else s ∷ rest

  unfoldable pub order_by : (R → R → Bool) → List R → List R
  unfolding place
  order_by before [] = []
  order_by before (r ∷ rows) = place before r (order_by before rows)

  module _ (key : R → String) where
    abbrev pub has : String → List R → Bool
    has k rows = any (λ r. key r == k) rows

    abbrev pub lookup : String → List R → Option R
    lookup k rows = find_first (λ r. key r == k) rows

    -- INSERT … ON CONFLICT(key) DO UPDATE: `merge old new` is the row that the update leaves.
    abbrev pub upsert : (R → R → R) → R → List R → List R
    upsert merge r rows =
        if has (key r) rows
        then update (λ s. key s == key r) (λ s. merge s r) rows
        else insert r rows

    -- A primary key or a UNIQUE column.
    abbrev pub Unique : List R → Type 0
    Unique [] = Unit
    Unique (r ∷ rows) = (has (key r) rows ≡ false) × Unique rows
