-- ===== src/Store/Tables/Lookups.antt =====
-- What a key finds after a statement on the table.
use controlai.Prelude.{
  ◌≡◌, ◌≢◌, refl, true, false, Option, none, some, List, [], ◌∷◌, String, ◌==◌, eq_iff, arith,
  if◌then◌else◌, Bool-cases, inl, inr,
}
use controlai.Store.Tables.Statements.{insert, delete, update, has, lookup, upsert}

module _ {R : Type 0} (key : R → String) where
  abbrev pub merged : (R → R → R) → R → Option R → R
  merged merge r none = r
  merged merge r (some s) = merge s r

  pub has-lookup : (k : String) (rows : List R) → has key k rows ≡ false → lookup key k rows ≡ none
  has-lookup k [] h = refl
  has-lookup k (r ∷ rows) h = ground (arith, has-lookup k rows)

  pub lookup-insert :
      (k : String) (r : R) (rows : List R)
      → has key (key r) rows ≡ false
      → lookup key k (insert r rows) ≡ (if key r == k then some r else lookup key k rows)
  lookup-insert k r [] h = refl
  lookup-insert k r (s ∷ rows) h =
      ground
        (arith, lookup-insert k r rows, eq_iff (key s) k, eq_iff (key r) k, eq_iff (key s) (key r))

  abbrev pub map_option : (R → R) → Option R → Option R
  map_option f none = none
  map_option f (some r) = some (f r)

  -- UPDATE … WHERE key = k.
  pub lookup-update :
      (f : R → R)
      → ((s : R) → key (f s) ≡ key s)
      → (k j : String) (rows : List R)
      → lookup key j (update (λ s. key s == k) f rows)
        ≡ (if k == j then map_option f (lookup key j rows) else lookup key j rows)
  lookup-update f keep k j [] = ground arith
  lookup-update f keep k j (s ∷ rows) =
      ground (
        arith,
        keep s,
        lookup-update f keep k j rows,
        eq_iff (key s) j,
        eq_iff (key s) k,
        eq_iff k j,
      )

  pub lookup-delete :
      (k j : String) (rows : List R)
      → lookup key j (delete (λ s. key s == k) rows) ≡ (if k == j then none else lookup key j rows)
  lookup-delete k j [] = ground arith
  lookup-delete k j (s ∷ rows) =
      ground (arith, lookup-delete k j rows, eq_iff (key s) j, eq_iff (key s) k, eq_iff k j)

  pub has-lookup_some :
      (k : String) (rows : List R) → has key k rows ≡ true → lookup key k rows ≢ none
  has-lookup_some k [] h e = cc
  has-lookup_some k (r ∷ rows) h e = ground (arith, has-lookup_some k rows)

  pub lookup-upsert :
      (merge : R → R → R)
      → ((s r : R) → key (merge s r) ≡ key s)
      → (r : R) (j : String) (rows : List R)
      → lookup key j (upsert key merge r rows)
        ≡ (if key r == j then some (merged merge r (lookup key j rows)) else lookup key j rows)
  lookup-upsert merge keep r j rows = elim (Bool-cases (has key (key r) rows)) [
    | inl e ↦ rw e (
        rw (lookup-update (λ s. merge s r) (λ s. keep s r) (key r) j rows)
          (ground (arith, eq_iff (key r) j, has-lookup_some j rows)))
    | inr e ↦
        rw e (rw (lookup-insert j r rows e) (ground (arith, eq_iff (key r) j, has-lookup j rows)))
  ]
