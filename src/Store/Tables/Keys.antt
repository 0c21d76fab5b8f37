-- ===== src/Store/Tables/Keys.antt =====
-- What the statements on one table do to its keys.
use controlai.Prelude.{
  ◌≡◌, refl, Bool, true, false, ◌||◌, List, [], ◌∷◌, ◌++◌, String, ◌==◌, eq_iff, any, arith,
  Bool-cases, inl, inr,
}
use controlai.Store.Tables.Statements.{insert, delete, update, has, upsert, Unique}

pub eq_comm : (a b : String) → (a == b) ≡ (b == a)
eq_comm a b = ground (arith, eq_iff a b, eq_iff b a)

module _ {R : Type 0} where
  -- What a deletion removed is not there.
  pub any-delete : (p : R → Bool) (rows : List R) → any p (delete p rows) ≡ false
  any-delete p [] = refl
  any-delete p (r ∷ rows) = ground (arith, any-delete p rows)

module _ {R : Type 0} (key : R → String) where
  pub has-append :
      (k : String) (xs ys : List R) → has key k (xs ++ ys) ≡ (has key k xs || has key k ys)
  has-append k [] ys = refl
  has-append k (x ∷ xs) ys = ground (arith, has-append k xs ys)

  pub has-update :
      (k : String) (p : R → Bool) (f : R → R)
      → ((r : R) → key (f r) ≡ key r)
      → (rows : List R) → has key k (update p f rows) ≡ has key k rows
  has-update k p f keep [] = refl
  has-update k p f keep (r ∷ rows) = elim (Bool-cases (p r)) [
    | inl e ↦ rw (e, keep r, has-update k p f keep rows)
    | inr e ↦ rw (e, has-update k p f keep rows)
  ]

  pub has-delete :
      (k : String) (p : R → Bool) (rows : List R)
      → has key k rows ≡ false
      → has key k (delete p rows) ≡ false
  has-delete k p [] h = refl
  has-delete k p (r ∷ rows) h = ground (arith, has-delete k p rows)

  pub insert-Unique :
      (r : R) (rows : List R)
      → has key (key r) rows ≡ false
      → Unique key rows
      → Unique key (insert r rows)
  insert-Unique r [] h u = (refl, tt)
  insert-Unique r (s ∷ rows) h u =
      ground
        (arith, has-append (key s) rows (r ∷ []), eq_comm (key s) (key r), insert-Unique r rows)

  pub update-Unique :
      (p : R → Bool) (f : R → R)
      → ((r : R) → key (f r) ≡ key r)
      → (rows : List R) → Unique key rows
      → Unique key (update p f rows)
  update-Unique p f keep [] u = tt
  update-Unique p f keep (r ∷ rows) u = elim (Bool-cases (p r)) [
    | inl e ↦
        rw (e, keep r, has-update (key r) p f keep rows) (u.0, update-Unique p f keep rows u.1)
    | inr e ↦ rw (e, has-update (key r) p f keep rows) (u.0, update-Unique p f keep rows u.1)
  ]

  pub delete-Unique : (p : R → Bool) (rows : List R) → Unique key rows → Unique key (delete p rows)
  delete-Unique p [] u = tt
  delete-Unique p (r ∷ rows) u = ground (arith, has-delete (key r) p rows, delete-Unique p rows)

  pub upsert-Unique :
      (merge : R → R → R)
      → ((s r : R) → key (merge s r) ≡ key s)
      → (r : R) (rows : List R) → Unique key rows
      → Unique key (upsert key merge r rows)
  upsert-Unique merge keep r rows u = elim (Bool-cases (has key (key r) rows)) [
    | inl e ↦ rw e (update-Unique (λ s. key s == key r) (λ s. merge s r) (λ s. keep s r) rows u)
    | inr e ↦ rw e (insert-Unique r rows e u)
  ]

  pub has-upsert :
      (merge : R → R → R)
      → ((s r : R) → key (merge s r) ≡ key s)
      → (k : String) (r : R) (rows : List R) → has key k rows ≡ true
      → has key k (upsert key merge r rows) ≡ true
  has-upsert merge keep k r rows h = elim (Bool-cases (has key (key r) rows)) [
    | inl e ↦ rw (e, has-update k (λ s. key s == key r) (λ s. merge s r) (λ s. keep s r) rows) h
    | inr e ↦ rw e (ground (arith, has-append k rows (r ∷ [])))
  ]
