-- ===== src/Store/Tables/References.antt =====
-- Foreign keys: every child row names a parent row, and the statements that keep it so.
use controlai.Prelude.{
  ◌≡◌, Bool, true, false, List, [], ◌∷◌, String, ◌==◌, All, any, select, arith, Bool-cases, inl,
  inr,
}
use controlai.Store.Tables.Statements.{insert, delete, update, has, upsert, Unique}
use controlai.Store.Tables.Keys.{has-append, has-update, delete-Unique}

module _ {C P : Type 0} (fk : C → String) (key : P → String) where
  abbrev pub References : List C → List P → Type 0
  References children parents = All (λ c. has key (fk c) parents ≡ true) children

  -- ON DELETE CASCADE: the children of the parents that a deletion removes go with them.
  abbrev pub cascade : (P → Bool) → List P → List C → List C
  cascade p parents children = delete (λ c. has key (fk c) (select p parents)) children

  References-parents :
      (ps qs : List P)
      → ((k : String) → has key k ps ≡ true → has key k qs ≡ true)
      → (cs : List C) → References cs ps
      → References cs qs
  References-parents ps qs step [] h = tt
  References-parents ps qs step (c ∷ cs) h = (step (fk c) h.0, References-parents ps qs step cs h.1)

  pub insert_parent-References :
      (r : P) (ps : List P) (cs : List C) → References cs ps → References cs (insert r ps)
  insert_parent-References r ps cs =
      References-parents ps (insert r ps) (λ k h. ground (arith, has-append key k ps (r ∷ []))) cs

  pub update_parent-References :
      (p : P → Bool) (f : P → P)
      → ((r : P) → key (f r) ≡ key r)
      → (ps : List P) (cs : List C) → References cs ps
      → References cs (update p f ps)
  update_parent-References p f keep ps cs =
      References-parents ps (update p f ps) (λ k h. rw (has-update key k p f keep ps) h) cs

  pub insert_child-References :
      (c : C) (ps : List P) (cs : List C)
      → has key (fk c) ps ≡ true
      → References cs ps
      → References (insert c cs) ps
  insert_child-References c ps [] e h = (e, tt)
  insert_child-References c ps (d ∷ cs) e h = (h.0, insert_child-References c ps cs e h.1)

  pub update_child-References :
      (p : C → Bool) (f : C → C)
      → ((c : C) → fk (f c) ≡ fk c)
      → (ps : List P) (cs : List C) → References cs ps
      → References (update p f cs) ps
  update_child-References p f keep ps [] h = tt
  update_child-References p f keep ps (c ∷ cs) h = elim (Bool-cases (p c)) [
    | inl e ↦ rw (e, keep c) (h.0, update_child-References p f keep ps cs h.1)
    | inr e ↦ rw e (h.0, update_child-References p f keep ps cs h.1)
  ]

  pub upsert_child-References :
      (ckey : C → String) (merge : C → C → C)
      → ((s r : C) → fk (merge s r) ≡ fk s)
      → (c : C) (ps : List P) (cs : List C) → has key (fk c) ps ≡ true
      → References cs ps
      → References (upsert ckey merge c cs) ps
  upsert_child-References ckey merge keep c ps cs e h = elim (Bool-cases (has ckey (ckey c) cs)) [
    | inl f ↦
        rw f
          (update_child-References (λ s. ckey s == ckey c) (λ s. merge s c) (λ s. keep s c) ps cs h)
    | inr f ↦ rw f (insert_child-References c ps cs e h)
  ]

  pub delete_child-References :
      (p : C → Bool) (ps : List P) (cs : List C) → References cs ps → References (delete p cs) ps
  delete_child-References p ps [] h = tt
  delete_child-References p ps (c ∷ cs) h = ground (arith, delete_child-References p ps cs)

  has-delete_kept :
      (k : String) (p : P → Bool) (ps : List P)
      → has key k ps ≡ true
      → has key k (select p ps) ≡ false
      → has key k (delete p ps) ≡ true
  has-delete_kept k p [] h e = cc
  has-delete_kept k p (r ∷ ps) h e = ground (arith, has-delete_kept k p ps)

  pub cascade-References :
      (p : P → Bool) (ps : List P) (cs : List C)
      → References cs ps
      → References (cascade p ps cs) (delete p ps)
  cascade-References p ps [] h = tt
  cascade-References p ps (c ∷ cs) h = elim (Bool-cases (has key (fk c) (select p ps))) [
    | inl e ↦ rw e (cascade-References p ps cs h.1)
    | inr e ↦ rw e (has-delete_kept (fk c) p ps h.0 e, cascade-References p ps cs h.1)
  ]

  -- ON DELETE RESTRICT: with no child of a removed parent, every child keeps its parent.
  pub restrict-References :
      (p : P → Bool) (ps : List P) (cs : List C)
      → any (λ c. has key (fk c) (select p ps)) cs ≡ false
      → References cs ps
      → References cs (delete p ps)
  restrict-References p ps [] e h = tt
  restrict-References p ps (c ∷ cs) e h =
      ground (arith, has-delete_kept (fk c) p ps, restrict-References p ps cs)

  pub cascade-Unique :
      (ckey : C → String) (p : P → Bool) (ps : List P) (cs : List C)
      → Unique ckey cs
      → Unique ckey (cascade p ps cs)
  cascade-Unique ckey p ps cs = delete-Unique ckey (λ c. has key (fk c) (select p ps)) cs
