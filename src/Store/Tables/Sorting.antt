-- ===== src/Store/Tables/Sorting.antt =====
-- The laws of sorting by insertion, `order_by`: what it returns has the items of the list, and it
-- depends on them only, not on their order, where items of the same rank are equal.
use mathlib.Core.List.{Perm, Permᴰ, Mem, mem-cons_self, mem-cons_of_mem}
use mathlib.Core.List.Perm
use mathlib.Core.List.Permᴰ
use controlai.Prelude.{
  ◌≡◌, refl, ◌∙◌, Bool, true, false, List, [], ◌∷◌, length, all, Bool-cases, inl, inr, arith,
}
use controlai.Store.Tables.Statements.{place, order_by}

module _ {R : Type 0} (before : R → R → Bool) where
  place-Perm : (r : R) (l : List R) → Perm (place before r l) (r ∷ l)
  unfolding place
  place-Perm r [] = Perm.refl (r ∷ [])
  place-Perm r (s ∷ l) = elim (Bool-cases (before r s)) [
    | inl e ↦ rw e (Perm.refl (r ∷ s ∷ l))
    | inr e ↦ rw e (Perm.trans (Perm.cons s (place-Perm r l)) (Perm.swap r s l))
  ]

  pub order_by-Perm : (l : List R) → Perm (order_by before l) l
  unfolding order_by
  order_by-Perm [] = Perm.refl []
  order_by-Perm (r ∷ l) =
      Perm.trans (place-Perm r (order_by before l)) (Perm.cons r (order_by-Perm l))

  -- No item comes after a later one.
  abbrev pub IsSorted : List R → Type 0
  IsSorted [] = Unit
  IsSorted (r ∷ l) = (all (before r) l ≡ true) × IsSorted l

  module _ (total : (a b : R) → before a b ≡ false → before b a ≡ true)
      (transitive : (a b c : R) → before a b ≡ true → before b c ≡ true → before a c ≡ true) where
    all_later :
        (a b : R) (l : List R)
        → before a b ≡ true
        → all (before b) l ≡ true
        → all (before a) l ≡ true
    all_later a b [] h k = refl
    all_later a b (c ∷ l) h k = ground (arith, transitive a b c h, all_later a b l h)

    all-place :
        (p : R → Bool) (r : R) (l : List R)
        → p r ≡ true
        → all p l ≡ true
        → all p (place before r l) ≡ true
    unfolding place
    all-place p r [] h k = ground (arith, h)
    all-place p r (s ∷ l) h k = elim (Bool-cases (before r s)) [
      | inl e ↦ rw (e, h) k
      | inr e ↦ rw e (ground (arith, k, all-place p r l h))
    ]

    place-IsSorted : (r : R) (l : List R) → IsSorted l → IsSorted (place before r l)
    unfolding place
    place-IsSorted r [] h = (refl, tt)
    place-IsSorted r (s ∷ l) h = elim (Bool-cases (before r s)) [
      | inl e ↦ rw e (rw e (all_later r s l e h.0), h)
      | inr e ↦ rw e (all-place (before s) r l (total r s e) h.0, place-IsSorted r l h.1)
    ]

    pub order_by-IsSorted : (l : List R) → IsSorted (order_by before l)
    unfolding order_by
    order_by-IsSorted [] = tt
    order_by-IsSorted (r ∷ l) = place-IsSorted r (order_by before l) (order_by-IsSorted l)

    place_comm :
        (x y : R) (l : List R)
        → (before x y ≡ true → before y x ≡ true → x ≡ y)
        → place before x (place before y l) ≡ place before y (place before x l)
    unfolding place
    place_comm x y [] h = ground (arith, total x y, total y x)
    place_comm x y (s ∷ l) h =
        ground (arith, total x y, total y x, transitive x y s, transitive y x s, place_comm x y l h)

    -- Items of the same rank in a list are the same.
    abbrev pub HasDistinctRanks : List R → Type 0
    HasDistinctRanks l =
        (a b : R) → Mem a l → Mem b l → before a b ≡ true → before b a ≡ true → a ≡ b

    HasDistinctRanks-tail : (r : R) (l : List R) → HasDistinctRanks (r ∷ l) → HasDistinctRanks l
    HasDistinctRanks-tail r l h a b m n = h a b (mem-cons_of_mem r m) (mem-cons_of_mem r n)

    -- Sorting forgets the order of the list.
    pub order_by-Permᴰ :
        {l l' : List R} → Permᴰ l l' → HasDistinctRanks l → order_by before l ≡ order_by before l'
    unfolding order_by
    order_by-Permᴰ Permᴰ.nil h = refl
    order_by-Permᴰ (Permᴰ.cons {a = a} {b = b} {l₁ = l₁} {l₂ = l₂} e d) h =
        λ i. place before (e i) (order_by-Permᴰ d (HasDistinctRanks-tail a l₁ h) i)
    order_by-Permᴰ (Permᴰ.swap {a = a} {b = b} {a' = a'} {b' = b'} {l = l} e e') h =
        place_comm a b (order_by before l) (h a b mem-cons_self (mem-cons_of_mem a mem-cons_self))
        ∙ (λ i. place before (e' i) (place before (e i) (order_by before l)))
    order_by-Permᴰ (Permᴰ.trans d d') h =
        order_by-Permᴰ d h
        ∙ order_by-Permᴰ d'
            (λ a b m n. h a b (Permᴰ.mem (Permᴰ.symm d) m) (Permᴰ.mem (Permᴰ.symm d) n))

pub length-Permᴰ : {R : Type 0} {l l' : List R} → Permᴰ l l' → length l ≡ length l'
length-Permᴰ Permᴰ.nil = refl
length-Permᴰ (Permᴰ.cons e d) = omega (arith, length-Permᴰ d)
length-Permᴰ (Permᴰ.swap {l = l} e e') = omega arith
length-Permᴰ (Permᴰ.trans d d') = length-Permᴰ d ∙ length-Permᴰ d'
