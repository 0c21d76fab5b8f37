-- ===== src/Pki/Sans.antt =====
-- internal/pki/ensure.go: `sanSetsEqual`.
use mathlib.Core.List.{Perm, Permᴰ}
use mathlib.Core.List.Perm
use mathlib.Core.Logic.{∥∥₁_elim}
use mathlib.Core.Bool.{Bool-set}
use native.Mathlib.Nat.{ℕ_set}
use controlai.Prelude.{
  ◌≡◌, ◌↔◌, refl, sym, String, Bool, true, false, List, [], ◌∷◌, length, ◌==◌, eq_iff, eq_refl,
  nat_eq, arith, if◌then◌else◌, text_before, text_before_total, text_before_trans,
  text_before_antisymm, subst,
}
use controlai.Store.Tables.Statements.{order_by}
use controlai.Store.Tables.Sorting.{order_by-Perm, order_by-Permᴰ, length-Permᴰ}

-- `sort.Strings` on a copy.
abbrev pub sort_strings : List String → List String
sort_strings l = order_by text_before l

-- The loop over the sorted copies, which have the same length.
unfoldable pub same_items : List String → List String → Bool
same_items [] b = true
same_items (s ∷ a) [] = false
same_items (s ∷ a) (t ∷ b) = let rest = same_items a b in if s == t then rest else false

-- `sanSetsEqual`.
unfoldable pub san_sets_equal : List String → List String → Bool
unfolding same_items
san_sets_equal a b =
    if nat_eq (length a) (length b) then same_items (sort_strings a) (sort_strings b) else false

same_items-eq : (a b : List String) → length a ≡ length b → same_items a b ≡ true → a ≡ b
unfolding same_items
same_items-eq [] [] h k = refl
same_items-eq [] (t ∷ b) h k = absurd (omega (arith, h))
same_items-eq (s ∷ a) [] h k = absurd (omega (arith, h))
same_items-eq (s ∷ a) (t ∷ b) h k = ground (arith, eq_iff s t, same_items-eq a b)

same_items_refl : (a : List String) → same_items a a ≡ true
unfolding same_items
same_items_refl [] = refl
same_items_refl (s ∷ a) = rw (eq_refl s) (same_items_refl a)

length-sort_strings : (l : List String) → length (sort_strings l) ≡ length l
length-sort_strings l = ∥∥₁_elim (order_by-Perm text_before l) (ℕ_set _ _) length-Permᴰ

-- `sanSetsEqual` answers true exactly when the two lists have the same names, each as often.
pub san_sets_equal-Perm : (a b : List String) → (san_sets_equal a b ≡ true) ↔ Perm a b
unfolding san_sets_equal
san_sets_equal-Perm a b = (to_Perm, λ p. ∥∥₁_elim p (Bool-set _ _) from_Permᴰ)
  where
    sorted : {l : List String} → Perm (sort_strings l) l
    sorted {l} = order_by-Perm text_before l

    lengths : san_sets_equal a b ≡ true → length (sort_strings a) ≡ length (sort_strings b)
    lengths h = ground (arith, length-sort_strings a, length-sort_strings b)

    to_Perm : san_sets_equal a b ≡ true → Perm a b
    to_Perm h = Perm.trans (Perm.symm sorted) (
        subst (λ l. Perm l b)
          (sym (same_items-eq (sort_strings a) (sort_strings b) (lengths h) (ground arith))) sorted)

    from_Permᴰ : Permᴰ a b → san_sets_equal a b ≡ true
    from_Permᴰ d = rw (length-Permᴰ d) (
        rw
          (order_by-Permᴰ text_before text_before_total text_before_trans d
            (λ s t m n. text_before_antisymm s t))
          (ground (arith, same_items_refl (sort_strings b))))
