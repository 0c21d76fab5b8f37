-- ===== src/Runner/Exclusion.antt =====
-- What the mutexes and the semaphore of `runCompose` in internal/runner/compose.go ensure.
use controlai.Prelude.{
  ℕ, zero, suc, ◌+◌, ◌≤◌, ◌≡◌, refl, ap, subst, inl, inr, String, ◌==◌, Option, none, some, List,
  [], ◌∷◌, length, ltb, ltb→lt, eq_iff, Bool-cases, arith, if◌then◌else◌,
}
use controlai.Runner.Compose.{
  max_concurrent_compose, Calls, count, put_back, take_out, lock_project, locked_if_free, admitted,
  acquire_slot, unlocked, given_up, give_up, finished, finish_command, left, unlock_project,
  Reachable, unlocks, at_start, locks, acquires, gives_up, finishes,
}

abbrev Holds {ℓ} : {A : Type ℓ} → (A → Type 0) → Option A → Type 0
Holds P none = Unit {0}
Holds P (some a) = P a

abbrev one_if : String → String → ℕ
one_if p q = if p == q then 1 else 0

-- One occurrence of `p` less.
abbrev Less : String → List String → List String → Type 0
Less p l l' = ((q : String) → count q l ≡ one_if p q + count q l') × (length l ≡ suc (length l'))

put_back-Less :
    (p x : String) (rest : List String) (o : Option (List String))
    → Holds (Less p rest) o
    → Holds (Less p (x ∷ rest)) (put_back x o)
put_back-Less p x rest none h = tt
put_back-Less p x rest (some l) (h, n) = ((λ q. let e = h q in omega (arith, e)), ap suc n)

take_out-Less : (p : String) (l : List String) → Holds (Less p l) (take_out p l)
unfolding take_out
take_out-Less p [] = tt
take_out-Less p (x ∷ rest) = elim (Bool-cases (x == p)) [
  | inl e ↦ rw e ((λ q. ap (λ y. one_if y q + count q rest) ((eq_iff x p).0 e)), refl)
  | inr e ↦ rw e (put_back-Less p x rest (take_out p rest) (take_out-Less p rest))
]

-- The mutexes are held by the calls under way, each by one, and the weight taken is the number of
-- those that run.
abbrev Good : Calls → Type 0
Good s =
    ((q : String)
      → (count q s.locked ≡ count q s.waiting + count q s.running + count q s.leaving)
        × (count q s.locked ≤ 1))
    × (s.taken ≡ length s.running)
    × (s.taken ≤ max_concurrent_compose)

free_still :
    (p q : String) (l : List String) → count p l ≡ 0 → count q l ≤ 1 → one_if p q + count q l ≤ 1
free_still p q l free few = elim (Bool-cases (p == q)) [
  | inl e ↦ let z = subst (λ r. count r l ≡ 0) ((eq_iff p q).0 e) free in rw e (omega (arith, z))
  | inr e ↦ rw e (omega (arith, few))
]

locked_if_free-Good :
    (p : String) (s : Calls) (n : ℕ)
    → count p s.locked ≡ n
    → Good s
    → Holds Good (locked_if_free p s n)
locked_if_free-Good p s zero free (each, same, few) =
    ((λ q. let (a, b) = each q in (omega (arith, a), free_still p q s.locked free b)), same, few)
locked_if_free-Good p s (suc n) h good = tt

admitted-Good :
    (p : String) (s : Calls) (o : Option (List String))
    → Holds (Less p s.waiting) o
    → s.taken + 1 ≤ max_concurrent_compose
    → Good s
    → Holds Good (admitted p s o)
admitted-Good p s none less room good = tt
admitted-Good p s (some rest) (less, n) room (each, same, few) = (
  (λ q. let e = less q in let (a, b) = each q in omega (arith, e, a, b)),
  omega (arith, same),
  room,
)

acquire_slot-Good : (p : String) (s : Calls) → Good s → Holds Good (acquire_slot p s)
unfolding acquire_slot
acquire_slot-Good p s good = elim (Bool-cases (ltb s.taken max_concurrent_compose)) [
  | inl e ↦ rw e (
      admitted-Good p s (take_out p s.waiting) (take_out-Less p s.waiting)
        (let l = ltb→lt s.taken max_concurrent_compose e in omega (arith, l)) good)
  | inr e ↦ rw e tt
]

-- A call that returns still has its mutex.
abbrev Leaving : String → Calls → Type 0
Leaving p s =
    ((q : String)
      → (count q s.locked
          ≡ one_if p q + (count q s.waiting + count q s.running + count q s.leaving))
        × (count q s.locked ≤ 1))
    × (s.taken ≡ length s.running)
    × (s.taken ≤ max_concurrent_compose)

unlocked-Good :
    (p : String) (s : Calls) (o : Option (List String))
    → Holds (Less p s.locked) o
    → Leaving p s
    → Holds Good (unlocked s o)
unlocked-Good p s none less leaving = tt
unlocked-Good p s (some rest) (less, n) (each, same, few) = (
  (λ q. let e = less q in let (a, b) = each q in (omega (arith, e, a), omega (arith, e, b))),
  same,
  few,
)

given_up-Good :
    (p : String) (s : Calls) (o : Option (List String))
    → Holds (Less p s.waiting) o
    → Good s
    → Holds Good (given_up p s o)
given_up-Good p s none less good = tt
given_up-Good p s (some rest) (less, n) (each, same, few) =
    ((λ q. let e = less q in let (a, b) = each q in (omega (arith, e, a), b)), same, few)

finished-Good :
    (p : String) (s : Calls) (o : Option (List String))
    → Holds (Less p s.running) o
    → Good s
    → Holds Good (finished p s o)
finished-Good p s none less good = tt
finished-Good p s (some rest) (less, n) (each, same, few) = (
  (λ q. let e = less q in let (a, b) = each q in (omega (arith, e, a), b)),
  omega (arith, same, n),
  omega (arith, few),
)

left-Good :
    (p : String) (s : Calls) (o : Option (List String))
    → Holds (Less p s.leaving) o
    → Good s
    → Holds Good (left p s o)
left-Good p s none less good = tt
left-Good p s (some rest) (less, n) (each, same, few) =
    unlocked-Good p (record s { leaving = rest }) (take_out p s.locked) (take_out-Less p s.locked)
      ((λ q. let e = less q in let (a, b) = each q in (omega (arith, e, a), b)), same, few)

Reachable-Good : (s : Calls) → Reachable s → Good s
unfolding lock_project give_up finish_command unlock_project
Reachable-Good s at_start = ((λ q. (refl, omega arith)), refl, omega arith)
Reachable-Good s' (locks {s} p r e) =
    subst (Holds Good) e (locked_if_free-Good p s (count p s.locked) refl (Reachable-Good s r))
Reachable-Good s' (acquires {s} p r e) =
    subst (Holds Good) e (acquire_slot-Good p s (Reachable-Good s r))
Reachable-Good s' (gives_up {s} p r e) =
    subst (Holds Good) e
      (given_up-Good p s (take_out p s.waiting) (take_out-Less p s.waiting) (Reachable-Good s r))
Reachable-Good s' (finishes {s} p r e) =
    subst (Holds Good) e
      (finished-Good p s (take_out p s.running) (take_out-Less p s.running) (Reachable-Good s r))
Reachable-Good s' (unlocks {s} p r e) =
    subst (Holds Good) e
      (left-Good p s (take_out p s.leaving) (take_out-Less p s.leaving) (Reachable-Good s r))

-- In whatever order the calls of `runCompose` take their steps: at most 15 commands run at once, never
-- two of one project, and the weight taken from the semaphore is the number of commands that run.
pub running-Exclusive :
    (s : Calls)
    → Reachable s
    → ((p : String) → count p s.running ≤ 1)
      × (length s.running ≤ 15)
      × (s.taken ≡ length s.running)
running-Exclusive s r =
    let (each, same, few) = Reachable-Good s r in
    ((λ p. let (a, b) = each p in omega (arith, a, b)), omega (arith, same, few), same)
