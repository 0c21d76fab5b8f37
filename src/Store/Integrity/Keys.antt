-- ===== src/Store/Integrity/Keys.antt =====
-- The primary keys of actual_state_cache, a pair, and of audit_events, a counter.
use controlai.Prelude.{
  ℕ, ◌+◌, String, Bool, true, false, ◌||◌, ◌&&◌, ◌==◌, ◌≡◌, refl, List, [], ◌∷◌, ◌++◌, any, ltb,
  nat_eq, arith, Bool-cases, inl, inr,
}
use controlai.Store.Tables.Statements.{insert, update}
use controlai.Store.Tables.Keys.{eq_comm}
use controlai.Store.Rows.{FileHashRow, Event}

-- PRIMARY KEY (project_id, file_path).
abbrev pub has_file : String → String → List FileHashRow → Bool
has_file p f rows = any (λ r. r.project_id == p && r.file_path == f) rows

abbrev pub UniqueFiles : List FileHashRow → Type 0
UniqueFiles [] = Unit
UniqueFiles (r ∷ rows) = (has_file r.project_id r.file_path rows ≡ false) × UniqueFiles rows

-- The identifiers of the events are below the next one, and no two are the same.
abbrev pub has_event : ℕ → List Event → Bool
has_event n rows = any (λ e. nat_eq e.id n) rows

abbrev pub UniqueEvents : ℕ → List Event → Type 0
UniqueEvents next [] = Unit
UniqueEvents next (e ∷ rows) =
    (ltb e.id next ≡ true) × (has_event e.id rows ≡ false) × UniqueEvents next rows

any-append :
    {R : Type 0} (p : R → Bool) (xs ys : List R) → any p (xs ++ ys) ≡ (any p xs || any p ys)
any-append p [] ys = refl
any-append p (x ∷ xs) ys = ground (arith, any-append p xs ys)

pub insert-UniqueFiles :
    (r : FileHashRow) (rows : List FileHashRow)
    → has_file r.project_id r.file_path rows ≡ false
    → UniqueFiles rows
    → UniqueFiles (insert r rows)
insert-UniqueFiles r [] h u = (refl, tt)
insert-UniqueFiles r (s ∷ rows) h u = ground (
  arith,
  any-append (λ q. q.project_id == s.project_id && q.file_path == s.file_path) rows (r ∷ []),
  eq_comm s.project_id r.project_id,
  eq_comm s.file_path r.file_path,
  insert-UniqueFiles r rows,
)

has_file-update :
    (p f : String) (q : FileHashRow → Bool) (g : FileHashRow → FileHashRow)
    → ((r : FileHashRow) → ((g r).project_id ≡ r.project_id) × ((g r).file_path ≡ r.file_path))
    → (rows : List FileHashRow) → has_file p f (update q g rows) ≡ has_file p f rows
has_file-update p f q g keep [] = refl
has_file-update p f q g keep (r ∷ rows) = elim (Bool-cases (q r)) [
  | inl e ↦ rw (e, (keep r).0, (keep r).1, has_file-update p f q g keep rows)
  | inr e ↦ rw (e, has_file-update p f q g keep rows)
]

pub update-UniqueFiles :
    (q : FileHashRow → Bool) (g : FileHashRow → FileHashRow)
    → ((r : FileHashRow) → ((g r).project_id ≡ r.project_id) × ((g r).file_path ≡ r.file_path))
    → (rows : List FileHashRow) → UniqueFiles rows
    → UniqueFiles (update q g rows)
update-UniqueFiles q g keep [] u = tt
update-UniqueFiles q g keep (r ∷ rows) u = elim (Bool-cases (q r)) [
  | inl e ↦
      rw (e, (keep r).0, (keep r).1, has_file-update r.project_id r.file_path q g keep rows)
        (u.0, update-UniqueFiles q g keep rows u.1)
  | inr e ↦
      rw (e, has_file-update r.project_id r.file_path q g keep rows)
        (u.0, update-UniqueFiles q g keep rows u.1)
]

pub insert-UniqueEvents :
    (e : Event) (rows : List Event)
    → UniqueEvents e.id rows
    → UniqueEvents (e.id + 1) (insert e rows)
insert-UniqueEvents e [] u = (ground arith, refl, tt)
insert-UniqueEvents e (s ∷ rows) (older, new, u) = (
  ground (arith, older),
  ground (arith, older, new, any-append (λ q. nat_eq q.id s.id) rows (e ∷ [])),
  insert-UniqueEvents e rows u,
)
