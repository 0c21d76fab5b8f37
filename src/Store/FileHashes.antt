-- ===== src/Store/FileHashes.antt =====
-- What `GetFileHash` answers after `UpsertFileHash`, where no statement fails.
use controlai.Prelude.{
  ℕ, String, Bool, true, false, ◌≡◌, refl, ◌&&◌, List, [], ◌∷◌, ◌==◌, eq_iff, eq_refl, arith, any,
  find_first, if◌then◌else◌, Bool-cases, inl, inr,
}
use controlai.Store.Tables.Statements.{update, insert}
use controlai.Store.Rows.{FileHashRow, Tables}
use controlai.Store.Query.{Result, ok, run}
use controlai.Store.Tenants.{found}
use controlai.Store.States.{
  is_file, put_file_hash, upsert_file_hash, get_file_hash, select_file_hash,
}
use controlai.Store.RoundTrips.{quiet}

abbrev rehash : String → ℕ → FileHashRow → FileHashRow
rehash hash now r = record r { content_hash = hash; updated_at = now }

abbrev hash_in : String → String → List FileHashRow → Result String
hash_in p f rows = found (λ r. r.content_hash) (find_first (is_file p f) rows)

and_left : (a b : Bool) → (a && b) ≡ true → a ≡ true
and_left a b h = ground arith

and_right : (a b : Bool) → (a && b) ≡ true → b ≡ true
and_right a b h = ground arith

hash_in-update_same :
    (p f hash : String) (now : ℕ) (rows : List FileHashRow)
    → any (is_file p f) rows ≡ true
    → hash_in p f (update (is_file p f) (rehash hash now) rows) ≡ ok hash
hash_in-update_same p f hash now [] h = ground arith
hash_in-update_same p f hash now (r ∷ rows) h =
    ground (arith, hash_in-update_same p f hash now rows)

-- A row is of one pair only.
not_both :
    (p f q g : String) (r : FileHashRow)
    → is_file p f r ≡ true
    → (p == q && f == g) ≡ false
    → is_file q g r ≡ false
not_both p f q g r e h =
    rw
      (
        (eq_iff r.project_id p).0 (and_left (r.project_id == p) (r.file_path == f) e),
        (eq_iff r.file_path f).0 (and_right (r.project_id == p) (r.file_path == f) e),
      )
      h

hash_in-cons :
    (q g : String) (r : FileHashRow) (xs ys : List FileHashRow)
    → hash_in q g xs ≡ hash_in q g ys
    → hash_in q g (r ∷ xs) ≡ hash_in q g (r ∷ ys)
hash_in-cons q g r xs ys h = elim (Bool-cases (is_file q g r)) [
  | inl e ↦ rw e refl
  | inr e ↦ rw e h
]

hash_in-update_other :
    (p f q g hash : String) (now : ℕ) (rows : List FileHashRow)
    → (p == q && f == g) ≡ false
    → hash_in q g (update (is_file p f) (rehash hash now) rows) ≡ hash_in q g rows
hash_in-update_other p f q g hash now [] h = refl
hash_in-update_other p f q g hash now (r ∷ rows) h = elim (Bool-cases (is_file p f r)) [
  | inl e ↦ rw (e, not_both p f q g r e h) (hash_in-update_other p f q g hash now rows h)
  | inr e ↦ rw e (hash_in-cons q g r _ _ (hash_in-update_other p f q g hash now rows h))
]

hash_in-update :
    (p f q g hash : String) (now : ℕ) (rows : List FileHashRow)
    → any (is_file p f) rows ≡ true
    → hash_in q g (update (is_file p f) (rehash hash now) rows)
      ≡ (if p == q && f == g then ok hash else hash_in q g rows)
hash_in-update p f q g hash now rows h = ground (
  arith,
  hash_in-update_same p f hash now rows,
  hash_in-update_other p f q g hash now rows,
  eq_iff p q,
  eq_iff f g,
)

hash_in-insert :
    (p f q g : String) (row : FileHashRow) (rows : List FileHashRow)
    → is_file p f row ≡ true
    → any (is_file p f) rows ≡ false
    → hash_in q g (insert row rows)
      ≡ (if p == q && f == g then ok row.content_hash else hash_in q g rows)
hash_in-insert p f q g row [] h n = ground (
  arith,
  eq_iff row.project_id p,
  eq_iff row.file_path f,
  eq_iff p q,
  eq_iff f g,
  eq_iff row.project_id q,
  eq_iff row.file_path g,
)
hash_in-insert p f q g row (r ∷ rows) h n = ground (
  arith,
  hash_in-insert p f q g row rows,
  eq_iff r.project_id p,
  eq_iff r.file_path f,
  eq_iff p q,
  eq_iff f g,
  eq_iff r.project_id q,
  eq_iff r.file_path g,
)

-- Where no statement fails, the hash that `UpsertFileHash` writes is the one that `GetFileHash` answers for the same project and
-- the same path; the answer for every other pair is as before.
pub get_file_hash-upsert :
    (p f q g hash : String) (now : ℕ) (t : Tables)
    → (get_file_hash q g (upsert_file_hash p f hash (quiet now t)).1).0
      ≡ (if p == q && f == g then ok hash else (get_file_hash q g (quiet now t)).0)
unfolding get_file_hash select_file_hash upsert_file_hash put_file_hash run
get_file_hash-upsert p f q g hash now t =
    elim (Bool-cases (any (is_file p f) t.actual_state_cache)) [
      | inl e ↦ rw e (hash_in-update p f q g hash now t.actual_state_cache e)
      | inr e ↦ rw e (
          hash_in-insert p f q g
            (record { project_id = p; file_path = f; content_hash = hash; updated_at = now })
            t.actual_state_cache (rw (eq_refl p, eq_refl f) refl) e)
    ]
