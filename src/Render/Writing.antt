-- ===== src/Render/Writing.antt =====
-- What `WriteResults` of internal/render/render.go leaves on the disk, errors of the file system included.
use controlai.Prelude.{
  ℕ, suc, ◌<◌, ◌≡◌, ◌≢◌, ◌⊎◌, inl, inr, refl, ap, ◌∙◌, String, ◌&&◌, Option, some, List, [], ◌∷◌,
  length, take, All, ◌==◌, arith, if◌then◌else◌,
}
use controlai.Files.Attempts.{Attempt, done, failed, continue}
use controlai.Files.Disk.{Disk, FileError, mkdir_all}
use controlai.Files.Atomic.{temporary, is_done, write_pem, content_at-write_pem}
use controlai.Files.Frames.{file, mkdir_all-Leaves}
use controlai.Render.Results.{RenderResult, target_of, write_result, write_results}

-- What the file `q` holds after the results were written one after the other.
abbrev pub after_all : String → String → List RenderResult → Option String → Option String
after_all base q [] old = old
after_all base q (r ∷ rs) old =
    after_all base q rs (if target_of base r == q then some r.content else old)

abbrev pub NotTemporary : String → String → List RenderResult → Type 0
NotTemporary base q rs = All (λ r. temporary (target_of base r) ≢ q) rs

file-write_result :
    (dir : String → String) (base q : String) (r : RenderResult) (d : Disk)
    → temporary (target_of base r) ≢ q
    → file q (write_result dir base r d).1 ≡ (
        if is_done (write_result dir base r d).0 && target_of base r == q
        then some r.content
        else file q d)
unfolding write_result write_pem
file-write_result dir base q r d h =
    made (mkdir_all (dir (target_of base r)) d) (mkdir_all-Leaves q (dir (target_of base r)) d)
  where
    made :
        (out : Attempt FileError (Unit {0}) × Disk)
        → file q out.1 ≡ file q d
        → file q (continue out (λ _. write_pem (target_of base r) r.content)).1 ≡ (
            if is_done (continue out (λ _. write_pem (target_of base r) r.content)).0
              && target_of base r == q
            then some r.content
            else file q d)
    made (done u, e) k = content_at-write_pem (target_of base r) r.content q e h ∙ rw k refl
    made (failed err, e) k = k

-- What an attempt leaves: all of the results after a success, the first ones after an error.
abbrev pub HasWritten :
    String
    → String
    → List RenderResult
    → Option String
    → Attempt FileError (Unit {0}) × Disk
    → Type 0
HasWritten base q rs old out =
    ((out.0 ≡ done tt) × (file q out.1 ≡ after_all base q rs old))
    ⊎ ((e : FileError) × (out.0 ≡ failed e)
        × ((n : ℕ) × (n < length rs) × (file q out.1 ≡ after_all base q (take n rs) old)))

one_more :
    (base q : String) (r : RenderResult) (rs : List RenderResult) (old now : Option String)
    (out : Attempt FileError (Unit {0}) × Disk)
    → now ≡ (if target_of base r == q then some r.content else old)
    → HasWritten base q rs now out
    → HasWritten base q (r ∷ rs) old out
one_more base q r rs old now out k (inl (a, b)) = inl (a, b ∙ ap (after_all base q rs) k)
one_more base q r rs old now out k (inr (e, a, (n, l, b))) =
    inr (e, a, (suc n, omega arith, b ∙ ap (after_all base q (take n rs)) k))

HasWritten-continue :
    (dir : String → String) (base q : String) (r : RenderResult) (rs : List RenderResult)
    (old : Option String) (out : Attempt FileError (Unit {0}) × Disk)
    → file q out.1 ≡ (if is_done out.0 && target_of base r == q then some r.content else old)
    → ((e : Disk) → HasWritten base q rs (file q e) (write_results dir base rs e))
    → HasWritten base q (r ∷ rs) old (continue out (λ _. write_results dir base rs))
HasWritten-continue dir base q r rs old (done u, e) k ih =
    one_more base q r rs old (file q e) (write_results dir base rs e) k (ih e)
HasWritten-continue dir base q r rs old (failed err, e) k ih = inr (err, refl, (0, omega arith, k))

-- Whatever the file system does, a path that is no temporary one holds what the results leave there that
-- were written whole: all of them after a success, the first ones, but not all, after an error.
pub write_results-HasWritten :
    (dir : String → String) (base q : String) (rs : List RenderResult) (d : Disk)
    → NotTemporary base q rs
    → HasWritten base q rs (file q d) (write_results dir base rs d)
unfolding write_results
write_results-HasWritten dir base q [] d h = inl (refl, refl)
write_results-HasWritten dir base q (r ∷ rs) d h =
    HasWritten-continue dir base q r rs (file q d) (write_result dir base r d)
      (file-write_result dir base q r d h.0) (λ e. write_results-HasWritten dir base q rs e h.1)
