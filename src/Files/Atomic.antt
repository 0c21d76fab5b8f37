-- ===== src/Files/Atomic.antt =====
-- Writing a file beside its target and renaming it: `writePEM` of internal/pki/trust.go.
use Prim.Native.Nat.{ℕ, ◌<◌}
use Prim.Native.String.{◌++◌ as append}
use controlai.Prelude.{
  ◌≡◌, ◌≢◌, refl, ap, Bool, true, false, ◌&&◌, String, some, List, length, codes, codes-append,
  length-append, ◌==◌, eq_iff, eq_refl, arith, if◌then◌else◌,
}
use controlai.Files.Attempts.{Attempt, done, failed, continue, ◌>>◌}
use controlai.Files.Disk.{
  Disk, DiskOp, FileError, Fault, works, fails, cut_short, next_fault, later_faults, writing,
  renaming, content_at, put_content, drop_content, content_at-put_content, content_at-drop_content,
  write_file, rename,
}

abbrev pub temporary : String → String
temporary p = append p ".tmp"

abbrev pub is_done : {E A : Type 0} → Attempt E A → Bool
is_done (done a) = true
is_done (failed e) = false

-- `writePEM`.
unfoldable pub write_pem : String → String → DiskOp (Unit {0})
unfolding write_file rename
write_pem p c = do write_file (temporary p) c; rename (temporary p) p

pub suffix_differs : (p s : String) → 0 < length (codes s) → append p s ≢ p
suffix_differs p s some_more h = omega (
  arith,
  some_more,
  ap (λ t. length (codes t)) h,
  ap (λ (l : List ℕ). length l) (codes-append p s),
  length-append (codes p) (codes s),
)

pub temporary-differs : (p : String) → temporary p ≢ p
temporary-differs p = suffix_differs p ".tmp" (omega arith)

-- The contents after a call, where it writes the file `p` or leaves it alone.
abbrev Replaced : String → String → String → Disk → Attempt FileError (Unit {0}) × Disk → Type 0
Replaced p c q d out =
    content_at q out.1.files ≡ (if is_done out.0 && p == q then some c else content_at q d.files)

renaming-Replaced :
    (p c q : String) (g : Fault) (d : Disk) (fs : List Fault)
    → temporary p ≢ q
    → Replaced p c q d (
        renaming
          (temporary p)
          p
          (some c)
          g
          (record { files = put_content (temporary p) c d.files; faults = fs }))
renaming-Replaced p c q works d fs h = ground (
  arith,
  eq_iff (temporary p) q,
  content_at-put_content (temporary p) q c d.files,
  content_at-drop_content (temporary p) q (put_content (temporary p) c d.files),
  content_at-put_content p q c (drop_content (temporary p) (put_content (temporary p) c d.files)),
)
renaming-Replaced p c q fails d fs h =
    ground (arith, eq_iff (temporary p) q, content_at-put_content (temporary p) q c d.files)
renaming-Replaced p c q (cut_short part) d fs h =
    ground (arith, eq_iff (temporary p) q, content_at-put_content (temporary p) q c d.files)

writing-Replaced :
    (p c q : String) (f : Fault) (d : Disk)
    → temporary p ≢ q
    → Replaced p c q d (continue (writing (temporary p) c f d) (λ _. rename (temporary p) p))
unfolding rename
writing-Replaced p c q works d h =
    rw (content_at-put_content (temporary p) (temporary p) c d.files, eq_refl (temporary p))
      (renaming-Replaced p c q (next_fault (later_faults d.faults)) d (later_faults d.faults) h)
writing-Replaced p c q fails d h = refl
writing-Replaced p c q (cut_short part) d h =
    ground (arith, eq_iff (temporary p) q, content_at-put_content (temporary p) q part d.files)

-- Whatever the file system does, `writePEM` leaves every path but its temporary one either as it was or,
-- the target after a success, with the whole text.
pub content_at-write_pem :
    (p c q : String) (d : Disk) → temporary p ≢ q → Replaced p c q d (write_pem p c d)
unfolding write_pem write_file
content_at-write_pem p c q d h = writing-Replaced p c q (next_fault d.faults) d h
