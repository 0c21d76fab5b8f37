-- ===== src/Files/Frames.antt =====
-- Operations that leave a part of the state as it is, such as one file, and what an operation that
-- succeeds has done.
use controlai.Prelude.{◌≡◌, ◌≢◌, refl, ◌∙◌, String, Option, none, some, arith, eq_iff, eq_refl}
use controlai.Files.Attempts.{Attempt, done, failed, Op, continue}
use controlai.Files.Disk.{
  Fault, works, fails, cut_short, next_fault, Disk, content_at, content_at-put_content, mkdir_all,
  making, writing, write_file, reading, read_file,
}
use controlai.Files.Atomic.{temporary, write_pem, content_at-write_pem, temporary-differs}

module _ {H V : Type 0} (look : H → V) where
  abbrev pub Leaves : {E A : Type 0} → Op H E A → Type 0
  Leaves m = (h : H) → look (m h).1 ≡ look h

  pub continue-Leaves :
      {E A B : Type 0} (v : V) (out : Attempt E A × H) (f : A → Op H E B)
      → look out.1 ≡ v
      → ((a : A) → Leaves (f a))
      → look (continue out f).1 ≡ v
  continue-Leaves v (done a, h) f e l = l a h ∙ e
  continue-Leaves v (failed err, h) f e l = e

  pub bind-Leaves :
      {E A B : Type 0} (m : Op H E A) (f : A → Op H E B)
      → Leaves m
      → ((a : A) → Leaves (f a))
      → Leaves (λ h. continue (m h) f)
  bind-Leaves m f l k h = continue-Leaves (look h) (m h) f (l h) k

-- What precedes a success: the first operation succeeded, and the second one from its state.
pub continue-done :
    {H E A B : Type 0} (out : Attempt E A × H) (f : A → Op H E B) (b : B)
    → (continue out f).0 ≡ done b
    → (a : A) × (out.0 ≡ done a) × ((f a out.1).0 ≡ done b) × (continue out f ≡ f a out.1)
continue-done (done a, h) f b e = (a, refl, e, refl)
continue-done (failed err, h) f b e = absurd (cc)

abbrev pub file : String → Disk → Option String
file p d = content_at p d.files

pub mkdir_all-Leaves : (p dir : String) → Leaves (file p) (mkdir_all dir)
unfolding mkdir_all
mkdir_all-Leaves p dir d = making-Leaves (next_fault d.faults)
  where
    making-Leaves : (f : Fault) → file p (making f d).1 ≡ file p d
    making-Leaves works = refl
    making-Leaves fails = refl
    making-Leaves (cut_short part) = refl

pub read_file-Leaves : (p q : String) → Leaves (file p) (read_file q)
unfolding read_file
read_file-Leaves p q d = reading-Leaves (content_at q d.files) (next_fault d.faults)
  where
    reading-Leaves : (o : Option String) (f : Fault) → file p (reading o f d).1 ≡ file p d
    reading-Leaves none works = refl
    reading-Leaves (some c) works = refl
    reading-Leaves o fails = refl
    reading-Leaves o (cut_short part) = refl

pub write_file-Leaves : (p q c : String) → q ≢ p → Leaves (file p) (write_file q c)
unfolding write_file
write_file-Leaves p q c h d = writing-Leaves (next_fault d.faults)
  where
    writing-Leaves : (f : Fault) → file p (writing q c f d).1 ≡ file p d
    writing-Leaves works = ground (arith, content_at-put_content q p c d.files, eq_iff q p)
    writing-Leaves fails = refl
    writing-Leaves (cut_short part) =
        ground (arith, content_at-put_content q p part d.files, eq_iff q p)

pub write_pem-Leaves : (p q c : String) → q ≢ p → temporary q ≢ p → Leaves (file p) (write_pem q c)
write_pem-Leaves p q c h k d = ground (arith, content_at-write_pem q c p d k, eq_iff q p)

-- A write that succeeds leaves the whole text.
pub write_pem-file :
    (p c : String) (d : Disk) → (write_pem p c d).0 ≡ done tt → file p (write_pem p c d).1 ≡ some c
write_pem-file p c d h = content_at-write_pem p c p d (temporary-differs p) ∙ rw (h, eq_refl p) refl
