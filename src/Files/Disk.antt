-- ===== src/Files/Disk.antt =====
-- The files as a list of paths with their contents, and the calls of `os` on them. The file system is
-- outside the repository: `faults` says, call by call, whether it does the work, fails, or fails a
-- write half-way; no entry left means that it does the work.
use controlai.Prelude.{
  ◌≡◌, refl, Bool, true, false, String, Option, none, some, List, [], ◌∷◌, ◌==◌, eq_iff, arith,
  if◌then◌else◌,
}
use controlai.Files.Attempts.{Attempt, done, failed, Op}

pub data FileError : Type 0 where
  not_exist io_error : FileError

pub data Fault : Type 0 where
  works fails : Fault
  -- A write that fails after a part of the text.
  cut_short : String → Fault

abbrev pub Contents : Type 0
Contents = List (String × String)

pub record Disk : Type 0 where
  pub files : Contents
  pub faults : List Fault

abbrev pub DiskOp : Type 0 → Type 0
DiskOp A = Op Disk FileError A

abbrev pub content_at : String → Contents → Option String
content_at p [] = none
content_at p ((q, c) ∷ rest) = let later = content_at p rest in if q == p then some c else later

abbrev pub put_content : String → String → Contents → Contents
put_content p c [] = (p, c) ∷ []
put_content p c ((q, old) ∷ rest) =
    let later = put_content p c rest in if q == p then (p, c) ∷ rest else (q, old) ∷ later

abbrev pub drop_content : String → Contents → Contents
drop_content p [] = []
drop_content p ((q, c) ∷ rest) =
    let later = drop_content p rest in if q == p then later else (q, c) ∷ later

pub content_at-put_content :
    (p q c : String) (fs : Contents)
    → content_at q (put_content p c fs) ≡ (if p == q then some c else content_at q fs)
content_at-put_content p q c [] = refl
content_at-put_content p q c ((r, old) ∷ rest) =
    ground (arith, content_at-put_content p q c rest, eq_iff r p, eq_iff r q, eq_iff p q)

pub content_at-drop_content :
    (p q : String) (fs : Contents)
    → content_at q (drop_content p fs) ≡ (if p == q then none else content_at q fs)
content_at-drop_content p q [] = ground arith
content_at-drop_content p q ((r, c) ∷ rest) =
    ground (arith, content_at-drop_content p q rest, eq_iff r p, eq_iff r q, eq_iff p q)

abbrev pub next_fault : List Fault → Fault
next_fault [] = works
next_fault (f ∷ rest) = f

abbrev pub later_faults : List Fault → List Fault
later_faults [] = []
later_faults (f ∷ rest) = rest

abbrev pub step_to : Contents → Disk → Disk
step_to fs d = record { files = fs; faults = later_faults d.faults }

-- `os.ReadFile`.
abbrev pub reading : Option String → Fault → Disk → Attempt FileError String × Disk
reading (some c) works d = (done c, step_to d.files d)
reading none works d = (failed not_exist, step_to d.files d)
reading c fails d = (failed io_error, step_to d.files d)
reading c (cut_short part) d = (failed io_error, step_to d.files d)

unfoldable pub read_file : String → DiskOp String
read_file p d = reading (content_at p d.files) (next_fault d.faults) d

-- `os.Stat`: whether the file is there; an error counts as absent where the code looks no further.
abbrev pub is_there : Option String → Fault → Bool
is_there (some c) works = true
is_there none works = false
is_there c fails = false
is_there c (cut_short part) = false

unfoldable pub stat : String → DiskOp Bool
stat p d = (done (is_there (content_at p d.files) (next_fault d.faults)), step_to d.files d)

-- `os.MkdirAll`, which changes no file.
abbrev pub making : Fault → Disk → Attempt FileError (Unit {0}) × Disk
making works d = (done tt, step_to d.files d)
making fails d = (failed io_error, step_to d.files d)
making (cut_short part) d = (failed io_error, step_to d.files d)

unfoldable pub mkdir_all : String → DiskOp (Unit {0})
mkdir_all dir d = making (next_fault d.faults) d

-- `os.WriteFile`, which truncates the file before it writes.
abbrev pub writing : String → String → Fault → Disk → Attempt FileError (Unit {0}) × Disk
writing p c works d = (done tt, step_to (put_content p c d.files) d)
writing p c fails d = (failed io_error, step_to d.files d)
writing p c (cut_short part) d = (failed io_error, step_to (put_content p part d.files) d)

unfoldable pub write_file : String → String → DiskOp (Unit {0})
write_file p c d = writing p c (next_fault d.faults) d

-- `os.Rename`, which replaces the target in one step.
abbrev pub renaming :
    String → String → Option String → Fault → Disk → Attempt FileError (Unit {0}) × Disk
renaming p q (some c) works d = (done tt, step_to (put_content q c (drop_content p d.files)) d)
renaming p q none works d = (failed not_exist, step_to d.files d)
renaming p q c fails d = (failed io_error, step_to d.files d)
renaming p q c (cut_short part) d = (failed io_error, step_to d.files d)

unfoldable pub rename : String → String → DiskOp (Unit {0})
rename p q d = renaming p q (content_at p d.files) (next_fault d.faults) d

-- `os.Remove`.
abbrev pub removing : String → Option String → Fault → Disk → Attempt FileError (Unit {0}) × Disk
removing p (some c) works d = (done tt, step_to (drop_content p d.files) d)
removing p none works d = (failed not_exist, step_to d.files d)
removing p c fails d = (failed io_error, step_to d.files d)
removing p c (cut_short part) d = (failed io_error, step_to d.files d)

unfoldable pub remove : String → DiskOp (Unit {0})
remove p d = removing p (content_at p d.files) (next_fault d.faults) d
