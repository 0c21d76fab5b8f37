-- ===== src/Files/Attempts.antt =====
-- Go functions that return `(T, error)` and change what they are given: an answer or an error, and the
-- state that is left in both cases.

use controlai.Prelude.{Option, none, some}

pub data Attempt (E A : Type 0) : Type 0 where
  done : A → Attempt E A
  failed : E → Attempt E A

abbrev pub Op : Type 0 → Type 0 → Type 0 → Type 0
Op H E A = H → Attempt E A × H

abbrev pub pure : {H E A : Type 0} → A → Op H E A
pure a h = (done a, h)

abbrev pub raise : {H E A : Type 0} → E → Op H E A
raise e h = (failed e, h)

-- An answer that does not look at the state.
abbrev pub answer : {H E A : Type 0} → Attempt E A → Op H E A
answer r h = (r, h)

-- `if err != nil { return …, err }`.
abbrev pub continue : {H E A B : Type 0} → Attempt E A × H → (A → Op H E B) → Attempt E B × H
continue (done a, h) f = f a h
continue (failed e, h) f = (failed e, h)

infixl 5 ◌>>=◌ ◌>>◌
abbrev pub ◌>>=◌ : {H E A B : Type 0} → Op H E A → (A → Op H E B) → Op H E B
◌>>=◌ m f h = continue (m h) f

abbrev pub ◌>>◌ : {H E B : Type 0} → Op H E (Unit {0}) → Op H E B → Op H E B
◌>>◌ m k h = continue (m h) (λ _. k)

-- `if err != nil` on an answer that needs no state.
abbrev pub and_then : {E A B : Type 0} → Attempt E A → (A → Attempt E B) → Attempt E B
and_then (done a) f = f a
and_then (failed e) f = failed e

-- What a library reports with `ok == false` or a nil result, as the error that the code makes of it.
abbrev pub required : {E A : Type 0} → E → Option A → Attempt E A
required e none = failed e
required e (some a) = done a
