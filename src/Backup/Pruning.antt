-- ===== src/Backup/Pruning.antt =====
-- What `prune` of internal/backup/pgdump.go removes.
use controlai.Prelude.{
  ℕ, suc, ◌-◌, ◌<◌, ◌≡◌, ◌⊎◌, inl, inr, refl, sym, ap, ◌∙◌, String, ◌==◌, Bool, true, false, not,
  List, [], ◌∷◌, map, ◌&&◌, has_suffix, text_before, text_before_total, text_before_trans, select,
  any, length, take, ltb, ltb→lt, Bool-cases, arith,
}
use mathlib.Core.List.{Perm}
use controlai.Store.Tables.Sorting.{IsSorted, order_by-IsSorted, order_by-Perm}
use controlai.Files.Attempts.{Attempt, done, failed, continue}
use controlai.Files.Disk.{FileError, io_error}
use controlai.Backup.Dumps.{
  Entry, Dir, dumps, read_dir, remove, removed, without_name, unless_gone, prune_loop, prune,
  fails_next, with_entries,
}

-- The entries whose names are not in a list.
abbrev pub without : List String → List Entry → List Entry
without names es = select (λ e. not (any (λ n. n == e.name) names)) es

without-without_name :
    (n : String) (names : List String) (es : List Entry)
    → without names (without_name n es) ≡ without (n ∷ names) es
without-without_name n names [] = refl
without-without_name n names (e ∷ es) = ground (arith, without-without_name n names es)

without_none : (es : List Entry) → without [] es ≡ es
without_none [] = refl
without_none (e ∷ es) = ap (λ l. e ∷ l) (without_none es)

without_name-absent :
    (n : String) (es : List Entry) → any (λ e. n == e.name) es ≡ false → without_name n es ≡ es
without_name-absent n [] h = refl
without_name-absent n (e ∷ es) h = ground (arith, h, without_name-absent n es)

-- The first names of the list are gone, and nothing else: as many as exceed `keep` after a success,
-- fewer after an error.
abbrev pub Pruned : ℕ → List String → List Entry → Attempt FileError (Unit {0}) × Dir → Type 0
Pruned keep names es out =
    ((out.0 ≡ done tt) × (out.1.entries ≡ without (take (length names - keep) names) es))
    ⊎ ((e : FileError) × (out.0 ≡ failed e)
        × ((n : ℕ) × (n < length names - keep) × (out.1.entries ≡ without (take n names) es)))

Gone : String → List Entry → Attempt FileError (Unit {0}) × Dir → Type 0
Gone n es out =
    ((out.0 ≡ done tt) × (out.1.entries ≡ without_name n es))
    ⊎ ((out.0 ≡ failed io_error) × (out.1.entries ≡ es))

removed-Gone :
    (f there : Bool) (n : String) (d : Dir)
    → any (λ e. n == e.name) d.entries ≡ there
    → Gone n d.entries (unless_gone (removed f there n d))
unfolding Gone
removed-Gone true there n d h = inr (refl, refl)
removed-Gone false false n d h = inl (refl, sym (without_name-absent n d.entries h))
removed-Gone false true n d h = inl (refl, refl)

remove-Gone : (n : String) (d : Dir) → Gone n d.entries (unless_gone (remove n d))
unfolding remove
remove-Gone n d = removed-Gone (fails_next d.faults) (any (λ e. n == e.name) d.entries) n d refl

one_more :
    (keep : ℕ) (n : String) (rest : List String) (es es' : List Entry)
    (out : Attempt FileError (Unit {0}) × Dir)
    → keep < suc (length rest)
    → es' ≡ without_name n es
    → Pruned keep rest es' out
    → Pruned keep (n ∷ rest) es out
one_more keep n rest es es' out l k (inl (a, b)) =
    let more : suc (length rest) - keep ≡ suc (length rest - keep) = omega (arith, l) in
    inl (
      a,
      b
          ∙ ap (without (take (length rest - keep) rest)) k
          ∙ without-without_name n (take (length rest - keep) rest) es
          ∙ ap (λ j. without (take j (n ∷ rest)) es) (sym more),
    )
one_more keep n rest es es' out l k (inr (e, a, (j, less, b))) = inr (
  e,
  a,
  (
    suc j,
    omega (arith, less, l),
    b ∙ ap (without (take j rest)) k ∙ without-without_name n (take j rest) es,
  ),
)

stepped :
    (keep : ℕ) (n : String) (rest : List String) (es : List Entry)
    (out : Attempt FileError (Unit {0}) × Dir)
    → keep < suc (length rest)
    → Gone n es out
    → ((d : Dir) → Pruned keep rest d.entries (prune_loop keep rest d))
    → Pruned keep (n ∷ rest) es (continue out (λ _. prune_loop keep rest))
unfolding Gone
stepped keep n rest es (done u, d) l (inl (e, k)) ih =
    one_more keep n rest es d.entries (prune_loop keep rest d) l k (ih d)
stepped keep n rest es (done u, d) l (inr (e, k)) ih = absurd (cc e)
stepped keep n rest es (failed err, d) l (inl (e, k)) ih = absurd (cc e)
stepped keep n rest es (failed err, d) l (inr (e, k)) ih =
    inr (err, refl, (0, omega (arith, l), k ∙ sym (without_none es)))

take_none : (names : List String) (es : List Entry) (m : ℕ) → m ≡ 0 → es ≡ without (take m names) es
take_none names es m h = rw h (sym (without_none es))

prune_loop-Pruned :
    (keep : ℕ) (names : List String) (d : Dir)
    → Pruned keep names d.entries (prune_loop keep names d)
unfolding prune_loop
prune_loop-Pruned keep [] d = inl (refl, take_none [] d.entries (0 - keep) (omega arith))
prune_loop-Pruned keep (n ∷ rest) d = elim (Bool-cases (ltb keep (suc (length rest)))) [
  | inl e ↦ rw e (
      stepped keep n rest d.entries (unless_gone (remove n d)) (ltb→lt keep (suc (length rest)) e)
        (remove-Gone n d) (prune_loop-Pruned keep rest))
  | inr e ↦
      rw e
        (inl (refl, take_none (n ∷ rest) d.entries (suc (length rest) - keep) (ground (arith, e))))
]

-- The names of the files of a directory that end in ".sql.gz", in the order of texts, which is that of
-- time for names of the form YYYYMMDD.sql.gz.
abbrev pub AreDumps : List String → List Entry → Type 0
AreDumps names es =
    IsSorted text_before names
    × Perm names (map (λ e. e.name) (select (λ e. not e.is_dir && has_suffix e.name ".sql.gz") es))

dumps-AreDumps : (es : List Entry) → AreDumps (dumps es) es
unfolding dumps
dumps-AreDumps es = (
  order_by-IsSorted text_before text_before_total text_before_trans _,
  order_by-Perm text_before _,
)

-- Where the directory can be read: the files that end in ".sql.gz", directories left out, have an
-- ascending list of names, and `prune` removes the first names of this list and nothing else; after a
-- success as many as exceed `keep`, so that the last `keep` stay, and after an error fewer.
pub prune-Pruned :
    (keep : ℕ) (d : Dir)
    → fails_next d.faults ≡ false
    → (names : List String) × AreDumps names d.entries × Pruned keep names d.entries (prune keep d)
unfolding prune read_dir
prune-Pruned keep d h = (
  dumps d.entries,
  dumps-AreDumps d.entries,
  rw h (prune_loop-Pruned keep (dumps d.entries) (with_entries d.entries d)),
)
