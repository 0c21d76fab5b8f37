-- ===== src/Daemon/Hashes.antt =====
-- internal/daemon/provision.go: what `computeCombinedHash` depends on.
use mathlib.Core.Logic.{∥∥₁_elim}
use mathlib.Core.List.{Perm, Mem, mem-cons, not-mem-nil}
use mathlib.Core.Logic.Or
use mathlib.Core.Bool.{Bool-set}
use controlai.Prelude.{
  ◌≡◌, sym, ◌∙◌, true, [], ◌∷◌, eq_iff, arith, ap, String, List, map, concat, text_before,
  text_before_total, text_before_trans, text_before_antisymm, String_set,
}
use controlai.Store.Tables.Statements.{has, Unique}
use controlai.Store.Tables.Sorting.{order_by-Permᴰ}
use controlai.Render.Results.{RenderResult, RenderResult_set}
use controlai.Daemon.Rendering.{hash_line, compute_combined_hash}

abbrev pub path_of : RenderResult → String
path_of r = r.rel_path

has-Mem : (r : RenderResult) (l : List RenderResult) → Mem r l → has path_of r.rel_path l ≡ true
has-Mem r [] m = absurd (not-mem-nil m)
has-Mem r (s ∷ l) m =
    Or.elim (Bool-set _ _) (mem-cons.0 m)
      (λ e. ground (arith, (eq_iff s.rel_path r.rel_path).1 (ap path_of (sym e))))
      (λ n. ground (arith, has-Mem r l n))

Unique-Mem :
    (r s : RenderResult) (l : List RenderResult)
    → Unique path_of l
    → Mem r l
    → Mem s l
    → r.rel_path ≡ s.rel_path
    → r ≡ s
Unique-Mem r s [] u m n e = absurd (not-mem-nil m)
Unique-Mem r s (t ∷ l) (new, u) m n e =
    Or.elim (RenderResult_set _ _) (mem-cons.0 m)
      (λ p.
        Or.elim (RenderResult_set _ _) (mem-cons.0 n) (λ q. p ∙ sym q)
          (λ n'. absurd (cc (new, has-Mem s l n', e))))
      (λ m'.
        Or.elim (RenderResult_set _ _) (mem-cons.0 n) (λ q. absurd (cc (new, has-Mem r l m', e)))
          (λ n'. Unique-Mem r s l u m' n' e))

-- The combined hash does not depend on the order of the results, where their paths are different.
pub compute_combined_hash-Perm :
    (sha256_hex : String → String) (results results' : List RenderResult)
    → Unique path_of results
    → Perm results results'
    → compute_combined_hash sha256_hex results ≡ compute_combined_hash sha256_hex results'
unfolding compute_combined_hash
compute_combined_hash-Perm sha256_hex results results' u p = ∥∥₁_elim p (String_set _ _) (λ d.
    ap (λ l. sha256_hex (concat (map hash_line l)))
      (order_by-Permᴰ (λ a b. text_before a.rel_path b.rel_path)
        (λ a b. text_before_total a.rel_path b.rel_path)
        (λ a b c. text_before_trans a.rel_path b.rel_path c.rel_path) d
        (λ a b m n le ge.
          Unique-Mem a b results u m n (text_before_antisymm a.rel_path b.rel_path le ge))))
