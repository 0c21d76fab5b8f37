-- ===== src/Recon/Backoff.antt =====
-- internal/recon/reconciler.go: `backoffLadder` and `backoffDelay`. Durations are in seconds.
use native.Mathlib.Nat.{add-zero, add-suc, le_trans}
use native.Mathlib.Numerals.{towards_suc}
use controlai.Prelude.{
  ℕ, zero, suc, ◌+◌, ◌-◌, ◌≤◌, ◌≡◌, refl, ℤ, pos, negsuc, List, [], ◌∷◌, none, some, length,
  get_elem?, arith, leb, if◌then◌else◌,
}

abbrev pub backoff_ladder : List ℕ
backoff_ladder = 30 ∷ 60 ∷ 300 ∷ 1800 ∷ []

-- An index that the callers keep below the length.
abbrev at : ℕ → ℕ
at i = elim (get_elem? backoff_ladder i) [ none ↦ 0 | some d ↦ d ]

-- `backoffDelay`, of the number of failures.
unfoldable pub backoff_delay : ℤ → ℕ
backoff_delay (negsuc n) = at 0
backoff_delay (pos n) =
    if leb n 0
    then at 0
    else let idx = n - 1 in
      if leb (length backoff_ladder) idx then at (length backoff_ladder - 1) else at idx

-- The delay after so many failures: 30 seconds, 1 minute, 5 minutes, and 30 minutes from then on.
abbrev pub rung : ℕ → ℕ
rung zero = 30
rung (suc zero) = 30
rung (suc (suc zero)) = 60
rung (suc (suc (suc zero))) = 300
rung (suc (suc (suc (suc n)))) = 1800

pub backoff_delay-eq-rung : (n : ℕ) → backoff_delay (pos n) ≡ rung n
unfolding backoff_delay
backoff_delay-eq-rung zero = refl
backoff_delay-eq-rung (suc zero) = refl
backoff_delay-eq-rung (suc (suc zero)) = refl
backoff_delay-eq-rung (suc (suc (suc zero))) = refl
backoff_delay-eq-rung (suc (suc (suc (suc zero)))) = refl
backoff_delay-eq-rung (suc (suc (suc (suc (suc n))))) = ground arith

backoff_delay-negsuc : (n : ℕ) → backoff_delay (negsuc n) ≡ 30
unfolding backoff_delay
backoff_delay-negsuc n = refl

rung_bounds : (n : ℕ) → (30 ≤ rung n) × (rung n ≤ 1800) × (rung n ≤ rung (suc n))
rung_bounds zero = omega arith
rung_bounds (suc zero) = omega arith
rung_bounds (suc (suc zero)) = omega arith
rung_bounds (suc (suc (suc zero))) = omega arith
rung_bounds (suc (suc (suc (suc n)))) = omega arith

rung_mono : (n k : ℕ) → rung n ≤ rung (n + k)
rung_mono n zero = rw add-zero (omega arith)
rung_mono n (suc k) = rw add-suc (le_trans (rung_mono n k) (rung_bounds (n + k)).2)

rung_top : (n : ℕ) → rung (n + 4) ≡ 1800
rung_top n = simp towards_suc

-- The delays are exactly these: 30 seconds for the first failure (and for a count that is 0 or below),
-- 60 for the second, 300 for the third, 1800 for each later one; so none is below 30 seconds or above 30
-- minutes, and a further failure never shortens it.
pub backoff_delay_exact :
    (n k : ℕ)
    → (backoff_delay (negsuc n) ≡ 30)
      × (backoff_delay (pos 0) ≡ 30)
      × (backoff_delay (pos 1) ≡ 30)
      × (backoff_delay (pos 2) ≡ 60)
      × (backoff_delay (pos 3) ≡ 300)
      × (backoff_delay (pos (n + 4)) ≡ 1800)
      × (30 ≤ backoff_delay (pos n))
      × (backoff_delay (pos n) ≤ 1800)
      × (backoff_delay (pos n) ≤ backoff_delay (pos (n + k)))
backoff_delay_exact n k =
    rw (backoff_delay-eq-rung n, backoff_delay-eq-rung (n + k), backoff_delay-eq-rung (n + 4))
      (
        backoff_delay-negsuc n,
        backoff_delay-eq-rung 0,
        backoff_delay-eq-rung 1,
        backoff_delay-eq-rung 2,
        backoff_delay-eq-rung 3,
        rung_top n,
        (rung_bounds n).0,
        (rung_bounds n).1,
        rung_mono n k,
      )
