-- ===== src/Daemon/Polling.antt =====
-- How the loop of `pollConvergence` in internal/daemon/server.go ends.
use controlai.Prelude.{
  ℕ, zero, suc, ◌+◌, ◌<◌, ◌≤◌, ◌≡◌, ◌≢◌, ltb→lt, refl, inl, inr, String, ◌==◌, eq_iff, true, Option,
  none, some, List, [], ◌∷◌, ltb, Bool-cases, arith, if◌then◌else◌, All,
}
use controlai.Daemon.Applying.{
  ContainerState, Waiting, Reason, Poll, converged, cancelled, no_docker, timed_out, not_running,
  reason_of, judge_listing, after_listing, poll_loop, poll_convergence,
}

abbrev pub Running : List ContainerState → Type 0
Running cs = (cs ≢ []) × All (λ c. c.state ≡ "running") cs

not_running-All :
    (cs : List ContainerState) → not_running cs ≡ none → All (λ c. c.state ≡ "running") cs
unfolding not_running
not_running-All [] h = tt
not_running-All (c ∷ rest) h = elim (Bool-cases (c.state == "running")) [
  | inl e ↦ ((eq_iff c.state "running").0 e, not_running-All rest (ground (arith, h, e)))
  | inr e ↦ absurd (ground (arith, h, e))
]

judge_listing-Running :
    (l : Option (List ContainerState))
    → judge_listing l ≡ none
    → (cs : List ContainerState) × (l ≡ some cs) × Running cs
unfolding judge_listing
judge_listing-Running none h = absurd (cc h)
judge_listing-Running (some []) h = absurd (cc h)
judge_listing-Running (some (c ∷ rest)) h =
    (c ∷ rest, refl, ((λ e. cc e), not_running-All (c ∷ rest) (judged (not_running (c ∷ rest)) h)))
  where
    judged : (r : Option ContainerState) → reason_of r ≡ none → r ≡ none
    judged none e = refl
    judged (some d) e = absurd (cc e)

module _ (o : Waiting) where
  -- Why a poll ended in a state of the outside.
  abbrev pub Ends : String → ℕ → Poll → o.World → Type 0
  Ends project deadline converged w =
      (v : o.World) × (cs : List ContainerState) × (o.list v project ≡ (some cs, w)) × Running cs
  Ends project deadline cancelled w = (v : o.World) × (o.wait v ≡ (true, w))
  Ends project deadline no_docker w = ⊥
  Ends project deadline (timed_out r) w = deadline < o.now w

  abbrev pub Ended : String → ℕ → Option (Poll × o.World) → Type 0
  Ended project deadline r =
      (out : Poll) × (w : o.World) × (r ≡ some (out, w)) × Ends project deadline out w

  module _ (steady : (w : o.World) (project : String) → o.now w ≤ o.now (o.list w project).1)
      (advances : (w : o.World) → o.now w < o.now (o.wait w).1) where
    waited :
        (project : String) (deadline : ℕ) (again : o.World → Option (Poll × o.World)) (v : o.World)
        → ((u : o.World) → o.now v < o.now u → Ended project deadline (again u))
        → Ended project deadline
            (let (stopped, u) = o.wait v in if stopped then some (cancelled, u) else again u)
    waited project deadline again v ih = elim (Bool-cases (o.wait v).0) [
      | inl e ↦ rw e (cancelled, (o.wait v).1, refl, (v, λ i. (e i, (o.wait v).1)))
      | inr e ↦ rw e (ih (o.wait v).1 (advances v))
    ]

    listed :
        (project : String) (deadline : ℕ) (again : o.World → Option (Poll × o.World)) (w : o.World)
        (r : Option Reason)
        → judge_listing (o.list w project).0 ≡ r
        → ((u : o.World)
            → o.now w < o.now u
            → o.now w ≤ deadline
            → Ended project deadline (again u))
        → Ended project deadline (after_listing o deadline again (o.list w project).1 r)
    listed project deadline again w none h ih =
        let (cs, e, running) = judge_listing-Running (o.list w project).0 h in
        (
          converged,
          (o.list w project).1,
          refl,
          (w, cs, (λ i. (e i, (o.list w project).1)), running),
        )
    listed project deadline again w (some reason) h ih =
        let v = (o.list w project).1 in
        elim (Bool-cases (ltb deadline (o.now v))) [
          | inl e ↦ rw e (timed_out reason, v, refl, ltb→lt deadline (o.now v) e)
          | inr e ↦ rw e (
              waited project deadline again v (λ u l.
                ih u (omega (arith, steady w project)) (ground (arith, steady w project, e))))
        ]

    poll_loop-Ended :
        (fuel : ℕ) (project : String) (deadline : ℕ) (w : o.World)
        → deadline + 2 ≤ suc fuel + o.now w
        → Ended project deadline (poll_loop o (suc fuel) project deadline w)
    unfolding poll_loop
    poll_loop-Ended zero project deadline w enough =
        listed project deadline (poll_loop o zero project deadline) w
          (judge_listing (o.list w project).0) refl (λ u l k. absurd (omega (arith, enough, k)))
    poll_loop-Ended (suc fuel) project deadline w enough =
        listed project deadline (poll_loop o (suc fuel) project deadline) w
          (judge_listing (o.list w project).0) refl
          (λ u l k. poll_loop-Ended fuel project deadline u (omega (arith, enough, l)))

    -- The loop ends, where listing the containers never turns the clock back and a wait moves it on, and
    -- the fuel is not zero and exceeds the time to the deadline by two: with all containers of a listing
    -- running, at least one of them; or past the deadline; or with a request that is done.
    pub poll_convergence-Ended :
        (project : String) (deadline fuel : ℕ) (w : o.World)
        → deadline + 2 ≤ suc fuel + o.now w
        → Ended project deadline (poll_convergence o (suc fuel) true project deadline w)
    unfolding poll_convergence
    poll_convergence-Ended project deadline fuel w enough =
        poll_loop-Ended fuel project deadline w enough
