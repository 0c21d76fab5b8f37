-- ===== src/Ingest/Delivery.antt =====
-- What becomes of the messages that services/ingest/main.go receives.
use mathlib.Core.List.{append-nil, append_assoc}
use controlai.Prelude.{
  ℕ, suc, zero, ◌+◌, ◌≡◌, refl, sym, ap, ◌∙◌, Bool, some, List, [], ◌∷◌, ◌++◌, map, get_elem?,
  arith, if◌then◌else◌,
}
use controlai.Ingest.Codec.{Codecs}
use controlai.Ingest.Buffer.{
  Config, row_of, TelemetryRow, TelemetryColumns, columns_of, State, handle_message, take_batch,
  take_with, without, written, requeued, written_and_requeued, Step, Reachable, on_message,
  on_flush, on_written, on_failed, on_doubt, reach_start, reach_step, Sequential, seq_start,
  seq_message, seq_flush, seq_written, seq_failed, seq_doubt,
}

-- How many items pass a test.
abbrev pub count : {A : Type 0} → (A → Bool) → List A → ℕ
count p [] = 0
count p (x ∷ xs) = (if p x then 1 else 0) + count p xs

count-append :
    {A : Type 0} (p : A → Bool) (xs ys : List A) → count p (xs ++ ys) ≡ count p xs + count p ys
count-append p [] ys = omega arith
count-append p (x ∷ xs) ys = omega (arith, count-append p xs ys)

abbrev pub flat : {A : Type 0} → List (List A) → List A
flat [] = []
flat (xs ∷ xss) = xs ++ flat xss

module _ (c : Codecs) (cfg : Config) where
  abbrev columns : List (TelemetryRow c) → List (TelemetryColumns c)
  columns rows = map (columns_of c cfg) rows

  columns-append : (xs ys : List (TelemetryRow c)) → columns (xs ++ ys) ≡ columns xs ++ columns ys
  columns-append [] ys = refl
  columns-append (x ∷ xs) ys = ap (◌∷◌ (columns_of c cfg x)) (columns-append xs ys)

  abbrev pub count_all : (TelemetryColumns c → Bool) → List (List (TelemetryRow c)) → ℕ
  count_all p [] = 0
  count_all p (b ∷ bs) = count p (columns b) + count_all p bs

  count_all-without :
      (p : TelemetryColumns c → Bool) (i : ℕ) (batch : List (TelemetryRow c))
      (bs : List (List (TelemetryRow c)))
      → get_elem? bs i ≡ some batch
      → count_all p bs ≡ count p (columns batch) + count_all p (without c cfg i bs)
  count_all-without p i batch [] h = cc
  count_all-without p zero batch (b ∷ bs) h = cc
  count_all-without p (suc i) batch (b ∷ bs) h = omega (arith, count_all-without p i batch bs h)

  -- In the table, in flight and in the ring together.
  abbrev pub count_kept : (TelemetryColumns c → Bool) → State c cfg → ℕ
  count_kept p s = count p s.table + count_all p s.in_flight + count p (columns s.ring)

  count_kept-take_with :
      (p : TelemetryColumns c → Bool) (rows : List (TelemetryRow c)) (s : State c cfg)
      → s.ring ≡ rows
      → (count_kept p (take_with c cfg rows s) ≡ count_kept p s)
        × ((take_with c cfg rows s).received ≡ s.received)
        × ((take_with c cfg rows s).doubtful ≡ s.doubtful)
  count_kept-take_with p [] s h = (refl, refl, refl)
  count_kept-take_with p (r ∷ rs) s h = (rw h (omega arith), refl, refl)

  count-columns :
      (p : TelemetryColumns c → Bool) (xs ys : List (TelemetryRow c))
      → count p (columns (xs ++ ys)) ≡ count p (columns xs) + count p (columns ys)
  count-columns p xs ys = rw (columns-append xs ys) (count-append p (columns xs) (columns ys))

  count_kept-Step :
      (p : TelemetryColumns c → Bool) {s s' : State c cfg}
      → Step c cfg s s'
      → count_kept p s ≡ count p (columns s.received) + count_all p s.doubtful
      → count_kept p s' ≡ count p (columns s'.received) + count_all p s'.doubtful
  unfolding handle_message take_batch written requeued written_and_requeued
  count_kept-Step p (on_message now m s) h = omega (
    arith,
    h,
    count-columns p s.ring (row_of c cfg now m ∷ []),
    count-columns p s.received (row_of c cfg now m ∷ []),
  )
  count_kept-Step p (on_flush s) h =
      let take = count_kept-take_with p s.ring s refl in
      let (kept, same, doubt) = take in
      let a = ap (λ rows. count p (columns rows)) same in
      let b = ap (count_all p) doubt in omega (arith, kept, h, a, b)
  count_kept-Step p (on_written i batch s e) h =
      omega (
        arith,
        h,
        count-append p s.table (columns batch),
        count_all-without p i batch s.in_flight e,
      )
  count_kept-Step p (on_failed i batch s e) h =
      omega (arith, h, count-columns p batch s.ring, count_all-without p i batch s.in_flight e)
  count_kept-Step p (on_doubt i batch s e) h = omega (
    arith,
    h,
    count-append p s.table (columns batch),
    count-columns p batch s.ring,
    count_all-without p i batch s.in_flight e,
  )

  -- However the handler, the flushes and failing INSERTs interleave: in every reachable state, the rows of
  -- the table, of the batches in flight and of the ring that pass a test are together as many as those of
  -- the received messages and of the batches that were committed although `Exec` reported an error. So
  -- no message is lost, and only such a batch is counted, and written, again.
  pub count_kept-Reachable :
      (p : TelemetryColumns c → Bool) (s : State c cfg)
      → Reachable c cfg s
      → count p s.table + count_all p s.in_flight + count p (columns s.ring)
        ≡ count p (columns s.received) + count_all p s.doubtful
  count_kept-Reachable p s reach_start = refl
  count_kept-Reachable p s (reach_step r step) = count_kept-Step p step (count_kept-Reachable p _ r)

  abbrev pub in_order : State c cfg → List (TelemetryColumns c)
  in_order s = s.table ++ (columns (flat s.in_flight) ++ columns s.ring)

  in_order-take_with :
      (rows : List (TelemetryRow c)) (s : State c cfg)
      → s.ring ≡ rows
      → s.in_flight ≡ []
      → (in_order (take_with c cfg rows s) ≡ in_order s)
        × ((take_with c cfg rows s).received ≡ s.received)
        × ((take_with c cfg rows s).doubtful ≡ s.doubtful)
  in_order-take_with [] s h e = (refl, refl, refl)
  in_order-take_with (r ∷ rs) s h e = (rw (h, e) (simp append-nil), refl, refl)

  in_order-one :
      (batch : List (TelemetryRow c)) (s : State c cfg)
      → s.in_flight ≡ batch ∷ []
      → in_order s ≡ columns s.received
      → s.table ++ (columns batch ++ columns s.ring) ≡ columns s.received
  in_order-one batch s e h =
      ap (λ b. s.table ++ (columns b ++ columns s.ring)) (sym (append-nil batch))
      ∙ ap (λ fs. s.table ++ (columns (flat fs) ++ columns s.ring)) (sym e)
      ∙ h

  -- If flushes do not overlap, and no `Exec` has reported an error for a batch that was committed, the
  -- order is kept too: the table, then the batch in flight, then the ring are the rows of the received
  -- messages in the order of their arrival.
  pub in_order-Sequential :
      (s : State c cfg)
      → Sequential c cfg s
      → s.doubtful ≡ []
      → s.table ++ (columns (flat s.in_flight) ++ columns s.ring) ≡ columns s.received
  unfolding handle_message take_batch written requeued written_and_requeued
  in_order-Sequential s seq_start clear = refl
  in_order-Sequential s (seq_message now m s₀ h) clear =
      simp (columns-append, sym (in_order-Sequential s₀ h clear), append_assoc)
  in_order-Sequential s (seq_flush s₀ e h) clear =
      let (order, same, doubt) = in_order-take_with s₀.ring s₀ refl e in
      order ∙ in_order-Sequential s₀ h (sym doubt ∙ clear) ∙ ap columns (sym same)
  in_order-Sequential s (seq_written batch s₀ e h) clear =
      rw e (simp append_assoc (in_order-one batch s₀ e (in_order-Sequential s₀ h clear)))
  in_order-Sequential s (seq_failed batch s₀ e h) clear =
      rw e (rw columns-append (in_order-one batch s₀ e (in_order-Sequential s₀ h clear)))
  in_order-Sequential s (seq_doubt batch s₀ e h) clear = absurd (cc clear)
