-- ===== src/Engine/Trust.antt =====
-- What a measurement says of the runs it was taken from.
use queryforge.Prelude.{
  ℕ, zero, suc, ◌+◌, ◌≤◌, ◌<◌, ◌≡◌, refl, ◌∙◌, ap, true, false, List, [], ◌∷◌, ◌++◌, ltb, ◌==◌,
  arith, append_assoc, append-nil,
}
use queryforge.Prelude.Float.{FloatOps}
use queryforge.Engine.{Measurement, Timings}
use queryforge.Engine.Timing.{reading, measured, summarise, measure_loop, measure_from}

module _ {F R : Type 0} (fl : FloatOps F) (time : R → F)
    (note : Measurement F → R → Measurement F) where
  -- The times of `n` rounds from round `i`.
  abbrev pub times : (ℕ → R) → ℕ → ℕ → List F
  times r i zero = []
  times r i (suc n) = time (r i) ∷ times r (suc i) n

  -- The measurement after `n` rounds from round `i` were noted.
  abbrev pub noted : (ℕ → R) → ℕ → ℕ → Measurement F → Measurement F
  noted r i zero m = m
  noted r i (suc n) m = noted r (suc i) n (note m (r i))

  loop_late :
      (r : ℕ → R) (warmup n i : ℕ) (m : Measurement F) (ds : List F)
      → ltb i warmup ≡ false
      → measure_loop fl time note warmup (λ k. reading (r k)) (suc n) i m ds
        ≡ measure_loop fl time note warmup
            (λ k. reading (r k))
            n
            (suc i)
            (note m (r i))
            (ds ++ time (r i) ∷ [])
  unfolding measure_loop
  loop_late r warmup n i m ds late = rw (measure_loop, late)

  loop_early :
      (r : ℕ → R) (warmup n i : ℕ) (m : Measurement F)
      → ltb i warmup ≡ true
      → measure_loop fl time note warmup (λ k. reading (r k)) (suc n) i m []
        ≡ measure_loop fl time note warmup (λ k. reading (r k)) n (suc i) m []
  unfolding measure_loop
  loop_early r warmup n i m early = rw (measure_loop, early)

  loop_counts :
      (r : ℕ → R) (warmup n i : ℕ) (m : Measurement F) (ds : List F)
      → warmup ≤ i
      → measure_loop fl time note warmup (λ k. reading (r k)) n i m ds
        ≡ measured (summarise fl (noted r i n m) (ds ++ times r i n))
  unfolding measure_loop
  loop_counts r warmup zero i m ds h = rw (append-nil ds)
  loop_counts r warmup (suc n) i m ds h =
      loop_late r warmup n i m ds (ground arith)
      ∙ loop_counts r warmup n (suc i) (note m (r i)) (ds ++ time (r i) ∷ []) (omega arith)
      ∙ ap (λ l. measured (summarise fl (noted r (suc i) n (note m (r i))) l))
          (append_assoc ds (time (r i) ∷ []) (times r (suc i) n))

  loop_warms :
      (r : ℕ → R) (warmup k n total i : ℕ) (m : Measurement F)
      → i + k ≡ warmup
      → total ≡ n + k
      → measure_loop fl time note warmup (λ k. reading (r k)) total i m []
        ≡ measured (summarise fl (noted r warmup n m) (times r warmup n))
  loop_warms r warmup zero n total i m at all =
      let here : i ≡ warmup = omega arith in
      let rest : total ≡ n = omega arith in
      rw (rest, here) (loop_counts r warmup n warmup m [] (omega arith))
  loop_warms r warmup (suc k) n zero i m at all = absurd (omega arith)
  loop_warms r warmup (suc k) n (suc total) i m at all =
      loop_early r warmup total i m (ground arith)
      ∙ loop_warms r warmup k n total (suc i) m (omega arith) (omega arith)

  -- Where every round answers a reading, the measurement is made of the last `runs` rounds alone:
  -- the warm-up rounds come first, and neither their times nor their statistics are used.
  pub measure_from-discards-warmup :
      (start : ℕ → Measurement F) (t : Timings) (r : ℕ → R) (runs : ℕ)
      → 0 < runs
      → measure_from fl time note start t (λ k. reading (r k)) runs
        ≡ measured
            (summarise fl (noted r t.warmup_runs runs (start runs)) (times r t.warmup_runs runs))
  unfolding measure_from
  measure_from-discards-warmup start t r runs h =
      let some_runs : (runs == 0) ≡ false = ground arith in
      rw some_runs (
        loop_warms r t.warmup_runs t.warmup_runs runs (runs + t.warmup_runs) 0 (start runs)
          (omega arith) refl)
