-- ===== src/Engine/Fair.antt =====
-- What a measurement says of the times that it summarises.
use queryforge.Prelude.{
  ℕ, zero, suc, ◌-◌, ◌/◌, ◌%◌, ◌<◌, ◌≡◌, refl, ap, sym, subst, true, false, List, [], ◌∷◌, length,
  get_or, All, All-get_or, arith, ◌==◌, if◌then◌else◌, Bool-cases, inl, inr,
}
use queryforge.Prelude.Float.{FloatOps, IsOrdered}
use mathlib.Core.List.{Perm}
use queryforge.Prelude.Sort.{
  sort_stable-perm, sort_stable, IsSorted, sort_stable-IsSorted, last-greatest, first-least,
  of-sort_stable, length-sort_stable,
}
use queryforge.Engine.{Measurement, Timings}
use queryforge.Engine.Timing.{
  median, Reading, reading, measured, blank, summarise, note_run, measure,
}
use queryforge.Engine.Trust.{times, noted, measure_from-discards-warmup}

module _ {F : Type 0} (fl : FloatOps F) (ordered : IsOrdered fl) where
  -- The middle of sorted times: the one in the middle, or half the sum of the two around it.
  abbrev pub middle : List F → F
  middle xs =
      if length xs % 2 == 1
      then get_or xs (length xs / 2) (fl.lit 0)
      else fl.div
          (fl.add (get_or xs (length xs / 2 - 1) (fl.lit 0)) (get_or xs (length xs / 2) (fl.lit 0)))
          (fl.lit 2)

  -- What the summary of some times promises: in their order, the minimum is the first of them, the
  -- maximum the last and the median the middle; no time lies outside the extremes, and the spread is
  -- their difference.
  pub record IsFair (m : Measurement F) (ds : List F) : Type 0 where
    pub ordering : List F
    pub rearranged : Perm ordering ds
    pub is_sorted : IsSorted fl.lt ordering
    pub least : m.min_ms ≡ get_or ordering 0 (fl.lit 0)
    pub greatest : m.max_ms ≡ get_or ordering (length ordering - 1) (fl.lit 0)
    pub halfway : m.median_ms ≡ middle ordering
    pub above_min : All (λ t. fl.lt t m.min_ms ≡ false) ds
    pub below_max : All (λ t. fl.lt m.max_ms t ≡ false) ds
    pub spread : m.spread_ms ≡ fl.sub m.max_ms m.min_ms

  median_odd :
      (xs : List F) → length xs % 2 ≡ 1 → median fl xs ≡ get_or xs (length xs / 2) (fl.lit 0)
  unfolding median
  median_odd xs h = ground arith

  median-middle : (xs : List F) → 0 < length xs → median fl xs ≡ middle xs
  unfolding median
  median-middle xs h = ground arith

  asym : (a b : F) → fl.lt a b ≡ true → fl.lt b a ≡ false
  asym a b h = elim (Bool-cases (fl.lt b a)) [
    | inl t ↦ absurd (cc (ordered.lt_trans a b a h t, ordered.lt_irrefl a))
    | inr f ↦ f
  ]

  extremes :
      (xs : List F)
      → 0 < length xs
      → IsSorted fl.lt xs
      → All (λ y. fl.lt y (get_or xs 0 (fl.lit 0)) ≡ false) xs
        × All (λ y. fl.lt (get_or xs (length xs - 1) (fl.lit 0)) y ≡ false) xs
  extremes [] h s = absurd (omega arith)
  extremes (x ∷ xs) h s =
      let last : suc (length xs) - 1 ≡ length xs = omega arith in
      (
        first-least fl.lt ordered.lt_irrefl (fl.lit 0) x xs s,
        subst (λ n. All (λ y. fl.lt (get_or (x ∷ xs) n (fl.lit 0)) y ≡ false) (x ∷ xs)) (sym last)
            (last-greatest fl.lt ordered.lt_irrefl (fl.lit 0) x xs s),
      )

  -- The summary of one time or more is fair.
  pub summarise-IsFair :
      (m : Measurement F) (t : F) (ts : List F) → IsFair (summarise fl m (t ∷ ts)) (t ∷ ts)
  unfolding summarise
  summarise-IsFair m t ts =
      let xs = sort_stable fl.lt (t ∷ ts) in
      let same : length xs ≡ suc (length ts) = length-sort_stable fl.lt (t ∷ ts) in
      let ends =
        extremes xs (omega arith) (sort_stable-IsSorted fl.lt asym ordered.not_lt_trans (t ∷ ts)) in
      record {
        ordering = xs;
        rearranged = sort_stable-perm fl.lt (t ∷ ts);
        is_sorted = sort_stable-IsSorted fl.lt asym ordered.not_lt_trans (t ∷ ts);
        least = refl;
        greatest = refl;
        halfway = median-middle xs (omega arith);
        above_min =
            of-sort_stable fl.lt (λ y. fl.lt y (get_or xs 0 (fl.lit 0)) ≡ false) (t ∷ ts) ends.0;
        below_max =
            of-sort_stable fl.lt (λ y. fl.lt (get_or xs (length xs - 1) (fl.lit 0)) y ≡ false)
              (t ∷ ts) ends.1;
        spread = refl;
      }

  -- The median of an odd number of times lies between the extremes.
  summarise-median :
      (m : Measurement F) (t : F) (ts : List F)
      → length (t ∷ ts) % 2 ≡ 1
      → (fl.lt (summarise fl m (t ∷ ts)).median_ms (summarise fl m (t ∷ ts)).min_ms ≡ false)
        × (fl.lt (summarise fl m (t ∷ ts)).max_ms (summarise fl m (t ∷ ts)).median_ms ≡ false)
  unfolding summarise
  summarise-median m t ts odd =
      let xs = sort_stable fl.lt (t ∷ ts) in
      let same : length xs ≡ suc (length ts) = length-sort_stable fl.lt (t ∷ ts) in
      let ends =
        extremes xs (omega arith) (sort_stable-IsSorted fl.lt asym ordered.not_lt_trans (t ∷ ts)) in
      rw (median_odd xs (omega arith)) (
        All-get_or (λ y. fl.lt y (get_or xs 0 (fl.lit 0)) ≡ false) xs (length xs / 2) (fl.lit 0)
            ends.0 (omega arith),
        All-get_or (λ y. fl.lt (get_or xs (length xs - 1) (fl.lit 0)) y ≡ false) xs (length xs / 2)
            (fl.lit 0) ends.1 (omega arith),
      )

module _ {F : Type 0} (fl : FloatOps F) (ordered : IsOrdered fl) where
  length-times :
      {R : Type 0} (time : R → F) (note : Measurement F → R → Measurement F) (r : ℕ → R) (i n : ℕ)
      → length (times fl time note r i n) ≡ n
  length-times time note r i zero = refl
  length-times time note r i (suc n) = ap suc (length-times time note r (suc i) n)

  median_of_loop :
      (start : Measurement F) (ds : List F)
      → length ds % 2 ≡ 1
      → (fl.lt (summarise fl start ds).median_ms (summarise fl start ds).min_ms ≡ false)
        × (fl.lt (summarise fl start ds).max_ms (summarise fl start ds).median_ms ≡ false)
  median_of_loop start [] h = absurd (omega arith)
  median_of_loop start (t ∷ ts) h = summarise-median fl ordered start t ts h

  -- (*Postgres).Measure with an odd number of runs, every execution answering: the median of the
  -- measurement is not below its minimum and not above its maximum.
  pub measure-median :
      (t : Timings) (r : ℕ → Reading F) (runs : ℕ)
      → runs % 2 ≡ 1
      → (m : Measurement F) × (measure fl t (λ k. reading (r k)) runs ≡ measured m)
        × (fl.lt m.median_ms m.min_ms ≡ false)
        × (fl.lt m.max_ms m.median_ms ≡ false)
  unfolding measure
  measure-median t r runs odd =
      let start = noted fl (λ x. x.exec_ms) note_run r t.warmup_runs runs (blank fl runs) in
      let ds = times fl (λ x. x.exec_ms) note_run r t.warmup_runs runs in
      let between = median_of_loop start ds (
        omega (arith, length-times (λ (x : Reading F). x.exec_ms) note_run r t.warmup_runs runs)) in
      (
        summarise fl start ds,
        measure_from-discards-warmup fl (λ x. x.exec_ms) note_run (blank fl) t r runs (omega arith),
        between.0,
        between.1,
      )
