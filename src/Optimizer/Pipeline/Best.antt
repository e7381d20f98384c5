-- ===== src/Optimizer/Pipeline/Best.antt =====
-- The choice of the best candidate.
use mathlib.Core.List.{Memᴰ}
use queryforge.Prelude.{
  ◌≡◌, refl, ◌⊎◌, inl, inr, true, false, ◌&&◌, Option, none, some, List, [], ◌∷◌, All, All-imp,
  Bool-cases, arith,
}
use queryforge.Prelude.Float.{FloatOps, IsOrdered}
use queryforge.Optimizer.{Result}
use queryforge.Optimizer.Pipeline.{is_accepted, better, pick_best}

module _ {F : Type 0} (fl : FloatOps F) (ordered : IsOrdered fl) where
  -- The choice `o` is an accepted result that `r` does not beat.
  abbrev AtLeast : Option (Result F) → Result F → Type 0
  AtLeast none r = ⊥
  AtLeast (some c) r =
      (is_accepted c.verdict ≡ true) × (fl.lt c.improvement_pct r.improvement_pct ≡ false)

  -- The choice so far is an accepted result, if there is one.
  abbrev Valid : Option (Result F) → Type 0
  Valid none = Unit
  Valid (some c) = is_accepted c.verdict ≡ true

  not_beaten : (b x r : F) → fl.lt b x ≡ true → fl.lt b r ≡ false → fl.lt x r ≡ false
  not_beaten b x r up low = elim (Bool-cases (fl.lt x r)) [
    | inl t ↦ absurd (cc (ordered.lt_trans b x r up t, low))
    | inr f ↦ f
  ]

  better-AtLeast :
      (best : Option (Result F)) (x r : Result F) → AtLeast best r → AtLeast (better fl best x) r
  better-AtLeast none x r h = absurd h
  better-AtLeast (some b) x r h =
      ground (arith, not_beaten b.improvement_pct x.improvement_pct r.improvement_pct)

  better-Valid : (best : Option (Result F)) (x : Result F) → Valid best → Valid (better fl best x)
  better-Valid none x h = ground arith
  better-Valid (some b) x h = ground arith

  better_covers :
      (best : Option (Result F)) (x : Result F)
      → Valid best
      → is_accepted x.verdict ≡ true
      → AtLeast (better fl best x) x
  better_covers none x h a = ground (arith, ordered.lt_irrefl x.improvement_pct)
  better_covers (some b) x h a = ground (arith, ordered.lt_irrefl x.improvement_pct)

  pick_best-AtLeast :
      (best : Option (Result F)) (rs : List (Result F)) (r : Result F)
      → AtLeast best r
      → AtLeast (pick_best fl best rs) r
  unfolding pick_best
  pick_best-AtLeast best [] r h = h
  pick_best-AtLeast best (x ∷ rs) r h =
      pick_best-AtLeast (better fl best x) rs r (better-AtLeast best x r h)

  pick_best-Valid :
      (best : Option (Result F)) (rs : List (Result F)) → Valid best → Valid (pick_best fl best rs)
  unfolding pick_best
  pick_best-Valid best [] h = h
  pick_best-Valid best (x ∷ rs) h = pick_best-Valid (better fl best x) rs (better-Valid best x h)

  abbrev Covered : Option (Result F) → Result F → Type 0
  Covered o r = is_accepted r.verdict ≡ true → AtLeast o r

  pick_best_covers :
      (best : Option (Result F)) (rs : List (Result F))
      → Valid best
      → All (Covered (pick_best fl best rs)) rs
  unfolding pick_best
  pick_best_covers best [] h = tt
  pick_best_covers best (x ∷ rs) h = (
    λ a. pick_best-AtLeast (better fl best x) rs x (better_covers best x h a),
    pick_best_covers (better fl best x) rs (better-Valid best x h),
  )

  -- The choice is one of the results, or the one that was there before.
  pick_best_from :
      (best : Option (Result F)) (rs : List (Result F)) (b : Result F)
      → pick_best fl best rs ≡ some b
      → Memᴰ b rs ⊎ (best ≡ some b)
  unfolding pick_best
  pick_best_from best [] b h = inr h
  pick_best_from best (x ∷ rs) b h = elim (pick_best_from (better fl best x) rs b h) [
    | inl m ↦ inl (Memᴰ.tail m)
    | inr e ↦ elim (kept best) [
      | inl old ↦ inr (rw (← old) e)
      | inr new ↦ inl (Memᴰ.head (cc (e, new)))
    ]
  ]
    where
      kept : (o : Option (Result F)) → (better fl o x ≡ o) ⊎ (better fl o x ≡ some x)
      kept none = ground arith
      kept (some c) = ground arith

  unbeaten :
      (b r : Result F)
      → (is_accepted r.verdict ≡ true → AtLeast (some b) r)
      → (is_accepted r.verdict && fl.lt b.improvement_pct r.improvement_pct) ≡ false
  unbeaten b r h = elim (Bool-cases (is_accepted r.verdict)) [
    | inl t ↦ rw t (h t).1
    | inr f ↦ rw f refl
  ]

  not_accepted : (r : Result F) → (is_accepted r.verdict ≡ true → ⊥) → is_accepted r.verdict ≡ false
  not_accepted r h = elim (Bool-cases (is_accepted r.verdict)) [ inl t ↦ absurd (h t) | inr f ↦ f ]

  -- The best of a run's results is one of them, is accepted, and no accepted result has a greater
  -- improvement.
  pub pick_best-some :
      (rs : List (Result F)) (b : Result F)
      → pick_best fl none rs ≡ some b
      → Memᴰ b rs
        × (is_accepted b.verdict ≡ true)
        × All (λ r. (is_accepted r.verdict && fl.lt b.improvement_pct r.improvement_pct) ≡ false) rs
  pick_best-some rs b chosen = (
    elim (pick_best_from none rs b chosen) [ inl m ↦ m | inr e ↦ absurd (cc) ],
    rw chosen at (pick_best-Valid none rs tt),
    All-imp (Covered (pick_best fl none rs))
        (λ r. (is_accepted r.verdict && fl.lt b.improvement_pct r.improvement_pct) ≡ false) rs
        (λ r h. unbeaten b r (λ a. rw chosen at (h a))) (pick_best_covers none rs tt),
  )

  -- Where there is no best, no result is accepted.
  pub pick_best-none :
      (rs : List (Result F))
      → pick_best fl none rs ≡ none
      → All (λ r. is_accepted r.verdict ≡ false) rs
  pick_best-none rs nothing_chosen =
      All-imp (Covered (pick_best fl none rs)) (λ r. is_accepted r.verdict ≡ false) rs
        (λ r h. not_accepted r (λ a. rw nothing_chosen at (h a))) (pick_best_covers none rs tt)
