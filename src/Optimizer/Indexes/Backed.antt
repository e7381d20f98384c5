-- ===== src/Optimizer/Indexes/Backed.antt =====
-- What the index experiments may recommend.
use queryforge.Prelude.{
  ℕ, zero, suc, ◌≤◌, ◌≡◌, refl, Bool, true, false, List, [], ◌∷◌, All, length, is_empty, Bool-cases,
  inl, inr, arith,
}
use queryforge.Prelude.Float.{FloatOps}
use queryforge.Prelude.Sort.{All-sort_stable, length-sort_stable}
use queryforge.Engine.{Outcome, done, fault, Measurement}
use queryforge.Engine.Experiment.{with_hypothetical_index}
use queryforge.Rules.{Finding}
use queryforge.Optimizer.{Baseline, improvement_pct}
use queryforge.Optimizer.Indexes.{
  IndexExperiment, Lab, measure_inside, measure_if, measure_index, conclude, concluded, reported,
  experiment_loop, gains_more, run_index_experiments,
}

module _ {F E : Type 0} (fl : FloatOps F) (lab : Lab F E) (base : Baseline F) where
  -- An experiment is not recommended, or is the conclusion from a measurement with the index in
  -- place that was in time, with a gain that is not below the threshold.
  pub data IsBacked (x : IndexExperiment F) : Type 0 where
    not_recommended : x.recommended ≡ false → IsBacked x
    measured_gain :
        (before : E) (ms : ℕ) (m : Measurement F)
        → lab.is_postgres ≡ true
        → (with_hypothetical_index lab.driver lab.set_timeout x.ddl
            (measure_inside fl lab base before)
            before).0
          ≡ done (ms, m)
        → x ≡ conclude fl lab base x.ddl x.table ms m
        → fl.lt (improvement_pct fl base.measured.median_ms m.median_ms) lab.min_improvement_pct
          ≡ false
        → IsBacked x

  concluded-IsBacked :
      (f : Finding) (e : E) (o : Outcome (ℕ × Measurement F))
      → lab.is_postgres ≡ true
      → (with_hypothetical_index lab.driver lab.set_timeout f.suggested_index
          (measure_inside fl lab base e)
          e).0
        ≡ o
      → IsBacked (reported fl lab base f (concluded fl lab base f.suggested_index f.table o))
  concluded-IsBacked f e (fault t) pg q = elim (Bool-cases (lab.says_unavailable t)) [
    | inl u ↦ not_recommended (rw u refl)
    | inr u ↦ not_recommended (rw u refl)
  ]
  concluded-IsBacked f e (done (ms, m)) pg q =
      elim (Bool-cases
        (fl.lt (improvement_pct fl base.measured.median_ms m.median_ms) lab.min_improvement_pct)) [
          | inl poor ↦ not_recommended (unfold conclude in rw poor refl)
          | inr good ↦ measured_gain e ms m pg (unfold conclude in q) (unfold conclude in refl) good
        ]

  measure_if-IsBacked :
      (f : Finding) (e : E) (b : Bool)
      → lab.is_postgres ≡ b
      → IsBacked (reported fl lab base f (measure_if fl lab base b f.suggested_index f.table e).0)
  unfolding measure_if
  measure_if-IsBacked f e false no_pg = not_recommended refl
  measure_if-IsBacked f e true pg =
      concluded-IsBacked f e
        (with_hypothetical_index lab.driver lab.set_timeout f.suggested_index
          (measure_inside fl lab base e) e).0
        pg refl

  loop-IsBacked :
      (budget : ℕ) (fs : List Finding) (e : E)
      → All IsBacked (experiment_loop fl lab base budget fs e).0
  unfolding experiment_loop measure_index
  loop-IsBacked budget [] e = tt
  loop-IsBacked zero (f ∷ fs) e = elim (Bool-cases (is_empty f.suggested_index)) [
    | inl skip ↦ rw (experiment_loop, skip) (loop-IsBacked zero fs e)
    | inr stop ↦ rw (experiment_loop, stop) tt
  ]
  loop-IsBacked (suc left) (f ∷ fs) e = elim (Bool-cases (is_empty f.suggested_index)) [
    | inl skip ↦ rw (experiment_loop, skip) (loop-IsBacked (suc left) fs e)
    | inr go ↦
        rw (experiment_loop, go)
          (
            measure_if-IsBacked f e lab.is_postgres refl,
            loop-IsBacked left fs (measure_index fl lab base f.suggested_index f.table e).1,
          )
  ]

  loop_budget :
      (budget : ℕ) (fs : List Finding) (e : E)
      → length (experiment_loop fl lab base budget fs e).0 ≤ budget
  unfolding experiment_loop
  loop_budget budget [] e = omega arith
  loop_budget zero (f ∷ fs) e = elim (Bool-cases (is_empty f.suggested_index)) [
    | inl skip ↦ rw (experiment_loop, skip) (loop_budget zero fs e)
    | inr stop ↦ rw (experiment_loop, stop) (omega arith)
  ]
  loop_budget (suc left) (f ∷ fs) e = elim (Bool-cases (is_empty f.suggested_index)) [
    | inl skip ↦ rw (experiment_loop, skip) (loop_budget (suc left) fs e)
    | inr go ↦
        rw (experiment_loop, go)
          (omega
            (arith, loop_budget left fs (measure_index fl lab base f.suggested_index f.table e).1))
  ]

  -- The experiments of a run are at most as many as the budget, and each is backed: it is not
  -- recommended, or it was measured in time on Postgres with the index in place, and its gain is not
  -- below the threshold.
  pub experiments-are-IsBacked :
      (budget : ℕ) (fs : List Finding) (e : E)
      → All IsBacked (run_index_experiments fl lab base budget fs e).0
        × (length (run_index_experiments fl lab base budget fs e).0 ≤ budget)
  unfolding run_index_experiments
  experiments-are-IsBacked budget fs e = (
    All-sort_stable (gains_more fl lab base) IsBacked (experiment_loop fl lab base budget fs e).0
        (loop-IsBacked budget fs e),
    rw (length-sort_stable (gains_more fl lab base) (experiment_loop fl lab base budget fs e).0)
        (loop_budget budget fs e),
  )
