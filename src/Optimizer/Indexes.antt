-- ===== src/Optimizer/Indexes.antt =====
-- The index experiments: MeasureIndex of internal/optimizer/verify.go and runIndexExperiments of
-- internal/optimizer/optimizer.go.
pub mod Backed
use queryforge.Prelude.{
  ℕ, zero, suc, ◌+◌, Bool, true, false, not, Option, none, some, List, [], ◌∷◌, Bytes, codes,
  is_empty, leb, if◌then◌else◌,
}
use queryforge.Prelude.Float.{FloatOps}
use queryforge.Prelude.Sort.{sort_stable}
use queryforge.Engine.{Outcome, done, fault, Measurement}
use queryforge.Engine.Experiment.{Driver, Action, with_hypothetical_index}
use queryforge.Rules.{Finding}
use queryforge.Optimizer.{Baseline, improvement_pct}

-- The errors of MeasureIndex that the caller tells apart.
pub data IndexFault : Type 0 where
  no_hypothetical_indexes : IndexFault
  other : Bytes → IndexFault

-- The text of `Detail`, by what it says.
pub data IndexDetail : Type 0 where
  not_worth worthwhile not_measured : IndexDetail
  could_not_measure : Bytes → IndexDetail

pub record IndexExperiment (F : Type 0) : Type 0 where
  pub ddl : Bytes
  pub table : Bytes
  pub baseline_median_ms : F
  pub with_index_median_ms : F
  pub improvement : F
  pub speedup_factor : F
  pub recommended : Bool
  pub detail : IndexDetail
  pub plan_with_index : Bytes
  pub build_ms : ℕ

-- The engine as MeasureIndex sees it: whether it is the Postgres one, the driver and the SET LOCAL
-- statement of its transactions, MeasureInTx, the milliseconds between two states, and what errors.Is
-- says of an error with this text and ErrNoHypotheticalIndexes.
pub record Lab (F E : Type 0) : Type 0 where
  pub is_postgres : Bool
  pub driver : Driver E
  pub set_timeout : Bytes
  pub measure_in_tx : Bytes → ℕ → E → Outcome (Measurement F) × E
  pub elapsed : E → E → ℕ
  pub says_unavailable : Bytes → Bool
  pub min_improvement_pct : F
  pub runs : ℕ

pub data Tried (F : Type 0) : Type 0 where
  tried : IndexExperiment F → Tried F
  untried : IndexFault → Tried F

module _ {F E : Type 0} (fl : FloatOps F) (lab : Lab F E) (base : Baseline F) where
  -- The error that MeasureIndex makes of a measurement.
  abbrev pub within_limit : Measurement F → Outcome (Measurement F)
  within_limit m =
      if m.timed_out
      then fault (codes "timed out while measuring with the index in place")
      else done m

  abbrev pub checked : Outcome (Measurement F) → Outcome (Measurement F)
  checked (fault t) = fault t
  checked (done m) = within_limit m

  -- The function that runs with the index in place: the build time and the measurement.
  abbrev pub with_build : ℕ → Outcome (Measurement F) → Outcome (ℕ × Measurement F)
  with_build ms (fault t) = fault t
  with_build ms (done m) = done (ms, m)

  unfoldable pub measure_inside : E → Action (ℕ × Measurement F) E
  measure_inside start e =
      let (o, e1) = lab.measure_in_tx base.statement.sql lab.runs e in
      (with_build (lab.elapsed start e) (checked o), e1)

  unfoldable pub conclude : Bytes → Bytes → ℕ → Measurement F → IndexExperiment F
  conclude ddl table ms m =
      let gain = improvement_pct fl base.measured.median_ms m.median_ms in
      let poor = fl.lt gain lab.min_improvement_pct in
      record {
        ddl = ddl;
        table = table;
        baseline_median_ms = base.measured.median_ms;
        with_index_median_ms = m.median_ms;
        improvement = gain;
        speedup_factor =
            if fl.lt (fl.lit 0) m.median_ms
            then fl.div base.measured.median_ms m.median_ms
            else fl.lit 0;
        recommended = not poor;
        detail = if poor then not_worth else worthwhile;
        plan_with_index = elim m.plan [ none ↦ [] | some p ↦ p.summary ];
        build_ms = ms;
      }

  abbrev pub concluded : Bytes → Bytes → Outcome (ℕ × Measurement F) → Tried F
  concluded ddl table (fault t) =
      untried (if lab.says_unavailable t then no_hypothetical_indexes else other t)
  concluded ddl table (done (ms, m)) = tried (conclude ddl table ms m)

  -- After the type assertion `v.Engine.(*engine.Postgres)`.
  unfoldable pub measure_if : Bool → Bytes → Bytes → E → Tried F × E
  unfolding measure_inside conclude
  measure_if false ddl table e =
      (untried (other (codes "index experiments require the postgres engine")), e)
  measure_if true ddl table e =
      let (o, e1) = with_hypothetical_index lab.driver lab.set_timeout ddl (measure_inside e) e in
      (concluded ddl table o, e1)

  -- (*Verifier).MeasureIndex
  unfoldable pub measure_index : Bytes → Bytes → E → Tried F × E
  unfolding measure_if
  measure_index = measure_if lab.is_postgres

  -- An experiment that was not measured.
  abbrev pub unmeasured : Finding → IndexDetail → IndexExperiment F
  unmeasured f why = record {
    ddl = f.suggested_index;
    table = f.table;
    baseline_median_ms = fl.lit 0;
    with_index_median_ms = fl.lit 0;
    improvement = fl.lit 0;
    speedup_factor = fl.lit 0;
    recommended = false;
    detail = why;
    plan_with_index = [];
    build_ms = 0;
  }

  -- What the loop appends for one finding.
  abbrev pub reported : Finding → Tried F → IndexExperiment F
  reported f (tried x) = x
  reported f (untried no_hypothetical_indexes) = unmeasured f not_measured
  reported f (untried (other t)) = unmeasured f (could_not_measure t)

  -- The loop over the findings, with `left` of the budget.
  unfoldable pub experiment_loop : ℕ → List Finding → E → List (IndexExperiment F) × E
  unfolding measure_index
  experiment_loop left [] e = ([], e)
  experiment_loop zero (f ∷ fs) e = elim (is_empty f.suggested_index) [
    | true ↦ experiment_loop zero fs e
    | false ↦ ([], e)
  ]
  experiment_loop (suc left) (f ∷ fs) e = elim (is_empty f.suggested_index) [
    | true ↦ experiment_loop (suc left) fs e
    | false ↦
        let (r, e1) = measure_index f.suggested_index f.table e in
        let (xs, e2) = experiment_loop left fs e1 in (reported f r ∷ xs, e2)
  ]

  -- The larger improvement first.
  abbrev pub gains_more : IndexExperiment F → IndexExperiment F → Bool
  gains_more a b = fl.lt b.improvement a.improvement

  -- runIndexExperiments; `budget` is MaxIndexTests.
  unfoldable pub run_index_experiments : ℕ → List Finding → E → List (IndexExperiment F) × E
  unfolding experiment_loop
  run_index_experiments budget fs e =
      let (xs, e1) = experiment_loop budget fs e in (sort_stable gains_more xs, e1)
