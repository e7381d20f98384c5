-- ===== src/Examples/Choices.antt =====
-- What a run recommends, and the choice between results.
use mathlib.Core.List.{Memᴰ}
use queryforge.Prelude.{
  ℕ, ◌≡◌, ◌&&◌, refl, Option, true, false, some, none, [], ◌∷◌, List, All, bytes_eq, to_lower,
  fields, join, member,
}
use queryforge.Prelude.Int.{ℤ, pos}
use queryforge.Prelude.Float.{thousandths, thousandths-IsOrdered}
use queryforge.Engine.{equal}
use queryforge.Sql.Shape.{same_shape, table_set, check_columns, first_outside}
use queryforge.Optimizer.{
  Verdict, accepted, rejected, nothing, Result, normalize_sql, verify, establish_baseline,
  check_text, check_shape, check_results, check_speed, is_faster, improvement_pct, max_float,
}
use queryforge.Optimizer.Indexes.{IndexExperiment}
use queryforge.Optimizer.Pipeline.{
  Report, run, after_baseline, rule_candidates, take_proposals, pick_best, verify_all, verifier,
  is_accepted,
}
use queryforge.Optimizer.Pipeline.Best.{pick_best-some}
use queryforge.Optimizer.Pipeline.Recommend.{Recommended, report_or, run-recommends-only-proven}
use queryforge.Optimizer.Pipeline.Backing.{AreBacked, run-recommends-only-backed}
use queryforge.Examples.Data.{original, base, candidate, parts, options}

-- A result with a verdict and an improvement.
abbrev scored : Verdict → ℕ → Result ℤ
scored v n = record {
  candidate = candidate;
  verdict = v;
  reason = none;
  detail = nothing;
  baseline_median_ms = pos 100000;
  candidate_median_ms = pos 40000;
  speedup_factor = pos 2500;
  improvement_pct = pos n;
  baseline_cost = pos 0;
  candidate_cost = pos 0;
  results_identical = true;
  row_count = 3;
  candidate_plan = [];
}

abbrev results : List (Result ℤ)
results = scored accepted 20 ∷ scored rejected 90 ∷ scored accepted 60 ∷ []

pick_best-some_example :
    Memᴰ (scored accepted 60) results
    × (is_accepted accepted ≡ true)
    × All
        (λ (r : Result ℤ).
          (is_accepted r.verdict && thousandths.lt (pos 60) r.improvement_pct) ≡ false)
        results
unfolding pick_best
pick_best-some_example =
    pick_best-some thousandths thousandths-IsOrdered results (scored accepted 60) refl

abbrev blank : Report ℤ (IndexExperiment ℤ)
blank = record {
  original_sql = [];
  fingerprint = [];
  schema = record { tables = [] };
  findings = [];
  baseline = base;
  candidates = [];
  indexes = [];
  best = none;
  llm_used = false;
}

-- The report of a run.
abbrev answer : Report ℤ (IndexExperiment ℤ)
answer = report_or blank (run thousandths parts options original 0).0

run-recommends-only-backed_example :
    AreBacked thousandths parts options answer.baseline answer.indexes
unfolding run after_baseline establish_baseline bytes_eq
run-recommends-only-backed_example =
    run-recommends-only-backed thousandths parts options original 0 answer refl

abbrev best_or : Result ℤ → Option (Result ℤ) → Result ℤ
best_or d none = d
best_or d (some b) = b

run-recommends-only-proven_example :
    Recommended thousandths
      (verifier parts options)
      answer.baseline
      (best_or (scored rejected 0) answer.best)
unfolding run after_baseline establish_baseline rule_candidates take_proposals verify_all verify
    check_text check_shape check_results check_speed is_faster improvement_pct max_float same_shape
    table_set first_outside check_columns equal pick_best normalize_sql bytes_eq member to_lower
    join fields
run-recommends-only-proven_example =
    run-recommends-only-proven thousandths thousandths-IsOrdered parts options original 0 answer
      (best_or (scored rejected 0) answer.best) refl refl
