-- ===== src/Optimizer.antt =====
-- internal/optimizer/verify.go: the verification gate. The engine under test is an argument, whose
-- calls read and change a state `E` of the database and the clock.
pub mod Gate
pub mod Reasons
pub mod Pipeline
pub mod Indexes
use queryforge.Prelude.{
  ℕ, Bool, true, false, not, ◌&&◌, Option, none, some, List, [], ◌∷◌, Bytes, codes, bytes_eq,
  fields, join, to_lower, if◌then◌else◌,
}
use queryforge.Prelude.Float.{FloatOps}
use queryforge.Engine.{Outcome, done, fault, Plan, Measurement, ResultHash, Schema, equal}
use queryforge.Sql.{Statement, ParseError, not_read_only, unparseable, Parsed, parsed, refused}
use queryforge.Sql.Shape.{ShapeError, same_shape}

pub data Verdict : Type 0 where
  accepted rejected error : Verdict

pub data Reason : Type 0 where
  does_not_parse is_not_read_only shape_mismatch result_mismatch not_faster timed_out identical
        execution_error :
      Reason

pub record Candidate : Type 0 where
  pub sql : Bytes
  pub source : Bytes
  pub rationale : Bytes

-- The text of `Detail` is kept as what it is made from.
pub data Detail (F : Type 0) : Type 0 where
  nothing is_original timeout_exceeded : Detail F
  parse_text : ParseError → Detail F
  shape_text : ShapeError → Detail F
  fault_text : Bytes → Detail F
  different_data : ResultHash → ResultHash → Detail F
  below_threshold : F → F → F → F → Detail F
  within_noise : F → F → Detail F
  faster : F → F → F → F → ℕ → Detail F

-- A verified candidate with its evidence.
pub record Result (F : Type 0) : Type 0 where
  pub candidate : Candidate
  pub verdict : Verdict
  pub reason : Option Reason
  pub detail : Detail F
  pub baseline_median_ms : F
  pub candidate_median_ms : F
  pub speedup_factor : F
  pub improvement_pct : F
  pub baseline_cost : F
  pub candidate_cost : F
  pub results_identical : Bool
  pub row_count : ℕ
  pub candidate_plan : Bytes

pub record Baseline (F : Type 0) : Type 0 where
  pub statement : Statement
  pub plan : Plan F
  pub measured : Measurement F
  pub checksum : ResultHash
  pub ordered : Bool

-- The calls of engine.Engine that the gate makes.
pub record Engine (F E : Type 0) : Type 0 where
  pub explain : Bytes → E → Outcome (Plan F) × E
  pub measure : Bytes → ℕ → E → Outcome (Measurement F) × E
  pub checksum : Bytes → Bool → E → Outcome ResultHash × E

pub record Verifier (F E : Type 0) : Type 0 where
  pub engine : Engine F E
  pub min_improvement_pct : F
  pub runs : ℕ
  -- sqlparse.ParseDialect at the verifier's dialect
  pub parse : Bytes → Parsed Statement

-- normalizeSQL
unfoldable pub normalize_sql : Bytes → Bytes
normalize_sql s = to_lower (join (fields s) (codes " "))

module _ {F : Type 0} (fl : FloatOps F) where
  -- improvementPct
  unfoldable pub improvement_pct : F → F → F
  improvement_pct baseline candidate =
      if fl.le baseline (fl.lit 0)
      then fl.lit 0
      else fl.mul (fl.div (fl.sub baseline candidate) baseline) (fl.lit 100)

  -- maxFloat
  unfoldable pub max_float : F → F → F
  max_float a b = if fl.lt b a then a else b

  -- isFaster: `none` is true, and a refusal gives its text.
  unfoldable pub is_faster : F → Measurement F → Measurement F → Option (Detail F)
  unfolding improvement_pct max_float
  is_faster threshold base candidate =
      let improvement = fl.sub base.median_ms candidate.median_ms in
      let pct = improvement_pct base.median_ms candidate.median_ms in
      let noise = max_float base.spread_ms candidate.spread_ms in
      if fl.lt pct threshold
      then some (below_threshold pct base.median_ms candidate.median_ms threshold)
      else if fl.le improvement noise
      then some (within_noise improvement noise)
      else none

-- The errors of EstablishBaseline.
pub data BaselineError : Type 0 where
  no_plan no_timing no_checksum : Bytes → BaselineError
  original_timed_out : BaselineError

pub data Established (F : Type 0) : Type 0 where
  established : Baseline F → Established F
  failed : BaselineError → Established F

module _ {F E : Type 0} (eng : Engine F E) (st : Statement) (runs : ℕ) where
  after_baseline_checksum : Plan F → Measurement F → Outcome ResultHash × E → Established F × E
  after_baseline_checksum plan m (fault t, e) = (failed (no_checksum t), e)
  after_baseline_checksum plan m (done h, e) = (
    established (record {
      statement = st;
      plan = plan;
      measured = m;
      checksum = h;
      ordered = st.has_order_by;
    }),
    e,
  )

  after_baseline_timing : Plan F → Outcome (Measurement F) × E → Established F × E
  unfolding after_baseline_checksum
  after_baseline_timing plan (fault t, e) = (failed (no_timing t), e)
  after_baseline_timing plan (done m, e) =
      if m.timed_out
      then (failed original_timed_out, e)
      else after_baseline_checksum plan m (eng.checksum st.sql st.has_order_by e)

  after_baseline_plan : Outcome (Plan F) × E → Established F × E
  unfolding after_baseline_timing
  after_baseline_plan (fault t, e) = (failed (no_plan t), e)
  after_baseline_plan (done plan, e) = after_baseline_timing plan (eng.measure st.sql runs e)

  -- EstablishBaseline
  unfoldable pub establish_baseline : E → Established F × E
  unfolding after_baseline_plan
  establish_baseline e = after_baseline_plan (eng.explain st.sql e)

-- The result that Verify starts from.
abbrev pub untested : {F : Type 0} → FloatOps F → Baseline F → Candidate → Result F
untested fl base c = record {
  candidate = c;
  verdict = rejected;
  reason = none;
  detail = nothing;
  baseline_median_ms = base.measured.median_ms;
  candidate_median_ms = fl.lit 0;
  speedup_factor = fl.lit 0;
  improvement_pct = fl.lit 0;
  baseline_cost = base.plan.total_cost;
  candidate_cost = fl.lit 0;
  results_identical = false;
  row_count = base.checksum.row_count;
  candidate_plan = [];
}

abbrev pub reject : {F : Type 0} → Result F → Reason → Detail F → Result F
reject res reason detail = record res { verdict = rejected; reason = some reason; detail = detail }

-- Verify, one function for each of its five steps.
module _ {F E : Type 0} (fl : FloatOps F) (v : Verifier F E) (base : Baseline F)
    (c : Candidate) where
  -- The fields that are set once the candidate was measured.
  abbrev pub with_timing : Measurement F → Result F → Result F
  with_timing m res = record res {
    candidate_median_ms = m.median_ms;
    candidate_cost = elim m.plan [ none ↦ res.candidate_cost | some p ↦ p.total_cost ];
    candidate_plan = elim m.plan [ none ↦ res.candidate_plan | some p ↦ p.summary ];
    improvement_pct = improvement_pct fl base.measured.median_ms m.median_ms;
    speedup_factor =
        if fl.lt (fl.lit 0) m.median_ms
        then fl.div base.measured.median_ms m.median_ms
        else res.speedup_factor;
  }

  abbrev pub decide : Measurement F → Result F → Option (Detail F) → Result F
  decide m res (some why) = reject res not_faster why
  decide m res none = record res {
    verdict = accepted;
    detail =
        faster res.improvement_pct base.measured.median_ms m.median_ms res.speedup_factor
          res.row_count;
  }

  -- 5. It must be measurably faster.
  unfoldable pub check_speed : Result F → Outcome (Measurement F) → Result F
  unfolding is_faster
  check_speed res (fault t) = reject res execution_error (fault_text t)
  check_speed res (done m) =
      if m.timed_out
      then reject res timed_out timeout_exceeded
      else decide m (with_timing m res) (is_faster fl v.min_improvement_pct base.measured m)

  -- 4. The result checksums must be equal.
  unfoldable pub check_results : Result F → Outcome ResultHash → E → Result F × E
  unfolding check_speed
  check_results res (fault t) e = (reject res execution_error (fault_text t), e)
  check_results res (done h) e =
      if not (equal (some base.checksum) (some h))
      then (reject res result_mismatch (different_data base.checksum h), e)
      else let (timing, e') = v.engine.measure c.sql v.runs e in
        (check_speed (record res { results_identical = true }) timing, e')

  -- 3. The structural gate.
  unfoldable pub check_shape : Result F → Option ShapeError → E → Result F × E
  unfolding check_results
  check_shape res (some why) e = (reject res shape_mismatch (shape_text why), e)
  check_shape res none e =
      let (hash, e') = v.engine.checksum c.sql base.ordered e in check_results res hash e'

  -- 1. and 2. It must parse as a read-only statement, and be another text.
  unfoldable pub check_text : Result F → Parsed Statement → E → Result F × E
  unfolding check_shape
  check_text res (refused (not_read_only t)) e =
      (reject res is_not_read_only (parse_text (not_read_only t)), e)
  check_text res (refused (unparseable t)) e =
      (reject res does_not_parse (parse_text (unparseable t)), e)
  check_text res (parsed st) e =
      if bytes_eq (normalize_sql st.sql) (normalize_sql base.statement.sql)
      then (reject res identical is_original, e)
      else check_shape res (same_shape base.statement st) e

  -- (*Verifier).Verify
  unfoldable pub verify : E → Result F × E
  unfolding check_text
  verify e = check_text (untested fl base c) (v.parse c.sql) e
