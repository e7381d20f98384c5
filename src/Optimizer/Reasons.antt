-- ===== src/Optimizer/Reasons.antt =====
-- What every result of the verification gate carries.
use queryforge.Prelude.{
  ◌≡◌, refl, ◌⊎◌, true, Option, none, some, bytes_eq, Bool-cases, inl, inr, arith,
}
use queryforge.Prelude.Float.{FloatOps}
use queryforge.Engine.{Outcome, done, fault, Measurement, ResultHash, equal}
use queryforge.Sql.{Statement, not_read_only, unparseable, Parsed, parsed, refused}
use queryforge.Sql.Shape.{ShapeError, same_shape}
use queryforge.Optimizer.{
  accepted, rejected, Reason, does_not_parse, is_not_read_only, shape_mismatch, result_mismatch,
  not_faster, timed_out, identical, execution_error, Detail, Candidate, Result, Baseline, Verifier,
  normalize_sql, is_faster, untested, with_timing, decide, check_speed, check_results, check_shape,
  check_text, verify,
}

module _ {F E : Type 0} (fl : FloatOps F) (v : Verifier F E) (base : Baseline F)
    (c : Candidate) where
  -- The candidate's checksum run, and its timing run after it.
  abbrev hashed : E → Outcome ResultHash × E
  hashed e = v.engine.checksum c.sql base.ordered e

  abbrev timed : E → Outcome (Measurement F) × E
  timed e = v.engine.measure c.sql v.runs (hashed e).1

  -- A result is accepted without a reason and with identical results, or rejected with a reason.
  abbrev pub Coherent : Result F → Type 0
  Coherent res =
      ((res.verdict ≡ accepted) × (res.reason ≡ none) × (res.results_identical ≡ true))
      ⊎ ((res.verdict ≡ rejected) × (r : Reason) × (res.reason ≡ some r))

  speed-Coherent :
      (res : Result F) (o : Outcome (Measurement F))
      → res.reason ≡ none
      → res.results_identical ≡ true
      → Coherent (check_speed fl v base c res o)
  unfolding check_speed
  speed-Coherent res (fault t) p q = inr (refl, execution_error, refl)
  speed-Coherent res (done m) p q = elim (Bool-cases m.timed_out) [
    | inl late ↦ rw late (inr (refl, timed_out, refl))
    | inr fine ↦ rw fine (decided (is_faster fl v.min_improvement_pct base.measured m))
  ]
    where
      decided :
          (o : Option (Detail F))
          → Coherent (decide fl v base c m (with_timing fl v base c m res) o)
      decided none = inl (refl, p, q)
      decided (some why) = inr (refl, not_faster, refl)

  results-Coherent :
      (res : Result F) (o : Outcome ResultHash) (e : E)
      → res.reason ≡ none
      → Coherent (check_results fl v base c res o e).0
  unfolding check_results
  results-Coherent res (fault t) e p = inr (refl, execution_error, refl)
  results-Coherent res (done h) e p = elim (Bool-cases (equal (some base.checksum) (some h))) [
    | inl same ↦ rw same (speed-Coherent (record res { results_identical = true }) _ p refl)
    | inr other ↦ rw other (inr (refl, result_mismatch, refl))
  ]

  shape-Coherent :
      (res : Result F) (o : Option ShapeError) (e : E)
      → res.reason ≡ none
      → Coherent (check_shape fl v base c res o e).0
  unfolding check_shape
  shape-Coherent res (some why) e p = inr (refl, shape_mismatch, refl)
  shape-Coherent res none e p = results-Coherent res (hashed e).0 (hashed e).1 p

  text-Coherent :
      (res : Result F) (o : Parsed Statement) (e : E)
      → res.reason ≡ none
      → Coherent (check_text fl v base c res o e).0
  unfolding check_text
  text-Coherent res (refused (not_read_only t)) e p = inr (refl, is_not_read_only, refl)
  text-Coherent res (refused (unparseable t)) e p = inr (refl, does_not_parse, refl)
  text-Coherent res (parsed st) e p =
      elim (Bool-cases (bytes_eq (normalize_sql st.sql) (normalize_sql base.statement.sql))) [
        | inl copy ↦ rw copy (inr (refl, identical, refl))
        | inr new ↦ rw new (shape-Coherent res (same_shape base.statement st) e p)
      ]

  -- On every path of the gate the result is either accepted, with no reason and with results proven
  -- identical, or rejected with a reason.
  pub verify-Coherent : (e : E) → Coherent (verify fl v base c e).0
  unfolding verify
  verify-Coherent e = text-Coherent (untested fl base c) (v.parse c.sql) e refl

  candidate-speed :
      (res : Result F) (o : Outcome (Measurement F))
      → (check_speed fl v base c res o).candidate ≡ res.candidate
  unfolding check_speed
  candidate-speed res (fault t) = refl
  candidate-speed res (done m) = ground arith

  candidate-results :
      (res : Result F) (o : Outcome ResultHash) (e : E)
      → (check_results fl v base c res o e).0.candidate ≡ res.candidate
  unfolding check_results
  candidate-results res (fault t) e = refl
  candidate-results res (done h) e = ground (
    arith,
    candidate-speed (record res { results_identical = true }) (v.engine.measure c.sql v.runs e).0,
  )

  candidate-shape :
      (res : Result F) (o : Option ShapeError) (e : E)
      → (check_shape fl v base c res o e).0.candidate ≡ res.candidate
  unfolding check_shape
  candidate-shape res (some why) e = refl
  candidate-shape res none e = candidate-results res (hashed e).0 (hashed e).1

  candidate-text :
      (res : Result F) (o : Parsed Statement) (e : E)
      → (check_text fl v base c res o e).0.candidate ≡ res.candidate
  unfolding check_text
  candidate-text res (refused (not_read_only t)) e = refl
  candidate-text res (refused (unparseable t)) e = refl
  candidate-text res (parsed st) e =
      ground (arith, candidate-shape res (same_shape base.statement st) e)

  -- A result carries the candidate that it was made for.
  pub candidate-verify : (e : E) → (verify fl v base c e).0.candidate ≡ c
  unfolding verify
  candidate-verify e = candidate-text (untested fl base c) (v.parse c.sql) e
