-- ===== src/Optimizer/Gate.antt =====
-- What the verification gate lets through, and what it never does.
use queryforge.Prelude.{
  ◌≡◌, refl, ◌↔◌, true, false, Option, none, some, bytes_eq, Bool-cases, Option-cases, inl, inr,
  arith,
}
use queryforge.Prelude.Float.{FloatOps}
use queryforge.Engine.{Outcome, done, fault, Measurement, ResultHash, equal}
use queryforge.Sql.{Statement, not_read_only, unparseable, Parsed, parsed, refused}
use queryforge.Sql.Shape.{ShapeError, same_shape}
use queryforge.Optimizer.{
  accepted, rejected, Candidate, Result, Baseline, Verifier, normalize_sql, improvement_pct,
  max_float, untested, check_speed, check_results, check_shape, check_text, verify,
}

module _ {F E : Type 0} (fl : FloatOps F) (v : Verifier F E) (base : Baseline F)
    (c : Candidate) where
  -- The candidate's checksum run, and its timing run after it.
  abbrev hashed : E → Outcome ResultHash × E
  hashed e = v.engine.checksum c.sql base.ordered e

  abbrev timed : E → Outcome (Measurement F) × E
  timed e = v.engine.measure c.sql v.runs (hashed e).1

  -- Everything that an accepted candidate has been through.
  pub record Proven (e : E) : Type 0 where
    pub st : Statement
    pub read_only : v.parse c.sql ≡ parsed st
    pub new_text : bytes_eq (normalize_sql st.sql) (normalize_sql base.statement.sql) ≡ false
    pub shape : same_shape base.statement st ≡ none
    pub hash : ResultHash
    pub ran : (hashed e).0 ≡ done hash
    pub same_results : equal (some base.checksum) (some hash) ≡ true
    pub timing : Measurement F
    pub measured : (timed e).0 ≡ done timing
    pub in_time : timing.timed_out ≡ false
    pub over_threshold :
        fl.lt (improvement_pct fl base.measured.median_ms timing.median_ms) v.min_improvement_pct
        ≡ false
    pub over_noise :
        fl.le
          (fl.sub base.measured.median_ms timing.median_ms)
          (max_float fl base.measured.spread_ms timing.spread_ms)
        ≡ false

  accepted-of-Proven : (e : E) → Proven e → (verify fl v base c e).0.verdict ≡ accepted
  unfolding verify
  accepted-of-Proven e p = rw p.read_only (
      rw p.new_text (
        rw p.shape (
          rw p.ran (
            rw p.same_results
              (rw p.measured (rw p.in_time (rw p.over_threshold (rw p.over_noise refl))))))))

  -- What the timing step has seen when it accepts.
  record Faster (o : Outcome (Measurement F)) : Type 0 where
    timing : Measurement F
    measured : o ≡ done timing
    in_time : timing.timed_out ≡ false
    over_threshold :
        fl.lt (improvement_pct fl base.measured.median_ms timing.median_ms) v.min_improvement_pct
        ≡ false
    over_noise :
        fl.le
          (fl.sub base.measured.median_ms timing.median_ms)
          (max_float fl base.measured.spread_ms timing.spread_ms)
        ≡ false

  Faster-of-check_speed :
      (res : Result F) (o : Outcome (Measurement F))
      → (check_speed fl v base c res o).verdict ≡ accepted
      → Faster o
  unfolding check_speed
  Faster-of-check_speed res (fault t) h = cc
  Faster-of-check_speed res (done m) h = record {
    timing = m;
    measured = refl;
    in_time = ground arith;
    over_threshold = ground arith;
    over_noise = ground arith;
  }

  record Equal (e : E) (o : Outcome ResultHash) : Type 0 where
    hash : ResultHash
    ran : o ≡ done hash
    same_results : equal (some base.checksum) (some hash) ≡ true
    quick : Faster (v.engine.measure c.sql v.runs e).0

  Equal-of-check_results :
      (res : Result F) (o : Outcome ResultHash) (e : E)
      → (check_results fl v base c res o e).0.verdict ≡ accepted
      → Equal e o
  unfolding check_results
  Equal-of-check_results res (fault t) e h = cc
  Equal-of-check_results res (done hash) e h =
      elim (Bool-cases (equal (some base.checksum) (some hash))) [
        | inl same ↦ record {
          hash = hash;
          ran = refl;
          same_results = same;
          quick = Faster-of-check_speed (record res { results_identical = true }) _ (rw same at h);
        }
        | inr other ↦ absurd (never (rw other at h))
      ]
    where
      never : rejected ≡ accepted → ⊥
      never q = cc

  Equal-of-check_shape :
      (res : Result F) (o : Option ShapeError) (e : E)
      → (check_shape fl v base c res o e).0.verdict ≡ accepted
      → (o ≡ none) × Equal (hashed e).1 (hashed e).0
  unfolding check_shape
  Equal-of-check_shape res (some why) e h = cc
  Equal-of-check_shape res none e h = (refl, Equal-of-check_results res (hashed e).0 (hashed e).1 h)

  Proven-of-check_text :
      (res : Result F) (o : Parsed Statement) (e : E)
      → v.parse c.sql ≡ o
      → (check_text fl v base c res o e).0.verdict ≡ accepted
      → Proven e
  unfolding check_text
  Proven-of-check_text res (refused (not_read_only t)) e q h = absurd (cc)
  Proven-of-check_text res (refused (unparseable t)) e q h = absurd (cc)
  Proven-of-check_text res (parsed st) e q h =
      elim (Bool-cases (bytes_eq (normalize_sql st.sql) (normalize_sql base.statement.sql))) [
        | inl copy ↦ absurd (never (rw copy at h))
        | inr new ↦
            let (fits, same) =
              Equal-of-check_shape res (same_shape base.statement st) e (rw new at h) in
            record {
              st = st;
              read_only = q;
              new_text = new;
              shape = fits;
              hash = same.hash;
              ran = same.ran;
              same_results = same.same_results;
              timing = same.quick.timing;
              measured = same.quick.measured;
              in_time = same.quick.in_time;
              over_threshold = same.quick.over_threshold;
              over_noise = same.quick.over_noise;
            }
      ]
    where
      never : rejected ≡ accepted → ⊥
      never x = cc

  -- A candidate is accepted exactly when it is proven: it parses as a read-only statement, its text
  -- is new, it has the shape of the original, its result has the checksum, the row count and the
  -- ordering of the original's, its timing did not run out, its improvement is not below the
  -- threshold, and the time it saves is not within the larger of the two spreads.
  pub verify-accepts-iff-Proven : (e : E) → ((verify fl v base c e).0.verdict ≡ accepted) ↔ Proven e
  unfolding verify
  verify-accepts-iff-Proven e =
      (Proven-of-check_text (untested fl base c) (v.parse c.sql) e refl, accepted-of-Proven e)

  unrun_text :
      (res : Result F) (o : Parsed Statement) (e : E)
      → ((st : Statement)
          → o ≡ parsed st
          → same_shape base.statement st ≡ none
          → bytes_eq (normalize_sql st.sql) (normalize_sql base.statement.sql) ≡ true)
      → ((check_text fl v base c res o e).1 ≡ e)
        × ((check_text fl v base c res o e).0.verdict ≡ rejected)
  unfolding check_text
  unrun_text res (refused (not_read_only t)) e h = (refl, refl)
  unrun_text res (refused (unparseable t)) e h = (refl, refl)
  unrun_text res (parsed st) e h =
      elim (Bool-cases (bytes_eq (normalize_sql st.sql) (normalize_sql base.statement.sql))) [
        | inl copy ↦ rw copy (refl, refl)
        | inr new ↦ elim (Option-cases (same_shape base.statement st)) [
          | inl fits ↦ absurd (cc (h st refl fits, new))
          | inr (why, differs) ↦ rw (new) (rw differs (refl, refl))
        ]
      ]

  -- A candidate that is refused by the parser, is the original's text or has another shape is never
  -- run: the engine is left as it was, and the candidate is rejected.
  pub verify-runs-only-checked :
      (e : E)
      → ((st : Statement)
          → v.parse c.sql ≡ parsed st
          → same_shape base.statement st ≡ none
          → bytes_eq (normalize_sql st.sql) (normalize_sql base.statement.sql) ≡ true)
      → ((verify fl v base c e).1 ≡ e) × ((verify fl v base c e).0.verdict ≡ rejected)
  unfolding verify
  verify-runs-only-checked e h = unrun_text (untested fl base c) (v.parse c.sql) e h
