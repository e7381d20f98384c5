-- ===== src/Optimizer/Pipeline/Recommend.antt =====
-- What a run may recommend.
use mathlib.Core.List.{Memᴰ}
use queryforge.Prelude.{
  ◌≡◌, refl, sym, ◌∙◌, subst, ap, true, none, some, List, [], ◌∷◌, All, Bytes, member, Bool-cases,
  inl, inr,
}
use queryforge.Prelude.Float.{FloatOps, IsOrdered}
use queryforge.Engine.{Outcome, done, fault, Schema}
use queryforge.Sql.{Statement, Parsed, parsed, refused}
use queryforge.Optimizer.{
  Verdict, accepted, rejected, error, Candidate, Result, Baseline, Established, established, failed,
  Verifier, normalize_sql, establish_baseline, verify,
}
use queryforge.Optimizer.Gate.{Proven, verify-accepts-iff-Proven}
use queryforge.Optimizer.Indexes.{IndexExperiment}
use queryforge.Optimizer.Pipeline.{
  verifier, is_accepted, verify_all, pick_best, Parts, Options, Report, Ran, report, aborted,
  table_names, gather, after_baseline, after_introspect, after_parse, run,
}
use queryforge.Optimizer.Pipeline.Best.{pick_best-some}

All-Memᴰ : {A : Type 0} (P : A → Type 0) (xs : List A) {a : A} → All P xs → Memᴰ a xs → P a
All-Memᴰ P [] h m = elim m [ ]
All-Memᴰ P (x ∷ xs) h (Memᴰ.head p) = subst P (sym p) h.0
All-Memᴰ P (x ∷ xs) h (Memᴰ.tail m) = All-Memᴰ P xs h.1 m

abbrev pub report_or : {F X : Type 0} → Report F X → Ran (Report F X) → Report F X
report_or d (report r) = r
report_or d (aborted why) = d

accepted_of : (v : Verdict) → is_accepted v ≡ true → v ≡ accepted
accepted_of accepted h = refl
accepted_of rejected h = cc
accepted_of error h = cc

module _ {F E : Type 0} (fl : FloatOps F) (v : Verifier F E) (base : Baseline F) where
  -- The result of verifying some candidate at some point of the run.
  pub record Verified (r : Result F) : Type 0 where
    pub candidate : Candidate
    pub before : E
    pub result : r ≡ (verify fl v base candidate before).0

  verify_all-Verified :
      (seen : List Bytes) (cs : List Candidate) (e : E)
      → All Verified (verify_all fl v base seen cs e).0
  unfolding verify_all
  verify_all-Verified seen [] e = tt
  verify_all-Verified seen (c ∷ cs) e = elim (Bool-cases (member (normalize_sql c.sql) seen)) [
    | inl old ↦ rw (verify_all, old) (verify_all-Verified seen cs e)
    | inr new ↦
        rw (verify_all, new)
          (
            record { candidate = c; before = e; result = refl },
            verify_all-Verified (normalize_sql c.sql ∷ seen) cs (verify fl v base c e).1,
          )
  ]

-- A recommended rewrite: the verification that made it, and its proof.
pub record Recommended {F E : Type 0} (fl : FloatOps F) (v : Verifier F E) (base : Baseline F)
    (b : Result F) : Type 0 where
  pub verified : Verified fl v base b
  pub proven : Proven fl v base verified.candidate verified.before

module _ {F E : Type 0} (fl : FloatOps F) (ordered : IsOrdered fl) (p : Parts F E)
    (o : Options F) where
  recommend :
      (base : Baseline F) (seen : List Bytes) (cs : List Candidate) (e : E) (b : Result F)
      → pick_best fl none (verify_all fl (verifier p o) base seen cs e).0 ≡ some b
      → Recommended fl (verifier p o) base b
  recommend base seen cs e b chosen =
      let best =
        pick_best-some fl ordered (verify_all fl (verifier p o) base seen cs e).0 b chosen in
      let made : Verified fl (verifier p o) base b =
        All-Memᴰ (Verified fl (verifier p o) base) _
          (verify_all-Verified fl (verifier p o) base seen cs e) best.0 in
      record {
        verified = made;
        proven =
            (verify-accepts-iff-Proven fl (verifier p o) base made.candidate made.before).0
              (ap (λ r. r.verdict) (sym made.result) ∙ accepted_of b.verdict best.1);
      }

  of_established :
      (st : Statement) (schema : Schema F) (r : Established F × E)
      (rep : Report F (IndexExperiment F)) (b : Result F)
      → (after_baseline fl p o st schema r).0 ≡ report rep
      → rep.best ≡ some b
      → Recommended fl (verifier p o) rep.baseline b
  unfolding after_baseline
  of_established st schema (failed why, e) rep b h q = absurd (cc)
  of_established st schema (established base, e) rep b h q =
      let cs = (gather fl p o st schema base (p.analyze st schema base.measured) e).0.0 in
      let e1 = (gather fl p o st schema base (p.analyze st schema base.measured) e).1 in
      subst (λ x. x.best ≡ some b → Recommended fl (verifier p o) x.baseline b)
        (ap (report_or rep) h) (recommend base (normalize_sql st.sql ∷ []) cs e1 b) q

  of_introspected :
      (st : Statement) (r : Outcome (Schema F) × E) (rep : Report F (IndexExperiment F))
      (b : Result F)
      → (after_introspect fl p o st r).0 ≡ report rep
      → rep.best ≡ some b
      → Recommended fl (verifier p o) rep.baseline b
  of_introspected st (fault t, e) rep b h q = absurd (cc)
  of_introspected st (done schema, e) rep b h q =
      of_established st schema (establish_baseline p.engine st o.runs e) rep b h q

  of_parsed :
      (r : Parsed Statement) (e : E) (rep : Report F (IndexExperiment F)) (b : Result F)
      → (after_parse fl p o r e).0 ≡ report rep
      → rep.best ≡ some b
      → Recommended fl (verifier p o) rep.baseline b
  of_parsed (refused why) e rep b h q = absurd (cc)
  of_parsed (parsed st) e rep b h q =
      of_introspected st (p.introspect (table_names st.tables) e) rep b h q

  -- Whatever the model proposes and whatever the rules write, the rewrite that a run recommends is
  -- the result of a verification against the run's own baseline, and is proven: read-only, of the
  -- original's shape, with the original's checksum, and faster beyond the threshold and the noise.
  pub run-recommends-only-proven :
      (sql : Bytes) (e : E) (rep : Report F (IndexExperiment F)) (b : Result F)
      → (run fl p o sql e).0 ≡ report rep
      → rep.best ≡ some b
      → Recommended fl (verifier p o) rep.baseline b
  unfolding run
  run-recommends-only-proven sql e rep b h q = of_parsed (p.parse sql) e rep b h q
