-- ===== src/Optimizer/Pipeline/Backing.antt =====
-- What the index recommendations of a whole run rest on.
use queryforge.Prelude.{
  ◌≤◌, length, ◌≡◌, subst, ap, List, [], ◌∷◌, Bytes, All, Bool-cases, inl, inr, arith,
}
use queryforge.Prelude.Float.{FloatOps}
use queryforge.Engine.{Outcome, done, fault, Schema}
use queryforge.Sql.{Statement, Parsed, parsed, refused}
use queryforge.Rules.{Finding}
use queryforge.Optimizer.{
  Baseline, Established, established, failed, normalize_sql, establish_baseline,
}
use queryforge.Optimizer.Indexes.{IndexExperiment}
use queryforge.Optimizer.Indexes.Backed.{IsBacked, experiments-are-IsBacked}
use queryforge.Optimizer.Pipeline.{
  verifier, laboratory, index_experiments, verify_all, Parts, Options, Report, report, table_names,
  gather, after_baseline, after_introspect, after_parse, run,
}
use queryforge.Optimizer.Pipeline.Recommend.{report_or}

module _ {F E : Type 0} (fl : FloatOps F) (p : Parts F E) (o : Options F) where
  -- The experiments of a report: each is backed by the report's baseline, and they are within the
  -- budget.
  abbrev pub AreBacked : Baseline F → List (IndexExperiment F) → Type 0
  AreBacked base xs = All (IsBacked fl (laboratory p o) base) xs × (length xs ≤ o.max_index_tests)

  index_experiments-AreBacked :
      (base : Baseline F) (fs : List Finding) (e : E)
      → AreBacked base (index_experiments fl p o base fs e).0
  index_experiments-AreBacked base fs e = elim (Bool-cases o.test_indexes) [
    | inl t ↦ rw t (experiments-are-IsBacked fl (laboratory p o) base o.max_index_tests fs e)
    | inr f ↦ rw f (tt, omega arith)
  ]

  of_established :
      (st : Statement) (schema : Schema F) (r : Established F × E)
      (rep : Report F (IndexExperiment F))
      → (after_baseline fl p o st schema r).0 ≡ report rep
      → AreBacked rep.baseline rep.indexes
  unfolding after_baseline
  of_established st schema (failed why, e) rep h = absurd (cc)
  of_established st schema (established base, e) rep h =
      let fs = p.analyze st schema base.measured in
      let ((cs, used), e1) = gather fl p o st schema base fs e in
      let seen = normalize_sql st.sql ∷ [] in
      subst (λ x. AreBacked x.baseline x.indexes) (ap (report_or rep) h)
        (index_experiments-AreBacked base fs (verify_all fl (verifier p o) base seen cs e1).1)

  of_introspected :
      (st : Statement) (r : Outcome (Schema F) × E) (rep : Report F (IndexExperiment F))
      → (after_introspect fl p o st r).0 ≡ report rep
      → AreBacked rep.baseline rep.indexes
  of_introspected st (fault t, e) rep h = absurd (cc)
  of_introspected st (done schema, e) rep h =
      of_established st schema (establish_baseline p.engine st o.runs e) rep h

  of_parsed :
      (r : Parsed Statement) (e : E) (rep : Report F (IndexExperiment F))
      → (after_parse fl p o r e).0 ≡ report rep
      → AreBacked rep.baseline rep.indexes
  of_parsed (refused why) e rep h = absurd (cc)
  of_parsed (parsed st) e rep h = of_introspected st (p.introspect (table_names st.tables) e) rep h

  -- Whatever indexes the rules suggest, a report has at most as many index experiments as the
  -- options allow, and each is backed against the report's own baseline: it is not recommended, or it
  -- was measured in time on Postgres with the index in place, and its gain is not below the threshold.
  pub run-recommends-only-backed :
      (sql : Bytes) (e : E) (rep : Report F (IndexExperiment F))
      → (run fl p o sql e).0 ≡ report rep
      → AreBacked rep.baseline rep.indexes
  unfolding run
  run-recommends-only-backed sql e rep h = of_parsed (p.parse sql) e rep h
