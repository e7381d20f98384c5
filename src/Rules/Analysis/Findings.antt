-- ===== src/Rules/Analysis/Findings.antt =====
-- The order of the findings, and which of them suggest an index.
use mathlib.Core.List.{Perm}
use queryforge.Prelude.{
  ℕ, ◌≡◌, refl, sym, subst, ◌⊎◌, inl, Bool, true, false, Option, none, some, List, [], ◌∷◌, Bytes,
  is_empty, ltb, All, All-append, All-imp, ◌&&◌, not, if◌then◌else◌, arith,
}
use queryforge.Prelude.Float.{FloatOps}
use queryforge.Prelude.Sort.{IsSorted, sort_stable-IsSorted, sort_stable-perm, All-sort_stable}
use queryforge.Engine.{Plan, Measurement, Schema}
use queryforge.Sql.{Statement, mysql}
use queryforge.Rules.{Finding}
use queryforge.Rules.Names.{resolve_tables}
use queryforge.Rules.Missing.{missing_loop, check_missing_indexes}
use queryforge.Rules.Missing.Warranted.{Warranted, check_missing_indexes-Warranted}
use queryforge.Rules.Analysis.{
  TreeRules, check_select_star, check_limit_without_order, check_seq_scans, check_estimate,
  check_spill, check_plan, tree_rules_run, tree_findings, predicates_of, collect, more_severe,
  analyze,
}

-- A finding that suggests no index.
abbrev pub Unsuggested : Finding → Type 0
Unsuggested f = is_empty f.suggested_index ≡ true

when-Unsuggested :
    (b : Bool) (f : Finding) → Unsuggested f → All Unsuggested (if b then f ∷ [] else [])
when-Unsuggested true f h = (h, tt)
when-Unsuggested false f h = tt

star-Unsuggested : (st : Statement) → All Unsuggested (check_select_star st)
unfolding check_select_star
star-Unsuggested st = when-Unsuggested st.select_star _ refl

limit-Unsuggested : (st : Statement) → All Unsuggested (check_limit_without_order st)
unfolding check_limit_without_order
limit-Unsuggested st = when-Unsuggested (st.has_limit && not st.has_order_by) _ refl

module _ {F : Type 0} (fl : FloatOps F) (fixed : ℕ → F → Bytes) where
  scans-Unsuggested :
      (m : Measurement F) (schema : Schema F) (names : List Bytes)
      → All Unsuggested (check_seq_scans fl fixed m schema names)
  unfolding check_seq_scans
  scans-Unsuggested m schema [] = tt
  scans-Unsuggested m schema (name ∷ names) = ground (arith, scans-Unsuggested m schema names)

  estimate-Unsuggested :
      (p : Plan F) (actual : F) → All Unsuggested (check_estimate fl fixed p actual)
  unfolding check_estimate
  estimate-Unsuggested p actual = when-Unsuggested _ _ refl

  spill-Unsuggested : (n : ℕ) → All Unsuggested (check_spill fl fixed n)
  unfolding check_spill
  spill-Unsuggested n = when-Unsuggested (ltb 0 n) _ refl

  plan-Unsuggested :
      (m : Measurement F) (schema : Schema F) (o : Option (Plan F))
      → All Unsuggested (check_plan fl fixed m schema o)
  unfolding check_plan
  plan-Unsuggested m schema none = tt
  plan-Unsuggested m schema (some p) =
      All-append Unsuggested (check_seq_scans fl fixed m schema p.seq_scan_tables) _
        (scans-Unsuggested m schema p.seq_scan_tables)
        (All-append Unsuggested (check_estimate fl fixed p m.actual_rows) _
          (estimate-Unsuggested p m.actual_rows) (spill-Unsuggested m.temp_written))

  -- What holds of the findings of the tree rules and of checkMissingIndexes, and of every finding
  -- without an index, holds of all findings.
  collect-All :
      (P : Finding → Type 0) (rules : TreeRules F) (st : Statement) (schema : Schema F)
      (m : Measurement F)
      → ((f : Finding) → Unsuggested f → P f)
      → All P (tree_findings fl fixed rules st schema)
      → All P (check_missing_indexes fl (fixed 0) schema (predicates_of fl fixed rules st schema))
      → All P (collect fl fixed rules st schema m)
  unfolding collect
  collect-All P rules st schema m free tree missing = All-append P _ _ tree (
      All-append P _ _ (All-imp Unsuggested P _ free (star-Unsuggested st)) (
        All-append P _ _ (All-imp Unsuggested P _ free (limit-Unsuggested st)) (
          All-append P _ _ missing
            (All-imp Unsuggested P _ free (plan-Unsuggested m schema m.plan)))))

  -- Analyze answers the findings that its rules add, each as often as it was added, and no finding
  -- stands behind a less severe one.
  analyze-orders :
      (rules : TreeRules F) (st : Statement) (schema : Schema F) (m : Measurement F)
      → IsSorted (more_severe fl fixed) (analyze fl fixed rules st schema m)
        × Perm (analyze fl fixed rules st schema m) (collect fl fixed rules st schema m)
  unfolding analyze
  analyze-orders rules st schema m = (
    sort_stable-IsSorted (more_severe fl fixed) (λ a b h. ground arith) (λ a b c h k. ground arith)
        (collect fl fixed rules st schema m),
    sort_stable-perm (more_severe fl fixed) (collect fl fixed rules st schema m),
  )

  -- If the rules that walk the tree suggest no index, then every index that Analyze suggests is
  -- warranted by a predicate of the statement.
  pub analyze-Warranted :
      (rules : TreeRules F) (st : Statement) (schema : Schema F) (m : Measurement F)
      → All Unsuggested (tree_findings fl fixed rules st schema)
      → All
          (λ f.
            Unsuggested f
            ⊎ Warranted fl (fixed 0) schema (predicates_of fl fixed rules st schema) f)
          (analyze fl fixed rules st schema m)
  unfolding analyze
  analyze-Warranted rules st schema m tree =
      let P : Finding → Type 0 = λ f.
        Unsuggested f ⊎ Warranted fl (fixed 0) schema (predicates_of fl fixed rules st schema) f in
      All-sort_stable (more_severe fl fixed) P (collect fl fixed rules st schema m) (
        collect-All P rules st schema m (λ f h. inl h) (All-imp Unsuggested P _ (λ f h. inl h) tree)
          (check_missing_indexes-Warranted fl (fixed 0) schema
            (predicates_of fl fixed rules st schema)))

  -- On a MySQL statement Analyze suggests no index at all, whatever the schema and the measurement
  -- are: the rule for missing indexes reads the predicates, and there are none.
  analyze-suggests-nothing-on-mysql :
      (rules : TreeRules F) (st : Statement) (schema : Schema F) (m : Measurement F)
      → st.dialect ≡ mysql
      → All Unsuggested (analyze fl fixed rules st schema m)
  unfolding analyze check_missing_indexes missing_loop
  analyze-suggests-nothing-on-mysql rules st schema m on =
      let ps = predicates_of fl fixed rules st schema in
      All-sort_stable (more_severe fl fixed) Unsuggested (collect fl fixed rules st schema m) (
        collect-All Unsuggested rules st schema m (λ f h. h)
          (subst
            (λ d.
              All Unsuggested
                (if tree_rules_run fl fixed d then rules.findings st schema ps else []))
            (sym on) tt)
          (subst
            (λ d. All Unsuggested (
              check_missing_indexes fl (fixed 0) schema (
                if tree_rules_run fl fixed d
                then resolve_tables schema st (rules.predicates st)
                else [])))
            (sym on) tt))
