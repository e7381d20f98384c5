-- ===== src/Rules/Tree/Warranted.antt =====
-- internal/rules/rules.go: Analyze with the rules that walk the tree filled in.
use queryforge.Prelude.{
  ℕ, refl, ◌⊎◌, inl, inr, ◌||◌, Bool, true, false, Option, none, some, List, [], ◌∷◌, Bytes, All,
  All-append, bytes_eq, codes, has_prefix, is_empty, ◌&&◌, Bool-cases, if◌then◌else◌,
}
use queryforge.Prelude.Float.{FloatOps}
use queryforge.Engine.{Measurement, Schema}
use queryforge.Sql.{Statement}
use queryforge.Sql.Tree.{Node, a_expr, sub_link, Child, walk_tree}
use queryforge.Rules.{Finding}
use queryforge.Rules.Missing.{Predicate}
use queryforge.Rules.Missing.Warranted.{Warranted}
use queryforge.Rules.Analysis.{analyze, predicates_of, tree_findings, tree_rules_run}
use queryforge.Rules.Analysis.Findings.{Unsuggested, analyze-Warranted}
use queryforge.Rules.Tree.{const_text, operator_name}
use queryforge.Rules.Tree.Rewrite.{trim_quotes}
use queryforge.Rules.Tree.Checks.{
  check_sargability, on_pattern, like_findings, check_leading_wildcard, check_not_in, tree_rules,
}

sargability-Unsuggested :
    {F : Type 0} (replace_fold : Bytes → Bytes → Bytes → Option Bytes) (st : Statement)
    (schema : Schema F) (ps : List Predicate)
    → All Unsuggested (check_sargability replace_fold st schema ps)
unfolding check_sargability
sargability-Unsuggested replace_fold st schema [] = tt
sargability-Unsuggested replace_fold st schema (p ∷ ps) =
    let rest = sargability-Unsuggested replace_fold st schema ps in
    elim (Bool-cases (is_empty p.wrapped_by && is_empty p.cast_to)) [
      | inl t ↦ rw t rest
      | inr t ↦ rw t (refl, rest)
    ]

pattern-Unsuggested : (l : Child) (o : Option Bytes) → All Unsuggested (on_pattern l o)
pattern-Unsuggested l none = tt
pattern-Unsuggested l (some lit) = elim (Bool-cases (has_prefix (trim_quotes lit) (codes "%"))) [
  | inl t ↦ rw t (refl, tt)
  | inr t ↦ rw t tt
]

like-Unsuggested : (n : Node) → All Unsuggested (like_findings n)
unfolding like_findings
like-Unsuggested (a_expr op l r) =
    elim (Bool-cases
      (bytes_eq (operator_name op) (codes "~~") || bytes_eq (operator_name op) (codes "~~*"))) [
        | inl t ↦ rw t (pattern-Unsuggested l (const_text r))
        | inr t ↦ rw t tt
      ]
like-Unsuggested n = tt

wildcard-Unsuggested : (ns : List Node) → All Unsuggested (check_leading_wildcard ns)
unfolding check_leading_wildcard
wildcard-Unsuggested [] = tt
wildcard-Unsuggested (n ∷ ns) =
    All-append Unsuggested _ _ (like-Unsuggested n) (wildcard-Unsuggested ns)

not_in-Unsuggested : (ns : List Node) → All Unsuggested (check_not_in ns)
unfolding check_not_in
not_in-Unsuggested [] = tt
not_in-Unsuggested (sub_link true test query ∷ ns) = (refl, not_in-Unsuggested ns)
not_in-Unsuggested (n ∷ ns) = not_in-Unsuggested ns

rules-Unsuggested :
    {F : Type 0} (replace_fold : Bytes → Bytes → Bytes → Option Bytes) (tree : List Node)
    (st : Statement) (schema : Schema F) (ps : List Predicate)
    → All Unsuggested ((tree_rules replace_fold tree).findings st schema ps)
unfolding tree_rules
rules-Unsuggested replace_fold tree st schema ps =
    All-append Unsuggested _ _ (sargability-Unsuggested replace_fold st schema ps) (
      All-append Unsuggested _ _ (wildcard-Unsuggested (walk_tree tree))
        (not_in-Unsuggested (walk_tree tree)))

when-Unsuggested :
    (b : Bool) (fs : List Finding) → All Unsuggested fs → All Unsuggested (if b then fs else [])
when-Unsuggested true fs h = h
when-Unsuggested false fs h = tt

module _ {F : Type 0} (fl : FloatOps F) (fixed : ℕ → F → Bytes)
    (replace_fold : Bytes → Bytes → Bytes → Option Bytes) where
  tree_findings-Unsuggested :
      (tree : List Node) (st : Statement) (schema : Schema F)
      → All Unsuggested (tree_findings fl fixed (tree_rules replace_fold tree) st schema)
  tree_findings-Unsuggested tree st schema =
      when-Unsuggested (tree_rules_run fl fixed st.dialect) _ (
        rules-Unsuggested replace_fold tree st schema
          (predicates_of fl fixed (tree_rules replace_fold tree) st schema))

  -- Every index that Analyze suggests for a statement, the rules on its parse tree included, is
  -- warranted by one of the predicates extracted from that tree.
  pub analyze_tree-Warranted :
      (tree : List Node) (st : Statement) (schema : Schema F) (m : Measurement F)
      → All
          (λ f.
            Unsuggested f
            ⊎ Warranted fl
                (fixed 0)
                schema
                (predicates_of fl fixed (tree_rules replace_fold tree) st schema)
                f)
          (analyze fl fixed (tree_rules replace_fold tree) st schema m)
  analyze_tree-Warranted tree st schema m =
      analyze-Warranted fl fixed (tree_rules replace_fold tree) st schema m
        (tree_findings-Unsuggested tree st schema)
