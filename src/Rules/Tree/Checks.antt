-- ===== src/Rules/Tree/Checks.antt =====
-- internal/rules/rules.go: the rules that walk the parse tree of a statement or read its predicates.
use queryforge.Prelude.{
  true, ◌&&◌, ◌||◌, ◌++◌, Option, none, some, List, [], ◌∷◌, Bytes, codes, bytes_eq, is_empty,
  has_prefix, if◌then◌else◌,
}
use queryforge.Engine.{Schema}
use queryforge.Sql.{Statement}
use queryforge.Sql.Tree.{Node, a_expr, sub_link, Child, walk_tree}
use queryforge.Rules.{Finding, high, medium}
use queryforge.Rules.Missing.{Predicate, qualify}
use queryforge.Rules.Analysis.{TreeRules}
use queryforge.Rules.Tree.{operator_name, const_text, column_of_side}
use queryforge.Rules.Tree.Predicates.{extract_predicates}
use queryforge.Rules.Tree.Rewrite.{rewrite_date_equality, trim_quotes}

abbrev wrapper_of : Predicate → Bytes
wrapper_of p = if is_empty p.wrapped_by then codes "cast to " ++ p.cast_to else p.wrapped_by

abbrev or_no_rewrite : Option Bytes → Bytes
or_no_rewrite none = []
or_no_rewrite (some sql) = sql

-- The finding on a predicate whose column is wrapped.
unfoldable pub non_sargable :
    {F : Type 0}
    → (Bytes → Bytes → Bytes → Option Bytes)
    → Statement
    → Schema F
    → Predicate
    → Finding
unfolding qualify rewrite_date_equality
non_sargable replace_fold st schema p = record {
  code = codes "non-sargable-predicate";
  title =
      wrapper_of p
      ++ (codes "("
          ++ (qualify p.table p.column ++ codes ") in the filter prevents an index scan"));
  severity = high;
  table = p.table;
  columns = p.column ∷ [];
  evidence =
      codes "predicate: "
      ++ (wrapper_of p
          ++ (codes "("
              ++ (qualify p.table p.column
                  ++ (codes ") " ++ (p.operator ++ (codes " " ++ p.literal_text))))));
  rewrite = or_no_rewrite (rewrite_date_equality replace_fold st p schema);
  suggested_index = [];
}

-- checkSargability
unfoldable pub check_sargability :
    {F : Type 0}
    → (Bytes → Bytes → Bytes → Option Bytes)
    → Statement
    → Schema F
    → List Predicate
    → List Finding
unfolding non_sargable
check_sargability replace_fold st schema [] = []
check_sargability replace_fold st schema (p ∷ ps) =
    let rest = check_sargability replace_fold st schema ps in
    if is_empty p.wrapped_by && is_empty p.cast_to
    then rest
    else non_sargable replace_fold st schema p ∷ rest

abbrev leading_wildcard : Child → Bytes → Finding
leading_wildcard l lit = record {
  code = codes "leading-wildcard-like";
  title = codes "LIKE '" ++ (trim_quotes lit ++ codes "' cannot use a B-tree index");
  severity = high;
  table = (column_of_side l).table;
  columns = (column_of_side l).column ∷ [];
  evidence = qualify (column_of_side l).table (column_of_side l).column ++ (codes " LIKE " ++ lit);
  rewrite = [];
  suggested_index = [];
}

abbrev pub on_pattern : Child → Option Bytes → List Finding
on_pattern l none = []
on_pattern l (some lit) =
    if has_prefix (trim_quotes lit) (codes "%") then leading_wildcard l lit ∷ [] else []

-- The visitor of checkLeadingWildcard, for LIKE and ILIKE.
unfoldable pub like_findings : Node → List Finding
unfolding operator_name const_text column_of_side qualify trim_quotes has_prefix bytes_eq
like_findings (a_expr op l r) =
    if bytes_eq (operator_name op) (codes "~~") || bytes_eq (operator_name op) (codes "~~*")
    then on_pattern l (const_text r)
    else []
like_findings n = []

-- checkLeadingWildcard
unfoldable pub check_leading_wildcard : List Node → List Finding
unfolding like_findings
check_leading_wildcard [] = []
check_leading_wildcard (n ∷ ns) = like_findings n ++ check_leading_wildcard ns

abbrev not_in_finding : Finding
not_in_finding = record {
  code = codes "not-in-subquery";
  title = codes "NOT IN with a subquery is a NULL trap and often a slow plan";
  severity = medium;
  table = [];
  columns = [];
  evidence = [];
  rewrite = [];
  suggested_index = [];
}

-- checkNotIn
unfoldable pub check_not_in : List Node → List Finding
check_not_in [] = []
check_not_in (sub_link true test query ∷ ns) = not_in_finding ∷ check_not_in ns
check_not_in (n ∷ ns) = check_not_in ns

-- The rules of Analyze that need the tree of the statement.
unfoldable pub tree_rules :
    {F : Type 0} → (Bytes → Bytes → Bytes → Option Bytes) → List Node → TreeRules F
unfolding extract_predicates check_sargability check_leading_wildcard check_not_in walk_tree
tree_rules replace_fold tree = record {
  predicates = λ st. extract_predicates tree;
  findings = λ st schema ps.
      check_sargability replace_fold st schema ps
      ++ (check_leading_wildcard (walk_tree tree) ++ check_not_in (walk_tree tree));
}
