-- ===== src/Rules/Analysis.antt =====
-- internal/rules/rules.go, Analyze: the rules that read the statement, the schema and the plan, and
-- the order of the findings. The rules that walk a parse tree are an argument.
pub mod Findings
use queryforge.Prelude.{
  ℕ, Bool, true, false, not, ◌&&◌, ◌||◌, ◌++◌, ◌*◌, ◌/◌, Option, none, some, List, [], ◌∷◌, Bytes,
  codes, ltb, leb, if◌then◌else◌,
}
use queryforge.Prelude.Float.{FloatOps}
use queryforge.Prelude.Sort.{sort_stable}
use queryforge.Engine.{Plan, Measurement, Schema, Table, table}
use queryforge.Sql.{Statement, Dialect, postgres, mysql}
use queryforge.Queue.{decimal}
use queryforge.Rules.{Severity, high, medium, Finding, severity_rank}
use queryforge.Rules.Names.{resolve_tables}
use queryforge.Rules.Missing.{Predicate, check_missing_indexes}

-- A finding that has no columns, no rewrite and no index.
abbrev plain : Bytes → Severity → Bytes → Bytes → Bytes → Finding
plain code severity name title evidence = record {
  code = code;
  title = title;
  severity = severity;
  table = name;
  columns = [];
  evidence = evidence;
  rewrite = [];
  suggested_index = [];
}

-- checkSelectStar
unfoldable pub check_select_star : Statement → List Finding
check_select_star st =
    if st.select_star
    then plain (codes "select-star") medium [] (codes "SELECT * reads every column") [] ∷ []
    else []

-- checkLimitWithoutOrder
unfoldable pub check_limit_without_order : Statement → List Finding
check_limit_without_order st =
    if st.has_limit && not st.has_order_by
    then plain (codes "limit-without-order-by") medium []
        (codes "LIMIT without ORDER BY returns an arbitrary subset") []
      ∷ []
    else []

-- The functions that walk a tree of libpg_query: extractPredicates, and the findings of
-- checkSargability, checkLeadingWildcard and checkNotIn, which read the predicates.
pub record TreeRules (F : Type 0) : Type 0 where
  pub predicates : Statement → List Predicate
  pub findings : Statement → Schema F → List Predicate → List Finding

-- `fixed n` is fmt's %.nf.
module _ {F : Type 0} (fl : FloatOps F) (fixed : ℕ → F → Bytes) where
  -- humanCount
  unfoldable pub human_count : ℕ → Bytes
  unfolding decimal
  human_count n =
      if leb 1000000 n
      then fixed 1 (fl.div (fl.lit n) (fl.lit 1000000)) ++ codes "M"
      else if leb 1000 n
      then fixed 0 (fl.div (fl.lit n) (fl.lit 1000)) ++ codes "k"
      else decimal n

  -- maxf
  unfoldable pub maxf : F → F → F
  maxf a b = if fl.lt b a then a else b

  abbrev rows_of : Option (Table F) → ℕ
  rows_of none = 0
  rows_of (some t) = t.row_estimate

  abbrev seq_scan : Measurement F → Bytes → ℕ → Finding
  seq_scan m name rows =
      plain (codes "seq-scan-large-table") high name
        (codes "Sequential scan on " ++ name ++ codes " (~" ++ human_count rows ++ codes " rows)")
        (codes "execution time "
          ++ fixed 1 m.median_ms
          ++ codes "ms, "
          ++ decimal m.shared_read
          ++ codes " blocks read from disk, "
          ++ decimal m.shared_hit
          ++ codes " from cache")

  -- The tables that the plan reads as a whole.
  unfoldable pub check_seq_scans : Measurement F → Schema F → List Bytes → List Finding
  unfolding human_count
  check_seq_scans m schema [] = []
  check_seq_scans m schema (name ∷ names) =
      let rest = check_seq_scans m schema names in
      let rows = rows_of (table schema name) in
      if ltb rows 50000 then rest else seq_scan m name rows ∷ rest

  -- The planner's estimate against the rows that came; 0.1 is 1 / 10.
  unfoldable pub check_estimate : Plan F → F → List Finding
  unfolding maxf
  check_estimate plan actual =
      let ratio = fl.div actual plan.estimated_rows in
      if fl.lt (fl.lit 0) plan.estimated_rows
        && fl.lt (fl.lit 0) actual
        && (fl.lt (fl.lit 10) ratio || fl.lt ratio (fl.div (fl.lit 1) (fl.lit 10)))
      then plain (codes "row-estimate-off") medium []
          (codes "Planner estimate is off by "
            ++ fixed 0 (maxf ratio (fl.div (fl.lit 1) ratio))
            ++ codes "x")
          (codes "estimated "
            ++ fixed 0 plan.estimated_rows
            ++ codes " rows, actual "
            ++ fixed 0 actual
            ++ codes " rows")
        ∷ []
      else []

  unfoldable pub check_spill : ℕ → List Finding
  check_spill n =
      if ltb 0 n
      then plain (codes "sort-spilled-to-disk") medium [] (codes "A sort or hash spilled to disk")
          (decimal n ++ codes " temp blocks written (~" ++ decimal (n * 8 / 1024) ++ codes " MB)")
        ∷ []
      else []

  -- checkPlan, for a schema that is there.
  unfoldable pub check_plan : Measurement F → Schema F → Option (Plan F) → List Finding
  unfolding check_seq_scans check_estimate check_spill
  check_plan m schema none = []
  check_plan m schema (some plan) =
      check_seq_scans m schema plan.seq_scan_tables
      ++ (check_estimate plan m.actual_rows ++ check_spill m.temp_written)

  abbrev pub tree_rules_run : Dialect → Bool
  tree_rules_run postgres = true
  tree_rules_run mysql = false

  -- a.Predicates, and the findings of the rules that walk a tree.
  abbrev pub predicates_of : TreeRules F → Statement → Schema F → List Predicate
  predicates_of rules st schema =
      if tree_rules_run st.dialect then resolve_tables schema st (rules.predicates st) else []

  abbrev pub tree_findings : TreeRules F → Statement → Schema F → List Finding
  tree_findings rules st schema =
      if tree_rules_run st.dialect
      then rules.findings st schema (predicates_of rules st schema)
      else []

  -- The findings in the order in which the rules add them.
  unfoldable pub collect : TreeRules F → Statement → Schema F → Measurement F → List Finding
  unfolding check_select_star check_limit_without_order check_plan
  collect rules st schema m =
      tree_findings rules st schema
      ++ (check_select_star st
          ++ (check_limit_without_order st
              ++ (check_missing_indexes fl (fixed 0) schema (predicates_of rules st schema)
                  ++ check_plan m schema m.plan)))

  abbrev pub more_severe : Finding → Finding → Bool
  more_severe a b = ltb (severity_rank a.severity) (severity_rank b.severity)

  -- Analyze, for a statement, a schema and a measurement that are there.
  unfoldable pub analyze : TreeRules F → Statement → Schema F → Measurement F → List Finding
  unfolding collect
  analyze rules st schema m = sort_stable more_severe (collect rules st schema m)
