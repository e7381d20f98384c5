-- ===== src/Examples/Trees.antt =====
-- SELECT o.id FROM orders o JOIN c ON c.k = o.id WHERE DATE(o.at) = '1', with a CTE c.
use mathlib.Core.List.{Memᴰ}
use queryforge.Prelude.{
  any_of, inl, member, ◌≡◌, ◌↔◌, refl, ◌⊎◌, true, false, none, some, [], ◌∷◌, ◌++◌, List, All,
  Bytes, codes, bytes_eq, to_lower, trim_space, map,
}
use queryforge.Prelude.Float.{thousandths}
use queryforge.Prelude.Sort.{IsSorted, Apart}
use queryforge.Prelude.Once.{same_key, IsListed}
use queryforge.Engine.{done, fault}
use queryforge.Sql.{TableRef, Statement, parsed, refused, not_read_only}
use queryforge.Sql.Tree.{
  Node, select_stmt, node_kind, statement, common_table_expr, res_target, range_var, column_ref,
  text, a_expr, func_call, a_const, Child, absent, present, Nodes, nil, cons, Select, select,
  no_branch, branch, text_literal, delete_stmt, walk, walk_tree,
}
use queryforge.Sql.Parse.{
  PgQuery, parse, statement_of_select, read_only_text, check_select, reject_data_modifying_ctes,
}
use queryforge.Sql.Parse.Gate.{IsReadOnly, parse_iff}
use queryforge.Sql.Tables.{collect_tables, by_name, ref_key}
use queryforge.Sql.Tables.Exact.{refers, IsRef, collect_tables_exact, collect_tables-misses-none}
use queryforge.Rules.Tree.{SideInfo, analyse_side, operator_name, const_text}
use queryforge.Rules.Missing.{Predicate}
use queryforge.Rules.Missing.Warranted.{Warranted}
use queryforge.Rules.Analysis.{predicates_of, analyze}
use queryforge.Rules.Analysis.Findings.{Unsuggested}
use queryforge.Rules.Tree.Predicates.{predicate_key, extract_predicates}
use queryforge.Rules.Tree.Predicates.Meaning.{comparison, left_only}
use queryforge.Rules.Tree.Predicates.Exact.{
  IsComparison, extract_predicates_exact, extract_predicates-misses-none,
}
use queryforge.Rules.Tree.Checks.{tree_rules}
use queryforge.Rules.Tree.Warranted.{analyze_tree-Warranted}
use queryforge.Examples.Data.{original, statement_of, timing}
use queryforge.Examples.Rules.{fixed, schema}

abbrev column : Bytes → Bytes → Child
column t c = present (column_ref (cons (text t) (cons (text c) nil)))

abbrev equals : Nodes
equals = cons (text (codes "=")) nil

-- A SELECT from one table.
abbrev simple : Nodes → Nodes → Nodes → Select
simple ctes targets more = select false no_branch no_branch ctes targets false nil absent nil more

abbrev cte : Select
cte =
    simple nil (cons (res_target [] (column (codes "p") (codes "k"))) nil)
      (cons (range_var [] (codes "parts") (some (codes "p"))) nil)

abbrev dated : Node
dated =
    a_expr equals
      (present (
        func_call (cons (text (codes "date")) nil)
          (cons (column_ref (cons (text (codes "o")) (cons (text (codes "at")) nil))) nil) nil))
      (present (a_const (text_literal (codes "1"))))

abbrev query : Select
query =
    simple (cons (common_table_expr (codes "C") (present (select_stmt cte))) nil)
      (cons (res_target [] (column (codes "o") (codes "id"))) nil)
      (cons (range_var [] (codes "orders") (some (codes "o"))) (
        cons (range_var [] (codes "c") none) (
          cons (a_expr equals (column (codes "c") (codes "k")) (column (codes "o") (codes "id")))
            (cons dated nil))))

abbrev pg : PgQuery
pg = record {
  parse = λ sql. done (select_stmt query ∷ []);
  normalize = λ sql. done sql;
  fingerprint = λ sql. fault (codes "none");
}

abbrev answer : Statement × List Node
answer = (statement_of_select pg (trim_space (codes " q")) query, select_stmt query ∷ [])

parse_iff_example : (parse pg (codes " q") ≡ parsed answer) ↔ (
    (s : Select) × IsReadOnly pg (codes " q") s
    × (answer ≡ (statement_of_select pg (trim_space (codes " q")) s, select_stmt s ∷ [])))
parse_iff_example = parse_iff pg (codes " q") answer

-- A DELETE in a CTE is refused, and an INTO in a branch of a set operation is not noticed.
abbrev deleting : PgQuery
deleting = record pg {
  parse = λ sql. done (
      select_stmt (
        simple (cons (common_table_expr (codes "d") (present (statement delete_stmt nil))) nil) nil
          nil)
      ∷ []);
}

deleting_refused :
    parse deleting (codes "q")
    ≡ refused (not_read_only (read_only_text ++ codes ": CTE \"d\" contains a DeleteStmt"))
unfolding parse check_select reject_data_modifying_ctes node_kind trim_space
deleting_refused = refl

abbrev union : Select
union =
    select true (branch (select false no_branch no_branch nil nil true nil absent nil nil))
      (branch (simple nil nil nil)) nil nil false nil absent nil nil

abbrev uniting : PgQuery
uniting = record pg { parse = λ sql. done (select_stmt union ∷ []) }

into_in_branch :
    parse uniting (codes "q")
    ≡ parsed (statement_of_select uniting (codes "q") union, select_stmt union ∷ [])
unfolding parse check_select reject_data_modifying_ctes node_kind trim_space
into_in_branch = refl

collect_tables_exact_example :
    let ts = collect_tables (select_stmt query) (codes "c" ∷ []) in
    IsSorted by_name ts
    × Apart (same_key ref_key) ts
    × All (IsRef (codes "c" ∷ []) (walk (select_stmt query))) ts
collect_tables_exact_example = collect_tables_exact (select_stmt query) (codes "c" ∷ [])

extract_predicates_exact_example :
    let ps = extract_predicates (select_stmt query ∷ []) in
    Apart (same_key predicate_key) ps × All (IsComparison (walk_tree (select_stmt query ∷ []))) ps
extract_predicates_exact_example = extract_predicates_exact (select_stmt query ∷ [])

abbrev orders_ref : TableRef
orders_ref = record { schema = []; name = codes "orders"; alias = codes "o" }

collect_tables-misses-none_example :
    any_of (same_key ref_key orders_ref) (collect_tables (select_stmt query) (codes "c" ∷ []))
    ≡ true
unfolding walk bytes_eq member to_lower
collect_tables-misses-none_example =
    collect_tables-misses-none (select_stmt query)
      (range_var [] (codes "orders") (some (codes "o"))) (codes "c" ∷ []) orders_ref
      (Memᴰ.tail (Memᴰ.tail (Memᴰ.tail (Memᴰ.tail (Memᴰ.tail (Memᴰ.head refl))))))
      (refers [] (codes "orders") (some (codes "o")) orders_ref (inl refl) refl refl refl)

abbrev on_date : Predicate
on_date = record {
  table = codes "o";
  qualifier_as_written = [];
  column = codes "at";
  operator = codes "=";
  wrapped_by = codes "date";
  cast_to = [];
  literal_text = codes "'1'";
  is_join = false;
  other_table = [];
  other_col = [];
}

abbrev dated_side : SideInfo
dated_side = record {
  ref = record { table = codes "o"; column = codes "at" };
  wrapper = codes "date";
  cast_to = [];
}

extract_predicates-misses-none_example :
    IsListed predicate_key (extract_predicates (select_stmt query ∷ [])) on_date
unfolding walk_tree walk analyse_side operator_name const_text
extract_predicates-misses-none_example =
    extract_predicates-misses-none (select_stmt query ∷ []) dated on_date
      (Memᴰ.tail (
        Memᴰ.tail (
          Memᴰ.tail (
            Memᴰ.tail (
              Memᴰ.tail (
                Memᴰ.tail (
                  Memᴰ.tail (
                    Memᴰ.tail (
                      Memᴰ.tail (
                        Memᴰ.tail (
                          Memᴰ.tail (
                            Memᴰ.tail
                              (Memᴰ.tail (Memᴰ.tail (Memᴰ.tail (Memᴰ.head refl))))))))))))))))
      (comparison equals {p = on_date} (Memᴰ.head refl) (
        left_only {a = dated_side} refl refl (record {
          of_table = refl;
          of_column = refl;
          by_operator = refl;
          in_wrapper = refl;
          under_cast = refl;
          with_text = refl;
        })))
      refl

-- Three predicates: both sides of the join, and the date.
predicates_found :
    map (λ (p : Predicate). p.column) (extract_predicates (select_stmt query ∷ []))
    ≡ codes "k" ∷ codes "id" ∷ codes "at" ∷ []
unfolding extract_predicates
predicates_found = refl

analyze_tree-Warranted_example :
    let rules = tree_rules (λ s old new. none) (select_stmt query ∷ []) in
    All
      (λ f.
        Unsuggested f
        ⊎ Warranted thousandths
            (fixed 0)
            schema
            (predicates_of thousandths fixed rules (statement_of original) schema)
            f)
      (analyze thousandths fixed rules (statement_of original) schema (timing 100 5))
analyze_tree-Warranted_example =
    analyze_tree-Warranted thousandths fixed (λ s old new. none) (select_stmt query ∷ [])
      (statement_of original) schema (timing 100 5)
