-- ===== src/Sql/Parse.antt =====
-- internal/sqlparse/sqlparse.go: Parse, which accepts one SELECT that does not write. libpg_query is
-- an argument.
pub mod Gate
use queryforge.Prelude.{
  ℕ, bytes_eq, ◌||◌, quoted, Bool, true, false, not, Option, none, some, List, [], ◌∷◌, ◌++◌, Bytes,
  codes, trim_space, is_empty, length, if◌then◌else◌,
}
use queryforge.Engine.{Outcome, done, fault}
use queryforge.Queue.{decimal}
use queryforge.Sql.{
  postgres, Statement, ParseError, not_read_only, unparseable, Parsed, parsed, refused,
}
use queryforge.Sql.Tree.{
  Node, select_stmt, common_table_expr, Child, absent, present, Nodes, nil, cons, Select, select,
  node_kind,
}
use queryforge.Sql.Outputs.{output_columns, has_select_star}
use queryforge.Sql.Tables.{cte_names, collect_tables}

-- pg.Parse with the statements of its tree, pg.Normalize and pg.Fingerprint.
pub record PgQuery : Type 0 where
  pub parse : Bytes → Outcome (List Node)
  pub normalize : Bytes → Outcome Bytes
  pub fingerprint : Bytes → Outcome Bytes

abbrev pub read_only_text : Bytes
read_only_text = codes "only read-only SELECT statements can be optimized"

-- rejectDataModifyingCTEs, with the text of its error.
unfoldable mutual
  unfolding node_kind

  pub reject_data_modifying_ctes : Select → Option Bytes
  reject_data_modifying_ctes (select set_op l r ctes targets into locking limit sort more) =
      reject_ctes ctes

  pub reject_ctes : Nodes → Option Bytes
  reject_ctes nil = none
  reject_ctes (cons n ns) = elim (reject_cte n) [ none ↦ reject_ctes ns | some why ↦ some why ]

  pub reject_cte : Node → Option Bytes
  reject_cte (common_table_expr name q) = reject_query name q
  reject_cte n = none

  pub reject_query : Bytes → Child → Option Bytes
  reject_query name absent = none
  reject_query name (present (select_stmt s)) = reject_data_modifying_ctes s
  reject_query name (present n) =
      some (read_only_text ++ codes ": CTE " ++ quoted name ++ codes " contains a " ++ node_kind n)

abbrev pub has_into : Select → Bool
has_into (select set_op l r ctes targets into locking limit sort more) = into

abbrev any_node : Nodes → Bool
any_node nil = false
any_node (cons n ns) = true

abbrev pub has_locking : Select → Bool
has_locking (select set_op l r ctes targets into locking limit sort more) = any_node locking

abbrev is_present : Child → Bool
is_present absent = false
is_present (present n) = true

abbrev pub limited : Select → Bool
limited (select set_op l r ctes targets into locking limit sort more) = is_present limit

abbrev pub sorted : Select → Bool
sorted (select set_op l r ctes targets into locking limit sort more) = any_node sort

abbrev or_text : Bytes → Outcome Bytes → Bytes
or_text d (done t) = t
or_text d (fault e) = d

module _ (pg : PgQuery) where
  -- The statement of a SELECT that has passed.
  abbrev pub statement_of_select : Bytes → Select → Statement
  statement_of_select sql s = record {
    sql = sql;
    dialect = postgres;
    normalized = or_text sql (pg.normalize sql);
    fingerprint = or_text [] (pg.fingerprint sql);
    tables = collect_tables (select_stmt s) (cte_names s);
    cte_names = cte_names s;
    output_cols = output_columns s;
    has_limit = limited s;
    has_order_by = sorted s;
    select_star = has_select_star s;
  }

  -- The checks of a SELECT that is the only statement.
  unfoldable pub check_select : Bytes → Select → Option Bytes → Parsed (Statement × List Node)
  check_select sql s (some why) = refused (not_read_only why)
  check_select sql s none =
      if has_into s
      then refused (not_read_only (read_only_text ++ codes ": SELECT INTO creates a table"))
      else if has_locking s
      then refused (
          not_read_only
            (read_only_text ++ codes ": locking clauses (FOR UPDATE/SHARE) take row locks"))
      else parsed (statement_of_select sql s, select_stmt s ∷ [])

  abbrev pub check_node : Bytes → Node → Parsed (Statement × List Node)
  check_node sql (select_stmt s) = check_select sql s (reject_data_modifying_ctes s)
  check_node sql n =
      refused
        (not_read_only (read_only_text ++ codes " (statement type: " ++ node_kind n ++ codes ")"))

  abbrev pub check_statements : Bytes → List Node → Parsed (Statement × List Node)
  check_statements sql (n ∷ []) = check_node sql n
  check_statements sql ns =
      refused
        (unparseable (codes "exactly one statement is required: found " ++ decimal (length ns)))

  abbrev pub check_tree : Bytes → Outcome (List Node) → Parsed (Statement × List Node)
  check_tree sql (fault e) = refused (unparseable (codes "parse: " ++ e))
  check_tree sql (done ns) = check_statements sql ns

  -- Parse: the statement and the nodes of its tree.
  unfoldable pub parse : Bytes → Parsed (Statement × List Node)
  unfolding check_select node_kind reject_data_modifying_ctes decimal
  parse sql =
      if is_empty (trim_space sql)
      then refused (unparseable (codes "empty statement"))
      else check_tree (trim_space sql) (pg.parse (trim_space sql))

  -- ParseDialect, by the name of the dialect, where the parser of MySQL is an argument.
  unfoldable pub parse_dialect :
      (Bytes → Parsed (Statement × List Node)) → Bytes → Bytes → Parsed (Statement × List Node)
  unfolding parse bytes_eq
  parse_dialect parse_mysql d sql =
      if bytes_eq d (codes "mysql")
      then parse_mysql sql
      else if bytes_eq d (codes "postgres") || is_empty d
      then parse sql
      else refused (unparseable (codes "unknown dialect " ++ quoted d))
