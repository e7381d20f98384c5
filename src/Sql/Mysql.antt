-- ===== src/Sql/Mysql.antt =====
-- internal/sqlparse/mysql.go: ParseMySQL over the syntax tree of TiDB's parser, as far as the program
-- looks into it. `Accept` visits a node, then the nodes below it unless the visitor skips them.
pub mod Gate
use queryforge.Prelude.{
  ℕ, Bool, true, false, not, ◌&&◌, ◌||◌, ◌++◌, Option, none, some, List, [], ◌∷◌, Bytes, codes,
  bytes_eq, is_empty, keep, map, member, to_lower, trim_space, length, if◌then◌else◌,
}
use queryforge.Engine.{Outcome, done, fault}
use queryforge.Queue.{decimal}
use queryforge.Sql.{
  TableRef, Statement, mysql, ParseError, not_read_only, unparseable, Parsed, parsed, refused,
}
use queryforge.Sql.Parse.{read_only_text}

-- ast.SelectField: a wildcard, or a field with its alias and, for a bare column, that column's name.
pub data Field : Type 0 where
  wildcard : Field
  field : Bytes → Option Bytes → Field

-- What the visitors read of an ast.SelectStmt.
pub record SelectParts : Type 0 where
  pub locks : Bool
  pub writes_into : Bool
  pub limited : Bool
  pub ordered : Bool
  pub fields : List Field

-- A write is an INSERT, UPDATE, DELETE or LOAD DATA; it and any other node have the name of their type.
mutual
  pub data Ast : Type 0 where
    select_node : SelectParts → Asts → Ast
    set_opr : Asts → Ast
    write_node : Bytes → Asts → Ast
    with_clause : List Bytes → Asts → Ast
    named_source : Bytes → Bytes → Bytes → Ast
    derived_source : Asts → Ast
    table_name : Bytes → Bytes → Ast
    other_node : Bytes → Asts → Ast

  pub data Asts : Type 0 where
    nil : Asts
    cons : Ast → Asts → Asts

-- The nodes that a visitor which skips nothing enters; below a named source there is its table's name.
unfoldable mutual
  pub entered : Ast → List Ast
  entered (select_node s ns) = select_node s ns ∷ all_entered ns
  entered (set_opr ns) = set_opr ns ∷ all_entered ns
  entered (write_node t ns) = write_node t ns ∷ all_entered ns
  entered (with_clause names ns) = with_clause names ns ∷ all_entered ns
  entered (named_source schema name alias) =
      named_source schema name alias ∷ table_name schema name ∷ []
  entered (derived_source ns) = derived_source ns ∷ all_entered ns
  entered (table_name schema name) = table_name schema name ∷ []
  entered (other_node t ns) = other_node t ns ∷ all_entered ns

  pub all_entered : Asts → List Ast
  all_entered nil = []
  all_entered (cons n ns) = entered n ++ all_entered ns

-- Those that mysqlCollector enters, which skips the name below a named source.
unfoldable mutual
  pub collected : Ast → List Ast
  collected (select_node s ns) = select_node s ns ∷ all_collected ns
  collected (set_opr ns) = set_opr ns ∷ all_collected ns
  collected (write_node t ns) = write_node t ns ∷ all_collected ns
  collected (with_clause names ns) = with_clause names ns ∷ all_collected ns
  collected (named_source schema name alias) = named_source schema name alias ∷ []
  collected (derived_source ns) = derived_source ns ∷ all_collected ns
  collected (table_name schema name) = table_name schema name ∷ []
  collected (other_node t ns) = other_node t ns ∷ all_collected ns

  pub all_collected : Asts → List Ast
  all_collected nil = []
  all_collected (cons n ns) = collected n ++ all_collected ns

abbrev pub locking_text : Bytes
locking_text =
    read_only_text ++ codes ": locking clauses (FOR UPDATE / LOCK IN SHARE MODE) take row locks"

abbrev pub into_text : Bytes
into_text = read_only_text ++ codes ": SELECT ... INTO writes outside the result set"

-- mysqlGuard.Enter: the error of a node.
unfoldable pub guard : Ast → Option Bytes
guard (select_node s ns) =
    if s.locks then some locking_text else if s.writes_into then some into_text else none
guard (write_node t ns) = some (read_only_text ++ codes ": statement contains a " ++ t)
guard n = none

-- rejectMySQLWriteForms: the first error; no node is entered after it.
unfoldable pub first_error : List Ast → Option Bytes
unfolding guard
first_error [] = none
first_error (n ∷ ns) = elim (guard n) [ none ↦ first_error ns | some why ↦ some why ]

-- mysqlColumnName
unfoldable pub mysql_column_name : Field → Bytes
mysql_column_name wildcard = []
mysql_column_name (field alias none) = alias
mysql_column_name (field alias (some name)) = if is_empty alias then name else alias

abbrev is_wildcard : Field → Bool
is_wildcard wildcard = true
is_wildcard (field alias name) = false

abbrev any_wildcard : List Field → Bool
any_wildcard [] = false
any_wildcard (f ∷ fs) = is_wildcard f || any_wildcard fs

abbrev no_select : SelectParts
no_select = record {
  locks = false;
  writes_into = false;
  limited = false;
  ordered = false;
  fields = [];
}

-- The first SELECT that is entered, which sets `seenTop`.
unfoldable pub top_select : List Ast → SelectParts
top_select [] = no_select
top_select (select_node s ns ∷ rest) = s
top_select (n ∷ rest) = top_select rest

-- c.tables
unfoldable pub mysql_tables : List Ast → List TableRef
mysql_tables [] = []
mysql_tables (named_source schema name alias ∷ ns) =
    record { schema = schema; name = name; alias = alias } ∷ mysql_tables ns
mysql_tables (table_name schema name ∷ ns) =
    record { schema = schema; name = name; alias = [] } ∷ mysql_tables ns
mysql_tables (n ∷ ns) = mysql_tables ns

-- c.cteNames
unfoldable pub mysql_ctes : List Ast → List Bytes
mysql_ctes [] = []
mysql_ctes (with_clause names below ∷ ns) = names ++ mysql_ctes ns
mysql_ctes (n ∷ ns) = mysql_ctes ns

abbrev pub bare_key : TableRef → Bytes
bare_key t = to_lower (t.schema ++ (codes "." ++ t.name))

abbrev pub full_key : TableRef → Bytes
full_key t = to_lower (t.schema ++ (codes "." ++ (t.name ++ (0 ∷ t.alias))))

-- dedupeTables; the keys of `seen` and those of its "aliased" entries, which no other key is like,
-- since a key has a dot in front of the zero byte.
unfoldable pub dedupe_tables : List Bytes → List Bytes → List TableRef → List TableRef
unfolding member to_lower
dedupe_tables seen aliased [] = []
dedupe_tables seen aliased (t ∷ ts) = elim (member (full_key t) seen) [
  | true ↦ dedupe_tables seen aliased ts
  | false ↦ elim (is_empty t.alias) [
    | true ↦ elim (member (bare_key t) aliased) [
      | true ↦ dedupe_tables seen aliased ts
      | false ↦ t ∷ dedupe_tables (full_key t ∷ seen) aliased ts
    ]
    | false ↦ t ∷ dedupe_tables (full_key t ∷ seen) (bare_key t ∷ aliased) ts
  ]
]

abbrev pub is_table : List Bytes → TableRef → Bool
is_table ctes t = not (is_empty t.schema && member (to_lower t.name) (map to_lower ctes))

-- filterCTEs
unfoldable pub filter_ctes : List TableRef → List Bytes → List TableRef
unfolding dedupe_tables
filter_ctes tables ctes = dedupe_tables [] [] (keep (is_table ctes) tables)

-- parser.Parse with its warnings, and parser.NormalizeDigest.
pub record TidbParser : Type 0 where
  pub parse : Bytes → Outcome (List Ast × List Bytes)
  pub normalize : Bytes → Bytes
  pub digest : Bytes → Bytes

module _ (p : TidbParser) where
  abbrev pub mysql_statement : Bytes → Ast → Statement
  mysql_statement sql root =
      let ns = collected root in
      record {
        sql = sql;
        dialect = mysql;
        normalized = p.normalize sql;
        fingerprint = p.digest sql;
        tables = filter_ctes (mysql_tables ns) (mysql_ctes ns);
        cte_names = mysql_ctes ns;
        output_cols = map mysql_column_name (top_select ns).fields;
        has_limit = (top_select ns).limited;
        has_order_by = (top_select ns).ordered;
        select_star = any_wildcard (top_select ns).fields;
      }

  -- The end of ParseMySQL, for a SELECT or a set operation.
  abbrev pub guarded : Bytes → Ast → Option Bytes → Parsed Statement
  guarded sql root (some why) = refused (not_read_only why)
  guarded sql root none = parsed (mysql_statement sql root)

  -- The name of a node's type, for the two that have none of their own.
  abbrev type_text : Ast → Bytes
  type_text (write_node t ns) = t
  type_text (other_node t ns) = t
  type_text n = codes "ast.Node"

  abbrev pub mysql_root : Bytes → Ast → Parsed Statement
  mysql_root sql (select_node s ns) =
      guarded sql (select_node s ns) (first_error (entered (select_node s ns)))
  mysql_root sql (set_opr ns) = guarded sql (set_opr ns) (first_error (entered (set_opr ns)))
  mysql_root sql n =
      refused
        (not_read_only (read_only_text ++ codes " (statement type: " ++ type_text n ++ codes ")"))

  abbrev pub mysql_statements : Bytes → List Ast → List Bytes → Parsed Statement
  mysql_statements sql (n ∷ []) [] = mysql_root sql n
  mysql_statements sql (n ∷ []) (w ∷ ws) =
      refused (unparseable (codes "parse produced warnings, refusing: " ++ w))
  mysql_statements sql ns ws =
      refused
        (unparseable (codes "exactly one statement is required: found " ++ decimal (length ns)))

  abbrev pub mysql_tree : Bytes → Outcome (List Ast × List Bytes) → Parsed Statement
  mysql_tree sql (fault e) = refused (unparseable (codes "parse: " ++ e))
  mysql_tree sql (done (ns, ws)) = mysql_statements sql ns ws

  -- ParseMySQL
  unfoldable pub parse_mysql : Bytes → Parsed Statement
  unfolding entered first_error collected mysql_tables mysql_ctes filter_ctes top_select
      mysql_column_name decimal
  parse_mysql sql =
      if is_empty (trim_space sql)
      then refused (unparseable (codes "empty statement"))
      else mysql_tree (trim_space sql) (p.parse (trim_space sql))
