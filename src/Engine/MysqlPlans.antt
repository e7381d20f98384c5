-- ===== src/Engine/MysqlPlans.antt =====
-- internal/engine/mysql.go: parseMySQLPlan and its walk, with the parameters of Engine/Plans.
pub mod Kept
pub mod Drawn
pub mod Listed
pub mod Reached
use queryforge.Prelude.{
  ℕ, suc, Bool, true, false, ◌&&◌, ◌||◌, not, ◌++◌, Option, none, some, List, [], ◌∷◌, Bytes, codes,
  bytes_eq, is_empty, equal_fold, if◌then◌else◌,
}
use queryforge.Prelude.Float.{FloatOps}
use queryforge.Engine.{Plan, Outcome, done, fault}
use queryforge.Engine.Plans.{
  Json, array, object, Items, nil, cons, Fields, end, entry, get, text_field, float_field, indent,
}
use queryforge.Engine.Plans.Document.{trim_newlines}

-- mysqlPlanChildKeys
abbrev pub mysql_plan_child_keys : List Bytes
mysql_plan_child_keys =
    codes "ordering_operation"
    ∷ codes "grouping_operation"
    ∷ codes "duplicates_removal"
    ∷ codes "nested_loop"
    ∷ codes "materialized_from_subquery"
    ∷ codes "attached_subqueries"
    ∷ codes "optimized_away_subqueries"
    ∷ codes "union_result"
    ∷ codes "query_specifications"
    ∷ codes "query_block"
    ∷ codes "table"
    ∷ []

-- Where a value stands: under one of these keys, or in an array or as the table of a node, where no
-- line is written for it.
pub data Place : Type 0 where
  item : Place
  under : Bytes → Place

abbrev pub is_item : Place → Bool
is_item item = true
is_item (under key) = false

-- The test on the key of a child that is an object.
unfoldable pub is_passed_over : Place → Bool
unfolding bytes_eq
is_passed_over item = false
is_passed_over (under key) = bytes_eq key (codes "cost_info") || bytes_eq key (codes "table")

-- The loop over the keys.
abbrev pub each : {A : Type 0} → (Bytes → A → A) → List Bytes → A → A
each f [] a = a
each f (k ∷ ks) a = each f ks (f k a)

module _ {F : Type 0} where
  abbrev or_self : Fields F → Option (Fields F) → Fields F
  or_self fs none = fs
  or_self fs (some gs) = gs

  -- v.(map[string]any)
  abbrev pub fields_of : Option (Json F) → Option (Fields F)
  fields_of (some (object fs)) = some fs
  fields_of v = none

  -- node["table"].(map[string]any)
  unfoldable pub table_of : Fields F → Option (Fields F)
  unfolding get
  table_of fs = fields_of (get (codes "table") fs)

  abbrev pub label_of : Fields F → Bytes
  label_of ti =
      let access = text_field (codes "access_type") ti in
      if is_empty access then codes "table" else access

  abbrev pub table_name : Fields F → Bytes
  table_name ti = text_field (codes "table_name") ti

  abbrev pub is_full_scan : Fields F → Bool
  is_full_scan ti =
      equal_fold (text_field (codes "access_type") ti) (codes "ALL")
      && not (is_empty (table_name ti))

  -- root["query_block"], or the root where it is no object
  unfoldable pub query_block_of : Fields F → Fields F
  unfolding get
  query_block_of root = or_self root (fields_of (get (codes "query_block") root))

module _ {F : Type 0} (fl : FloatOps F) (fixed : ℕ → F → Bytes) (shown : Json F → Bytes) where
  -- What the walk has written and collected.
  pub record MysqlWalked : Type 0 where
    pub summary : Bytes
    pub estimated_rows : F
    pub node_types : List Bytes
    pub seq_scan_tables : List Bytes

  abbrev rows_of_table : Fields F → F
  rows_of_table ti =
      let rows = float_field fl fixed shown (codes "rows_examined_per_scan") ti in
      if fl.le rows (fl.lit 0) && fl.le (fl.lit 0) rows
      then float_field fl fixed shown (codes "rows_produced_per_join") ti
      else rows

  abbrev table_text : ℕ → Fields F → Bytes
  table_text depth ti =
      let key = text_field (codes "key") ti in
      indent fl fixed shown depth
      ++ (label_of ti
          ++ (codes " on "
              ++ (table_name ti
                  ++ ((if is_empty key then [] else codes " using " ++ key)
                      ++ (codes " (rows=" ++ (fixed 0 (rows_of_table ti) ++ codes ")\n"))))))

  -- walkMySQLPlan, at a table.
  abbrev pub visit_table : ℕ → Fields F → MysqlWalked → MysqlWalked
  visit_table depth ti w = record {
    summary = w.summary ++ table_text depth ti;
    estimated_rows = fl.add w.estimated_rows (rows_of_table ti);
    node_types = w.node_types ++ label_of ti ∷ [];
    seq_scan_tables =
        if is_full_scan ti then w.seq_scan_tables ++ table_name ti ∷ [] else w.seq_scan_tables;
  }

  -- The line of a child that is an object.
  abbrev pub visit_place : ℕ → Place → MysqlWalked → MysqlWalked
  visit_place depth item w = w
  visit_place depth (under key) w = record {
    summary = w.summary ++ (indent fl fixed shown depth ++ (key ++ codes "\n"));
    estimated_rows = w.estimated_rows;
    node_types = w.node_types;
    seq_scan_tables = w.seq_scan_tables;
  }

  unfoldable mutual
    unfolding bytes_eq is_passed_over table_of text_field float_field equal_fold

    -- What walkMySQLPlan does with a value at this place, and with the nodes under it.
    pub walk_value : Json F → Place → ℕ → MysqlWalked → MysqlWalked
    walk_value (object fs) place depth w =
        let w' = visit_place depth place w in
        elim (is_passed_over place) [
          | true ↦ w
          | false ↦ elim (table_of fs) [
            | some ti ↦ walk_table fs (suc depth) (visit_table (suc depth) ti w')
            | none ↦ each (λ key u. walk_key fs key (suc depth) u) mysql_plan_child_keys w'
          ]
        ]
    walk_value (array xs) place depth w = elim (is_item place) [
      | true ↦ w
      | false ↦ walk_array xs depth w
    ]
    walk_value v place depth w = w

    pub walk_array : Items F → ℕ → MysqlWalked → MysqlWalked
    walk_array nil depth w = w
    walk_array (cons v xs) depth w = walk_array xs depth (walk_value v item depth w)

    -- node["table"], which is an object
    pub walk_table : Fields F → ℕ → MysqlWalked → MysqlWalked
    walk_table end depth w = w
    walk_table (entry k v fs) depth w = elim (bytes_eq k (codes "table")) [
      | true ↦ walk_value v item depth w
      | false ↦ walk_table fs depth w
    ]

    -- node[key]
    pub walk_key : Fields F → Bytes → ℕ → MysqlWalked → MysqlWalked
    walk_key end key depth w = w
    walk_key (entry k v fs) key depth w = elim (bytes_eq k key) [
      | true ↦ walk_value v (under key) depth w
      | false ↦ walk_key fs key depth w
    ]

  -- walkMySQLPlan: a node with a table is left for the table, else its keys are gone through.
  unfoldable pub walk_mysql_plan : Fields F → ℕ → MysqlWalked → MysqlWalked
  unfolding table_of walk_value text_field float_field equal_fold
  walk_mysql_plan node depth w = elim (table_of node) [
    | some ti ↦ walk_table node depth (visit_table depth ti w)
    | none ↦ each (λ key u. walk_key node key depth u) mysql_plan_child_keys w
  ]

  abbrev cost_of : Option (Fields F) → F
  cost_of (some info) = float_field fl fixed shown (codes "query_cost") info
  cost_of none = fl.lit 0

  abbrev pub nothing_collected : MysqlWalked
  nothing_collected = record {
    summary = [];
    estimated_rows = fl.lit 0;
    node_types = [];
    seq_scan_tables = [];
  }

  abbrev pub mysql_plan_of : Bytes → Outcome (Fields F) → Outcome (Plan F)
  mysql_plan_of raw (fault e) = fault (codes "parse plan: " ++ e)
  mysql_plan_of raw (done root) =
      let block = query_block_of root in
      let w = walk_mysql_plan block 0 nothing_collected in
      done (record {
        raw = raw;
        summary = trim_newlines fl fixed shown w.summary;
        total_cost = cost_of (fields_of (get (codes "cost_info") block));
        startup_cost = fl.lit 0;
        estimated_rows = w.estimated_rows;
        node_types = w.node_types;
        seq_scan_tables = w.seq_scan_tables;
      })

  -- parseMySQLPlan
  unfoldable pub parse_mysql_plan : (Bytes → Outcome (Fields F)) → Bytes → Outcome (Plan F)
  unfolding get query_block_of walk_mysql_plan float_field
  parse_mysql_plan unmarshal raw = mysql_plan_of raw (unmarshal raw)
