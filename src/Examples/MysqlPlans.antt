-- ===== src/Examples/MysqlPlans.antt =====
-- A MySQL plan of two tables in a nested loop, with its cost as the text that MySQL writes, and one
-- whose query block has a subquery beside its table.
use mathlib.Core.List.{Memᴰ}
use queryforge.Prelude.{equal_fold, ℕ, ◌≡◌, refl, [], ◌∷◌, All, Bytes, codes}
use queryforge.Prelude.Int.{ℤ, pos}
use queryforge.Prelude.Float.{thousandths}
use queryforge.Engine.{Outcome, done, Plan}
use queryforge.Engine.Plans.{text_field, Json, text, array, object, nil, cons, Fields, end, entry}
use queryforge.Engine.MysqlPlans.{parse_mysql_plan, query_block_of, table_of}
use queryforge.Engine.MysqlPlans.Drawn.{IsLabel, IsScanned, IsAmong, parse_mysql_plan-IsDrawn}
use queryforge.Engine.MysqlPlans.Listed.{first}
use queryforge.Engine.MysqlPlans.Reached.{IsReached, at_table, in_array, parse_mysql_plan-lists}

abbrev fixed : ℕ → ℤ → Bytes
fixed n x = []

abbrev shown : Json ℤ → Bytes
shown v = []

abbrev table_node : Bytes → Bytes → Json ℤ
table_node name access = object (
    entry (codes "table")
      (object
        (entry (codes "table_name") (text name) (entry (codes "access_type") (text access) end)))
      end)

abbrev joined : Fields ℤ
joined =
    entry (codes "query_block")
      (object (
        entry (codes "cost_info") (object (entry (codes "query_cost") (text (codes "9.5")) end)) (
          entry (codes "nested_loop")
            (array (
              cons (table_node (codes "orders") (codes "ALL"))
                (cons (table_node (codes "users") (codes "eq_ref")) nil)))
            end)))
      end

abbrev joined_plan : Plan ℤ
joined_plan = record {
  raw = codes "p";
  summary = codes "  ALL on orders (rows=)\n  eq_ref on users (rows=)";
  total_cost = pos 0;
  startup_cost = pos 0;
  estimated_rows = pos 0;
  node_types = codes "ALL" ∷ codes "eq_ref" ∷ [];
  seq_scan_tables = codes "orders" ∷ [];
}

joined_read :
    parse_mysql_plan thousandths fixed shown (λ raw. done joined) (codes "p") ≡ done joined_plan
unfolding parse_mysql_plan
joined_read = refl

parse_mysql_plan-IsDrawn_example :
    (root : Fields ℤ) × (◌≡◌ {A = Outcome (Fields ℤ)} (done joined) (done root))
    × All (IsLabel (IsAmong root)) joined_plan.node_types
    × All (IsScanned (IsAmong root)) joined_plan.seq_scan_tables
parse_mysql_plan-IsDrawn_example =
    parse_mysql_plan-IsDrawn thousandths fixed shown (λ raw. done joined) (codes "p")
      {p = joined_plan} joined_read

abbrev orders : Fields ℤ
orders =
    entry (codes "table_name") (text (codes "orders"))
      (entry (codes "access_type") (text (codes "ALL")) end)

orders-IsReached : IsReached orders (query_block_of joined)
unfolding query_block_of table_of
orders-IsReached =
    in_array (codes "nested_loop") refl (Memᴰ.tail (Memᴰ.tail (Memᴰ.tail (Memᴰ.head refl)))) refl
      (first _) (at_table refl)

parse_mysql_plan-lists_example :
    (p : Plan ℤ) × (parse_mysql_plan thousandths fixed shown (λ raw. done joined) (codes "p")
      ≡ done p)
    × Memᴰ (codes "ALL") p.node_types
    × Memᴰ (codes "orders") p.seq_scan_tables
unfolding equal_fold text_field
parse_mysql_plan-lists_example =
    parse_mysql_plan-lists thousandths fixed shown (λ raw. done joined) (codes "p") joined orders
      refl orders-IsReached refl

-- The table of the subquery is not listed.
abbrev beside : Fields ℤ
beside = entry (codes "table") (object (entry (codes "table_name") (text (codes "users")) end)) (
    entry (codes "optimized_away_subqueries")
      (array (cons (table_node (codes "orders") (codes "ALL")) nil)) end)

subquery_left_out :
    parse_mysql_plan thousandths fixed shown (λ raw. done beside) (codes "p")
    ≡ done (record {
      raw = codes "p";
      summary = codes "table on users (rows=)";
      total_cost = pos 0;
      startup_cost = pos 0;
      estimated_rows = pos 0;
      node_types = codes "table" ∷ [];
      seq_scan_tables = [];
    })
unfolding parse_mysql_plan
subquery_left_out = refl
