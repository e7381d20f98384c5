-- ===== src/Examples/Plans.antt =====
-- A plan with a sequential scan under a sort, and index definitions.
use queryforge.Prelude.{ℕ, ◌≡◌, refl, some, [], ◌∷◌, List, Bytes, codes, bytes_eq}
use queryforge.Prelude.Int.{ℤ}
use queryforge.Prelude.Float.{thousandths}
use queryforge.Engine.{Outcome, done}
use queryforge.Engine.Plans.{
  Json, text, array, object, nil, cons, Fields, end, entry, get, walk_node,
}
use queryforge.Engine.Plans.Document.{parse_plan, plan_of}
use queryforge.Engine.Plans.Walk.{types_of, scans_of, nodes_of, parse_plan-Collects}
use queryforge.Engine.IndexColumns.{index_columns}

abbrev fixed : ℕ → ℤ → Bytes
fixed n x = []

abbrev shown : Json ℤ → Bytes
shown v = []

abbrev scan_node : Fields ℤ
scan_node =
    entry (codes "Node Type") (text (codes "Seq Scan"))
      (entry (codes "Relation Name") (text (codes "orders")) end)

abbrev sort_node : Fields ℤ
sort_node =
    entry (codes "Node Type") (text (codes "Sort"))
      (entry (codes "Plans") (array (cons (object scan_node) nil)) end)

abbrev unmarshal : Bytes → Outcome (List (Fields ℤ))
unmarshal raw = done (entry (codes "Plan") (object sort_node) end ∷ [])

parse_plan-Collects_example :
    (doc : Fields ℤ) × (docs : List (Fields ℤ)) × (root : Fields ℤ) × (unmarshal (codes "p")
      ≡ done (doc ∷ docs))
    × (get (codes "Plan") doc ≡ some (object root))
    × ((plan_of thousandths fixed shown (codes "p") sort_node).node_types
        ≡ types_of (nodes_of root))
    × ((plan_of thousandths fixed shown (codes "p") sort_node).seq_scan_tables
        ≡ scans_of (nodes_of root))
unfolding parse_plan bytes_eq
parse_plan-Collects_example =
    parse_plan-Collects thousandths fixed shown unmarshal (codes "p")
      {p = plan_of thousandths fixed shown (codes "p") sort_node} refl

scanned_tables :
    (plan_of thousandths fixed shown (codes "p") sort_node).seq_scan_tables ≡ codes "orders" ∷ []
unfolding walk_node
scanned_tables = refl

-- An expression keeps its comma; an order with NULLS LAST leaves a DESC behind.
columns_read :
    index_columns (codes "CREATE INDEX i ON t USING btree (lower(a, b) DESC, c)")
    ≡ codes "lower(a, b)" ∷ codes "c" ∷ []
unfolding index_columns
columns_read = refl

order_left : index_columns (codes "ON t (a DESC NULLS LAST)") ≡ codes "a DESC" ∷ []
unfolding index_columns
order_left = refl
