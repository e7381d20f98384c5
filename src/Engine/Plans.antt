-- ===== src/Engine/Plans.antt =====
-- internal/engine/postgres.go: what is read out of the JSON that EXPLAIN answers. json.Unmarshal is an
-- argument, and so are the formats: `fixed n` is fmt's %.nf and `shown` its %v. A field of a map is
-- its first one here, since a map has each key once.
pub mod Document
pub mod Walk
use queryforge.Prelude.{
  ℕ, zero, suc, ◌+◌, Bool, true, false, ◌&&◌, not, ◌++◌, Option, none, some, List, [], ◌∷◌, Bytes,
  codes, bytes_eq, contains, to_lower, is_empty, ◌||◌, ◌==◌, if◌then◌else◌,
}
use mathlib.Core.List.{reverse}
use queryforge.Prelude.Float.{FloatOps}
use queryforge.Engine.{Plan, Outcome, done, fault}

-- encoding/json's values in an `any`.
mutual
  pub data Json (F : Type 0) : Type 0 where
    null : Json F
    boolean : Bool → Json F
    number : F → Json F
    text : Bytes → Json F
    array : Items F → Json F
    object : Fields F → Json F

  pub data Items (F : Type 0) : Type 0 where
    nil : Items F
    cons : Json F → Items F → Items F

  pub data Fields (F : Type 0) : Type 0 where
    end : Fields F
    entry : Bytes → Json F → Fields F → Fields F

-- isTimeout, for an error with this text
unfoldable pub is_timeout : Bytes → Bool
unfolding contains to_lower
is_timeout message =
    contains (to_lower message) (codes "statement timeout")
    || contains (to_lower message) (codes "canceling statement due to")

module _ {F : Type 0} where
  -- m[key]
  unfoldable pub get : Bytes → Fields F → Option (Json F)
  unfolding bytes_eq
  get key end = none
  get key (entry k v fs) = elim (bytes_eq k key) [ true ↦ some v | false ↦ get key fs ]

  abbrev or_empty : Option (Json F) → Bytes
  or_empty (some (text s)) = s
  or_empty o = []

  -- m[key].(string)
  unfoldable pub text_field : Bytes → Fields F → Bytes
  unfolding get
  text_field key fs = or_empty (get key fs)

  abbrev pub node_type : Fields F → Bytes
  node_type fs = text_field (codes "Node Type") fs

  abbrev pub relation : Fields F → Bytes
  relation fs = text_field (codes "Relation Name") fs

  abbrev pub is_seq_scan : Fields F → Bool
  is_seq_scan fs = bytes_eq (node_type fs) (codes "Seq Scan") && not (is_empty (relation fs))

module _ {F : Type 0} (fl : FloatOps F) (fixed : ℕ → F → Bytes) (shown : Json F → Bytes) where
  -- toFloat
  unfoldable pub to_float : Json F → F
  to_float (number x) = x
  to_float v = fl.lit 0

  abbrev or_zero : Option (Json F) → F
  or_zero none = fl.lit 0
  or_zero (some v) = to_float v

  -- floatField
  unfoldable pub float_field : Bytes → Fields F → F
  unfolding get to_float
  float_field key fs = or_zero (get key fs)

  abbrev pub indent : ℕ → Bytes
  indent zero = []
  indent (suc n) = codes "  " ++ indent n

  abbrev after : Bytes → Bytes → Bytes
  after prefix s = if is_empty s then [] else prefix ++ s

  abbrev actuals : Fields F → Option (Json F) → Bytes
  actuals fs none = []
  actuals fs (some v) =
      codes " actual_rows="
      ++ (fixed 0 (to_float v)
          ++ (codes " loops="
              ++ (fixed 0 (float_field (codes "Actual Loops") fs)
                  ++ (codes " time="
                      ++ (fixed 3 (float_field (codes "Actual Total Time") fs) ++ codes "ms")))))

  abbrev condition : Bytes → Bytes → Option (Json F) → Bytes
  condition tab key none = []
  condition tab key (some v) =
      tab ++ (codes "     " ++ (key ++ (codes ": " ++ (shown v ++ codes "\n"))))

  abbrev conditions : Bytes → Fields F → List Bytes → Bytes
  conditions tab fs [] = []
  conditions tab fs (k ∷ ks) = condition tab k (get k fs) ++ conditions tab fs ks

  abbrev removed : Bytes → Option (Json F) → Bytes
  removed tab none = []
  removed tab (some v) =
      tab ++ (codes "     Rows Removed by Filter: " ++ (fixed 0 (to_float v) ++ codes "\n"))

  abbrev or_null : Option (Json F) → Json F
  or_null none = null
  or_null (some v) = v

  abbrev sort_space : Fields F → Option (Json F) → Bytes
  sort_space fs none = []
  sort_space fs (some v) =
      codes " ("
      ++ (fixed 0 (to_float v)
          ++ (codes " kB " ++ (shown (or_null (get (codes "Sort Space Type") fs)) ++ codes ")")))

  abbrev sort_method : Bytes → Fields F → Option (Json F) → Bytes
  sort_method tab fs none = []
  sort_method tab fs (some v) =
      tab
      ++ (codes "     Sort Method: "
          ++ (shown v ++ (sort_space fs (get (codes "Sort Space Used") fs) ++ codes "\n")))

  -- The lines that walkPlanNodes writes for a node.
  unfoldable pub node_text : ℕ → Fields F → Bytes
  unfolding get text_field float_field to_float
  node_text depth fs =
      let tab = indent depth in
      tab
      ++ (codes "-> "
          ++ (node_type fs
              ++ (after (codes " on ") (relation fs)
                  ++ (after (codes " using ") (text_field (codes "Index Name") fs)
                      ++ (codes "  (cost="
                          ++ (fixed 2 (float_field (codes "Startup Cost") fs)
                              ++ (codes ".."
                                  ++ (fixed 2 (float_field (codes "Total Cost") fs)
                                      ++ (codes " rows="
                                          ++ (fixed 0 (float_field (codes "Plan Rows") fs)
                                              ++ (actuals fs (get (codes "Actual Rows") fs)
                                                  ++ (codes ")\n"
                                                      ++ (conditions tab fs (
                                                            codes "Filter"
                                                            ∷ codes "Index Cond"
                                                            ∷ codes "Recheck Cond"
                                                            ∷ codes "Hash Cond"
                                                            ∷ codes "Join Filter"
                                                            ∷ codes "Sort Key"
                                                            ∷ [])
                                                          ++ (removed tab (
                                                            get (codes "Rows Removed by Filter") fs)
                                                            ++ sort_method tab fs (
                                                            get (codes "Sort Method")
                                                            fs)))))))))))))))

  -- What the walk has written and collected.
  pub record Walked : Type 0 where
    pub summary : Bytes
    pub node_types : List Bytes
    pub seq_scan_tables : List Bytes

  -- walkPlanNodes, at a node.
  abbrev pub visit : ℕ → Fields F → Walked → Walked
  visit depth fs w = record {
    summary = w.summary ++ node_text depth fs;
    node_types = w.node_types ++ node_type fs ∷ [];
    seq_scan_tables =
        if is_seq_scan fs then w.seq_scan_tables ++ relation fs ∷ [] else w.seq_scan_tables;
  }

  -- The loop of walkPlanNodes over the nodes under "Plans", each with the nodes under it.
  unfoldable mutual
    unfolding node_text bytes_eq text_field

    pub walk_plans : ℕ → Fields F → Walked → Walked
    walk_plans depth end w = w
    walk_plans depth (entry k v fs) w = elim (bytes_eq k (codes "Plans")) [
      | true ↦ walk_value depth v w
      | false ↦ walk_plans depth fs w
    ]

    pub walk_value : ℕ → Json F → Walked → Walked
    walk_value depth (array xs) w = walk_items depth xs w
    walk_value depth v w = w

    pub walk_items : ℕ → Items F → Walked → Walked
    walk_items depth nil w = w
    walk_items depth (cons v xs) w = walk_items depth xs (walk_child depth v w)

    pub walk_child : ℕ → Json F → Walked → Walked
    walk_child depth (object fs) w = walk_plans (suc depth) fs (visit (suc depth) fs w)
    walk_child depth v w = w

  -- walkPlanNodes
  unfoldable pub walk_node : ℕ → Fields F → Walked → Walked
  unfolding walk_plans
  walk_node depth fs w = walk_plans depth fs (visit depth fs w)
