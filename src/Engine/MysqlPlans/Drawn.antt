-- ===== src/Engine/MysqlPlans/Drawn.antt =====
-- internal/engine/mysql.go: where the tables of a MySQL plan come from.
use mathlib.Core.List.{Memᴰ}
use queryforge.Prelude.{
  ℕ, ◌≡◌, refl, sym, subst, Bool, true, false, ◌++◌, List, [], ◌∷◌, Bytes, if◌then◌else◌, All,
  All-append, All-imp,
}
use queryforge.Prelude.Float.{FloatOps}
use queryforge.Engine.{Plan, Outcome, done, fault}
use queryforge.Engine.Plans.{Json, object, Fields}
use queryforge.Engine.MysqlPlans.{
  Place, item, under, MysqlWalked, label_of, table_name, is_full_scan, visit_table, visit_place,
  query_block_of, nothing_collected, mysql_plan_of, parse_mysql_plan,
}
use queryforge.Engine.MysqlPlans.Kept.{tables_in, plan-keeps}

module _ {F : Type 0} where
  -- A label that the plan lists is that of one of these tables.
  abbrev pub IsLabel : (Fields F → Type 0) → Bytes → Type 0
  IsLabel S label = (ti : Fields F) × S ti × (label_of ti ≡ label)

  -- A table that the plan lists as scanned is one of these tables, and has the access type ALL.
  abbrev pub IsScanned : (Fields F → Type 0) → Bytes → Type 0
  IsScanned S name = (ti : Fields F) × S ti × (is_full_scan ti ≡ true) × (table_name ti ≡ name)

All-self : {A : Type 0} (xs : List A) → All (λ x. Memᴰ x xs) xs
All-self [] = tt
All-self (x ∷ xs) = (
  Memᴰ.head refl,
  All-imp (λ y. Memᴰ y xs) (λ y. Memᴰ y (x ∷ xs)) xs (λ y m. Memᴰ.tail m) (All-self xs),
)

module _ {F : Type 0} (S : Fields F → Type 0) where
  scan_listed :
      (b : Bool) (ti : Fields F) (names : List Bytes)
      → is_full_scan ti ≡ b
      → S ti
      → All (IsScanned S) names
      → All (IsScanned S) (if b then names ++ table_name ti ∷ [] else names)
  scan_listed true ti names e s h =
      All-append (IsScanned S) names (table_name ti ∷ []) h ((ti, s, e, refl), tt)
  scan_listed false ti names e s h = h

  module _ (fl : FloatOps F) (fixed : ℕ → F → Bytes) (shown : Json F → Bytes) where
    abbrev pub IsDrawn : MysqlWalked fl fixed shown → Type 0
    IsDrawn w = All (IsLabel S) w.node_types × All (IsScanned S) w.seq_scan_tables

    visit_table-IsDrawn :
        (d : ℕ) (ti : Fields F) (w : MysqlWalked fl fixed shown)
        → S ti
        → IsDrawn w
        → IsDrawn (visit_table fl fixed shown d ti w)
    visit_table-IsDrawn d ti w s h = (
      All-append (IsLabel S) w.node_types (label_of ti ∷ []) h.0 ((ti, s, refl), tt),
      scan_listed (is_full_scan ti) ti w.seq_scan_tables refl s h.1,
    )

    visit_place-IsDrawn :
        (d : ℕ) (place : Place) (w : MysqlWalked fl fixed shown)
        → IsDrawn w
        → IsDrawn (visit_place fl fixed shown d place w)
    visit_place-IsDrawn d item w h = h
    visit_place-IsDrawn d (under key) w h = h

done_injective : {A : Type 0} (x y : A) → ◌≡◌ {A = Outcome A} (done x) (done y) → y ≡ x
done_injective x y h = cc

-- A table that a document has anywhere below its query block.
abbrev pub IsAmong : {F : Type 0} → Fields F → Fields F → Type 0
IsAmong root ti = Memᴰ ti (tables_in (object (query_block_of root)))

module _ {F : Type 0} (fl : FloatOps F) (fixed : ℕ → F → Bytes) (shown : Json F → Bytes) where
  of_document-IsDrawn :
      (raw : Bytes) (o : Outcome (Fields F)) {p : Plan F}
      → mysql_plan_of fl fixed shown raw o ≡ done p
      → (root : Fields F) × (o ≡ done root)
        × All (IsLabel (IsAmong root)) p.node_types
        × All (IsScanned (IsAmong root)) p.seq_scan_tables
  of_document-IsDrawn raw (fault e) h = absurd (cc)
  of_document-IsDrawn raw (done root) h =
      let block = query_block_of root in
      let e = done_injective _ _ h in
      let (l, s) =
        plan-keeps (IsAmong root) fl fixed shown (IsDrawn (IsAmong root) fl fixed shown)
          (visit_table-IsDrawn (IsAmong root) fl fixed shown)
          (visit_place-IsDrawn (IsAmong root) fl fixed shown) block 0
          (nothing_collected fl fixed shown) (All-self (tables_in (object block))) (tt, tt) in
      (
        root,
        refl,
        subst (λ (q : Plan F). All (IsLabel (IsAmong root)) q.node_types) (sym e) l,
        subst (λ (q : Plan F). All (IsScanned (IsAmong root)) q.seq_scan_tables) (sym e) s,
      )

  -- For a plan that parseMySQLPlan answers, each node type is the label of a table that the document
  -- has below its query block, and each table listed as scanned is the name of one with access type
  -- ALL.
  pub parse_mysql_plan-IsDrawn :
      (unmarshal : Bytes → Outcome (Fields F)) (raw : Bytes) {p : Plan F}
      → parse_mysql_plan fl fixed shown unmarshal raw ≡ done p
      → (root : Fields F) × (unmarshal raw ≡ done root)
        × All (IsLabel (IsAmong root)) p.node_types
        × All (IsScanned (IsAmong root)) p.seq_scan_tables
  unfolding parse_mysql_plan
  parse_mysql_plan-IsDrawn unmarshal raw {p} h = of_document-IsDrawn raw (unmarshal raw) {p = p} h
