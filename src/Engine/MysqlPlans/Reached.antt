-- ===== src/Engine/MysqlPlans/Reached.antt =====
-- internal/engine/mysql.go: which tables of a MySQL plan the walk comes to.
use mathlib.Core.List.{Memᴰ}
use queryforge.Prelude.{
  ℕ, suc, ◌≡◌, refl, sym, ap, subst, ◌∙◌, true, false, Option, none, some, Bytes, codes,
}
use queryforge.Prelude.Float.{FloatOps}
use queryforge.Engine.{Plan, Outcome, done}
use queryforge.Engine.Plans.{Json, array, object, Items, Fields, get}
use queryforge.Engine.MysqlPlans.{
  mysql_plan_child_keys, item, under, is_passed_over, table_of, MysqlWalked, label_of, table_name,
  is_full_scan, visit_table, visit_place, walk_value, walk_table, walk_key, walk_mysql_plan,
  query_block_of, nothing_collected, mysql_plan_of, parse_mysql_plan,
}
use queryforge.Engine.MysqlPlans.Listed.{
  IsItem, IsListed, some_injective, each-comes, item-comes, key-stays, walk_key-get, table-stays,
  visited, walk_table-get, of_table_of, walk_value-object,
}

module _ {F : Type 0} where
  -- The tables under a node: that of the node and those under it, or, without one, those under the
  -- objects at the node's plan keys, which cost_info and table are not, or in the arrays there.
  pub data IsReached (ti : Fields F) : Fields F → Type 0 where
    at_table : {node : Fields F} → table_of node ≡ some ti → IsReached ti node
    in_table : {node t : Fields F} → table_of node ≡ some t → IsReached ti t → IsReached ti node
    at_key :
        {node m : Fields F} (key : Bytes)
        → table_of node ≡ none
        → Memᴰ key mysql_plan_child_keys
        → is_passed_over (under key) ≡ false
        → get key node ≡ some (object m)
        → IsReached ti m
        → IsReached ti node
    in_array :
        {node m : Fields F} {xs : Items F} (key : Bytes)
        → table_of node ≡ none
        → Memᴰ key mysql_plan_child_keys
        → get key node ≡ some (array xs)
        → IsItem m xs
        → IsReached ti m
        → IsReached ti node

on_some :
    {A B : Type 0} (o : Option A) (f : A → B) (y : B) (a : A)
    → o ≡ some a
    → elim o [ some x ↦ f x | none ↦ y ] ≡ f a
on_some (some x) f y a e = ap f (some_injective x a e)
on_some none f y a e = absurd (cc)

on_none :
    {A B : Type 0} (o : Option A) (f : A → B) (y : B)
    → o ≡ none
    → elim o [ some x ↦ f x | none ↦ y ] ≡ y
on_none (some x) f y e = absurd (cc)
on_none none f y e = refl

module _ {F : Type 0} (fl : FloatOps F) (fixed : ℕ → F → Bytes) (shown : Json F → Bytes)
    (ti : Fields F) where
  at_keys :
      (node : Fields F) (d : ℕ) (w : MysqlWalked fl fixed shown) (key : Bytes) {v : Json F}
      → table_of node ≡ none
      → Memᴰ key mysql_plan_child_keys
      → get key node ≡ some v
      → ((u : MysqlWalked fl fixed shown)
          → IsListed fl fixed shown ti (walk_value fl fixed shown v (under key) d u))
      → IsListed fl fixed shown ti (walk_mysql_plan fl fixed shown node d w)
  unfolding walk_mysql_plan
  at_keys node d w key e m g come =
      subst (IsListed fl fixed shown ti) (sym (on_none (table_of node) _ _ e)) (
        each-comes fl fixed shown ti (λ k u. walk_key fl fixed shown node k d u)
          mysql_plan_child_keys key w (λ k u h. key-stays fl fixed shown ti node k d u h)
          (λ u.
            subst (IsListed fl fixed shown ti) (sym (walk_key-get fl fixed shown ti node key d u g))
              (come u))
          m)

  through_table :
      (node t : Fields F) (d : ℕ) (w : MysqlWalked fl fixed shown)
      → table_of node ≡ some t
      → (IsListed fl fixed shown ti)
          (walk_table fl fixed shown node d (visit_table fl fixed shown d t w))
      → IsListed fl fixed shown ti (walk_mysql_plan fl fixed shown node d w)
  unfolding walk_mysql_plan
  through_table node t d w e h =
      subst (IsListed fl fixed shown ti) (sym (on_some (table_of node) _ _ t e)) h

  comes :
      {node : Fields F}
      → IsReached ti node
      → (d : ℕ) (w : MysqlWalked fl fixed shown)
      → IsListed fl fixed shown ti (walk_mysql_plan fl fixed shown node d w)
  unfolding table_of is_passed_over walk_value
  comes {node} (at_table e) d w = through_table node ti d w e (
      table-stays fl fixed shown ti node d (visit_table fl fixed shown d ti w)
        (visited fl fixed shown ti d w))
  comes {node} (in_table {t = t} e r) d w =
      let u = visit_table fl fixed shown d t w in
      through_table node t d w e (
        subst (IsListed fl fixed shown ti)
          (sym (
            walk_table-get fl fixed shown ti node d u
              (of_table_of fl fixed shown ti (get (codes "table") node) e)
            ∙ walk_value-object fl fixed shown ti t item d u refl))
          (comes r (suc d) u))
  comes {node} (at_key {m = m} key e k p g r) d w = at_keys node d w key e k g (λ u.
      subst (IsListed fl fixed shown ti)
        (sym (walk_value-object fl fixed shown ti m (under key) d u p))
        (comes r (suc d) (visit_place fl fixed shown d (under key) u)))
  comes {node} (in_array {m = m} {xs = xs} key e k g i r) d w = at_keys node d w key e k g (λ u.
      item-comes fl fixed shown ti m xs d u
        (λ x.
          subst (IsListed fl fixed shown ti)
            (sym (walk_value-object fl fixed shown ti m item d x refl)) (comes r (suc d) x))
        i)

module _ {F : Type 0} (fl : FloatOps F) (fixed : ℕ → F → Bytes) (shown : Json F → Bytes) where
  -- parseMySQLPlan answers a plan for every document that is decoded, and misses no full scan that its
  -- walk is to reach: a reached table with access type ALL has its label among the node types and its
  -- name among the tables that are scanned.
  pub parse_mysql_plan-lists :
      (unmarshal : Bytes → Outcome (Fields F)) (raw : Bytes) (root ti : Fields F)
      → unmarshal raw ≡ done root
      → IsReached ti (query_block_of root)
      → is_full_scan ti ≡ true
      → (p : Plan F) × (parse_mysql_plan fl fixed shown unmarshal raw ≡ done p)
        × Memᴰ (label_of ti) p.node_types
        × Memᴰ (table_name ti) p.seq_scan_tables
  unfolding parse_mysql_plan
  parse_mysql_plan-lists unmarshal raw root ti e r f =
      let (l, s) = comes fl fixed shown ti r 0 (nothing_collected fl fixed shown) in
      (_, ap (mysql_plan_of fl fixed shown raw) e, l, s f)
