-- ===== src/Engine/MysqlPlans/Listed.antt =====
-- internal/engine/mysql.go: what each step of the walk over a plan does to a table that is listed.
use mathlib.Core.List.{Memᴰ}
use queryforge.Prelude.{
  Mem-left, ℕ, suc, ◌≡◌, refl, ap, subst, inl, inr, Bool, true, false, ◌++◌, Option, none, some,
  List, [], ◌∷◌, Bytes, codes, bytes_eq, Bool-cases, if◌then◌else◌, All,
}
use queryforge.Prelude.Float.{FloatOps}
use queryforge.Engine.Plans.{Json, object, Items, nil, cons, Fields, end, entry, get}
use queryforge.Engine.MysqlPlans.{
  Place, item, under, is_passed_over, each, MysqlWalked, label_of, table_name, is_full_scan,
  visit_table, visit_place, walk_value, walk_array, walk_table, walk_key, walk_mysql_plan,
  fields_of,
}
use queryforge.Engine.MysqlPlans.Kept.{
  tables_in, tables_among, tables_under, All-each, value-keeps, array-keeps, table-keeps, key-keeps,
}

module _ {F : Type 0} where
  pub data IsItem (m : Fields F) : Items F → Type 0 where
    first : (xs : Items F) → IsItem m (cons (object m) xs)
    later : (v : Json F) (xs : Items F) → IsItem m xs → IsItem m (cons v xs)

Mem-last : {A : Type 0} (x : A) (xs : List A) → Memᴰ x (xs ++ x ∷ [])
Mem-last x [] = Memᴰ.head refl
Mem-last x (y ∷ xs) = Memᴰ.tail (Mem-last x xs)

pub some_injective : {A : Type 0} (x y : A) → ◌≡◌ {A = Option A} (some x) (some y) → x ≡ y
some_injective x y h = cc

on_false : {A : Type 0} (b : Bool) (x y : A) → b ≡ false → elim b [ true ↦ x | false ↦ y ] ≡ y
on_false true x y e = absurd (cc)
on_false false x y e = refl

-- No condition on a table.
abbrev Any : {F : Type 0} → Fields F → Type 0
Any ti = Unit

All-Any : {F : Type 0} (ts : List (Fields F)) → All Any ts
All-Any [] = tt
All-Any (t ∷ ts) = (tt, All-Any ts)

module _ {F : Type 0} (fl : FloatOps F) (fixed : ℕ → F → Bytes) (shown : Json F → Bytes)
    (ti : Fields F) where
  abbrev pub IsListed : MysqlWalked fl fixed shown → Type 0
  IsListed w =
      Memᴰ (label_of ti) w.node_types
      × (is_full_scan ti ≡ true → Memᴰ (table_name ti) w.seq_scan_tables)

  longer :
      (b : Bool) (t : Fields F) (names : List Bytes)
      → Memᴰ (table_name ti) names
      → Memᴰ (table_name ti) (if b then names ++ table_name t ∷ [] else names)
  longer true t names m = Mem-left names (table_name t ∷ []) m
  longer false t names m = m

  on_table :
      (d : ℕ) (t : Fields F) (w : MysqlWalked fl fixed shown)
      → Any t
      → IsListed w
      → IsListed (visit_table fl fixed shown d t w)
  on_table d t w u h = (
    Mem-left w.node_types (label_of t ∷ []) h.0,
    λ e. longer (is_full_scan t) t w.seq_scan_tables (h.1 e),
  )

  on_place :
      (d : ℕ) (place : Place) (w : MysqlWalked fl fixed shown)
      → IsListed w
      → IsListed (visit_place fl fixed shown d place w)
  on_place d item w h = h
  on_place d (under key) w h = h

  scan_added :
      (b : Bool) (names : List Bytes)
      → b ≡ true
      → Memᴰ (table_name ti) (if b then names ++ table_name ti ∷ [] else names)
  scan_added true names e = Mem-last (table_name ti) names
  scan_added false names e = absurd (cc)

  pub visited :
      (d : ℕ) (w : MysqlWalked fl fixed shown) → IsListed (visit_table fl fixed shown d ti w)
  visited d w =
      (Mem-last (label_of ti) w.node_types, λ e. scan_added (is_full_scan ti) w.seq_scan_tables e)

  value-stays :
      (v : Json F) (place : Place) (d : ℕ) (w : MysqlWalked fl fixed shown)
      → IsListed w
      → IsListed (walk_value fl fixed shown v place d w)
  value-stays v place d w h =
      value-keeps Any fl fixed shown IsListed on_table on_place v place d w (All-Any (tables_in v))
        h

  array-stays :
      (xs : Items F) (d : ℕ) (w : MysqlWalked fl fixed shown)
      → IsListed w
      → IsListed (walk_array fl fixed shown xs d w)
  array-stays xs d w h =
      array-keeps Any fl fixed shown IsListed on_table on_place xs d w (All-Any (tables_among xs)) h

  pub key-stays :
      (fs : Fields F) (key : Bytes) (d : ℕ) (w : MysqlWalked fl fixed shown)
      → IsListed w
      → IsListed (walk_key fl fixed shown fs key d w)
  key-stays fs key d w h =
      key-keeps Any fl fixed shown IsListed on_table on_place fs key d w (All-Any (tables_under fs))
        h

  pub walk_key-get :
      (fs : Fields F) (key : Bytes) (d : ℕ) (w : MysqlWalked fl fixed shown) {v : Json F}
      → get key fs ≡ some v
      → walk_key fl fixed shown fs key d w ≡ walk_value fl fixed shown v (under key) d w
  unfolding walk_value get
  walk_key-get end key d w h = absurd (cc)
  walk_key-get (entry k u fs) key d w {v} h = elim (Bool-cases (bytes_eq k key)) [
    | inl t ↦ rw (t, walk_key, some_injective u v (rw (t, get) at h))
    | inr f ↦ rw (f, walk_key, walk_key-get fs key d w (rw (f, get) at h))
  ]

  pub of_table_of :
      (o : Option (Json F)) {t : Fields F} → fields_of o ≡ some t → o ≡ some (object t)
  of_table_of (some (object fs)) h = ap (λ x. some (object x)) (some_injective fs _ h)
  of_table_of none h = absurd (cc)
  of_table_of (some v) h = absurd (cc)

  pub walk_table-get :
      (fs : Fields F) (d : ℕ) (w : MysqlWalked fl fixed shown) {v : Json F}
      → get (codes "table") fs ≡ some v
      → walk_table fl fixed shown fs d w ≡ walk_value fl fixed shown v item d w
  unfolding walk_value get
  walk_table-get end d w h = absurd (cc)
  walk_table-get (entry k u fs) d w {v} h = elim (Bool-cases (bytes_eq k (codes "table"))) [
    | inl t ↦ rw (t, walk_table, some_injective u v (rw (t, get) at h))
    | inr f ↦ rw (f, walk_table, walk_table-get fs d w (rw (f, get) at h))
  ]

  pub walk_value-object :
      (m : Fields F) (place : Place) (d : ℕ) (w : MysqlWalked fl fixed shown)
      → is_passed_over place ≡ false
      → walk_value fl fixed shown (object m) place d w
        ≡ walk_mysql_plan fl fixed shown m (suc d) (visit_place fl fixed shown d place w)
  unfolding walk_value walk_mysql_plan
  walk_value-object m place d w e = on_false (is_passed_over place) w _ e

  pub each-comes :
      (f : Bytes → MysqlWalked fl fixed shown → MysqlWalked fl fixed shown) (ks : List Bytes)
      (key : Bytes) (w : MysqlWalked fl fixed shown)
      → ((k : Bytes) (u : MysqlWalked fl fixed shown) → IsListed u → IsListed (f k u))
      → ((u : MysqlWalked fl fixed shown) → IsListed (f key u))
      → Memᴰ key ks
      → IsListed (each f ks w)
  each-comes f [] key w stay come m = elim m [ ]
  each-comes f (k ∷ ks) key w stay come (Memᴰ.head e) =
      All-each IsListed f ks (f k w) stay (subst (λ x. IsListed (f x w)) e (come w))
  each-comes f (k ∷ ks) key w stay come (Memᴰ.tail m) = each-comes f ks key (f k w) stay come m

  pub item-comes :
      (m : Fields F) (xs : Items F) (d : ℕ) (w : MysqlWalked fl fixed shown)
      → ((u : MysqlWalked fl fixed shown)
          → IsListed (walk_value fl fixed shown (object m) item d u))
      → IsItem m xs
      → IsListed (walk_array fl fixed shown xs d w)
  unfolding walk_value
  item-comes m nil d w come i = elim i [ ]
  item-comes m (cons v xs) d w come (first ys) =
      array-stays xs d (walk_value fl fixed shown (object m) item d w) (come w)
  item-comes m (cons v xs) d w come (later u ys i) =
      item-comes m xs d (walk_value fl fixed shown v item d w) come i

  pub table-stays :
      (fs : Fields F) (d : ℕ) (w : MysqlWalked fl fixed shown)
      → IsListed w
      → IsListed (walk_table fl fixed shown fs d w)
  table-stays fs d w h =
      table-keeps Any fl fixed shown IsListed on_table on_place fs d w (All-Any (tables_under fs)) h
