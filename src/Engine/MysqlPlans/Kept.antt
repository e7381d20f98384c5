-- ===== src/Engine/MysqlPlans/Kept.antt =====
-- internal/engine/mysql.go: what the walk over a plan keeps of what it has collected.
use queryforge.Prelude.{
  ℕ, suc, ◌≡◌, refl, subst, Bool, true, false, ◌++◌, Option, none, some, List, [], ◌∷◌, Bytes,
  codes, bytes_eq, All,
}
use queryforge.Prelude.Float.{FloatOps}
use queryforge.Engine.Plans.{Json, array, object, Items, nil, cons, Fields, end, entry}
use queryforge.Engine.MysqlPlans.{
  mysql_plan_child_keys, Place, item, under, is_item, is_passed_over, each, table_of, MysqlWalked,
  visit_table, visit_place, walk_value, walk_array, walk_table, walk_key, walk_mysql_plan,
}

module _ {F : Type 0} where
  abbrev pub own : Option (Fields F) → List (Fields F)
  own none = []
  own (some ti) = ti ∷ []

  -- The tables of all the objects of a document, whatever the keys that lead to them.
  unfoldable mutual
    pub tables_in : Json F → List (Fields F)
    tables_in (object fs) = own (table_of fs) ++ tables_under fs
    tables_in (array xs) = tables_among xs
    tables_in v = []

    pub tables_among : Items F → List (Fields F)
    tables_among nil = []
    tables_among (cons v xs) = tables_in v ++ tables_among xs

    pub tables_under : Fields F → List (Fields F)
    tables_under end = []
    tables_under (entry k v fs) = tables_in v ++ tables_under fs

pub parts : {A : Type 0} (P : A → Type 0) (xs ys : List A) → All P (xs ++ ys) → All P xs × All P ys
parts P [] ys h = (tt, h)
parts P (x ∷ xs) ys h = let (l, r) = parts P xs ys h.1 in ((h.0, l), r)

pub All-each :
    {A : Type 0} (P : A → Type 0) (f : Bytes → A → A) (ks : List Bytes) (a : A)
    → ((k : Bytes) (b : A) → P b → P (f k b))
    → P a
    → P (each f ks a)
All-each P f [] a step h = h
All-each P f (k ∷ ks) a step h = All-each P f ks (f k a) step (step k a h)

pub on_bool :
    {A : Type 0} (P : A → Type 0) (b : Bool) (x y : A)
    → P x
    → P y
    → P (elim b [ true ↦ x | false ↦ y ])
on_bool P true x y h k = h
on_bool P false x y h k = k

pub on_option :
    {A B : Type 0} (P : B → Type 0) (o : Option A) (f : A → B) (y : B)
    → ((a : A) → o ≡ some a → P (f a))
    → P y
    → P (elim o [ some a ↦ f a | none ↦ y ])
on_option P (some a) f y h k = h a refl
on_option P none f y h k = k

-- What the walk keeps: a property of the collection that its two steps keep, the step on a table
-- for the tables that satisfy S.
module _ {F : Type 0} (S : Fields F → Type 0) where
  has_table :
      (fs : Fields F) (ti : Fields F) → All S (own (table_of fs)) → table_of fs ≡ some ti → S ti
  has_table fs ti h e = (subst (λ o. All S (own o)) e h).0

  module _ (fl : FloatOps F) (fixed : ℕ → F → Bytes) (shown : Json F → Bytes)
      (I : MysqlWalked fl fixed shown → Type 0)
      (on_table : (d : ℕ) (ti : Fields F) (w : MysqlWalked fl fixed shown)
        → S ti
        → I w
        → I (visit_table fl fixed shown d ti w))
      (on_place : (d : ℕ) (place : Place) (w : MysqlWalked fl fixed shown)
        → I w
        → I (visit_place fl fixed shown d place w)) where
    mutual
      unfolding walk_value tables_in

      pub value-keeps :
          (v : Json F) (place : Place) (d : ℕ) (w : MysqlWalked fl fixed shown)
          → All S (tables_in v)
          → I w
          → I (walk_value fl fixed shown v place d w)
      value-keeps (object fs) place d w s h =
          let (t, u) = parts S (own (table_of fs)) (tables_under fs) s in
          let w' = visit_place fl fixed shown d place w in
          let h' = on_place d place w h in
          on_bool I (is_passed_over place) _ _ h (
            on_option I (table_of fs)
              (λ ti.
                walk_table fl fixed shown fs (suc d) (visit_table fl fixed shown (suc d) ti w'))
              _
              (λ ti e.
                table-keeps fs (suc d) (visit_table fl fixed shown (suc d) ti w') u
                  (on_table (suc d) ti w' (has_table fs ti t e) h'))
              (All-each I (λ key x. walk_key fl fixed shown fs key (suc d) x) mysql_plan_child_keys
                w' (λ key x k. key-keeps fs key (suc d) x u k) h'))
      value-keeps (array xs) place d w s h =
          on_bool I (is_item place) _ _ h (array-keeps xs d w s h)
      value-keeps v place d w s h = h

      pub array-keeps :
          (xs : Items F) (d : ℕ) (w : MysqlWalked fl fixed shown)
          → All S (tables_among xs)
          → I w
          → I (walk_array fl fixed shown xs d w)
      array-keeps nil d w s h = h
      array-keeps (cons v xs) d w s h =
          let (t, u) = parts S (tables_in v) (tables_among xs) s in
          array-keeps xs d (walk_value fl fixed shown v item d w) u (value-keeps v item d w t h)

      pub table-keeps :
          (fs : Fields F) (d : ℕ) (w : MysqlWalked fl fixed shown)
          → All S (tables_under fs)
          → I w
          → I (walk_table fl fixed shown fs d w)
      table-keeps end d w s h = h
      table-keeps (entry k v fs) d w s h =
          let (t, u) = parts S (tables_in v) (tables_under fs) s in
          on_bool I (bytes_eq k (codes "table")) _ _ (value-keeps v item d w t h)
            (table-keeps fs d w u h)

      pub key-keeps :
          (fs : Fields F) (key : Bytes) (d : ℕ) (w : MysqlWalked fl fixed shown)
          → All S (tables_under fs)
          → I w
          → I (walk_key fl fixed shown fs key d w)
      key-keeps end key d w s h = h
      key-keeps (entry k v fs) key d w s h =
          let (t, u) = parts S (tables_in v) (tables_under fs) s in
          on_bool I (bytes_eq k key) _ _ (value-keeps v (under key) d w t h)
            (key-keeps fs key d w u h)

    pub plan-keeps :
        (fs : Fields F) (d : ℕ) (w : MysqlWalked fl fixed shown)
        → All S (tables_in (object fs))
        → I w
        → I (walk_mysql_plan fl fixed shown fs d w)
    unfolding walk_mysql_plan tables_in
    plan-keeps fs d w s h =
        let (t, u) = parts S (own (table_of fs)) (tables_under fs) s in
        on_option I (table_of fs)
          (λ ti. walk_table fl fixed shown fs d (visit_table fl fixed shown d ti w)) _
          (λ ti e.
            table-keeps fs d (visit_table fl fixed shown d ti w) u
              (on_table d ti w (has_table fs ti t e) h))
          (All-each I (λ key x. walk_key fl fixed shown fs key d x) mysql_plan_child_keys w
            (λ key x k. key-keeps fs key d x u k) h)
