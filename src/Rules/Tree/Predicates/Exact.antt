-- ===== src/Rules/Tree/Predicates/Exact.antt =====
-- internal/rules/rules.go: which predicates extractPredicates finds.
use mathlib.Core.List.{Memᴰ}
use queryforge.Prelude.{
  member, bytes_eq_refl, arith, subst, sym, All-Mem, any_of, is_empty, not, ◌≡◌, refl, ◌∙◌, ◌⊎◌,
  inl, inr, Bool, true, ◌++◌, Option, none, some, List, [], ◌∷◌, Bytes, bytes_eq, eq_of_bytes_eq,
  All, All-imp, All-append, keep, Bool-cases,
}
use queryforge.Prelude.Sort.{Apart}
use queryforge.Prelude.Once.{
  add_new, same_key, All-add_new, add_new-Apart, IsListed, add_new-IsListed,
}
use queryforge.Sql.Tree.{Node, Nodes, a_expr, Child, walk_tree}
use queryforge.Rules.Missing.{Predicate}
use queryforge.Rules.Tree.{operator_name, const_text, SideInfo, analyse_side, flip_operator}
use queryforge.Rules.Tree.Predicates.{
  or_nothing, joined, compared, is_comparison, by_sides, compare_sides, comparisons,
  all_comparisons, predicate_key, has_column, add_predicates, extract_predicates,
}
use queryforge.Rules.Tree.Predicates.Meaning.{
  comparing, IsTest, IsJoin, text_of, Gives, left_column, right_column, left_only, right_only,
  comparison,
}

-- A predicate on a named column that one of the nodes gives.
abbrev pub IsComparison : List Node → Predicate → Type 0
IsComparison [] p = ⊥
IsComparison (n ∷ ns) p = ((has_column p ≡ true) × Gives n p) ⊎ IsComparison ns p

of_member : (a : Bytes) (xs : List Bytes) → member a xs ≡ true → Memᴰ a xs
unfolding member
of_member a [] h = absurd (cc)
of_member a (x ∷ xs) h = elim (Bool-cases (bytes_eq x a)) [
  | inl t ↦ Memᴰ.head (sym (eq_of_bytes_eq x a t))
  | inr f ↦ Memᴰ.tail (of_member a xs (rw (f, member) at h))
]

same_text : (o : Option Bytes) → or_nothing o ≡ text_of o
same_text none = refl
same_text (some t) = refl

compared-IsTest :
    (op : Bytes) (side : SideInfo) (o : Option Bytes)
    → IsTest op side (text_of o) (compared op side (or_nothing o))
compared-IsTest op side o = record {
  of_table = refl;
  of_column = refl;
  by_operator = refl;
  in_wrapper = refl;
  under_cast = refl;
  with_text = same_text o;
}

joined-IsJoin : (op : Bytes) (side other : SideInfo) → IsJoin op side other (joined op side other)
joined-IsJoin op side other = record {
  test = record {
    of_table = refl;
    of_column = refl;
    by_operator = refl;
    in_wrapper = refl;
    under_cast = refl;
    with_text = refl;
  };
  joins = refl;
  other_table = refl;
  other_column = refl;
}

sides-Gives :
    (name : Nodes) (l r : Child) (a b : Option SideInfo)
    → Memᴰ (operator_name name) comparing
    → analyse_side l ≡ a
    → analyse_side r ≡ b
    → All (Gives (a_expr name l r)) (by_sides (operator_name name) l r a b)
unfolding by_sides
sides-Gives name l r (some a) (some b) m e f = (
  comparison name m (left_column e f (joined-IsJoin (operator_name name) a b)),
  (comparison name m (right_column e f (joined-IsJoin (operator_name name) b a)), tt),
)
sides-Gives name l r (some a) none m e f =
    (comparison name m (left_only e f (compared-IsTest (operator_name name) a (const_text r))), tt)
sides-Gives name l r none (some b) m e f = (
  comparison name m
      (right_only e f (compared-IsTest (flip_operator (operator_name name)) b (const_text l))),
  tt,
)
sides-Gives name l r none none m e f = tt

comparisons-Gives : (n : Node) → All (Gives n) (comparisons n)
unfolding comparisons compare_sides is_comparison
comparisons-Gives (a_expr name l r) = elim (Bool-cases (member (operator_name name) comparing)) [
  | inl t ↦
      rw t
        (sides-Gives name l r (analyse_side l) (analyse_side r) (of_member _ comparing t) refl refl)
  | inr f ↦ rw f tt
]
comparisons-Gives n = tt

module _ {A : Type 0} (q : A → Bool) where
  keep-All : (P : A → Type 0) (xs : List A) → All P xs → All (λ x. (q x ≡ true) × P x) (keep q xs)
  keep-All P [] h = tt
  keep-All P (x ∷ xs) h = elim (Bool-cases (q x)) [
    | inl t ↦ rw t ((t, h.0), keep-All P xs h.1)
    | inr f ↦ rw f (keep-All P xs h.1)
  ]

  keep-Mem : (xs : List A) {x : A} → Memᴰ x xs → q x ≡ true → Memᴰ x (keep q xs)
  keep-Mem [] m e = elim m [ ]
  keep-Mem (y ∷ xs) (Memᴰ.head g) e =
      let here : q y ≡ true = subst (λ z. q z ≡ true) g e in rw here (Memᴰ.head g)
  keep-Mem (y ∷ xs) (Memᴰ.tail m) e = elim (Bool-cases (q y)) [
    | inl t ↦ rw t (Memᴰ.tail (keep-Mem xs m e))
    | inr f ↦ rw f (keep-Mem xs m e)
  ]

  keep-append : (xs ys : List A) → keep q (xs ++ ys) ≡ keep q xs ++ keep q ys
  keep-append [] ys = refl
  keep-append (x ∷ xs) ys = elim (Bool-cases (q x)) [
    | inl t ↦ rw (t, keep-append xs ys)
    | inr f ↦ rw (f, keep-append xs ys)
  ]

  All-split : (P : A → Type 0) (xs ys : List A) → All P (xs ++ ys) → All P xs × All P ys
  All-split P [] ys h = (tt, h)
  All-split P (x ∷ xs) ys h = let rest = All-split P xs ys h.1 in ((h.0, rest.0), rest.1)

abbrev columns_of : List Node → List Predicate
columns_of ns = keep has_column (all_comparisons ns)

comparisons-IsComparison : (ns : List Node) → All (IsComparison ns) (columns_of ns)
unfolding all_comparisons
comparisons-IsComparison [] = tt
comparisons-IsComparison (n ∷ ns) =
    rw (keep-append has_column (comparisons n) (all_comparisons ns)) (
      All-append (IsComparison (n ∷ ns)) _ _
        (All-imp _ (IsComparison (n ∷ ns)) _ (λ p. inl)
          (keep-All has_column (Gives n) (comparisons n) (comparisons-Gives n)))
        (All-imp (IsComparison ns) (IsComparison (n ∷ ns)) _ (λ p. inr)
          (comparisons-IsComparison ns)))

comparisons-listed :
    (P : Predicate → Type 0) (ns : List Node)
    → All P (columns_of ns)
    → All (λ n. All P (keep has_column (comparisons n))) ns
unfolding all_comparisons
comparisons-listed P [] h = tt
comparisons-listed P (n ∷ ns) h =
    let parts =
      All-split has_column P (keep has_column (comparisons n)) (columns_of ns)
        (rw (keep-append has_column (comparisons n) (all_comparisons ns)) at h) in
    (parts.0, comparisons-listed P ns parts.1)

to_member : (a : Bytes) (xs : List Bytes) → Memᴰ a xs → member a xs ≡ true
unfolding member
to_member a [] m = elim m [ ]
to_member a (x ∷ xs) (Memᴰ.head e) =
    let same : bytes_eq x a ≡ true = subst (λ y. bytes_eq y a ≡ true) e (bytes_eq_refl a) in
    rw same refl
to_member a (x ∷ xs) (Memᴰ.tail m) = ground (arith, to_member a xs m)

-- A predicate at a node that has the same column and key.
abbrev IsStood : Node → Predicate → Type 0
IsStood n p =
    (u : Predicate) × Memᴰ u (comparisons n)
    × ((u.column ≡ p.column) × (predicate_key u ≡ predicate_key p))

key-IsTest :
    (op : Bytes) (side : SideInfo) (lit : Bytes) (u p : Predicate)
    → IsTest op side lit u
    → IsTest op side lit p
    → (u.column ≡ p.column) × (predicate_key u ≡ predicate_key p)
unfolding predicate_key
key-IsTest op side lit u p a b = (
  a.of_column ∙ sym b.of_column,
  rw (
    a.of_table, b.of_table, a.of_column, b.of_column, a.by_operator, b.by_operator, a.in_wrapper,
    b.in_wrapper, a.with_text, b.with_text,
  ),
)

Gives-IsStood : (n : Node) (p : Predicate) → Gives n p → IsStood n p
unfolding comparisons compare_sides is_comparison by_sides
Gives-IsStood n p (comparison name {l = l} {r = r} m (left_column {a = a} {b = b} e f j)) =
    let listed = to_member _ comparing m in
    rw (listed, e, f)
      (_, Memᴰ.head refl, key-IsTest _ _ _ _ p (joined-IsJoin (operator_name name) a b).test j.test)
Gives-IsStood n p (comparison name {l = l} {r = r} m (right_column {a = a} {b = b} e f j)) =
    let listed = to_member _ comparing m in
    rw (listed, e, f)
      (
        _,
        Memᴰ.tail (Memᴰ.head refl),
        key-IsTest _ _ _ _ p (joined-IsJoin (operator_name name) b a).test j.test,
      )
Gives-IsStood n p (comparison name {l = l} {r = r} m (left_only e f t)) =
    let listed = to_member _ comparing m in
    rw (listed, e, f)
      (_, Memᴰ.head refl, key-IsTest _ _ _ _ p (compared-IsTest _ _ (const_text r)) t)
Gives-IsStood n p (comparison name {l = l} {r = r} m (right_only e f t)) =
    let listed = to_member _ comparing m in
    rw (listed, e, f)
      (_, Memᴰ.head refl, key-IsTest _ _ _ _ p (compared-IsTest _ _ (const_text l)) t)

-- No two of the predicates that extractPredicates finds agree, up to case, in table, column,
-- operator, wrapper and literal, and each is on a named column and stems from a comparison by one of
-- the seven operators that the walk of the tree visits: it is a column compared with the column of
-- the other side, or with what stands there, the operator being turned for a column on the right.
pub extract_predicates_exact :
    (tree : List Node)
    → Apart (same_key predicate_key) (extract_predicates tree)
      × All (IsComparison (walk_tree tree)) (extract_predicates tree)
unfolding extract_predicates add_predicates
extract_predicates_exact tree =
    let found = columns_of (walk_tree tree) in
    (
      add_new-Apart predicate_key [] found,
      All-add_new predicate_key (IsComparison (walk_tree tree)) [] found
          (comparisons-IsComparison (walk_tree tree)),
    )

-- For each comparison by one of the seven operators that the walk visits, each predicate on a named
-- column that it means agrees, up to case, in table, column, operator, wrapper and literal with one
-- that extractPredicates finds.
pub extract_predicates-misses-none :
    (tree : List Node) (n : Node) (p : Predicate)
    → Memᴰ n (walk_tree tree)
    → Gives n p
    → has_column p ≡ true
    → IsListed predicate_key (extract_predicates tree) p
unfolding extract_predicates add_predicates
extract_predicates-misses-none tree n p m g c =
    let found = columns_of (walk_tree tree) in
    let list = add_new predicate_key [] found in
    let listed =
      comparisons-listed (IsListed predicate_key list) (walk_tree tree)
        (add_new-IsListed predicate_key found) in
    let (u, at, same) = Gives-IsStood n p g in
    let named : has_column u ≡ true = subst (λ x. not (is_empty x) ≡ true) (sym same.0) c in
    let there =
      All-Mem (IsListed predicate_key list) (keep has_column (comparisons n))
        (All-Mem (λ k. All (IsListed predicate_key list) (keep has_column (comparisons k)))
          (walk_tree tree) listed m)
        (keep-Mem has_column (comparisons n) at named) in
    subst (λ k. any_of (λ y. bytes_eq (predicate_key y) k) list ≡ true) same.1 there
