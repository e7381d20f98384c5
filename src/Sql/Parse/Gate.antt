-- ===== src/Sql/Parse/Gate.antt =====
-- internal/sqlparse/sqlparse.go: which statements Parse lets through.
use queryforge.Prelude.{
  ◌≡◌, refl, subst, ◌↔◌, false, Option, none, some, List, [], ◌∷◌, ◌⊎◌, inl, inr, Bytes, trim_space,
  is_empty, Bool-cases, Option-cases, arith,
}
use queryforge.Engine.{Outcome, done, fault}
use queryforge.Sql.{Statement, parsed}
use queryforge.Sql.Tree.{
  Node, select_stmt, common_table_expr, present, Nodes, nil, cons, Select, select,
}
use queryforge.Sql.Parse.{
  PgQuery, parse, check_select, check_node, check_tree, statement_of_select, has_into, has_locking,
  reject_data_modifying_ctes, reject_ctes, reject_cte, reject_query,
}

abbrev ctes_of : Select → Nodes
ctes_of (select set_op l r ctes targets into locking limit sort more) = ctes

-- A query that a CTE of the list stands for.
abbrev IsBody : Node → Nodes → Type 0
IsBody q nil = ⊥
IsBody q (cons (common_table_expr name (present b)) ns) = (b ≡ q) ⊎ IsBody q ns
IsBody q (cons n ns) = IsBody q ns

-- A query that a CTE of the SELECT stands for, or a CTE of such a query that is a SELECT itself.
pub data CteBody : Select → Node → Type 0 where
  direct : {s : Select} {q : Node} → IsBody q (ctes_of s) → CteBody s q
  nested :
      {s t : Select} {q : Node} → IsBody (select_stmt t) (ctes_of s) → CteBody t q → CteBody s q

abbrev pub IsSelect : Node → Type 0
IsSelect n = (s : Select) × (n ≡ select_stmt s)

passed-query :
    (name : Bytes) (n : Node)
    → reject_query name (present n) ≡ none
    → (t : Select) × (n ≡ select_stmt t) × (reject_data_modifying_ctes t ≡ none)
unfolding reject_data_modifying_ctes
passed-query name (select_stmt t) h = (t, refl, h)
passed-query name n h = cc

-- The first CTE has passed, and so have the others.
passed-cons :
    (n : Node) (ns : Nodes)
    → reject_ctes (cons n ns) ≡ none
    → (reject_cte n ≡ none) × (reject_ctes ns ≡ none)
unfolding reject_data_modifying_ctes
passed-cons n ns h = elim (Option-cases (reject_cte n)) [
  | inl e ↦ (e, rw e at h)
  | inr (why, e) ↦ absurd (cc)
]

passed-cte :
    (name : Bytes) (b : Node)
    → reject_cte (common_table_expr name (present b)) ≡ none
    → reject_query name (present b) ≡ none
unfolding reject_data_modifying_ctes
passed-cte name b h = h

passed-body :
    (q : Node) (ns : Nodes)
    → reject_ctes ns ≡ none
    → IsBody q ns
    → (t : Select) × (q ≡ select_stmt t) × (reject_data_modifying_ctes t ≡ none)
passed-body q nil h k = elim k [ ]
passed-body q (cons (common_table_expr name (present b)) ns) h (inl e) =
    subst (λ n. (t : Select) × (n ≡ select_stmt t) × (reject_data_modifying_ctes t ≡ none)) e
      (passed-query name b (passed-cte name b (passed-cons _ ns h).0))
passed-body q (cons (common_table_expr name (present b)) ns) h (inr k) =
    passed-body q ns (passed-cons _ ns h).1 k
passed-body q (cons n ns) h k = passed-body q ns (passed-cons n ns h).1 k

same_passed :
    (t u : Select)
    → select_stmt t ≡ select_stmt u
    → reject_data_modifying_ctes u ≡ none
    → reject_data_modifying_ctes t ≡ none
same_passed t u e h = cc

passed-ctes : (s : Select) → reject_data_modifying_ctes s ≡ none → reject_ctes (ctes_of s) ≡ none
unfolding reject_data_modifying_ctes
passed-ctes (select set_op l r ctes targets into locking limit sort more) h = h

-- Every body of a SELECT that has passed is a SELECT.
passed-CteBody :
    {s : Select} {q : Node} → reject_data_modifying_ctes s ≡ none → CteBody s q → IsSelect q
passed-CteBody {s} {q} h (direct b) =
    let p = passed-body q (ctes_of s) (passed-ctes s h) b in (p.0, p.1)
passed-CteBody {s} h (nested {t = t} b k) =
    let p = passed-body (select_stmt t) (ctes_of s) (passed-ctes s h) b in
    passed-CteBody (same_passed t p.0 p.1 p.2) k

-- A body that is at fault, of a SELECT that has not passed.
abbrev AtFault : Select → Type 0
AtFault s = (q : Node) × CteBody s q × ¬ IsSelect q

abbrev AtFaultIn : Nodes → Type 0
AtFaultIn ns =
    (q : Node) × (IsBody q ns ⊎ ((t : Select) × IsBody (select_stmt t) ns × CteBody t q))
    × ¬ IsSelect q

behind : (q n : Node) (ns : Nodes) → IsBody q ns → IsBody q (cons n ns)
behind q (common_table_expr name (present b)) ns k = inr k
behind q n ns k = k

later : (n : Node) (ns : Nodes) → AtFaultIn ns → AtFaultIn (cons n ns)
later n ns (q, inl k, bad) = (q, inl (behind q n ns k), bad)
later n ns (q, inr (t, k, r), bad) = (q, inr (t, behind (select_stmt t) n ns k, r), bad)

below : (s : Select) → AtFaultIn (ctes_of s) → AtFault s
below s (q, inl k, bad) = (q, direct k, bad)
below s (q, inr (t, k, r), bad) = (q, nested k r, bad)

mutual
  unfolding reject_data_modifying_ctes

  fault-select :
      (s : Select) (why : Bytes) → reject_data_modifying_ctes s ≡ some why → AtFaultIn (ctes_of s)
  fault-select (select set_op l r ctes targets into locking limit sort more) why h =
      fault-ctes ctes why h

  fault-ctes : (ns : Nodes) (why : Bytes) → reject_ctes ns ≡ some why → AtFaultIn ns
  fault-ctes nil why h = absurd (cc)
  fault-ctes (cons n ns) why h = elim (Option-cases (reject_cte n)) [
    | inl e ↦ later n ns (fault-ctes ns why (rw e at h))
    | inr (first, e) ↦ fault-cte n ns first e
  ]

  fault-cte :
      (n : Node) (ns : Nodes) (why : Bytes) → reject_cte n ≡ some why → AtFaultIn (cons n ns)
  fault-cte (common_table_expr name (present (select_stmt s))) ns why h =
      let found = below s (fault-select s why h) in (found.0, inr (s, inl refl, found.1), found.2)
  fault-cte (common_table_expr name (present q)) ns why h = (q, inl (inl refl), λ p. absurd (cc))
  fault-cte n ns why h = absurd (cc)

-- A SELECT all of whose CTEs stand for SELECTs passes.
CteBody-passed :
    (s : Select) → ((q : Node) → CteBody s q → IsSelect q) → reject_data_modifying_ctes s ≡ none
CteBody-passed s h = elim (Option-cases (reject_data_modifying_ctes s)) [
  | inl e ↦ e
  | inr (why, e) ↦
      let found = below s (fault-select s why e) in absurd (found.2 (h found.0 found.1))
]

parsed_injective : {A : Type 0} (x y : A) → parsed x ≡ parsed y → y ≡ x
parsed_injective x y h = cc

tree_of :
    {n : Node} {s : Select} {o : Outcome (List Node)}
    → o ≡ done (n ∷ [])
    → n ≡ select_stmt s
    → o ≡ done (select_stmt s ∷ [])
tree_of h e = cc

module _ (pg : PgQuery) (sql : Bytes) where
  -- The text holds one statement, a SELECT that only reads as far as Parse looks.
  abbrev pub IsReadOnly : Select → Type 0
  IsReadOnly s =
      (is_empty (trim_space sql) ≡ false)
      × (pg.parse (trim_space sql) ≡ done (select_stmt s ∷ []))
      × ((q : Node) → CteBody s q → IsSelect q)
      × (has_into s ≡ false)
      × (has_locking s ≡ false)

  passed-select :
      (s : Select) (o : Option Bytes) {r : Statement × List Node}
      → check_select pg (trim_space sql) s o ≡ parsed r
      → (o ≡ none)
        × (has_into s ≡ false)
        × (has_locking s ≡ false)
        × (r ≡ (statement_of_select pg (trim_space sql) s, select_stmt s ∷ []))
  unfolding check_select
  passed-select s none h = elim (Bool-cases (has_into s)) [
    | inl i ↦ absurd (ground arith)
    | inr i ↦ elim (Bool-cases (has_locking s)) [
      | inl k ↦ absurd (ground arith)
      | inr k ↦ (refl, i, k, parsed_injective _ _ (rw (i, k) at h))
    ]
  ]
  passed-select s (some why) h = absurd (cc)

  passed-node :
      (n : Node) {r : Statement × List Node}
      → check_node pg (trim_space sql) n ≡ parsed r
      → (s : Select) × (n ≡ select_stmt s)
        × (reject_data_modifying_ctes s ≡ none)
        × (has_into s ≡ false)
        × (has_locking s ≡ false)
        × (r ≡ (statement_of_select pg (trim_space sql) s, select_stmt s ∷ []))
  passed-node (select_stmt s) h =
      let p = passed-select s (reject_data_modifying_ctes s) h in (s, refl, p.0, p.1, p.2, p.3)
  passed-node n h = absurd (cc)

  passed-tree :
      (o : Outcome (List Node)) {r : Statement × List Node}
      → check_tree pg (trim_space sql) o ≡ parsed r
      → (n : Node) × (o ≡ done (n ∷ [])) × (check_node pg (trim_space sql) n ≡ parsed r)
  passed-tree (fault e) h = absurd (cc)
  passed-tree (done []) h = absurd (cc)
  passed-tree (done (n ∷ [])) h = (n, refl, h)
  passed-tree (done (n ∷ m ∷ ns)) h = absurd (cc)

  parse-IsReadOnly :
      {r : Statement × List Node}
      → parse pg sql ≡ parsed r
      → (s : Select) × IsReadOnly s
        × (r ≡ (statement_of_select pg (trim_space sql) s, select_stmt s ∷ []))
  unfolding parse
  parse-IsReadOnly {r} h = elim (Bool-cases (is_empty (trim_space sql))) [
    | inl e ↦ absurd (ground arith)
    | inr e ↦
        let t = passed-tree (pg.parse (trim_space sql)) {r = r} (rw e at h) in
        let p = passed-node t.0 {r = r} t.2 in
        (p.0, (e, tree_of t.1 p.1, λ q. passed-CteBody p.2, p.3, p.4), p.5)
  ]

  IsReadOnly-parse :
      (s : Select)
      → IsReadOnly s
      → parse pg sql ≡ parsed (statement_of_select pg (trim_space sql) s, select_stmt s ∷ [])
  unfolding parse check_select
  IsReadOnly-parse s (given, tree, bodies, i, k) = rw (given, tree, CteBody-passed s bodies, i, k)

  -- Parse accepts a text, with a given result, exactly when the text is not blank and pg_query reads
  -- one statement in it, a SELECT that has no INTO and no locking clause and in which each CTE, and
  -- each CTE of a CTE that is a SELECT, stands for a SELECT; and the result is then the statement
  -- extracted from that SELECT, with its tree.
  pub parse_iff :
      (r : Statement × List Node)
      → (parse pg sql ≡ parsed r) ↔ (
          (s : Select) × IsReadOnly s
          × (r ≡ (statement_of_select pg (trim_space sql) s, select_stmt s ∷ [])))
  parse_iff r = (λ h. parse-IsReadOnly h, λ p. rw (p.2) (IsReadOnly-parse p.0 p.1))
