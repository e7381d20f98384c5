-- ===== src/Sql/Mysql/Gate.antt =====
-- internal/sqlparse/mysql.go: which statements ParseMySQL lets through.
use queryforge.Prelude.{
  ◌≡◌, ◌≢◌, ◌∙◌, refl, sym, ◌↔◌, inl, inr, false, Option, none, some, List, [], ◌∷◌, Bytes, All,
  trim_space, is_empty, Bool-cases, Option-cases, arith,
}
use queryforge.Engine.{Outcome, done, fault}
use queryforge.Sql.{Statement, parsed}
use queryforge.Sql.Mysql.{
  Ast, select_node, set_opr, write_node, entered, guard, first_error, TidbParser, mysql_statement,
  guarded, mysql_root, mysql_tree, parse_mysql,
}

-- A node that neither locks, nor writes into a file, nor is a write.
abbrev pub IsHarmless : Ast → Type 0
IsHarmless (select_node s ns) = (s.locks ≡ false) × (s.writes_into ≡ false)
IsHarmless (write_node t ns) = ⊥
IsHarmless n = Unit

-- The statements that the type switch lets through.
abbrev pub IsQuery : Ast → Type 0
IsQuery (select_node s ns) = Unit
IsQuery (set_opr ns) = Unit
IsQuery n = ⊥

guard-IsHarmless : (n : Ast) → guard n ≡ none → IsHarmless n
unfolding guard
guard-IsHarmless (select_node s ns) h = elim (Bool-cases s.locks) [
  | inl l ↦ absurd (ground arith)
  | inr l ↦ elim (Bool-cases s.writes_into) [ inl w ↦ absurd (ground arith) | inr w ↦ (l, w) ]
]
guard-IsHarmless (write_node t ns) h = absurd (cc)
guard-IsHarmless n h = tt

IsHarmless-guard : (n : Ast) → IsHarmless n → guard n ≡ none
unfolding guard
IsHarmless-guard (select_node s ns) h = rw (h.0, h.1)
IsHarmless-guard (write_node t ns) h = elim h [ ]
IsHarmless-guard n h = refl

passes : (n : Ast) (ns : List Ast) → guard n ≡ none → first_error (n ∷ ns) ≡ first_error ns
unfolding first_error
passes n ns e = rw (first_error, e)

stops :
    (n : Ast) (ns : List Ast) {why : Bytes} → guard n ≡ some why → first_error (n ∷ ns) ≡ some why
unfolding first_error
stops n ns e = rw (first_error, e)

some_ne_none : {why : Bytes} → ◌≢◌ {A = Option Bytes} (some why) none
some_ne_none h = cc

first_error-All : (ns : List Ast) → first_error ns ≡ none → All IsHarmless ns
unfolding first_error
first_error-All [] h = tt
first_error-All (n ∷ ns) h = elim (Option-cases (guard n)) [
  | inl e ↦ (guard-IsHarmless n e, first_error-All ns (sym (passes n ns e) ∙ h))
  | inr (why, e) ↦ absurd (some_ne_none (sym (stops n ns e) ∙ h))
]

All-first_error : (ns : List Ast) → All IsHarmless ns → first_error ns ≡ none
unfolding first_error
All-first_error [] h = refl
All-first_error (n ∷ ns) h = passes n ns (IsHarmless-guard n h.0) ∙ All-first_error ns h.1

module _ (p : TidbParser) (sql : Bytes) where
  -- The text holds one query, read without warnings, and no node of its tree writes or locks.
  abbrev pub IsReadOnly : Ast → Type 0
  IsReadOnly n =
      (is_empty (trim_space sql) ≡ false)
      × (p.parse (trim_space sql) ≡ done (n ∷ [], []))
      × IsQuery n
      × All IsHarmless (entered n)

  passed-guard :
      (n : Ast) (o : Option Bytes) {r : Statement}
      → guarded p (trim_space sql) n o ≡ parsed r
      → (o ≡ none) × (r ≡ mysql_statement p (trim_space sql) n)
  passed-guard n none h = (refl, cc)
  passed-guard n (some why) h = absurd (cc)

  passed-root :
      (n : Ast) {r : Statement}
      → mysql_root p (trim_space sql) n ≡ parsed r
      → IsQuery n × All IsHarmless (entered n) × (r ≡ mysql_statement p (trim_space sql) n)
  passed-root (select_node s ns) h =
      let g = passed-guard (select_node s ns) _ h in
      (tt, first_error-All (entered (select_node s ns)) g.0, g.1)
  passed-root (set_opr ns) h =
      let g = passed-guard (set_opr ns) _ h in (tt, first_error-All (entered (set_opr ns)) g.0, g.1)
  passed-root n h = absurd (cc)

  root-passed :
      (n : Ast)
      → IsQuery n
      → All IsHarmless (entered n)
      → mysql_root p (trim_space sql) n ≡ parsed (mysql_statement p (trim_space sql) n)
  root-passed (select_node s ns) q h = rw (All-first_error (entered (select_node s ns)) h)
  root-passed (set_opr ns) q h = rw (All-first_error (entered (set_opr ns)) h)
  root-passed n q h = elim q [ ]

  passed-tree :
      (o : Outcome (List Ast × List Bytes)) {r : Statement}
      → mysql_tree p (trim_space sql) o ≡ parsed r
      → (n : Ast) × (o ≡ done (n ∷ [], [])) × (mysql_root p (trim_space sql) n ≡ parsed r)
  passed-tree (fault e) h = absurd (cc)
  passed-tree (done ([], ws)) h = absurd (cc)
  passed-tree (done (n ∷ [], [])) h = (n, refl, h)
  passed-tree (done (n ∷ [], w ∷ ws)) h = absurd (cc)
  passed-tree (done (n ∷ m ∷ ns, ws)) h = absurd (cc)

  passed :
      {r : Statement}
      → parse_mysql p sql ≡ parsed r
      → (n : Ast) × IsReadOnly n × (r ≡ mysql_statement p (trim_space sql) n)
  unfolding parse_mysql
  passed {r} h = elim (Bool-cases (is_empty (trim_space sql))) [
    | inl e ↦ absurd (ground arith)
    | inr e ↦
        let t = passed-tree (p.parse (trim_space sql)) {r = r} (rw e at h) in
        let q = passed-root t.0 {r = r} t.2 in (t.0, (e, t.1, q.0, q.1), q.2)
  ]

  accepted :
      (n : Ast) → IsReadOnly n → parse_mysql p sql ≡ parsed (mysql_statement p (trim_space sql) n)
  unfolding parse_mysql
  accepted n (given, tree, q, h) = rw (given, tree) (root-passed n q h)

  -- ParseMySQL accepts a text, with a given result, exactly when the text is not blank and the parser
  -- reads in it, without warnings, one SELECT or set operation in which no node at all locks rows,
  -- selects into a file, or is an INSERT, UPDATE, DELETE or LOAD DATA; and the result is then the
  -- statement extracted from that query.
  pub parse_mysql_iff :
      (r : Statement)
      → (parse_mysql p sql ≡ parsed r)
        ↔ ((n : Ast) × IsReadOnly n × (r ≡ mysql_statement p (trim_space sql) n))
  parse_mysql_iff r = (λ h. passed h, λ q. rw (q.2) (accepted q.0 q.1))
