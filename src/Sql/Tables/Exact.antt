-- ===== src/Sql/Tables/Exact.antt =====
-- internal/sqlparse/sqlparse.go: collectTables finds each table that a statement refers to, once.
use mathlib.Core.List.{Memᴰ}
use queryforge.Prelude.{
  ◌≢◌, ◌&&◌, Bool-cases, member, to_lower, is_empty, All-Mem, ap, ◌≡◌, refl, sym, subst, ◌∙◌, ◌⊎◌,
  inl, inr, true, false, Option, none, some, List, [], ◌∷◌, Bytes, All, All-imp, any_of,
  Option-cases, arith,
}
use queryforge.Prelude.Once.{
  add_new, same_key, same_key_sym, All-add_new, add_new-Apart, IsListed, add_new-IsListed,
}
use queryforge.Prelude.Sort.{
  sort_stable, IsSorted, sort_stable-IsSorted, All-sort_stable, any_of-sort_stable, Apart,
  sort_stable-Apart,
}
use queryforge.Sql.{TableRef}
use queryforge.Sql.Tree.{Node, range_var, walk}
use mathlib.Core.Option.{some-injective}
use queryforge.Sql.Tables.{
  alias_or_empty, bytes_lt, reference, references, ref_key, by_name, collect_tables,
}

bytes_lt_asym : (a b : Bytes) → bytes_lt a b ≡ true → bytes_lt b a ≡ false
unfolding bytes_lt
bytes_lt_asym a [] h = cc
bytes_lt_asym [] (y ∷ ys) h = refl
bytes_lt_asym (x ∷ xs) (y ∷ ys) h = ground (arith, bytes_lt_asym xs ys)

bytes_lt_not_trans :
    (a b c : Bytes) → bytes_lt a b ≡ false → bytes_lt b c ≡ false → bytes_lt a c ≡ false
unfolding bytes_lt
bytes_lt_not_trans a b [] h k = refl
bytes_lt_not_trans [] [] (z ∷ zs) h k = cc
bytes_lt_not_trans [] (y ∷ ys) (z ∷ zs) h k = cc
bytes_lt_not_trans (x ∷ xs) [] (z ∷ zs) h k = cc
bytes_lt_not_trans (x ∷ xs) (y ∷ ys) (z ∷ zs) h k = ground (arith, bytes_lt_not_trans xs ys zs)

-- The alias of a reference, which is empty for one without.
abbrev pub alias_of : Option Bytes → Bytes
alias_of none = []
alias_of (some a) = a

same_alias : (a : Option Bytes) → alias_or_empty a ≡ alias_of a
same_alias none = refl
same_alias (some a) = refl

none_ne_table : (t : TableRef) → ◌≢◌ {A = Option TableRef} none (some t)
none_ne_table t h = cc

module _ (ctes : List Bytes) where
  -- A node refers to a table: it is a reference with this schema, name and alias, which has a schema
  -- or a name that is no CTE's.
  pub data Refers : Node → TableRef → Type 0 where
    refers :
        (schema name : Bytes) (alias : Option Bytes) (t : TableRef)
        → (member (to_lower name) ctes ≡ false) ⊎ (is_empty schema ≡ false)
        → t.schema ≡ schema
        → t.name ≡ name
        → t.alias ≡ alias_of alias
        → Refers (range_var schema name alias) t

  -- What `reference` makes of a range variable that is no CTE.
  of_fields :
      (schema name : Bytes) (alias : Option Bytes) (t : TableRef)
      → (member (to_lower name) ctes ≡ false) ⊎ (is_empty schema ≡ false)
      → ◌≡◌ {A = Option TableRef}
          (some (record { schema = schema; name = name; alias = alias_or_empty alias }))
          (some t)
      → Refers (range_var schema name alias) t
  of_fields schema name alias t free e =
      let same = some-injective _ _ e in
      refers schema name alias t free (sym (ap (λ (r : TableRef). r.schema) same))
        (sym (ap (λ (r : TableRef). r.name) same))
        (sym (ap (λ (r : TableRef). r.alias) same) ∙ same_alias alias)

  of_reference : (n : Node) (t : TableRef) → reference ctes n ≡ some t → Refers n t
  unfolding reference
  of_reference (range_var schema name alias) t e = elim (Bool-cases (member (to_lower name) ctes)) [
    | inr f ↦ of_fields schema name alias t (inl f) (rw (f, reference) at e)
    | inl m ↦ elim (Bool-cases (is_empty schema)) [
      | inr f ↦ of_fields schema name alias t (inr f) (rw (m, f, reference) at e)
      | inl k ↦ absurd (none_ne_table t (rw (m, k, reference) at e))
    ]
  ]
  of_reference n t e = absurd (cc)

  -- One of the nodes refers to the table.
  abbrev pub IsRef : List Node → TableRef → Type 0
  IsRef [] t = ⊥
  IsRef (n ∷ ns) t = Refers n t ⊎ IsRef ns t

  -- A node that is a reference to a table is one to a table of the list, up to the key.
  abbrev pub IsFound : List TableRef → Option TableRef → Type 0
  IsFound ts none = Unit
  IsFound ts (some t) = any_of (same_key ref_key t) ts ≡ true

  skips :
      (n : Node) (ns : List Node)
      → reference ctes n ≡ none
      → references ctes (n ∷ ns) ≡ references ctes ns
  unfolding references
  skips n ns e = rw (references, e)

  adds :
      (n : Node) (ns : List Node) {t : TableRef}
      → reference ctes n ≡ some t
      → references ctes (n ∷ ns) ≡ t ∷ references ctes ns
  unfolding references
  adds n ns e = rw (references, e)

  references-IsRef : (ns : List Node) → All (IsRef ns) (references ctes ns)
  unfolding references
  references-IsRef [] = tt
  references-IsRef (n ∷ ns) =
      let rest = All-imp (IsRef ns) (IsRef (n ∷ ns)) _ (λ t. inr) (references-IsRef ns) in
      elim (Option-cases (reference ctes n)) [
        | inl e ↦ subst (All (IsRef (n ∷ ns))) (sym (skips n ns e)) rest
        | inr (t, e) ↦
            subst (All (IsRef (n ∷ ns))) (sym (adds n ns e)) (inl (of_reference n t e), rest)
      ]

  references-IsFound :
      (ts : List TableRef) (ns : List Node)
      → All (IsListed ref_key ts) (references ctes ns)
      → All (λ n. IsFound ts (reference ctes n)) ns
  unfolding references
  references-IsFound ts [] h = tt
  references-IsFound ts (n ∷ ns) h = elim (Option-cases (reference ctes n)) [
    | inl e ↦
        (subst (IsFound ts) (sym e) tt, references-IsFound ts ns (subst (All _) (skips n ns e) h))
    | inr (t, e) ↦
        let both = subst (All (IsListed ref_key ts)) (adds n ns e) h in
        (subst (IsFound ts) (sym e) both.0, references-IsFound ts ns both.1)
  ]

-- The tables that collectTables returns are in order of their qualified names, no two of them agree
-- in qualified name and alias up to case, and each is one that a node of the statement refers to, with
-- a schema or under a name that is none of the given CTE names.
pub collect_tables_exact :
    (n : Node) (ctes : List Bytes)
    → IsSorted by_name (collect_tables n ctes)
      × Apart (same_key ref_key) (collect_tables n ctes)
      × All (IsRef ctes (walk n)) (collect_tables n ctes)
unfolding collect_tables
collect_tables_exact n ctes =
    let refs = references ctes (walk n) in
    let found = add_new ref_key [] refs in
    (
      sort_stable-IsSorted by_name (λ a b. bytes_lt_asym _ _) (λ a b c. bytes_lt_not_trans _ _ _)
          found,
      sort_stable-Apart (same_key ref_key) by_name (same_key_sym ref_key) found
          (add_new-Apart ref_key [] refs),
      All-sort_stable by_name (IsRef ctes (walk n)) found
          (All-add_new ref_key (IsRef ctes (walk n)) [] refs (references-IsRef ctes (walk n))),
    )

to_reference :
    (ctes : List Bytes) (m : Node) (t : TableRef) → Refers ctes m t → reference ctes m ≡ some t
unfolding reference
to_reference ctes m t (refers schema name alias u free s n a) =
    let free' : (member (to_lower name) ctes && is_empty schema) ≡ false = elim free [
      | inl f ↦ ground (arith, f)
      | inr f ↦ ground (arith, f)
    ] in
    rw free' (cc (s, n, a, same_alias alias))

-- Each table that a node of the statement refers to, with a schema or under a name that is none of
-- the given CTE names, agrees in qualified name and alias up to case with one that collectTables
-- returns.
pub collect_tables-misses-none :
    (n m : Node) (ctes : List Bytes) (t : TableRef)
    → Memᴰ m (walk n)
    → Refers ctes m t
    → any_of (same_key ref_key t) (collect_tables n ctes) ≡ true
unfolding collect_tables
collect_tables-misses-none n m ctes t at r =
    let refs = references ctes (walk n) in
    let found = add_new ref_key [] refs in
    let ts = sort_stable by_name found in
    let listed = references-IsFound ctes ts (walk n) (
      All-imp (IsListed ref_key found) _ refs
        (λ x h. any_of-sort_stable by_name (same_key ref_key x) found ∙ h)
        (add_new-IsListed ref_key refs)) in
    subst (IsFound ctes ts) (to_reference ctes m t r)
      (All-Mem (λ k. IsFound ctes ts (reference ctes k)) (walk n) listed at)
