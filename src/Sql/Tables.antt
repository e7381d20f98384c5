-- ===== src/Sql/Tables.antt =====
-- internal/sqlparse/sqlparse.go, collectTables: the tables that a statement reads.
pub mod Exact
use queryforge.Prelude.{
  ℕ, Bool, true, false, ◌&&◌, ◌++◌, Option, none, some, List, [], ◌∷◌, Bytes, codes, to_lower,
  member, is_empty, ltb, ◌==◌, if◌then◌else◌,
}
use queryforge.Prelude.Once.{add_new}
use queryforge.Prelude.Sort.{sort_stable}
use queryforge.Sql.{TableRef, qualified}
use queryforge.Sql.Tree.{Node, range_var, common_table_expr, Nodes, nil, cons, Select, select, walk}

-- a < b on strings
unfoldable pub bytes_lt : Bytes → Bytes → Bool
bytes_lt xs [] = false
bytes_lt [] (y ∷ ys) = true
bytes_lt (x ∷ xs) (y ∷ ys) = if x == y then bytes_lt xs ys else ltb x y

unfoldable pub names_of_ctes : Nodes → List Bytes
names_of_ctes nil = []
names_of_ctes (cons (common_table_expr name q) ns) = to_lower name ∷ names_of_ctes ns
names_of_ctes (cons n ns) = names_of_ctes ns

-- cteNames
unfoldable pub cte_names : Select → List Bytes
unfolding names_of_ctes
cte_names (select set_op l r ctes targets into locking limit sort more) = names_of_ctes ctes

abbrev alias_or_empty : Option Bytes → Bytes
alias_or_empty none = []
alias_or_empty (some a) = a

-- The table that a visited node refers to, if it is a reference and not one to a CTE.
unfoldable pub reference : List Bytes → Node → Option TableRef
reference ctes (range_var schema name alias) =
    if member (to_lower name) ctes && is_empty schema
    then none
    else some (record { schema = schema; name = name; alias = alias_or_empty alias })
reference ctes n = none

-- The key of the set `seen`.
unfoldable pub ref_key : TableRef → Bytes
ref_key r = to_lower (qualified r) ++ (codes "|" ++ to_lower r.alias)

-- The references among the visited nodes, in their order.
unfoldable pub references : List Bytes → List Node → List TableRef
unfolding reference
references ctes [] = []
references ctes (n ∷ ns) =
    let rest = references ctes ns in elim (reference ctes n) [ none ↦ rest | some r ↦ r ∷ rest ]

abbrev pub by_name : TableRef → TableRef → Bool
by_name a b = bytes_lt (qualified a) (qualified b)

-- collectTables; sort.Slice, which may order equal names in any way, is the stable sort here.
unfoldable pub collect_tables : Node → List Bytes → List TableRef
unfolding references walk ref_key add_new
collect_tables n ctes = sort_stable by_name (add_new ref_key [] (references ctes (walk n)))
