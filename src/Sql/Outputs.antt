-- ===== src/Sql/Outputs.antt =====
-- internal/sqlparse/sqlparse.go: the output columns of a SELECT, and whether it has a star.
use queryforge.Prelude.{
  Bool, true, false, ◌||◌, List, [], ◌∷◌, Bytes, codes, is_empty, if◌then◌else◌,
}
use queryforge.Sql.Tree.{
  res_target, column_ref, text, a_star, Child, present, Nodes, nil, cons, Select, select, Branch,
  no_branch, branch,
}

-- The name of a reference by its last field.
unfoldable pub last_name : Nodes → Bytes
last_name nil = []
last_name (cons (text s) nil) = s
last_name (cons a_star nil) = codes "*"
last_name (cons n nil) = []
last_name (cons n (cons m ns)) = last_name (cons m ns)

-- inferColumnName
unfoldable pub infer_column_name : Child → Bytes
unfolding last_name
infer_column_name (present (column_ref fs)) = last_name fs
infer_column_name _ = []

-- The columns of a target list.
unfoldable pub target_columns : Nodes → List Bytes
unfolding infer_column_name
target_columns nil = []
target_columns (cons (res_target name v) ns) =
    (if is_empty name then infer_column_name v else name) ∷ target_columns ns
target_columns (cons n ns) = target_columns ns

-- outputColumns; a set operation is named by its left branch.
unfoldable pub output_columns : Select → List Bytes
unfolding target_columns
output_columns (select true (branch l) r ctes targets into locking limit sort more) =
    output_columns l
output_columns (select true no_branch r ctes targets into locking limit sort more) =
    target_columns targets
output_columns (select false l r ctes targets into locking limit sort more) = target_columns targets

unfoldable pub any_star : Nodes → Bool
any_star nil = false
any_star (cons a_star ns) = true
any_star (cons n ns) = any_star ns

abbrev pub is_star : Child → Bool
is_star (present (column_ref fs)) = any_star fs
is_star _ = false

unfoldable pub targets_star : Nodes → Bool
unfolding any_star
targets_star nil = false
targets_star (cons (res_target name v) ns) = is_star v || targets_star ns
targets_star (cons n ns) = targets_star ns

-- hasSelectStar
unfoldable mutual
  pub has_select_star : Select → Bool
  has_select_star (select true l r ctes targets into locking limit sort more) =
      branch_star l || branch_star r
  has_select_star (select false l r ctes targets into locking limit sort more) =
      targets_star targets

  pub branch_star : Branch → Bool
  branch_star no_branch = false
  branch_star (branch s) = has_select_star s
