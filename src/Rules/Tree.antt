-- ===== src/Rules/Tree.antt =====
-- internal/rules/rules.go: what the rules read off the nodes of a parse tree. A pair (v, false) of
-- the source is `none`.
pub mod Predicates
pub mod Rewrite
pub mod Checks
pub mod Warranted
use queryforge.Prelude.{
  ℕ, Bool, true, false, ◌++◌, Option, none, some, List, [], ◌∷◌, Bytes, codes, bytes_eq,
  if◌then◌else◌,
}
use queryforge.Sql.Tree.{
  Literal, text_literal, float_literal, integer_literal, boolean_literal, null_literal, Node,
  column_ref, text, func_call, type_cast, a_const, Child, absent, present, Nodes, nil, cons,
}

pub record ColRef : Type 0 where
  pub table : Bytes
  pub column : Bytes

pub record SideInfo : Type 0 where
  pub ref : ColRef
  pub wrapper : Bytes
  pub cast_to : Bytes

-- The texts among the nodes.
unfoldable pub strings_of : Nodes → List Bytes
strings_of nil = []
strings_of (cons (text s) ns) = s ∷ strings_of ns
strings_of (cons n ns) = strings_of ns

abbrev last_two : List Bytes → ColRef
last_two [] = record { table = []; column = [] }
last_two (a ∷ []) = record { table = []; column = a }
last_two (a ∷ b ∷ []) = record { table = a; column = b }
last_two (a ∷ b ∷ c ∷ cs) = last_two (b ∷ c ∷ cs)

abbrev last_or_empty : List Bytes → Bytes
last_or_empty [] = []
last_or_empty (a ∷ []) = a
last_or_empty (a ∷ b ∷ bs) = last_or_empty (b ∷ bs)

-- columnRefName
unfoldable pub column_ref_name : Nodes → ColRef
unfolding strings_of
column_ref_name fields = last_two (strings_of fields)

-- funcName
unfoldable pub func_name : Nodes → Bytes
unfolding strings_of
func_name names = last_or_empty (strings_of names)

-- typeName
unfoldable pub type_name : Nodes → Bytes
unfolding strings_of
type_name names = last_or_empty (strings_of names)

-- operatorName
unfoldable pub operator_name : Nodes → Bytes
operator_name nil = []
operator_name (cons (text s) nil) = s
operator_name (cons n nil) = []
operator_name (cons n (cons m ns)) = operator_name (cons m ns)

abbrev wrapped : Bytes → Option SideInfo → Option SideInfo
wrapped name none = none
wrapped name (some i) = some (record i { wrapper = name })

abbrev cast : Bytes → Option SideInfo → Option SideInfo
cast name none = none
cast name (some i) = some (record i { cast_to = name })

-- analyseSide
unfoldable mutual
  unfolding column_ref_name func_name type_name

  pub analyse_side : Child → Option SideInfo
  analyse_side absent = none
  analyse_side (present n) = analyse_node n

  pub analyse_node : Node → Option SideInfo
  analyse_node (column_ref fields) =
      some (record { ref = column_ref_name fields; wrapper = []; cast_to = [] })
  analyse_node (func_call name args more) = wrapped (func_name name) (analyse_args args)
  analyse_node (type_cast arg names) = cast (type_name names) (analyse_side arg)
  analyse_node n = none

  -- The first argument that has a column.
  pub analyse_args : Nodes → Option SideInfo
  analyse_args nil = none
  analyse_args (cons n ns) = elim (analyse_node n) [ none ↦ analyse_args ns | some i ↦ some i ]

-- columnOf
unfoldable pub column_of_side : Child → ColRef
unfolding analyse_side
column_of_side c = elim (analyse_side c) [
  | none ↦ record { table = []; column = [] }
  | some i ↦ i.ref
]

abbrev const_literal : Literal → Option Bytes
const_literal (text_literal s) = some (codes "'" ++ (s ++ codes "'"))
const_literal (integer_literal digits) = some digits
const_literal (float_literal digits) = some digits
const_literal (boolean_literal true) = some (codes "true")
const_literal (boolean_literal false) = some (codes "false")
const_literal null_literal = none

-- constText
unfoldable mutual
  pub const_text : Child → Option Bytes
  const_text absent = none
  const_text (present n) = const_node n

  pub const_node : Node → Option Bytes
  const_node (type_cast arg names) = const_text arg
  const_node (a_const c) = const_literal c
  const_node n = none

-- flipOperator
unfoldable pub flip_operator : Bytes → Bytes
unfolding bytes_eq
flip_operator op =
    if bytes_eq op (codes "<")
    then codes ">"
    else if bytes_eq op (codes "<=")
    then codes ">="
    else if bytes_eq op (codes ">")
    then codes "<"
    else if bytes_eq op (codes ">=")
    then codes "<="
    else op
