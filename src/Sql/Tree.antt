-- ===== src/Sql/Tree.antt =====
-- The parse tree of libpg_query, as far as the program looks into it, and internal/sqlparse/walk.go,
-- which visits its nodes. `Range` leaves the order of a message's fields open; here it is that of the
-- constructors' arguments.
use queryforge.Prelude.{Bool, Option, List, [], ◌∷◌, ◌++◌, Bytes, codes}

-- The statements that nodeKind tells apart, besides a SELECT.
pub data Kind : Type 0 where
  insert_stmt update_stmt delete_stmt merge_stmt create_stmt drop_stmt truncate_stmt copy_stmt
        explain_stmt transaction_stmt variable_set_stmt unsupported :
      Kind

-- pg.A_Const
pub data Literal : Type 0 where
  text_literal float_literal integer_literal : Bytes → Literal
  boolean_literal : Bool → Literal
  null_literal : Literal

-- `other` is a node of any other kind, with the nodes below it.
mutual
  pub data Node : Type 0 where
    select_stmt : Select → Node
    statement : Kind → Nodes → Node
    common_table_expr : Bytes → Child → Node
    res_target : Bytes → Child → Node
    range_var : Bytes → Bytes → Option Bytes → Node
    column_ref : Nodes → Node
    text : Bytes → Node
    a_star : Node
    a_expr : Nodes → Child → Child → Node
    func_call : Nodes → Nodes → Nodes → Node
    type_cast : Child → Nodes → Node
    a_const : Literal → Node
    sub_link : Bool → Child → Child → Node
    other : Nodes → Node

  -- A field that may be nil.
  pub data Child : Type 0 where
    absent : Child
    present : Node → Child

  pub data Nodes : Type 0 where
    nil : Nodes
    cons : Node → Nodes → Nodes

  -- Whether it is a set operation, its two branches, the CTEs, the targets, whether there is an INTO,
  -- the locking clauses, the limit, the sort clause, and all else.
  pub data Select : Type 0 where
    select : Bool → Branch → Branch → Nodes → Nodes → Bool → Nodes → Child → Nodes → Nodes → Select

  -- Larg and Rarg, which are messages and no nodes.
  pub data Branch : Type 0 where
    no_branch : Branch
    branch : Select → Branch

abbrev pub kind_name : Kind → Bytes
kind_name insert_stmt = codes "InsertStmt"
kind_name update_stmt = codes "UpdateStmt"
kind_name delete_stmt = codes "DeleteStmt"
kind_name merge_stmt = codes "MergeStmt"
kind_name create_stmt = codes "CreateStmt"
kind_name drop_stmt = codes "DropStmt"
kind_name truncate_stmt = codes "TruncateStmt"
kind_name copy_stmt = codes "CopyStmt"
kind_name explain_stmt = codes "ExplainStmt"
kind_name transaction_stmt = codes "TransactionStmt"
kind_name variable_set_stmt = codes "VariableSetStmt"
kind_name unsupported = codes "unsupported statement"

-- nodeKind
unfoldable pub node_kind : Node → Bytes
node_kind (select_stmt s) = codes "SelectStmt"
node_kind (statement k ns) = kind_name k
node_kind n = codes "unsupported statement"

-- walk: the nodes that are visited, depth first.
unfoldable mutual
  pub walk : Node → List Node
  walk (select_stmt s) = select_stmt s ∷ walk_select s
  walk (statement k ns) = statement k ns ∷ walk_nodes ns
  walk (common_table_expr name q) = common_table_expr name q ∷ walk_child q
  walk (res_target name v) = res_target name v ∷ walk_child v
  walk (range_var schema name alias) = range_var schema name alias ∷ []
  walk (column_ref fs) = column_ref fs ∷ walk_nodes fs
  walk (text s) = text s ∷ []
  walk a_star = a_star ∷ []
  walk (a_expr op l r) = a_expr op l r ∷ (walk_nodes op ++ (walk_child l ++ walk_child r))
  walk (func_call name args more) =
      func_call name args more ∷ (walk_nodes name ++ (walk_nodes args ++ walk_nodes more))
  walk (type_cast arg names) = type_cast arg names ∷ (walk_child arg ++ walk_nodes names)
  walk (a_const c) = a_const c ∷ []
  walk (sub_link any test query) = sub_link any test query ∷ (walk_child test ++ walk_child query)
  walk (other ns) = other ns ∷ walk_nodes ns

  pub walk_child : Child → List Node
  walk_child absent = []
  walk_child (present n) = walk n

  pub walk_nodes : Nodes → List Node
  walk_nodes nil = []
  walk_nodes (cons n ns) = walk n ++ walk_nodes ns

  pub walk_select : Select → List Node
  walk_select (select set_op l r ctes targets into locking limit sort more) =
      walk_nodes targets
      ++ (walk_nodes more
          ++ (walk_nodes sort
              ++ (walk_child limit
                  ++ (walk_nodes locking
                      ++ (walk_nodes ctes ++ (walk_branch l ++ walk_branch r))))))

  pub walk_branch : Branch → List Node
  walk_branch no_branch = []
  walk_branch (branch s) = walk_select s

-- The nodes of a list, as a list.
abbrev pub to_list : Nodes → List Node
to_list nil = []
to_list (cons n ns) = n ∷ to_list ns

-- WalkTree, over the statements of a tree.
unfoldable pub walk_tree : List Node → List Node
unfolding walk
walk_tree [] = []
walk_tree (n ∷ ns) = walk n ++ walk_tree ns
