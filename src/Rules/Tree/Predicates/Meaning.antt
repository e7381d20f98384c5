-- ===== src/Rules/Tree/Predicates/Meaning.antt =====
-- internal/rules/rules.go: what the comparisons of extractPredicates mean.
use mathlib.Core.List.{Memᴰ}
use queryforge.Prelude.{none, ◌≡◌, true, Option, none, some, List, [], ◌∷◌, Bytes, codes}
use queryforge.Sql.Tree.{Node, Nodes, a_expr, Child}
use queryforge.Rules.Missing.{Predicate}
use queryforge.Rules.Tree.{operator_name, const_text, SideInfo, analyse_side, flip_operator}

-- The operators of a comparison.
abbrev pub comparing : List Bytes
comparing =
    codes "=" ∷ codes "<" ∷ codes "<=" ∷ codes ">" ∷ codes ">=" ∷ codes "<>" ∷ codes "!=" ∷ []

-- `p` is `side` compared by `op` with a text, or with the column of the other side.
pub record IsTest (op : Bytes) (side : SideInfo) (lit : Bytes) (p : Predicate) : Type 0 where
  pub of_table : p.table ≡ side.ref.table
  pub of_column : p.column ≡ side.ref.column
  pub by_operator : p.operator ≡ op
  pub in_wrapper : p.wrapped_by ≡ side.wrapper
  pub under_cast : p.cast_to ≡ side.cast_to
  pub with_text : p.literal_text ≡ lit

pub record IsJoin (op : Bytes) (side other : SideInfo) (p : Predicate) : Type 0 where
  pub test : IsTest op side [] p
  pub joins : p.is_join ≡ true
  pub other_table : p.other_table ≡ other.ref.table
  pub other_column : p.other_col ≡ other.ref.column

-- The text of a constant, which is empty for anything else.
abbrev pub text_of : Option Bytes → Bytes
text_of none = []
text_of (some t) = t

-- The predicates that a comparison means: one for each column of a comparison of two, and else one for
-- the column, the operator being turned where the column is on the right.
pub data Means (op : Bytes) (l r : Child) (p : Predicate) : Type 0 where
  left_column :
      {a b : SideInfo}
      → analyse_side l ≡ some a
      → analyse_side r ≡ some b
      → IsJoin op a b p
      → Means op l r p
  right_column :
      {a b : SideInfo}
      → analyse_side l ≡ some a
      → analyse_side r ≡ some b
      → IsJoin op b a p
      → Means op l r p
  left_only :
      {a : SideInfo}
      → analyse_side l ≡ some a
      → analyse_side r ≡ none
      → IsTest op a (text_of (const_text r)) p
      → Means op l r p
  right_only :
      {b : SideInfo}
      → analyse_side l ≡ none
      → analyse_side r ≡ some b
      → IsTest (flip_operator op) b (text_of (const_text l)) p
      → Means op l r p

pub data Gives : Node → Predicate → Type 0 where
  comparison :
      (name : Nodes) {l r : Child} {p : Predicate}
      → Memᴰ (operator_name name) comparing
      → Means (operator_name name) l r p
      → Gives (a_expr name l r) p
