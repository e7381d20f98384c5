-- ===== src/Rules/Tree/Predicates.antt =====
-- internal/rules/rules.go, extractPredicates: the comparisons of a statement that involve a column.
pub mod Meaning
pub mod Exact
pub mod Flip
use queryforge.Prelude.{
  ℕ, Bool, true, false, ◌++◌, Option, none, some, List, [], ◌∷◌, Bytes, codes, bytes_eq, to_lower,
  member, is_empty, not, keep, if◌then◌else◌,
}
use queryforge.Prelude.Once.{add_new}
use queryforge.Sql.Tree.{Node, a_expr, Child, Nodes, walk_tree}
use queryforge.Rules.Missing.{Predicate}
use queryforge.Rules.Tree.{SideInfo, operator_name, analyse_side, const_text, flip_operator}

unfoldable pub is_comparison : Bytes → Bool
unfolding member bytes_eq
is_comparison op =
    member op
      (codes "=" ∷ codes "<" ∷ codes "<=" ∷ codes ">" ∷ codes ">=" ∷ codes "<>" ∷ codes "!=" ∷ [])

abbrev or_nothing : Option Bytes → Bytes
or_nothing none = []
or_nothing (some t) = t

-- column = column: the predicate of one side, joined to the other.
abbrev joined : Bytes → SideInfo → SideInfo → Predicate
joined op this that = record {
  table = this.ref.table;
  qualifier_as_written = [];
  column = this.ref.column;
  operator = op;
  wrapped_by = this.wrapper;
  cast_to = this.cast_to;
  literal_text = [];
  is_join = true;
  other_table = that.ref.table;
  other_col = that.ref.column;
}

abbrev compared : Bytes → SideInfo → Bytes → Predicate
compared op side lit = record {
  table = side.ref.table;
  qualifier_as_written = [];
  column = side.ref.column;
  operator = op;
  wrapped_by = side.wrapper;
  cast_to = side.cast_to;
  literal_text = lit;
  is_join = false;
  other_table = [];
  other_col = [];
}

-- The predicates of a comparison, by what its sides are.
unfoldable pub by_sides : Bytes → Child → Child → Option SideInfo → Option SideInfo → List Predicate
unfolding const_text flip_operator
by_sides op l r (some left) (some right) = joined op left right ∷ joined op right left ∷ []
by_sides op l r (some left) none = compared op left (or_nothing (const_text r)) ∷ []
by_sides op l r none (some right) =
    compared (flip_operator op) right (or_nothing (const_text l)) ∷ []
by_sides op l r none none = []

unfoldable pub compare_sides : Bytes → Child → Child → List Predicate
unfolding is_comparison by_sides analyse_side
compare_sides op l r =
    if is_comparison op then by_sides op l r (analyse_side l) (analyse_side r) else []

-- The predicates that the visitor of extractPredicates hands to addPredicate at a node.
unfoldable pub comparisons : Node → List Predicate
unfolding operator_name compare_sides
comparisons (a_expr op l r) = compare_sides (operator_name op) l r
comparisons n = []

unfoldable pub all_comparisons : List Node → List Predicate
unfolding comparisons
all_comparisons [] = []
all_comparisons (n ∷ ns) = comparisons n ++ all_comparisons ns

-- The key of the set `seen`.
unfoldable pub predicate_key : Predicate → Bytes
unfolding to_lower
predicate_key p = to_lower (
    p.table
    ++ (codes "|"
        ++ (p.column
            ++ (codes "|"
                ++ (p.operator
                    ++ (codes "|" ++ (p.wrapped_by ++ (codes "|" ++ p.literal_text))))))))

abbrev pub has_column : Predicate → Bool
has_column p = not (is_empty p.column)

-- addPredicate, for the predicates one after the other.
unfoldable pub add_predicates : List Predicate → List Predicate
unfolding add_new predicate_key
add_predicates ps = add_new predicate_key [] (keep has_column ps)

-- extractPredicates, over the statements of a tree.
unfoldable pub extract_predicates : List Node → List Predicate
unfolding add_predicates all_comparisons walk_tree
extract_predicates tree = add_predicates (all_comparisons (walk_tree tree))
