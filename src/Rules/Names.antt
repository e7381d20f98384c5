-- ===== src/Rules/Names.antt =====
-- internal/rules/rules.go, resolveTables: the relation that a predicate means.
pub mod Resolution
use queryforge.Prelude.{
  ℕ, Bool, true, false, not, ◌&&◌, ◌++◌, Option, none, some, List, [], ◌∷◌, Bytes, bytes_eq,
  equal_fold, to_lower, is_empty, if◌then◌else◌,
}
use queryforge.Engine.{Column, Table, Schema, table}
use queryforge.Sql.{TableRef, Statement}
use queryforge.Rules.Missing.{Predicate}

-- The map `alias` as the sequence of its writes: a table's alias, if it has one, and then its name.
abbrev alias_of : TableRef → List (Bytes × Bytes)
alias_of t =
    if is_empty t.alias
    then (to_lower t.name, t.name) ∷ []
    else (to_lower t.alias, t.name) ∷ (to_lower t.name, t.name) ∷ []

unfoldable pub alias_map : List TableRef → List (Bytes × Bytes)
alias_map [] = []
alias_map (t ∷ ts) = alias_of t ++ alias_map ts

-- A lookup: the last write of a key counts.
unfoldable pub lookup : Bytes → List (Bytes × Bytes) → Option Bytes
lookup key [] = none
lookup key ((k, name) ∷ ws) =
    let later = lookup key ws in
    elim later [ some n ↦ some n | none ↦ if bytes_eq k key then some name else none ]

abbrev or_same : Bytes → Option Bytes → Bytes
or_same written none = written
or_same written (some real) = real

module _ {F : Type 0} (schema : Schema F) where
  -- The table's name, once for each of its columns with the name that is looked for.
  abbrev pub owners_in : Bytes → Bytes → List (Column F) → List Bytes
  owners_in column name [] = []
  owners_in column name (c ∷ cs) =
      let rest = owners_in column name cs in if equal_fold c.name column then name ∷ rest else rest

  abbrev of_table : Bytes → Option (Table F) → List Bytes
  of_table column none = []
  of_table column (some t) = owners_in column t.name t.columns

  -- The rounds of the two loops of resolveUnqualified that find the column, in their order.
  unfoldable pub owners : Bytes → List TableRef → List Bytes
  owners column [] = []
  owners column (r ∷ rs) = of_table column (table schema r.name) ++ owners column rs

-- `found` after those rounds; a second table makes the name ambiguous, which is the empty name.
unfoldable pub pick_owner : Bytes → List Bytes → Bytes
pick_owner found [] = found
pick_owner found (n ∷ ns) =
    let rest = pick_owner n ns in
    if not (is_empty found) && not (equal_fold found n) then [] else rest

module _ {F : Type 0} (schema : Schema F) (st : Statement) where
  -- resolveUnqualified, for a schema that is there
  unfoldable pub resolve_unqualified : Bytes → Bytes
  unfolding owners pick_owner
  resolve_unqualified column = pick_owner [] (owners schema column st.tables)

  abbrev real_name : Bytes → Bytes
  real_name written = or_same written (lookup (to_lower written) (alias_map st.tables))

  -- The body of the loop.
  unfoldable pub resolve : Predicate → Predicate
  unfolding resolve_unqualified lookup alias_map
  resolve p = record p {
    qualifier_as_written = p.table;
    table = if is_empty p.table then resolve_unqualified p.column else real_name p.table;
    other_table = if is_empty p.other_table then p.other_table else real_name p.other_table;
  }

  -- resolveTables
  unfoldable pub resolve_tables : List Predicate → List Predicate
  unfolding resolve
  resolve_tables [] = []
  resolve_tables (p ∷ ps) = resolve p ∷ resolve_tables ps
