-- ===== src/Rules/Missing.antt =====
-- internal/rules/rules.go, checkMissingIndexes: the indexes that the rules suggest.
pub mod Warranted
use queryforge.Prelude.{
  ℕ, Bool, true, false, not, ◌&&◌, ◌++◌, Option, none, some, List, [], ◌∷◌, Bytes, codes, bytes_eq,
  equal_fold, lower_byte, to_lower, member, join, is_empty, any_of, find, keep, ltb, leb, map, ◌==◌,
  ◌||◌, if◌then◌else◌,
}
use queryforge.Prelude.Float.{FloatOps}
use queryforge.Engine.{Column, Index, Table, Schema, table}
use queryforge.Rules.{Finding, high, low}

-- A comparison of a WHERE or JOIN clause.
pub record Predicate : Type 0 where
  pub table : Bytes
  pub qualifier_as_written : Bytes
  pub column : Bytes
  pub operator : Bytes
  pub wrapped_by : Bytes
  pub cast_to : Bytes
  pub literal_text : Bytes
  pub is_join : Bool
  pub other_table : Bytes
  pub other_col : Bytes

abbrev leads_with : Bytes → List Bytes → Bool
leads_with column [] = false
leads_with column (c ∷ cs) = equal_fold c column

-- indexLeadsWith
unfoldable pub index_leads_with : {F : Type 0} → Table F → Bytes → Bool
index_leads_with t column = any_of (λ (i : Index). leads_with column i.columns) t.indexes

-- columnOf2
unfoldable pub column_of : {F : Type 0} → Table F → Bytes → Option (Column F)
column_of t name = find (λ c. equal_fold c.name name) t.columns

-- qualify
unfoldable pub qualify : Bytes → Bytes → Bytes
qualify t column = if is_empty t then column else t ++ codes "." ++ column

abbrev is_word_byte : ℕ → Bool
is_word_byte c = (leb 97 c && leb c 122) || (leb 48 c && leb c 57) || c == 95

-- sanitize
unfoldable pub sanitize : Bytes → Bytes
sanitize s = keep is_word_byte (to_lower s)

abbrev describe_index : Index → Bytes
describe_index i = i.name ++ codes "(" ++ join i.columns (codes ", ") ++ codes ")"

-- describeIndexes
unfoldable pub describe_indexes : {F : Type 0} → Table F → Bytes
describe_indexes t = elim t.indexes [
  | [] ↦ codes "none"
  | i ∷ is ↦ join (map describe_index (i ∷ is)) (codes ", ")
]

-- The DDL of a suggestion.
unfoldable pub index_ddl : {F : Type 0} → Table F → Bytes → Bytes
unfolding sanitize
index_ddl t column =
    codes "CREATE INDEX idx_"
    ++ sanitize t.name
    ++ codes "_"
    ++ sanitize column
    ++ codes " ON "
    ++ t.name
    ++ codes " ("
    ++ column
    ++ codes ")"

-- The key of the set `proposed`.
abbrev pub proposal_key : Bytes → Bytes → Bytes
proposal_key name column = to_lower (name ++ codes "." ++ column)

-- The finding of a missing index.
abbrev pub missing_index : {F : Type 0} → Table F → Bytes → Finding
missing_index t column = record {
  code = codes "missing-index";
  title = codes "No index leads with " ++ qualify t.name column;
  severity = high;
  table = t.name;
  columns = column ∷ [];
  evidence = codes "existing indexes: " ++ describe_indexes t;
  rewrite = [];
  suggested_index = index_ddl t column;
}

-- What one round of the loop does: it continues, adds a finding, or adds one and a key.
pub data Step : Type 0 where
  skip : Step
  note : Finding → Step
  suggest : Bytes → Finding → Step

-- `show` is fmt's %.0f.
module _ {F : Type 0} (fl : FloatOps F) (show : F → Bytes) (schema : Schema F) where
  abbrev pub low_selectivity : Table F → Predicate → Column F → Finding
  low_selectivity t p c = record {
    code = codes "low-selectivity-column";
    title =
        qualify t.name p.column
        ++ codes " has only ~"
        ++ show c.distinct_values
        ++ codes " distinct values; an index would not help";
    severity = low;
    table = t.name;
    columns = p.column ∷ [];
    evidence = [];
    rewrite = [];
    suggested_index = [];
  }

  abbrev pub propose_index : List Bytes → Predicate → Table F → Step
  propose_index proposed p t =
      if member (proposal_key t.name p.column) proposed
      then skip
      else suggest (proposal_key t.name p.column) (missing_index t p.column)

  abbrev pub with_column : List Bytes → Predicate → Table F → Option (Column F) → Step
  with_column proposed p t none = propose_index proposed p t
  with_column proposed p t (some c) =
      if fl.lt (fl.lit 0) c.distinct_values && fl.lt c.distinct_values (fl.lit 3) && not p.is_join
      then note (low_selectivity t p c)
      else propose_index proposed p t

  abbrev pub with_table : List Bytes → Predicate → Option (Table F) → Step
  with_table proposed p none = skip
  with_table proposed p (some t) =
      if index_leads_with t p.column
      then skip
      else if ltb t.row_estimate 1000
      then skip
      else with_column proposed p t (column_of t p.column)

  -- One round of the loop.
  unfoldable pub step : List Bytes → Predicate → Step
  step proposed p =
      if is_empty p.table || is_empty p.column
      then skip
      else with_table proposed p (table schema p.table)

  -- The loop over the predicates.
  unfoldable pub missing_loop : List Bytes → List Predicate → List Finding
  unfolding step
  missing_loop proposed [] = []
  missing_loop proposed (p ∷ ps) = elim (step proposed p) [
    | skip ↦ missing_loop proposed ps
    | note f ↦ f ∷ missing_loop proposed ps
    | suggest key f ↦ f ∷ missing_loop (key ∷ proposed) ps
  ]

  -- checkMissingIndexes, for a schema that is there.
  unfoldable pub check_missing_indexes : List Predicate → List Finding
  unfolding missing_loop
  check_missing_indexes ps = missing_loop [] ps
