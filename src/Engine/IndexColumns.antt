-- ===== src/Engine/IndexColumns.antt =====
-- internal/engine/postgres.go: indexColumns, the columns of an index by its definition.
pub mod Split
use mathlib.Core.List.{reverse}
use queryforge.Prelude.{
  ℕ, zero, suc, Bool, true, false, ◌++◌, Option, none, some, List, [], ◌∷◌, Bytes, codes, is_empty,
  trim_prefix, trim_space, ◌==◌, if◌then◌else◌,
}
use queryforge.Prelude.Int.{ℤ, pos, negsuc}

abbrev up : ℤ → ℤ
up (pos n) = pos (suc n)
up (negsuc zero) = pos zero
up (negsuc (suc n)) = negsuc n

abbrev down : ℤ → ℤ
down (pos zero) = negsuc zero
down (pos (suc n)) = pos n
down (negsuc n) = negsuc (suc n)

abbrev is_top : ℤ → Bool
is_top (pos zero) = true
is_top d = false

-- The depth behind a byte.
abbrev pub depth_after : ℤ → ℕ → ℤ
depth_after d c = if c == b'(' then up d else if c == b')' then down d else d

abbrev pub cuts : ℤ → ℕ → Bool
cuts d c = if c == b',' then is_top d else false

-- The loop of splitTopLevel; `part` is s[start:i].
unfoldable pub split_from : ℤ → Bytes → Bytes → List Bytes
split_from d part [] = part ∷ []
split_from d part (c ∷ s) = elim (cuts d c) [
  | true ↦ part ∷ split_from d [] s
  | false ↦ split_from (depth_after d c) (part ++ c ∷ []) s
]

-- splitTopLevel
unfoldable pub split_top_level : Bytes → List Bytes
unfolding split_from
split_top_level s = split_from (pos 0) [] s

-- What is between a parenthesis that was opened, at this depth, and the one that closes it.
unfoldable pub enclosed : ℕ → Bytes → Bytes → Option Bytes
enclosed depth part [] = none
enclosed depth part (c ∷ s) =
    let deeper = enclosed (suc depth) (part ++ c ∷ []) s in
    let same = enclosed depth (part ++ c ∷ []) s in
    if c == b'('
    then deeper
    else if c == b')'
    then elim depth [ zero ↦ some part | suc n ↦ enclosed n (part ++ c ∷ []) s ]
    else same

-- def[open+1:end]
unfoldable pub column_list : Bytes → Option Bytes
unfolding enclosed
column_list [] = none
column_list (c ∷ s) = let rest = column_list s in if c == b'(' then enclosed 0 [] s else rest

-- strings.TrimSuffix
abbrev trim_suffix : Bytes → Bytes → Bytes
trim_suffix s suffix = reverse (trim_prefix (reverse s) (reverse suffix))

abbrev trim_order : List Bytes → Bytes → Bytes
trim_order [] part = part
trim_order (suffix ∷ more) part = trim_order more (trim_suffix (trim_space part) suffix)

abbrev drop_marks : Bytes → Bytes
drop_marks [] = []
drop_marks (c ∷ s) = let rest = drop_marks s in if c == b'"' then rest else c ∷ s

-- strings.Trim(part, `"`)
abbrev trim_marks : Bytes → Bytes
trim_marks s = reverse (drop_marks (reverse (drop_marks s)))

abbrev pub column_of_part : Bytes → Bytes
column_of_part part =
    trim_order (codes " DESC" ∷ codes " ASC" ∷ codes " NULLS FIRST" ∷ codes " NULLS LAST" ∷ [])
      (trim_space part)

abbrev columns_of_parts : List Bytes → List Bytes
columns_of_parts [] = []
columns_of_parts (part ∷ parts) =
    let rest = columns_of_parts parts in
    if is_empty (column_of_part part) then rest else trim_marks (column_of_part part) ∷ rest

-- indexColumns
unfoldable pub index_columns : Bytes → List Bytes
unfolding column_list split_top_level trim_space trim_prefix
index_columns def = elim (column_list def) [
  | none ↦ []
  | some inner ↦ columns_of_parts (split_top_level inner)
]
