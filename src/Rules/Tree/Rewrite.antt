-- ===== src/Rules/Tree/Rewrite.antt =====
-- internal/rules/rules.go: the rewrite of DATE(column) = 'day' as a range. replaceFold, which works on
-- the lower case of Unicode, is an argument, with `none` where it finds nothing.
use queryforge.Prelude.{
  Bool, true, ◌&&◌, not, ◌++◌, Option, none, some, List, [], ◌∷◌, Bytes, codes, bytes_eq,
  equal_fold, to_lower, member, is_empty, ◌==◌, any_of, if◌then◌else◌,
}
use mathlib.Core.List.{reverse}
use queryforge.Engine.{Column, Schema, Table, table}
use queryforge.Sql.{Statement}
use queryforge.Rules.Missing.{Predicate, qualify}

-- dateLikeTypes
abbrev pub date_like_types : List Bytes
date_like_types =
    codes "timestamp with time zone"
    ∷ codes "timestamp without time zone"
    ∷ codes "timestamptz"
    ∷ codes "timestamp"
    ∷ codes "date"
    ∷ []

-- A column of that name with a type that is none of them.
abbrev pub other_type : {F : Type 0} → Bytes → Column F → Bool
other_type name c = equal_fold c.name name && not (member (to_lower c.kind) date_like_types)

abbrev pub is_date_column : {F : Type 0} → Option (Table F) → Bytes → Bool
is_date_column none name = true
is_date_column (some t) name = not (any_of (other_type name) t.columns)

abbrev drop_quotes : Bytes → Bytes
drop_quotes [] = []
drop_quotes (c ∷ s) = let rest = drop_quotes s in if c == b'\'' then rest else c ∷ s

-- strings.Trim(s, "'")
unfoldable pub trim_quotes : Bytes → Bytes
trim_quotes s = reverse (drop_quotes (reverse (drop_quotes s)))

-- `old` and `replacement` of rewriteDateEquality.
abbrev pub date_call : Bytes → Bytes → Bytes
date_call col lit = codes "DATE(" ++ (col ++ (codes ") = '" ++ (lit ++ codes "'")))

abbrev pub date_range : Bytes → Bytes → Bytes
date_range col lit =
    col
    ++ (codes " >= '"
        ++ (lit
            ++ (codes "'::timestamptz AND "
                ++ (col ++ (codes " < '" ++ (lit ++ codes "'::timestamptz + INTERVAL '1 day'"))))))

-- rewriteDateEquality, for a schema that is there.
unfoldable pub rewrite_date_equality :
    {F : Type 0}
    → (Bytes → Bytes → Bytes → Option Bytes)
    → Statement
    → Predicate
    → Schema F
    → Option Bytes
unfolding bytes_eq to_lower equal_fold member qualify trim_quotes
rewrite_date_equality replace_fold st p schema =
    if not (bytes_eq p.operator (codes "="))
    then none
    else if is_empty p.literal_text
    then none
    else if not (bytes_eq (to_lower p.wrapped_by) (codes "date"))
    then none
    else if not (is_date_column (table schema p.table) p.column)
    then none
    else let col = qualify p.qualifier_as_written p.column in
      let lit = trim_quotes p.literal_text in
      replace_fold st.sql (date_call col lit) (date_range col lit)
