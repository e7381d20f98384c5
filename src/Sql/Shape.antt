-- ===== src/Sql/Shape.antt =====
-- SameShapeAs of internal/sqlparse/sqlparse.go: the structural gate in front of the checksum.
use queryforge.Prelude.{
  ℕ, ◌+◌, ◌≡◌, refl, sym, ◌↔◌, ◌⊎◌, All, Bool, true, false, not, ◌&&◌, Option, none, some, List, [],
  ◌∷◌, map, length, Bytes, to_lower, equal_fold, equal_fold_iff, member, is_empty, ◌==◌,
  if◌then◌else◌, inl, inr, arith,
}
use queryforge.Sql.{TableRef, qualified, Statement}

pub data ShapeError : Type 0 where
  column_count : ℕ → ℕ → ShapeError
  column_name : ℕ → Bytes → Bytes → ShapeError
  new_table dropped_table : Bytes → ShapeError

-- tableSet: a set is the list of its members. A Go map is read in an unspecified order, so which
-- table a refusal names is not determined; here it is the first.
unfoldable pub table_set : List TableRef → List Bytes
unfolding qualified to_lower
table_set = map (λ t. to_lower (qualified t))

-- The loop over the columns, from column number `i`.
unfoldable pub check_columns : ℕ → List Bytes → List Bytes → Option ShapeError
check_columns i (x ∷ xs) (y ∷ ys) =
    let rest = check_columns (i + 1) xs ys in
    if not (is_empty x) && (not (is_empty y) && not (equal_fold x y))
    then some (column_name (i + 1) x y)
    else rest
check_columns i _ _ = none

-- The first of some tables that is not in a set.
unfoldable pub first_outside : List Bytes → List Bytes → Option Bytes
first_outside set [] = none
first_outside set (t ∷ ts) = if member t set then first_outside set ts else some t

abbrev pub or_else : {A : Type 0} → Option A → Option A → Option A
or_else none b = b
or_else (some a) b = some a

abbrev pub refuse : {A : Type 0} → (Bytes → A) → Option Bytes → Option A
refuse f none = none
refuse f (some t) = some (f t)

-- (*Statement).SameShapeAs; `none` is a nil error.
unfoldable pub same_shape : Statement → Statement → Option ShapeError
unfolding table_set check_columns first_outside
same_shape s o =
    if not (length s.output_cols == length o.output_cols)
    then some (column_count (length s.output_cols) (length o.output_cols))
    else or_else
        (if not s.select_star && not o.select_star
          then check_columns 0 s.output_cols o.output_cols
          else none)
        (or_else (refuse new_table (first_outside (table_set s.tables) (table_set o.tables)))
          (refuse dropped_table (first_outside (table_set o.tables) (table_set s.tables))))

-- Two column names that may stand for each other: one is unknown, or they differ in case alone.
abbrev pub AgreesWith : Bytes → Bytes → Type 0
AgreesWith a b = (a ≡ []) ⊎ (b ≡ []) ⊎ (to_lower a ≡ to_lower b)

abbrev pub Agree : List Bytes → List Bytes → Type 0
Agree (x ∷ xs) (y ∷ ys) = AgreesWith x y × Agree xs ys
Agree _ _ = Unit

-- Every one of the texts is in the set.
abbrev pub Within : List Bytes → List Bytes → Type 0
Within set = All (λ t. member t set ≡ true)

column_agrees :
    (x y : Bytes)
    → ((not (is_empty x) && (not (is_empty y) && not (equal_fold x y))) ≡ false) ↔ AgreesWith x y
column_agrees [] y = (λ h. inl refl, λ h. refl)
column_agrees (a ∷ x) [] = (λ h. inr (inl refl), λ h. refl)
column_agrees (a ∷ x) (b ∷ y) =
    let fold = equal_fold_iff (a ∷ x) (b ∷ y) in
    (λ h. inr (inr (fold.0 (ground arith))), same fold.1)
  where
    same :
        (to_lower (a ∷ x) ≡ to_lower (b ∷ y) → equal_fold (a ∷ x) (b ∷ y) ≡ true)
        → AgreesWith (a ∷ x) (b ∷ y)
        → not (equal_fold (a ∷ x) (b ∷ y)) ≡ false
    same f (inl e) = absurd (cc)
    same f (inr (inl e)) = absurd (cc)
    same f (inr (inr e)) = rw (f e)

check_columns_iff : (i : ℕ) (xs ys : List Bytes) → (check_columns i xs ys ≡ none) ↔ Agree xs ys
unfolding check_columns
check_columns_iff i [] ys = (λ h. tt, λ h. refl)
check_columns_iff i (x ∷ xs) [] = (λ h. tt, λ h. refl)
check_columns_iff i (x ∷ xs) (y ∷ ys) =
    let this = column_agrees x y in
    let rest = check_columns_iff (i + 1) xs ys in
    (λ h. (this.0 (ground arith), rest.0 (ground arith)), λ h. rw (this.1 h.0) (rest.1 h.1))

first_outside_iff : (set ts : List Bytes) → (first_outside set ts ≡ none) ↔ Within set ts
unfolding first_outside
first_outside_iff set [] = (λ h. tt, λ h. refl)
first_outside_iff set (t ∷ ts) =
    let rest = first_outside_iff set ts in
    (λ h. (ground arith, rest.0 (ground arith)), λ h. rw h.0 (rest.1 h.1))

when_plain :
    (a b : Bool) (c : Option ShapeError)
    → (a ≡ false → b ≡ false → c ≡ none)
    → (if not a && not b then c else none) ≡ none
when_plain true b c h = refl
when_plain false true c h = refl
when_plain false false c h = h refl refl

-- What SameShapeAs accepts.
pub record SameShape (s o : Statement) : Type 0 where
  pub same_count : length s.output_cols ≡ length o.output_cols
  pub same_columns :
      s.select_star ≡ false → o.select_star ≡ false → Agree s.output_cols o.output_cols
  pub no_new_table : Within (table_set s.tables) (table_set o.tables)
  pub no_dropped_table : Within (table_set o.tables) (table_set s.tables)

-- SameShapeAs passes a candidate exactly when it has as many output columns, columns that agree by
-- name where both are named and neither statement selects `*`, and the same set of tables.
pub same_shape_iff : (s o : Statement) → (same_shape s o ≡ none) ↔ SameShape s o
unfolding same_shape
same_shape_iff s o =
    let columns = check_columns_iff 0 s.output_cols o.output_cols in
    let news = first_outside_iff (table_set s.tables) (table_set o.tables) in
    let gone = first_outside_iff (table_set o.tables) (table_set s.tables) in
    (
      λ h. record {
        same_count = ground arith;
        same_columns = λ p q. columns.0 (ground arith);
        no_new_table = news.0 (ground arith);
        no_dropped_table = gone.0 (ground arith);
      },
      λ h. ground (
        arith,
        h.same_count,
        when_plain s.select_star o.select_star (check_columns 0 s.output_cols o.output_cols)
            (λ p q. columns.1 (h.same_columns p q)),
        news.1 h.no_new_table,
        gone.1 h.no_dropped_table,
      ),
    )

AgreesWith-sym : (x y : Bytes) → AgreesWith x y → AgreesWith y x
AgreesWith-sym x y (inl e) = inr (inl e)
AgreesWith-sym x y (inr (inl e)) = inl e
AgreesWith-sym x y (inr (inr e)) = inr (inr (sym e))

Agree-sym : (xs ys : List Bytes) → Agree xs ys → Agree ys xs
Agree-sym [] [] h = tt
Agree-sym [] (y ∷ ys) h = tt
Agree-sym (x ∷ xs) [] h = tt
Agree-sym (x ∷ xs) (y ∷ ys) h = (AgreesWith-sym x y h.0, Agree-sym xs ys h.1)

-- The gate is symmetric: where a candidate passes for the original, the original would pass for the
-- candidate, so no rewrite adds or drops a table, in either direction.
pub same_shape_sym : (s o : Statement) → same_shape s o ≡ none → same_shape o s ≡ none
same_shape_sym s o h =
    let same = (same_shape_iff s o).0 h in
    (same_shape_iff o s).1 (record {
      same_count = sym same.same_count;
      same_columns = λ p q. Agree-sym s.output_cols o.output_cols (same.same_columns q p);
      no_new_table = same.no_dropped_table;
      no_dropped_table = same.no_new_table;
    })
