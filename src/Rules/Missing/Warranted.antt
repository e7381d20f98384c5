-- ===== src/Rules/Missing/Warranted.antt =====
-- What an index suggestion of the rules rests on, and that none is made twice.
use mathlib.Core.List.{Memᴰ}
use queryforge.Prelude.{
  ◌≤◌, ◌≡◌, refl, ap, subst, ◌⊎◌, inl, inr, true, false, Option, none, some, List, [], ◌∷◌, Bytes,
  is_empty, member, ltb, All, All-imp, Bool-cases, ◌||◌, ◌&&◌, not, arith,
}
use queryforge.Prelude.Float.{FloatOps}
use queryforge.Engine.{Column, Table, Schema, table}
use queryforge.Rules.{Finding}
use queryforge.Rules.Missing.{
  Predicate, index_leads_with, column_of, index_ddl, proposal_key, missing_index, Step, skip, note,
  suggest, propose_index, with_column, with_table, step, missing_loop, check_missing_indexes,
}

-- The key of a suggestion, by its table and its column.
abbrev first_or : List Bytes → Bytes
first_or [] = []
first_or (c ∷ cs) = c

abbrev pub suggestion_key : Finding → Bytes
suggestion_key f = proposal_key f.table (first_or f.columns)

-- The suggestions among some findings are of tables and columns that are not in `proposed`, and of
-- no table and column twice.
abbrev pub NoneTwice : List Bytes → List Finding → Type 0
NoneTwice proposed [] = Unit
NoneTwice proposed (f ∷ fs) =
    ((is_empty f.suggested_index ≡ true) × NoneTwice proposed fs)
    ⊎ ((member (suggestion_key f) proposed ≡ false) × NoneTwice (suggestion_key f ∷ proposed) fs)

module _ {F : Type 0} (fl : FloatOps F) (show : F → Bytes) (schema : Schema F) where
  -- What a suggestion rests on: a predicate of the query, on a table of the schema with a thousand
  -- rows or more, none of whose indexes leads with the predicate's column.
  pub record Warranted (ps : List Predicate) (f : Finding) : Type 0 where
    pub predicate : Predicate
    pub in_query : Memᴰ predicate ps
    pub on : Table F
    pub resolved : table schema predicate.table ≡ some on
    pub unindexed : index_leads_with on predicate.column ≡ false
    pub large : 1000 ≤ on.row_estimate
    pub ddl : f.suggested_index ≡ index_ddl on predicate.column

  -- What a round's step is worth.
  record Sound (proposed : List Bytes) (p : Predicate) (key : Bytes) (f : Finding) : Type 0 where
    on : Table F
    resolved : table schema p.table ≡ some on
    unindexed : index_leads_with on p.column ≡ false
    large : 1000 ≤ on.row_estimate
    finding : f ≡ missing_index on p.column
    keyed : key ≡ suggestion_key f
    fresh : member key proposed ≡ false

  abbrev Justified : List Bytes → Predicate → Step → Type 0
  Justified proposed p skip = Unit
  Justified proposed p (note f) = f.suggested_index ≡ []
  Justified proposed p (suggest key f) = Sound proposed p key f

  propose-Justified :
      (proposed : List Bytes) (p : Predicate) (t : Table F)
      → table schema p.table ≡ some t
      → index_leads_with t p.column ≡ false
      → ltb t.row_estimate 1000 ≡ false
      → Justified proposed p (propose_index fl show schema proposed p t)
  propose-Justified proposed p t found bare big =
      elim (Bool-cases (member (proposal_key t.name p.column) proposed)) [
        | inl old ↦ rw old tt
        | inr new ↦ rw new (record {
          on = t;
          resolved = found;
          unindexed = bare;
          large = ground arith;
          finding = refl;
          keyed = refl;
          fresh = new;
        })
      ]

  column-Justified :
      (proposed : List Bytes) (p : Predicate) (t : Table F) (c : Option (Column F))
      → table schema p.table ≡ some t
      → index_leads_with t p.column ≡ false
      → ltb t.row_estimate 1000 ≡ false
      → Justified proposed p (with_column fl show schema proposed p t c)
  column-Justified proposed p t none found bare big = propose-Justified proposed p t found bare big
  column-Justified proposed p t (some c) found bare big =
      elim (Bool-cases (
        fl.lt (fl.lit 0) c.distinct_values
        && fl.lt c.distinct_values (fl.lit 3)
        && not p.is_join)) [
          | inl few ↦ rw few refl
          | inr many ↦ rw many (propose-Justified proposed p t found bare big)
        ]

  table-Justified :
      (proposed : List Bytes) (p : Predicate) (o : Option (Table F))
      → table schema p.table ≡ o
      → Justified proposed p (with_table fl show schema proposed p o)
  table-Justified proposed p none found = tt
  table-Justified proposed p (some t) found = elim (Bool-cases (index_leads_with t p.column)) [
    | inl led ↦ rw led tt
    | inr bare ↦ elim (Bool-cases (ltb t.row_estimate 1000)) [
      | inl tiny ↦ rw (bare) (rw tiny tt)
      | inr big ↦
          rw bare (rw big (column-Justified proposed p t (column_of t p.column) found bare big))
    ]
  ]

  step-Justified :
      (proposed : List Bytes) (p : Predicate)
      → Justified proposed p (step fl show schema proposed p)
  unfolding step
  step-Justified proposed p = elim (Bool-cases (is_empty p.table || is_empty p.column)) [
    | inl blank ↦ rw blank tt
    | inr full ↦ rw full (table-Justified proposed p (table schema p.table) refl)
  ]

  abbrev Holds : List Predicate → Finding → Type 0
  Holds ps f = (is_empty f.suggested_index ≡ true) ⊎ Warranted ps f

  later : (p : Predicate) (ps : List Predicate) (f : Finding) → Holds ps f → Holds (p ∷ ps) f
  later p ps f (inl e) = inl e
  later p ps f (inr w) = inr (record {
    predicate = w.predicate;
    in_query = Memᴰ.tail w.in_query;
    on = w.on;
    resolved = w.resolved;
    unindexed = w.unindexed;
    large = w.large;
    ddl = w.ddl;
  })

  after_step-Warranted :
      (proposed : List Bytes) (p : Predicate) (ps : List Predicate) (s : Step)
      → step fl show schema proposed p ≡ s
      → Justified proposed p s
      → ((seen : List Bytes) → All (Holds (p ∷ ps)) (missing_loop fl show schema seen ps))
      → All (Holds (p ∷ ps)) (missing_loop fl show schema proposed (p ∷ ps))
  unfolding missing_loop
  after_step-Warranted proposed p ps skip q j rest = rw (missing_loop, q) (rest proposed)
  after_step-Warranted proposed p ps (note f) q j rest =
      rw (missing_loop, q) (inl (rw j refl), rest proposed)
  after_step-Warranted proposed p ps (suggest key f) q j rest =
      rw (missing_loop, q)
        (
          inr (record {
            predicate = p;
            in_query = Memᴰ.head refl;
            on = j.on;
            resolved = j.resolved;
            unindexed = j.unindexed;
            large = j.large;
            ddl = ap (λ x. x.suggested_index) j.finding;
          }),
          rest (key ∷ proposed),
        )

  loop-Warranted :
      (ps : List Predicate) (proposed : List Bytes)
      → All (Holds ps) (missing_loop fl show schema proposed ps)
  unfolding missing_loop
  loop-Warranted [] proposed = tt
  loop-Warranted (p ∷ ps) proposed =
      after_step-Warranted proposed p ps (step fl show schema proposed p) refl
        (step-Justified proposed p)
        (λ seen. All-imp (Holds ps) (Holds (p ∷ ps)) _ (later p ps) (loop-Warranted ps seen))

  -- Each index that the rules suggest is warranted: it stands for a predicate of the query on a table
  -- of the schema with a thousand rows or more, none of whose indexes leads with the predicate's
  -- column, and its DDL is for that table and column.
  pub check_missing_indexes-Warranted :
      (ps : List Predicate)
      → All
          (λ f. (is_empty f.suggested_index ≡ true) ⊎ Warranted ps f)
          (check_missing_indexes fl show schema ps)
  unfolding check_missing_indexes
  check_missing_indexes-Warranted ps = loop-Warranted ps []

  after_step-NoneTwice :
      (proposed : List Bytes) (p : Predicate) (ps : List Predicate) (s : Step)
      → step fl show schema proposed p ≡ s
      → Justified proposed p s
      → ((seen : List Bytes) → NoneTwice seen (missing_loop fl show schema seen ps))
      → NoneTwice proposed (missing_loop fl show schema proposed (p ∷ ps))
  unfolding missing_loop
  after_step-NoneTwice proposed p ps skip q j rest = rw (missing_loop, q) (rest proposed)
  after_step-NoneTwice proposed p ps (note f) q j rest =
      rw (missing_loop, q) (inl (rw j refl, rest proposed))
  after_step-NoneTwice proposed p ps (suggest key f) q j rest =
      rw (missing_loop, q)
        (inr (
          subst (λ k. member k proposed ≡ false) j.keyed j.fresh,
          subst (λ k. NoneTwice (k ∷ proposed) (missing_loop fl show schema (key ∷ proposed) ps))
              j.keyed (rest (key ∷ proposed)),
        ))

  loop-NoneTwice :
      (ps : List Predicate) (proposed : List Bytes)
      → NoneTwice proposed (missing_loop fl show schema proposed ps)
  unfolding missing_loop
  loop-NoneTwice [] proposed = tt
  loop-NoneTwice (p ∷ ps) proposed =
      after_step-NoneTwice proposed p ps (step fl show schema proposed p) refl
        (step-Justified proposed p) (loop-NoneTwice ps)

  -- The rules suggest no index for the same table and column twice, in any case of their letters.
  pub check_missing_indexes-NoneTwice :
      (ps : List Predicate) → NoneTwice [] (check_missing_indexes fl show schema ps)
  unfolding check_missing_indexes
  check_missing_indexes-NoneTwice ps = loop-NoneTwice ps []
