-- ===== src/Rules/Names/Resolution.antt =====
-- A column without a qualifier is resolved only where one table of the query has it.
use mathlib.Core.List.{Memᴰ}
use queryforge.Prelude.{
  All-Mem, Mem-left, Mem-right, some, subst, ◌≡◌, refl, sym, ◌∙◌, ◌⊎◌, inl, inr, true, false, not,
  ◌&&◌, List, [], ◌∷◌, Bytes, bytes_eq, to_lower, ap, equal_fold, equal_fold_iff, is_empty, All,
  Bool-cases, arith,
}
use queryforge.Engine.{Column, Table, Schema, table}
use queryforge.Sql.{TableRef, Statement}
use queryforge.Rules.Names.{owners_in, owners, pick_owner, resolve_unqualified}

-- A name that is empty, or is `n` up to the case of its letters.
abbrev pub Agrees : Bytes → Bytes → Type 0
Agrees n o = (is_empty o ≡ true) ⊎ (equal_fold n o ≡ true)

same_name : (n m : Bytes) → n ≡ m → Agrees n m
same_name n m e = inr ((equal_fold_iff n m).1 (ap to_lower e))

empty_of_fold : (a b : Bytes) → is_empty b ≡ true → equal_fold a b ≡ true → is_empty a ≡ true
unfolding equal_fold to_lower bytes_eq
empty_of_fold [] b e h = refl
empty_of_fold (x ∷ a) [] e h = absurd (cc)
empty_of_fold (x ∷ a) (y ∷ b) e h = absurd (cc)

before-Agrees :
    (n found m : Bytes)
    → (not (is_empty found) && not (equal_fold found m)) ≡ false
    → Agrees n m
    → Agrees n found
before-Agrees n found m fits h = elim (Bool-cases (is_empty found)) [
  | inl e ↦ inl e
  | inr full ↦
      let same : equal_fold found m ≡ true = ground arith in
      elim h [
        | inl e ↦ inl (empty_of_fold found m e same)
        | inr q ↦ inr (
            (equal_fold_iff n found).1
              ((equal_fold_iff n m).0 q ∙ sym ((equal_fold_iff found m).0 same)))
      ]
]

pick-Agrees :
    (ns : List Bytes) (found n : Bytes)
    → pick_owner found ns ≡ n
    → is_empty n ≡ false
    → Agrees n found × All (Agrees n) ns
unfolding pick_owner
pick-Agrees [] found n e full = (same_name n found (sym e), tt)
pick-Agrees (m ∷ ms) found n e full =
    elim (Bool-cases (not (is_empty found) && not (equal_fold found m))) [
      | inl clash ↦ absurd (empty_found n full (rw clash at e))
      | inr fits ↦
          let rest = pick-Agrees ms m n (rw fits at e) full in
          (before-Agrees n found m fits rest.0, rest)
    ]
  where
    empty_found : (x : Bytes) → is_empty x ≡ false → [] ≡ x → ⊥
    empty_found x h q = cc

module _ {F : Type 0} (schema : Schema F) where
  owners_in-Mem :
      (column name : Bytes) (cs : List (Column F)) {c : Column F}
      → Memᴰ c cs
      → equal_fold c.name column ≡ true
      → Memᴰ name (owners_in schema column name cs)
  owners_in-Mem column name [] m e = elim m [ ]
  owners_in-Mem column name (d ∷ cs) (Memᴰ.head q) e =
      let same : equal_fold d.name column ≡ true =
        subst (λ (x : Column F). equal_fold x.name column ≡ true) q e in
      rw same (Memᴰ.head refl)
  owners_in-Mem column name (d ∷ cs) (Memᴰ.tail m) e =
      let rest = owners_in-Mem column name cs m e in
      elim (Bool-cases (equal_fold d.name column)) [
        | inl t ↦ rw t (Memᴰ.tail rest)
        | inr f ↦ rw f rest
      ]

  owners-Mem :
      (column : Bytes) (rs : List TableRef) {r : TableRef} {t : Table F} {c : Column F}
      → Memᴰ r rs
      → table schema r.name ≡ some t
      → Memᴰ c t.columns
      → equal_fold c.name column ≡ true
      → Memᴰ t.name (owners schema column rs)
  unfolding owners
  owners-Mem column [] m h k e = elim m [ ]
  owners-Mem column (q ∷ rs) {t = t} (Memᴰ.head g) h k e =
      let here : table schema q.name ≡ some t =
        subst (λ (x : TableRef). table schema x.name ≡ some t) g h in
      rw here (Mem-left _ (owners schema column rs) (owners_in-Mem column t.name t.columns k e))
  owners-Mem column (q ∷ rs) (Memᴰ.tail m) h k e =
      Mem-right _ (owners schema column rs) (owners-Mem column rs m h k e)

-- Where an unqualified column is resolved to a table, every table of the query that is in the schema,
-- has a column of that name up to case and has a name that is not empty has the name of that table up
-- to case: an ambiguous column is not resolved.
pub resolve_unqualified-Agrees :
    {F : Type 0} (schema : Schema F) (st : Statement) (column : Bytes) (r : TableRef) (t : Table F)
    (c : Column F)
    → is_empty (resolve_unqualified schema st column) ≡ false
    → Memᴰ r st.tables
    → table schema r.name ≡ some t
    → Memᴰ c t.columns
    → equal_fold c.name column ≡ true
    → Agrees (resolve_unqualified schema st column) t.name
unfolding resolve_unqualified
resolve_unqualified-Agrees schema st column r t c full m h k e =
    let all =
      pick-Agrees (owners schema column st.tables) [] (resolve_unqualified schema st column) refl
        full in
    All-Mem (Agrees (resolve_unqualified schema st column)) (owners schema column st.tables) all.1
      (owners-Mem schema column st.tables m h k e)
