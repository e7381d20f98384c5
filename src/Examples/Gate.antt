-- ===== src/Examples/Gate.antt =====
-- The verification gate and the shape check on a rewrite that is accepted and on a copy.
use queryforge.Prelude.{
  ◌≡◌, ◌↔◌, ap, subst, none, [], ◌∷◌, Bytes, codes, bytes_eq, bytes_eq_refl, true, false,
}
use queryforge.Prelude.Float.{thousandths}
use queryforge.Sql.{Statement, Parsed, parsed, refused}
use queryforge.Sql.Shape.{same_shape, SameShape, same_shape_iff}
use queryforge.Optimizer.{verify, accepted, rejected, normalize_sql}
use queryforge.Optimizer.Gate.{Proven, verify-accepts-iff-Proven, verify-runs-only-checked}
use queryforge.Optimizer.Reasons.{Coherent, verify-Coherent}
use queryforge.Optimizer.Pipeline.{verifier}
use queryforge.Examples.Data.{original, statement_of, base, candidate, copy, parts, options}

verify-accepts-iff-Proven_example :
    ((verify thousandths (verifier parts options) base candidate 0).0.verdict ≡ accepted)
    ↔ Proven thousandths (verifier parts options) base candidate 0
verify-accepts-iff-Proven_example =
    verify-accepts-iff-Proven thousandths (verifier parts options) base candidate 0

abbrev text_of : Parsed Statement → Bytes
text_of (parsed st) = st.sql
text_of (refused why) = []

only_copies :
    (st : Statement)
    → parsed (statement_of original) ≡ parsed st
    → same_shape base.statement st ≡ none
    → bytes_eq (normalize_sql st.sql) (normalize_sql base.statement.sql) ≡ true
only_copies st h shape =
    subst (λ b. bytes_eq (normalize_sql b) (normalize_sql original) ≡ true) (ap text_of h)
      (bytes_eq_refl (normalize_sql original))

verify-runs-only-checked_example :
    ((verify thousandths (verifier parts options) base copy 4).1 ≡ 4)
    × ((verify thousandths (verifier parts options) base copy 4).0.verdict ≡ rejected)
unfolding bytes_eq
verify-runs-only-checked_example =
    verify-runs-only-checked thousandths (verifier parts options) base copy 4 only_copies

verify-Coherent_example :
    Coherent thousandths
      (verifier parts options)
      base
      candidate
      (verify thousandths (verifier parts options) base candidate 0).0
verify-Coherent_example = verify-Coherent thousandths (verifier parts options) base candidate 0

-- A statement with a column and a table, in upper or lower case.
abbrev named : Bytes → Bytes → Statement
named column name = record (statement_of original) {
  output_cols = column ∷ [];
  select_star = false;
  tables = record { schema = codes "public"; name = name; alias = [] } ∷ [];
}

same_shape_iff_example :
    (same_shape (named (codes "a") (codes "T")) (named (codes "A") (codes "t")) ≡ none)
    ↔ SameShape (named (codes "a") (codes "T")) (named (codes "A") (codes "t"))
same_shape_iff_example =
    same_shape_iff (named (codes "a") (codes "T")) (named (codes "A") (codes "t"))
