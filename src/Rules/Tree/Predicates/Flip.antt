-- ===== src/Rules/Tree/Predicates/Flip.antt =====
-- internal/rules/rules.go: a comparison with its sides turned around.
use queryforge.Prelude.{
  ◌≡◌, refl, ◌∙◌, ap, ◌⊎◌, inl, inr, Option, none, some, Bytes, codes, bytes_eq, eq_of_bytes_eq,
  Bool-cases,
}
use queryforge.Sql.Tree.{Child}
use queryforge.Rules.Tree.{SideInfo, analyse_side, flip_operator}
use queryforge.Rules.Tree.Predicates.{is_comparison, by_sides, compare_sides}

-- An operator is one of the four that have a direction, or is left alone.
flipped :
    (op : Bytes)
    → (op ≡ codes "<")
      ⊎ ((op ≡ codes "<=") ⊎ ((op ≡ codes ">") ⊎ ((op ≡ codes ">=") ⊎ (flip_operator op ≡ op))))
unfolding flip_operator
flipped op = elim (Bool-cases (bytes_eq op (codes "<"))) [
  | inl t ↦ inl (eq_of_bytes_eq _ _ t)
  | inr a ↦ elim (Bool-cases (bytes_eq op (codes "<="))) [
    | inl t ↦ inr (inl (eq_of_bytes_eq _ _ t))
    | inr b ↦ elim (Bool-cases (bytes_eq op (codes ">"))) [
      | inl t ↦ inr (inr (inl (eq_of_bytes_eq _ _ t)))
      | inr c ↦ elim (Bool-cases (bytes_eq op (codes ">="))) [
        | inl t ↦ inr (inr (inr (inl (eq_of_bytes_eq _ _ t))))
        | inr d ↦ inr (inr (inr (inr (rw (a, b, c, d)))))
      ]
    ]
  ]
]

flip_operator_twice : (op : Bytes) → flip_operator (flip_operator op) ≡ op
unfolding flip_operator
flip_operator_twice op = elim (flipped op) [
  | inl e ↦ rw e refl
  | inr (inl e) ↦ rw e refl
  | inr (inr (inl e)) ↦ rw e refl
  | inr (inr (inr (inl e))) ↦ rw e refl
  | inr (inr (inr (inr e))) ↦ ap flip_operator e ∙ e
]

is_comparison-flip : (op : Bytes) → is_comparison (flip_operator op) ≡ is_comparison op
unfolding flip_operator is_comparison
is_comparison-flip op = elim (flipped op) [
  | inl e ↦ rw e refl
  | inr (inl e) ↦ rw e refl
  | inr (inr (inl e)) ↦ rw e refl
  | inr (inr (inr (inl e))) ↦ rw e refl
  | inr (inr (inr (inr e))) ↦ ap is_comparison e
]

-- The operator is turned where the column is on the right.
by_sides-flip :
    (op : Bytes) (l r : Child) (i k : Option SideInfo)
    → (i ≡ none) ⊎ (k ≡ none)
    → by_sides (flip_operator op) r l k i ≡ by_sides op l r i k
unfolding by_sides
by_sides-flip op l r none none h = refl
by_sides-flip op l r none (some k) h = refl
by_sides-flip op l r (some i) none h = rw (flip_operator_twice op)
by_sides-flip op l r (some i) (some k) (inl e) = absurd (cc)
by_sides-flip op l r (some i) (some k) (inr e) = absurd (cc)

-- A comparison of a column with a value gives the same predicate whichever side the column is on,
-- the operator being turned around with the sides.
compare_sides-flip :
    (op : Bytes) (l r : Child)
    → (analyse_side l ≡ none) ⊎ (analyse_side r ≡ none)
    → compare_sides (flip_operator op) r l ≡ compare_sides op l r
unfolding compare_sides
compare_sides-flip op l r h =
    rw (is_comparison-flip op, by_sides-flip op l r (analyse_side l) (analyse_side r) h)
