-- ===== src/Prelude/Once.antt =====
-- A loop that passes over an element whose key it has seen.
use queryforge.Prelude.{
  ◌≡◌, sym, subst, inl, inr, ◌||◌, Bool, true, false, List, [], ◌∷◌, Bytes, All, All-imp, any_of,
  bytes_eq, bytes_eq_refl, eq_of_bytes_eq, member, Bool-cases, arith,
}
use queryforge.Prelude.Sort.{Apart}

-- The elements whose key is new, in order; `seen` are the keys so far.
unfoldable pub add_new : {A : Type 0} → (A → Bytes) → List Bytes → List A → List A
add_new key seen [] = []
add_new key seen (x ∷ xs) = elim (member (key x) seen) [
  | true ↦ add_new key seen xs
  | false ↦ x ∷ add_new key (key x ∷ seen) xs
]

member_first : (a : Bytes) (xs : List Bytes) → member a (a ∷ xs) ≡ true
unfolding member
member_first a xs = rw (bytes_eq_refl a)

member_behind : (a x : Bytes) (xs : List Bytes) → member a xs ≡ true → member a (x ∷ xs) ≡ true
unfolding member
member_behind a x xs h = ground arith

not-member-nil : (a : Bytes) (c : Bool) → (member a [] || c) ≡ true → c ≡ true
unfolding member
not-member-nil a c h = h

-- A key that is in a list differs from one that is not.
differs :
    (a b : Bytes) (xs : List Bytes)
    → member a xs ≡ true
    → member b xs ≡ false
    → bytes_eq b a ≡ false
differs a b xs h k = elim (Bool-cases (bytes_eq b a)) [
  | inl e ↦ absurd (ground (arith, eq_of_bytes_eq b a e))
  | inr e ↦ e
]

or_left : (a b : Bool) → a ≡ true → (a || b) ≡ true
or_left a b h = ground arith

or_right : (a b : Bool) → b ≡ true → (a || b) ≡ true
or_right a b h = ground arith

swapped :
    (a b : Bytes) (xs : List Bytes) (c : Bool)
    → (member a (b ∷ xs) || c) ≡ true
    → (member a xs || (bytes_eq b a || c)) ≡ true
unfolding member
swapped a b xs c h = ground arith

module _ {A : Type 0} (key : A → Bytes) where
  abbrev pub same_key : A → A → Bool
  same_key x y = bytes_eq (key y) (key x)

  pub same_key_sym : (x y : A) → same_key x y ≡ false → same_key y x ≡ false
  same_key_sym x y h = elim (Bool-cases (same_key y x)) [
    | inl e ↦ absurd (ground (arith, eq_of_bytes_eq (key x) (key y) e, bytes_eq_refl (key y)))
    | inr e ↦ e
  ]

  repeats :
      (seen : List Bytes) (x : A) (xs : List A)
      → member (key x) seen ≡ true
      → add_new key seen (x ∷ xs) ≡ add_new key seen xs
  unfolding add_new
  repeats seen x xs k = rw (add_new, k)

  adds :
      (seen : List Bytes) (x : A) (xs : List A)
      → member (key x) seen ≡ false
      → add_new key seen (x ∷ xs) ≡ x ∷ add_new key (key x ∷ seen) xs
  unfolding add_new
  adds seen x xs k = rw (add_new, k)

  pub All-add_new :
      (P : A → Type 0) (seen : List Bytes) (xs : List A) → All P xs → All P (add_new key seen xs)
  unfolding add_new
  All-add_new P seen [] h = tt
  All-add_new P seen (x ∷ xs) h = elim (Bool-cases (member (key x) seen)) [
    | inl k ↦ subst (All P) (sym (repeats seen x xs k)) (All-add_new P seen xs h.1)
    | inr k ↦ subst (All P) (sym (adds seen x xs k)) (h.0, All-add_new P (key x ∷ seen) xs h.1)
  ]

  -- No element that is added has a key that was seen before.
  add_new-IsNew :
      (k : Bytes) (seen : List Bytes) (xs : List A)
      → member k seen ≡ true
      → All (λ x. bytes_eq (key x) k ≡ false) (add_new key seen xs)
  unfolding add_new
  add_new-IsNew old seen [] m = tt
  add_new-IsNew old seen (x ∷ xs) m = elim (Bool-cases (member (key x) seen)) [
    | inl k ↦ rw (repeats seen x xs k) (add_new-IsNew old seen xs m)
    | inr k ↦ rw (adds seen x xs k) (
      differs old (key x) seen m k,
      add_new-IsNew old (key x ∷ seen) xs (member_behind old (key x) seen m),
    )
  ]

  pub add_new-Apart : (seen : List Bytes) (xs : List A) → Apart same_key (add_new key seen xs)
  unfolding add_new
  add_new-Apart seen [] = tt
  add_new-Apart seen (x ∷ xs) = elim (Bool-cases (member (key x) seen)) [
    | inl k ↦ rw (repeats seen x xs k) (add_new-Apart seen xs)
    | inr k ↦ rw (adds seen x xs k) (
      add_new-IsNew (key x) (key x ∷ seen) xs (member_first (key x) seen),
      add_new-Apart (key x ∷ seen) xs,
    )
  ]

  abbrev pub IsListed : List A → A → Type 0
  IsListed ys x = any_of (same_key x) ys ≡ true

  -- The key of an element is seen before or among what is added.
  abbrev IsCovered : List Bytes → List A → A → Type 0
  IsCovered seen ys x = (member (key x) seen || any_of (same_key x) ys) ≡ true

  covered : (seen : List Bytes) (xs : List A) → All (IsCovered seen (add_new key seen xs)) xs
  unfolding add_new
  covered seen [] = tt
  covered seen (x ∷ xs) = elim (Bool-cases (member (key x) seen)) [
    | inl k ↦
        subst (λ ys. All (IsCovered seen ys) (x ∷ xs)) (sym (repeats seen x xs k))
          (or_left _ _ k, covered seen xs)
    | inr k ↦
        subst (λ ys. All (IsCovered seen ys) (x ∷ xs)) (sym (adds seen x xs k))
          (
            or_right _ _ (or_left _ _ (bytes_eq_refl (key x))),
            All-imp (IsCovered (key x ∷ seen) (add_new key (key x ∷ seen) xs)) _ xs
                (λ y. swapped (key y) (key x) seen _) (covered (key x ∷ seen) xs),
          )
  ]

  pub add_new-IsListed : (xs : List A) → All (IsListed (add_new key [] xs)) xs
  add_new-IsListed xs =
      All-imp (IsCovered [] (add_new key [] xs)) _ xs (λ x. not-member-nil (key x) _)
        (covered [] xs)
