-- ===== src/Prelude/Sort.antt =====
-- sort.SliceStable and sort.Float64s, as insertion by a Boolean `less`.
use mathlib.Core.List.{Perm}
use mathlib.Core.List.Perm
use queryforge.Prelude.{
  ◌≡◌, refl, Bool, true, false, List, [], ◌∷◌, All, if◌then◌else◌, Bool-cases, arith, length, suc,
  get_or, All-get_or, inl, inr, any_of, ◌||◌,
}

module _ {A : Type 0} (less : A → A → Bool) where
  -- In front of the first element that is not smaller, so that equals keep their order.
  unfoldable pub insert : A → List A → List A
  insert x [] = x ∷ []
  insert x (y ∷ ys) = let rest = insert x ys in if less y x then y ∷ rest else x ∷ y ∷ ys

  unfoldable pub sort_stable : List A → List A
  unfolding insert
  sort_stable [] = []
  sort_stable (x ∷ xs) = insert x (sort_stable xs)

  -- No element is smaller than one before it.
  abbrev pub IsSorted : List A → Type 0
  IsSorted [] = Unit
  IsSorted (x ∷ xs) = All (λ y. less y x ≡ false) xs × IsSorted xs

  insert-perm : (x : A) (ys : List A) → Perm (insert x ys) (x ∷ ys)
  unfolding insert
  insert-perm x [] = Perm.refl (x ∷ [])
  insert-perm x (y ∷ ys) = elim (Bool-cases (less y x)) [
    | inl t ↦ rw t (Perm.trans (Perm.cons y (insert-perm x ys)) (Perm.swap x y ys))
    | inr f ↦ rw f (Perm.refl (x ∷ y ∷ ys))
  ]

  pub sort_stable-perm : (xs : List A) → Perm (sort_stable xs) xs
  unfolding sort_stable
  sort_stable-perm [] = Perm.refl []
  sort_stable-perm (x ∷ xs) =
      Perm.trans (insert-perm x (sort_stable xs)) (Perm.cons x (sort_stable-perm xs))

  pub All-insert : (P : A → Type 0) (x : A) (ys : List A) → P x → All P ys → All P (insert x ys)
  unfolding insert
  All-insert P x [] hx h = (hx, tt)
  All-insert P x (y ∷ ys) hx h = elim (Bool-cases (less y x)) [
    | inl t ↦ rw t (h.0, All-insert P x ys hx h.1)
    | inr f ↦ rw f (hx, h)
  ]

  pub All-sort_stable : (P : A → Type 0) (xs : List A) → All P xs → All P (sort_stable xs)
  unfolding sort_stable
  All-sort_stable P [] h = tt
  All-sort_stable P (x ∷ xs) h = All-insert P x (sort_stable xs) h.0 (All-sort_stable P xs h.1)

  of-insert : (P : A → Type 0) (x : A) (ys : List A) → All P (insert x ys) → P x × All P ys
  unfolding insert
  of-insert P x [] h = h
  of-insert P x (y ∷ ys) h = elim (Bool-cases (less y x)) [
    | inl t ↦
        let k : P y × All P (insert x ys) = rw t at h in
        let below = of-insert P x ys k.1 in (below.0, (k.0, below.1))
    | inr f ↦ rw f at h
  ]

  -- What holds of all elements of the sorted list holds of all of the given one.
  pub of-sort_stable : (P : A → Type 0) (xs : List A) → All P (sort_stable xs) → All P xs
  unfolding sort_stable
  of-sort_stable P [] h = tt
  of-sort_stable P (x ∷ xs) h =
      let parts = of-insert P x (sort_stable xs) h in (parts.0, of-sort_stable P xs parts.1)

  -- In a sorted list no element is after the last one or before the first one.
  pub last-greatest :
      (irrefl : (a : A) → less a a ≡ false) (d x : A) (xs : List A)
      → IsSorted (x ∷ xs)
      → All (λ y. less (get_or (x ∷ xs) (length xs) d) y ≡ false) (x ∷ xs)
  last-greatest irrefl d x [] s = (irrefl x, tt)
  last-greatest irrefl d x (y ∷ ys) s = (
    All-get_or (λ z. less z x ≡ false) (y ∷ ys) (length ys) d s.0 (omega arith),
    last-greatest irrefl d y ys s.1,
  )

  pub first-least :
      (irrefl : (a : A) → less a a ≡ false) (d x : A) (xs : List A)
      → IsSorted (x ∷ xs)
      → All (λ y. less y (get_or (x ∷ xs) 0 d) ≡ false) (x ∷ xs)
  first-least irrefl d x xs s = (irrefl x, s.0)

  pub length-insert : (x : A) (ys : List A) → length (insert x ys) ≡ suc (length ys)
  unfolding insert
  length-insert x [] = refl
  length-insert x (y ∷ ys) = ground (arith, length-insert x ys)

  pub length-sort_stable : (xs : List A) → length (sort_stable xs) ≡ length xs
  unfolding sort_stable
  length-sort_stable [] = refl
  length-sort_stable (x ∷ xs) = rw (length-insert x (sort_stable xs), length-sort_stable xs)

  module _ (asym : (a b : A) → less a b ≡ true → less b a ≡ false)
      (not_trans : (a b c : A) → less a b ≡ false → less b c ≡ false → less a c ≡ false) where
    not_less-All :
        (x y : A) (ys : List A)
        → less y x ≡ false
        → All (λ z. less z y ≡ false) ys
        → All (λ z. less z x ≡ false) ys
    not_less-All x y [] h a = tt
    not_less-All x y (z ∷ zs) h a = (not_trans z y x a.0 h, not_less-All x y zs h a.1)

    insert-IsSorted : (x : A) (ys : List A) → IsSorted ys → IsSorted (insert x ys)
    unfolding insert
    insert-IsSorted x [] s = (tt, tt)
    insert-IsSorted x (y ∷ ys) s = elim (Bool-cases (less y x)) [
      | inl t ↦
          rw t (All-insert (λ z. less z y ≡ false) x ys (asym y x t) s.0, insert-IsSorted x ys s.1)
      | inr f ↦ rw f ((f, not_less-All x y ys f s.0), s)
    ]

    pub sort_stable-IsSorted : (xs : List A) → IsSorted (sort_stable xs)
    unfolding sort_stable
    sort_stable-IsSorted [] = tt
    sort_stable-IsSorted (x ∷ xs) = insert-IsSorted x (sort_stable xs) (sort_stable-IsSorted xs)

module _ {A : Type 0} (less : A → A → Bool) where
  any_of-insert :
      (q : A → Bool) (x : A) (ys : List A) → any_of q (insert less x ys) ≡ (q x || any_of q ys)
  unfolding insert
  any_of-insert q x [] = refl
  any_of-insert q x (y ∷ ys) = ground (arith, any_of-insert q x ys)

  pub any_of-sort_stable :
      (q : A → Bool) (xs : List A) → any_of q (sort_stable less xs) ≡ any_of q xs
  unfolding sort_stable
  any_of-sort_stable q [] = refl
  any_of-sort_stable q (x ∷ xs) =
      rw (any_of-insert q x (sort_stable less xs), any_of-sort_stable q xs)

module _ {A : Type 0} (same : A → A → Bool) where
  -- No two elements are the same.
  abbrev pub Apart : List A → Type 0
  Apart [] = Unit
  Apart (x ∷ xs) = All (λ y. same x y ≡ false) xs × Apart xs

  module _ (less : A → A → Bool) (sym : (a b : A) → same a b ≡ false → same b a ≡ false) where
    insert-Apart :
        (x : A) (ys : List A) → All (λ y. same x y ≡ false) ys → Apart ys → Apart (insert less x ys)
    unfolding insert
    insert-Apart x [] h a = (tt, tt)
    insert-Apart x (y ∷ ys) h a = elim (Bool-cases (less y x)) [
      | inl t ↦ rw t (
        All-insert less (λ z. same y z ≡ false) x ys (sym x y h.0) a.0,
        insert-Apart x ys h.1 a.1,
      )
      | inr f ↦ rw f (h, a)
    ]

    pub sort_stable-Apart : (xs : List A) → Apart xs → Apart (sort_stable less xs)
    unfolding sort_stable
    sort_stable-Apart [] a = tt
    sort_stable-Apart (x ∷ xs) a =
        insert-Apart x (sort_stable less xs) (All-sort_stable less (λ y. same x y ≡ false) xs a.0)
          (sort_stable-Apart xs a.1)
