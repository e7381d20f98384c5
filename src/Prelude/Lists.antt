-- ===== src/Prelude/Lists.antt =====
-- Lists measured by native numbers, predicates on all elements, and searches by a Boolean test.
use Prim.Native.Nat.{ℕ, zero, suc, ◌+◌, ◌<◌}
use mathlib.Core.Path.{◌≡◌, refl, sym, subst}
use mathlib.Core.Logic.{inl, inr}
use mathlib.Core.Bool.{Bool, true, false, ◌||◌}
use mathlib.Core.List.{Memᴰ, List, [], ◌∷◌, ◌++◌}
use mathlib.Core.Option.{Option, none, some, some-injective}
use native.Mathlib.Omega.{arith}
use queryforge.Prelude.Tests.{if◌then◌else◌, Bool-cases}

module _ {ℓ} {A : Type ℓ} where
  abbrev pub length : List A → ℕ
  length [] = 0
  length (x ∷ xs) = suc (length xs)

  abbrev pub get_or : List A → ℕ → A → A
  get_or [] i d = d
  get_or (x ∷ xs) zero d = x
  get_or (x ∷ xs) (suc i) d = get_or xs i d

  abbrev pub get_elem? : List A → ℕ → Option A
  get_elem? [] i = none
  get_elem? (x ∷ xs) zero = some x
  get_elem? (x ∷ xs) (suc i) = get_elem? xs i

  abbrev pub take : ℕ → List A → List A
  take zero xs = []
  take (suc n) [] = []
  take (suc n) (x ∷ xs) = x ∷ take n xs

  abbrev pub drop : ℕ → List A → List A
  drop zero xs = xs
  drop (suc n) [] = []
  drop (suc n) (x ∷ xs) = drop n xs

  pub length-append : (xs ys : List A) → length (xs ++ ys) ≡ length xs + length ys
  length-append [] ys = omega arith
  length-append (x ∷ xs) ys = omega (arith, length-append xs ys)

  -- The first element that passes the test.
  abbrev pub find : (A → Bool) → List A → Option A
  find p [] = none
  find p (x ∷ xs) = if p x then some x else find p xs

  -- The elements that pass the test, in order.
  abbrev pub keep : (A → Bool) → List A → List A
  keep p [] = []
  keep p (x ∷ xs) = let rest = keep p xs in if p x then x ∷ rest else rest

  abbrev pub any_of : (A → Bool) → List A → Bool
  any_of p [] = false
  any_of p (x ∷ xs) = p x || any_of p xs

  abbrev pub count_of : (A → Bool) → List A → ℕ
  count_of p [] = 0
  count_of p (x ∷ xs) = (if p x then 1 else 0) + count_of p xs

  -- `UPDATE … SET f WHERE p`.
  abbrev pub update_where : (A → Bool) → (A → A) → List A → List A
  update_where p f [] = []
  update_where p f (x ∷ xs) = (if p x then f x else x) ∷ update_where p f xs

module _ {ℓ} {A : Type ℓ} where
  -- A test that an update leaves alone passes as often as before.
  pub any_of-update_where :
      (q p : A → Bool) (f : A → A) (xs : List A)
      → ((x : A) → q (f x) ≡ q x)
      → any_of q (update_where p f xs) ≡ any_of q xs
  any_of-update_where q p f [] h = refl
  any_of-update_where q p f (x ∷ xs) h = ground (arith, h x, any_of-update_where q p f xs h)

  pub any_of-append :
      (q : A → Bool) (xs ys : List A) → any_of q xs ≡ true → any_of q (xs ++ ys) ≡ true
  any_of-append q [] ys h = cc
  any_of-append q (x ∷ xs) ys h = ground (arith, any_of-append q xs ys)

  pub find-of_any :
      (q : A → Bool) (xs : List A) → any_of q xs ≡ true → (a : A) × (find q xs ≡ some a)
  find-of_any q [] h = absurd (cc)
  find-of_any q (x ∷ xs) h = elim (Bool-cases (q x)) [
    | inl t ↦ (x, rw t)
    | inr f ↦ rw f (find-of_any q xs (ground arith))
  ]

  pub any_of-find : (q : A → Bool) (xs : List A) {a : A} → find q xs ≡ some a → any_of q xs ≡ true
  any_of-find q [] h = cc
  any_of-find q (x ∷ xs) {a} h = ground (arith, any_of-find q xs {a = a})

  pub passes-find : (q : A → Bool) (xs : List A) {a : A} → find q xs ≡ some a → q a ≡ true
  passes-find q [] h = cc
  passes-find q (x ∷ xs) {a} h = ground (arith, passes-find q xs {a = a})

  pub any_of-imp :
      (p q : A → Bool) (xs : List A)
      → ((x : A) → p x ≡ true → q x ≡ true)
      → any_of p xs ≡ true
      → any_of q xs ≡ true
  any_of-imp p q [] h a = cc
  any_of-imp p q (x ∷ xs) h a = ground (arith, h x, any_of-imp p q xs h)

  pub find-none : (q : A → Bool) (xs : List A) → any_of q xs ≡ false → find q xs ≡ none
  find-none q [] h = refl
  find-none q (x ∷ xs) h = ground (arith, find-none q xs)

module _ {ℓ} {A : Type ℓ} where
  pub find-update_where :
      (q p : A → Bool) (f : A → A) (xs : List A) {a : A}
      → ((x : A) → q (f x) ≡ q x)
      → find q xs ≡ some a
      → find q (update_where p f xs) ≡ some (if p a then f a else a)
  find-update_where q p f [] h e = cc
  find-update_where q p f (x ∷ xs) {a} h e =
      ground (arith, h x, find-update_where q p f xs {a = a} h)

  pub find-update_none :
      (q p : A → Bool) (f : A → A) (xs : List A)
      → ((x : A) → q (f x) ≡ q x)
      → find q xs ≡ none
      → find q (update_where p f xs) ≡ none
  find-update_none q p f [] h e = refl
  find-update_none q p f (x ∷ xs) h e = ground (arith, h x, find-update_none q p f xs h)

  -- The first element of a list that a new one is put behind.
  pub find-append_none :
      (q : A → Bool) (xs : List A) (y : A)
      → find q xs ≡ none
      → find q (xs ++ y ∷ []) ≡ (if q y then some y else none)
  find-append_none q [] y e = refl
  find-append_none q (x ∷ xs) y e = ground (arith, find-append_none q xs y)

  pub find-append :
      (q : A → Bool) (xs ys : List A) {a : A} → find q xs ≡ some a → find q (xs ++ ys) ≡ some a
  find-append q [] ys e = cc
  find-append q (x ∷ xs) ys {a} e = ground (arith, find-append q xs ys {a = a})

  pub find-append_last :
      (q : A → Bool) (xs : List A) (y : A)
      → find q xs ≡ none
      → q y ≡ true
      → find q (xs ++ y ∷ []) ≡ some y
  find-append_last q [] y e h = ground arith
  find-append_last q (x ∷ xs) y e h = ground (arith, find-append_last q xs y)

module _ {ℓ κ} {A : Type ℓ} (P : A → Type κ) where
  abbrev pub All : List A → Type κ
  All [] = Unit
  All (x ∷ xs) = P x × All xs

  pub All-append : (xs ys : List A) → All xs → All ys → All (xs ++ ys)
  All-append [] ys _ hy = hy
  All-append (x ∷ xs) ys (px, hx) hy = (px, All-append xs ys hx hy)

  pub All-get_or : (xs : List A) (i : ℕ) (d : A) → All xs → i < length xs → P (get_or xs i d)
  All-get_or [] i d h b = absurd (omega arith)
  All-get_or (x ∷ xs) zero d h b = h.0
  All-get_or (x ∷ xs) (suc i) d h b = All-get_or xs i d h.1 (omega arith)

  pub All-find : (p : A → Bool) (xs : List A) {a : A} → All xs → find p xs ≡ some a → P a
  All-find p [] h e = cc
  All-find p (x ∷ xs) (px, hx) e = elim (Bool-cases (p x)) [
    | inl t ↦ subst P (some-injective _ _ (rw t at e)) px
    | inr f ↦ All-find p xs hx (rw f at e)
  ]

  pub All-update_where :
      (p : A → Bool) (f : A → A) (xs : List A)
      → ((x : A) → P x → p x ≡ true → P (f x))
      → All xs
      → All (update_where p f xs)
  All-update_where p f [] step h = tt
  All-update_where p f (x ∷ xs) step (px, hx) = (one (p x) refl, All-update_where p f xs step hx)
    where
      one : (b : Bool) → p x ≡ b → P (if b then f x else x)
      one true e = step x px e
      one false e = px

pub All-imp {ℓ κ ι} :
    {A : Type ℓ} (P : A → Type κ) (Q : A → Type ι) (xs : List A)
    → ((x : A) → P x → Q x)
    → All P xs
    → All Q xs
All-imp P Q [] f h = tt
All-imp P Q (x ∷ xs) f h = (f x h.0, All-imp P Q xs f h.1)

pub All-Mem : {A : Type 0} (P : A → Type 0) {x : A} (xs : List A) → All P xs → Memᴰ x xs → P x
All-Mem P [] h m = elim m [ ]
All-Mem P (y ∷ xs) h (Memᴰ.head e) = subst P (sym e) h.0
All-Mem P (y ∷ xs) h (Memᴰ.tail m) = All-Mem P xs h.1 m

pub Mem-left : {A : Type 0} {x : A} (xs ys : List A) → Memᴰ x xs → Memᴰ x (xs ++ ys)
Mem-left [] ys m = elim m [ ]
Mem-left (y ∷ xs) ys (Memᴰ.head e) = Memᴰ.head e
Mem-left (y ∷ xs) ys (Memᴰ.tail m) = Memᴰ.tail (Mem-left xs ys m)

pub Mem-right : {A : Type 0} {x : A} (xs ys : List A) → Memᴰ x ys → Memᴰ x (xs ++ ys)
Mem-right [] ys m = m
Mem-right (y ∷ xs) ys m = Memᴰ.tail (Mem-right xs ys m)
