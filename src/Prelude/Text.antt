-- ===== src/Prelude/Text.antt =====
-- Go strings as lists of bytes. `codes` gives the bytes of an ASCII literal, and case is folded
-- over ASCII.
use Prim.Native.Nat.{ℕ, suc, ◌+◌}
use mathlib.Core.Option.{Option, none, some}
use Prim.Native.Char.{code}
use Prim.Native.String.{String}
use mathlib.Core.Path.{◌≡◌, refl}
use mathlib.Core.Logic.{◌↔◌}
use mathlib.Core.Bool.{Bool, true, false, ◌&&◌, ◌||◌}
use mathlib.Core.List.{List, [], ◌∷◌, ◌++◌, map, reverse}
use native.Mathlib.Omega.{arith}
use queryforge.Prelude.Tests.{◌==◌, leb, if◌then◌else◌}

abbrev pub Bytes : Type 0
Bytes = List ℕ

abbrev pub codes : String → Bytes
codes String.[] = []
codes (String.◌∷◌ c s) = code c ∷ codes s

-- a == b on strings
unfoldable pub bytes_eq : Bytes → Bytes → Bool
bytes_eq [] [] = true
bytes_eq [] (y ∷ ys) = false
bytes_eq (x ∷ xs) [] = false
bytes_eq (x ∷ xs) (y ∷ ys) = x == y && bytes_eq xs ys

pub bytes_eq_refl : (xs : Bytes) → bytes_eq xs xs ≡ true
unfolding bytes_eq
bytes_eq_refl [] = refl
bytes_eq_refl (x ∷ xs) = ground (arith, bytes_eq_refl xs)

pub eq_of_bytes_eq : (xs ys : Bytes) → bytes_eq xs ys ≡ true → xs ≡ ys
unfolding bytes_eq
eq_of_bytes_eq [] [] h = refl
eq_of_bytes_eq [] (y ∷ ys) h = cc
eq_of_bytes_eq (x ∷ xs) [] h = cc
eq_of_bytes_eq (x ∷ xs) (y ∷ ys) h = ground (arith, eq_of_bytes_eq xs ys)

pub bytes_eq_iff : (xs ys : Bytes) → (bytes_eq xs ys ≡ true) ↔ (xs ≡ ys)
bytes_eq_iff xs ys = (eq_of_bytes_eq xs ys, λ e. rw e (bytes_eq_refl ys))

unfoldable pub lower_byte : ℕ → ℕ
lower_byte c = if leb b'A' c && leb c b'Z' then c + 32 else c

unfoldable pub to_lower : Bytes → Bytes
unfolding lower_byte
to_lower = map lower_byte

-- strings.EqualFold
unfoldable pub equal_fold : Bytes → Bytes → Bool
unfolding to_lower bytes_eq
equal_fold a b = bytes_eq (to_lower a) (to_lower b)

unfoldable pub member : Bytes → List Bytes → Bool
member a [] = false
member a (x ∷ xs) = bytes_eq x a || member a xs

-- unicode.IsSpace over ASCII
abbrev pub is_space : ℕ → Bool
is_space c = (leb 9 c && leb c 13) || c == 32

-- A word that is being read, put in front unless it is empty.
abbrev pub flush : Bytes → List Bytes → List Bytes
flush [] rest = rest
flush (c ∷ cs) rest = (c ∷ cs) ∷ rest

words : Bytes → Bytes → List Bytes
words cur [] = flush cur []
words cur (c ∷ s) = elim (is_space c) [
  | true ↦ flush cur (words [] s)
  | false ↦ words (cur ++ c ∷ []) s
]

-- strings.Fields
unfoldable pub fields : Bytes → List Bytes
unfolding words
fields s = words [] s

-- strings.Join
unfoldable pub join : List Bytes → Bytes → Bytes
join [] sep = []
join (w ∷ []) sep = w
join (w ∷ v ∷ ws) sep = w ++ sep ++ join (v ∷ ws) sep

-- strings.HasPrefix
unfoldable pub has_prefix : Bytes → Bytes → Bool
has_prefix s [] = true
has_prefix [] (p ∷ ps) = false
has_prefix (c ∷ s) (p ∷ ps) = c == p && has_prefix s ps

-- strings.Contains
unfoldable pub contains : Bytes → Bytes → Bool
unfolding has_prefix
contains [] p = has_prefix [] p
contains (c ∷ s) p = has_prefix (c ∷ s) p || contains s p

-- The spaces in front of a text dropped.
unfoldable pub trim_left : Bytes → Bytes
trim_left [] = []
trim_left (c ∷ s) = elim (is_space c) [ true ↦ trim_left s | false ↦ c ∷ s ]

-- strings.TrimSpace
unfoldable pub trim_space : Bytes → Bytes
unfolding trim_left
trim_space s = reverse (trim_left (reverse (trim_left s)))

-- fmt's %q, for a text without quotes, backslashes and control characters.
abbrev pub quoted : Bytes → Bytes
quoted s = b'"' ∷ (s ++ b'"' ∷ [])

-- strings.TrimPrefix
unfoldable pub trim_prefix : Bytes → Bytes → Bytes
unfolding has_prefix
trim_prefix s p = if has_prefix s p then behind p s else s
  where
    behind : Bytes → Bytes → Bytes
    behind [] s = s
    behind (p ∷ ps) [] = []
    behind (p ∷ ps) (c ∷ s) = behind ps s

abbrev pub is_empty : Bytes → Bool
is_empty [] = true
is_empty (c ∷ s) = false

-- strings.Index, with `none` for -1
unfoldable pub index_of : Bytes → Bytes → Option ℕ
unfolding has_prefix
index_of [] p = if is_empty p then some 0 else none
index_of (c ∷ s) p =
    let rest : Option ℕ = elim (index_of s p) [ none ↦ none | some i ↦ some (suc i) ] in
    if has_prefix (c ∷ s) p then some 0 else rest

-- Texts are equal under folding exactly when their lower-case forms are.
pub equal_fold_iff : (a b : Bytes) → (equal_fold a b ≡ true) ↔ (to_lower a ≡ to_lower b)
unfolding equal_fold
equal_fold_iff a b = bytes_eq_iff (to_lower a) (to_lower b)
