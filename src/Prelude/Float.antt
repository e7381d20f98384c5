-- ===== src/Prelude/Float.antt =====
-- Go's float64 is a parameter: the operations that the program uses, and the laws of its order that
-- a theorem may ask for. The laws hold of float64 without NaN; `thousandths` is an instance.
use queryforge.Prelude.{ℕ, ◌+◌, ◌*◌, ◌≡◌, Bool, true, false, arith}
use queryforge.Prelude.Int.{ℤ, pos, negsuc, ltb_ℤ, leb_ℤ, ◌+ℤ◌, ◌-ℤ◌, scale}

pub record FloatOps (F : Type 0) : Type 0 where
  -- a constant of the program, or float64(n)
  pub lit : ℕ → F
  pub add : F → F → F
  pub sub : F → F → F
  pub mul : F → F → F
  pub div : F → F → F
  -- a < b
  pub lt : F → F → Bool
  -- a <= b is written out, since with NaN it is not the negation of b < a.
  pub le : F → F → Bool

-- `<` is a strict weak order, and `<=` its complement.
pub record IsOrdered {F : Type 0} (fl : FloatOps F) : Type 0 where
  pub lt_irrefl : (a : F) → fl.lt a a ≡ false
  pub lt_trans : (a b c : F) → fl.lt a b ≡ true → fl.lt b c ≡ true → fl.lt a c ≡ true
  pub not_lt_trans : (a b c : F) → fl.lt a b ≡ false → fl.lt b c ≡ false → fl.lt a c ≡ false
  pub le_of_not_lt : (a b : F) → fl.lt b a ≡ false → fl.le a b ≡ true
  pub not_le_of_lt : (a b : F) → fl.lt b a ≡ true → fl.le a b ≡ false

-- Numbers of thousandths, as an instance that runs: sums are exact, products and quotients are
-- rounded towards zero, and a divisor of zero or below gives 0.
abbrev over : ℤ → ℤ → ℤ
over a (pos n) = scale a 1000 n
over a (negsuc n) = pos 0

abbrev times : ℤ → ℤ → ℤ
times a (pos n) = scale a n 1000
times a (negsuc n) = pos 0 -ℤ scale a (n + 1) 1000

abbrev pub thousandths : FloatOps ℤ
thousandths = record {
  lit = λ n. pos (1000 * n);
  add = λ a b. a +ℤ b;
  sub = λ a b. a -ℤ b;
  mul = times;
  div = over;
  lt = ltb_ℤ;
  le = leb_ℤ;
}

pub thousandths-IsOrdered : IsOrdered thousandths
thousandths-IsOrdered = record {
  lt_irrefl = λ a. ground arith;
  lt_trans = λ a b c p q. ground arith;
  not_lt_trans = λ a b c p q. ground arith;
  le_of_not_lt = λ a b p. ground arith;
  not_le_of_lt = λ a b p. ground arith;
}
