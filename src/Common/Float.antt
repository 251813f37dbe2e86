-- ===== src/Common/Float.antt =====
-- Python's `float` as an interface: the operations that the program uses, and, apart from them, the
-- laws of the comparisons of IEEE 754 that a theorem may ask for. `le x x` fails at NaN.
use indian_algo_trading_plat.Common.{ℕ, ◌/◌, ◌≡◌, refl, Bool, true, false, arith}
use indian_algo_trading_plat.Common.Int.{ℤ, pos, negsuc, ◌+ℤ◌, ◌-ℤ◌, ◌*ℤ◌, ltb_ℤ, leb_ℤ}

pub record Float (F : Type 0) : Type 0 where
  pub add : F → F → F
  pub sub : F → F → F
  pub mul : F → F → F
  pub div : F → F → F
  pub lt : F → F → Bool
  pub le : F → F → Bool
  -- `float(n)`
  pub of_int : ℤ → F
  -- `int(x)`
  pub to_int : F → ℤ
  -- `round(x, n)`
  pub round : F → ℕ → F

pub record IsOrdered {F : Type 0} (d : Float F) : Type 0 where
  pub le_of_lt : (x y : F) → d.lt x y ≡ true → d.le x y ≡ true
  pub le_trans : (x y z : F) → d.le x y ≡ true → d.le y z ≡ true → d.le x z ≡ true
  -- Two values that are no NaN are comparable, and a comparison that holds says that neither is NaN.
  pub comparable :
      (x y : F) → d.le x x ≡ true → d.le y y ≡ true → d.lt x y ≡ false → d.le y x ≡ true
  pub left_number : (x y : F) → d.le x y ≡ true → d.le x x ≡ true
  pub right_number : (x y : F) → d.le x y ≡ true → d.le y y ≡ true
  pub nought_number : d.le (d.of_int (pos 0)) (d.of_int (pos 0)) ≡ true
  pub lt_not_le : (x y : F) → d.lt x y ≡ true → d.le y x ≡ false

-- `min(x, y)`, `max(x, y)` and `abs(x)` of Python.
module _ {F : Type 0} ⦃d : Float F⦄ where
  abbrev pub min_of : F → F → F
  min_of x y = elim (d.lt y x) [ true ↦ y | false ↦ x ]

  abbrev pub max_of : F → F → F
  max_of x y = elim (d.lt x y) [ true ↦ y | false ↦ x ]

  abbrev pub nought : F
  nought = d.of_int (pos 0)

  abbrev pub abs_of : F → F
  abs_of x = elim (d.lt x nought) [ true ↦ d.sub nought x | false ↦ x ]

-- Whole numbers meet the laws: the arithmetic of the tests and the examples.
abbrev div_ℤ : ℤ → ℤ → ℤ
div_ℤ (pos a) (pos b) = pos (a / b)
div_ℤ (negsuc a) (pos b) = pos 0 -ℤ pos (a / b)
div_ℤ a (negsuc b) = pos 0

instance abbrev pub whole : Float ℤ
whole = record {
  add = ◌+ℤ◌;
  sub = ◌-ℤ◌;
  mul = ◌*ℤ◌;
  div = div_ℤ;
  lt = ltb_ℤ;
  le = leb_ℤ;
  of_int = λ n. n;
  to_int = λ x. x;
  round = λ x n. x;
}

pub whole-IsOrdered : IsOrdered whole
whole-IsOrdered = record {
  le_of_lt = λ x y h. ground arith;
  le_trans = λ x y z h k. ground arith;
  comparable = λ x y h k l. ground arith;
  left_number = λ x y h. ground arith;
  right_number = λ x y h. ground arith;
  nought_number = refl;
  lt_not_le = λ x y h. ground arith;
}
