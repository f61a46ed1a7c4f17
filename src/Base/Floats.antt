-- ===== src/Base/Floats.antt =====
-- `double`: the hardware's numbers are a parameter of the model. What a theorem needs of them it
-- takes as a hypothesis.
use Prim.Native.Nat.{ℕ, ◌+◌, ◌-◌, ◌*◌, ◌/◌, ◌^◌}
use mathlib.Core.Bool.{Bool, true, ◌||◌}
use multi_agent_route_planni.Base.Tests.{◌==◌, nat_eq, ltb as nat_ltb, if◌then◌else◌}

-- `decimal m k` is the literal m / 10^k, `truncate` the conversion to an unsigned integer, which the
-- code applies to numbers in range alone.
pub record Floats : Type 1 where
  pub Double : Type 0
  pub decimal : ℕ → ℕ → Double
  pub of_ℕ : ℕ → Double
  pub add : Double → Double → Double
  pub sub : Double → Double → Double
  pub mul : Double → Double → Double
  pub div : Double → Double → Double
  pub ltb : Double → Double → Bool
  pub eqb : Double → Double → Bool
  pub is_finite : Double → Bool
  pub infinity : Double
  pub abs : Double → Double
  pub hypot : Double → Double → Double
  pub floor : Double → Double
  pub ceil : Double → Double
  pub truncate : Double → ℕ

-- Fixed-point numbers in thousandths, for the tests: finite, and never below 0, with the
-- distance along the axes in place of `hypot`.
abbrev pub thousandths : Floats
thousandths = record {
  Double = ℕ;
  decimal = λ m k. m * 1000 / 10 ^ k;
  of_ℕ = λ n. n * 1000;
  add = λ a b. a + b;
  sub = λ a b. a - b;
  mul = λ a b. a * b / 1000;
  div = λ a b. a * 1000 / b;
  ltb = nat_ltb;
  eqb = λ a b. a == b;
  is_finite = λ a. true;
  infinity = 10 ^ 30;
  abs = λ a. a;
  hypot = λ a b. a + b;
  floor = λ a. a / 1000 * 1000;
  ceil = λ a. (a + 999) / 1000 * 1000;
  truncate = λ a. a / 1000;
}

-- `a <= b`, which is false of a number that is none.
module _ (F : Floats) where
  open F use {Double, ltb, eqb}

  abbrev pub double_le : Double → Double → Bool
  double_le a b = ltb a b || eqb a b

-- `std::min` and `std::max`, which keep the first of equals.
module _ (F : Floats) where
  open F use {Double, ltb}

  unfoldable pub double_min : Double → Double → Double
  double_min a b = if ltb b a then b else a

  unfoldable pub double_max : Double → Double → Double
  double_max a b = if ltb a b then b else a
