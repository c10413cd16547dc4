-- ===== src/Base/Float.antt =====
-- What the program does with `float64`, as an interface: the values and the operations are those of
-- the Go language and its packages math and time, and enter every model as an argument.
use Prim.Native.Nat.{ℕ, ◌+◌, ◌-◌, ◌*◌, ◌^◌, ◌/◌, ◌≤◌, min}
use mathlib.Core.Path.{◌≡◌, refl}
use mathlib.Core.Bool.{Bool, true, false, ◌||◌}
use native.Mathlib.Omega.{arith}
use thermal_recovery_flow.Base.Tests.{ltb, leb, if◌then◌else◌}
use thermal_recovery_flow.Base.Int.{ℤ, pos, pos_part, neg_part, sub_ℕ}

-- `lit m k` is the value nearest to m / 10 ^ k: a decimal constant, or a whole number at `k = 0`.
pub record Float (F : Type 0) : Type 0 where
  pub lit : ℕ → ℕ → F
  -- `math.Inf(1)`.
  pub inf : F
  pub add : F → F → F
  pub sub : F → F → F
  pub mul : F → F → F
  pub div : F → F → F
  pub neg : F → F
  pub abs : F → F
  pub sqrt : F → F
  pub pow : F → F → F
  pub exp : F → F
  pub lt : F → F → Bool
  pub le : F → F → Bool
  pub is_nan : F → Bool
  pub is_inf : F → Bool
  -- `uint16(x)`.
  pub to_uint16 : F → ℕ
  -- `time.Duration(x)`, in nanoseconds.
  pub to_duration : F → ℤ
  -- `d.Seconds()`.
  pub seconds : ℤ → F

module _ {F : Type 0} ⦃o : Float F⦄ where
  open o use {add, sub, mul, div, lt, le, lit, neg, is_nan, is_inf}

  infixl 65 ◌+ᶠ◌ ◌-ᶠ◌
  infixl 70 ◌*ᶠ◌ ◌/ᶠ◌
  infix 50 ◌<ᶠ◌ ◌≤ᶠ◌
  abbrev pub ◌+ᶠ◌ : F → F → F
  x +ᶠ y = add x y

  abbrev pub ◌-ᶠ◌ : F → F → F
  x -ᶠ y = sub x y

  abbrev pub ◌*ᶠ◌ : F → F → F
  x *ᶠ y = mul x y

  abbrev pub ◌/ᶠ◌ : F → F → F
  x /ᶠ y = div x y

  abbrev pub ◌<ᶠ◌ : F → F → Bool
  x <ᶠ y = lt x y

  abbrev pub ◌≤ᶠ◌ : F → F → Bool
  x ≤ᶠ y = le x y

  -- `math.IsNaN(x) || math.IsInf(x, 0)`.
  abbrev pub not_finite : F → Bool
  not_finite x = is_nan x || is_inf x

-- The facts of IEEE 754 and of the Go specification that the theorems rely on: no value is below
-- itself, rounding keeps the order of decimal constants, `<` and `<=` agree on them, and a
-- conversion to uint16 gives 16 bits.
pub record IsFloat {F : Type 0} (o : Float F) : Type 0 where
  pub lt_irrefl : (x : F) → o.lt x x ≡ false
  pub lt-lit : (a k b j : ℕ) → a * 10 ^ j ≤ b * 10 ^ k → o.lt (o.lit b j) (o.lit a k) ≡ false
  pub le-lit : (a k b j : ℕ) → a * 10 ^ j ≤ b * 10 ^ k → o.le (o.lit a k) (o.lit b j) ≡ true
  pub finite-lit :
      (a k : ℕ) → a ≤ 2 ^ 64 → (o.is_nan (o.lit a k) ≡ false) × (o.is_inf (o.lit a k) ≡ false)
  pub to_uint16-le : (x : F) → o.to_uint16 x ≤ 65535

-- The laws can be met, by fractions (up - down) / size with one value for NaN. The roots and
-- powers, of which no law is assumed, are the identity there.
pub data Fraction : Type 0 where
  nan : Fraction
  frac : (up down size : ℕ) → Fraction

abbrev frac_lt : Fraction → Fraction → Bool
frac_lt (frac p n d) (frac p' n' d') = ltb (p * d' + n' * d) (p' * d + n * d')
frac_lt nan _ = false
frac_lt (frac p n d) nan = false

abbrev frac_le : Fraction → Fraction → Bool
frac_le (frac p n d) (frac p' n' d') = leb (p * d' + n' * d) (p' * d + n * d')
frac_le nan _ = false
frac_le (frac p n d) nan = false

abbrev frac_add : Fraction → Fraction → Fraction
frac_add (frac p n d) (frac p' n' d') = frac (p * d' + p' * d) (n * d' + n' * d) (d * d')
frac_add nan _ = nan
frac_add (frac p n d) nan = nan

abbrev frac_neg : Fraction → Fraction
frac_neg (frac p n d) = frac n p d
frac_neg nan = nan

abbrev frac_mul : Fraction → Fraction → Fraction
frac_mul (frac p n d) (frac p' n' d') = frac (p * p' + n * n') (p * n' + n * p') (d * d')
frac_mul nan _ = nan
frac_mul (frac p n d) nan = nan

-- A quotient by zero is NaN here.
abbrev frac_div : Fraction → Fraction → Fraction
frac_div (frac p n d) (frac p' n' d') =
    if ltb n' p'
    then frac (p * d') (n * d') (d * (p' - n'))
    else if ltb p' n'
    then frac (n * d') (p * d') (d * (n' - p'))
    else nan
frac_div nan _ = nan
frac_div (frac p n d) nan = nan

abbrev frac_abs : Fraction → Fraction
frac_abs (frac p n d) = if ltb p n then frac n p d else frac p n d
frac_abs nan = nan

abbrev frac_is_nan : Fraction → Bool
frac_is_nan nan = true
frac_is_nan (frac p n d) = false

abbrev frac_to_uint16 : Fraction → ℕ
frac_to_uint16 nan = 0
frac_to_uint16 (frac p n d) = min 65535 ((p - n) / d)

abbrev frac_to_duration : Fraction → ℤ
frac_to_duration nan = pos 0
frac_to_duration (frac p n d) = sub_ℕ (p / d) (n / d)

instance abbrev pub fraction_float : Float Fraction
fraction_float = record {
  lit = λ m k. frac m 0 (10 ^ k);
  inf = frac 1 0 0;
  add = frac_add;
  sub = λ x y. frac_add x (frac_neg y);
  mul = frac_mul;
  div = frac_div;
  neg = frac_neg;
  abs = frac_abs;
  sqrt = λ x. x;
  pow = λ x y. x;
  exp = λ x. x;
  lt = frac_lt;
  le = frac_le;
  is_nan = frac_is_nan;
  is_inf = λ x. false;
  to_uint16 = frac_to_uint16;
  to_duration = frac_to_duration;
  seconds = λ t. frac (pos_part t) (neg_part t) (10 ^ 9);
}

frac_lt_irrefl : (x : Fraction) → frac_lt x x ≡ false
frac_lt_irrefl nan = refl
frac_lt_irrefl (frac p n d) = ground arith

frac_to_uint16-le : (x : Fraction) → frac_to_uint16 x ≤ 65535
frac_to_uint16-le nan = omega arith
frac_to_uint16-le (frac p n d) = omega arith

pub Fraction-IsFloat : IsFloat fraction_float
Fraction-IsFloat = record {
  lt_irrefl = frac_lt_irrefl;
  lt-lit = λ a k b j h. ground arith;
  le-lit = λ a k b j h. ground arith;
  finite-lit = λ a k h. (refl, refl);
  to_uint16-le = frac_to_uint16-le;
}
