-- ===== src/Double.antt =====
-- Rust's `f64`, as an interface: what the code does with a double, and the laws of IEEE 754
-- arithmetic (round to nearest) that the development relies on. NaN is left out: the type stands
-- for the other doubles, and an operation that the standard makes NaN may return any of them.

pub mod Fixed
pub mod Order
use shelly_multiplexer.Prelude.{
  ℕ, ◌+◌, ◌-◌, ◌≤◌, ◌<◌, ◌^◌, ◌≡◌, ◌⊎◌, Bool, true, false, not, ◌&&◌, Option, none, some, List, [],
  ◌∷◌, ltb, leb, if◌then◌else◌, ℤ, pos, negsuc, suc,
}

-- `above x` counts the doubles from zero up to `x`, and `below x` those from zero down to `x`: one
-- of the two is 0, and both are at 0.0 and at -0.0. So they are the order of the doubles.
pub record Double (W : Type 0) : Type 0 where
  pub above : W → ℕ
  pub below : W → ℕ
  -- the sign bit
  pub is_negative : W → Bool
  pub neg : W → W
  pub add : W → W → W
  pub mul : W → W → W
  pub div : W → W → W
  -- the double nearest to a natural number, and to a fraction
  pub nat : ℕ → W
  pub ratio : ℕ → ℕ → W
  -- the integer part of a double that is not below zero, and 0 of one that is
  pub floor : W → ℕ
  -- `f64::round`: the nearest integer, and of two the one further from zero
  pub round : W → W

module _ {W : Type 0} ⦃d : Double W⦄ where
  open d use {above, below, is_negative, neg, add, mul, nat, floor}

  infix 50 ◌≼◌ ◌≺◌
  abbrev pub ◌≼◌ : W → W → Type 0
  x ≼ y = above x + below y ≤ above y + below x

  abbrev pub ◌≺◌ : W → W → Type 0
  x ≺ y = above x + below y < above y + below x

  abbrev pub lt : W → W → Bool
  lt x y = ltb (above x + below y) (above y + below x)

  abbrev pub le : W → W → Bool
  le x y = leb (above x + below y) (above y + below x)

  -- `x == y`, which holds of 0.0 and -0.0
  abbrev pub eq : W → W → Bool
  eq x y = le x y && le y x

  -- `x - y` is `x + (-y)`, exactly.
  abbrev pub sub : W → W → W
  sub x y = add x (neg y)

  abbrev pub abs : W → W
  abs x = if is_negative x then neg x else x

  abbrev pub signum : W → W
  signum x = if is_negative x then neg (nat 1) else nat 1

  abbrev pub copysign : W → W → W
  copysign x y = if is_negative y then neg (abs x) else abs x

  abbrev pub max : W → W → W
  max x y = if lt x y then y else x

  abbrev pub min : W → W → W
  min x y = if lt y x then y else x

  -- `x.clamp(lo, hi)` panics where `lo > hi`: `none` is the panic.
  abbrev pub clamp : W → W → W → Option W
  clamp x lo hi =
      if lt hi lo then none else some (if lt x lo then lo else if lt hi x then hi else x)

  -- `x as u16` saturates.
  abbrev pub to_u16 : W → ℕ
  to_u16 x = if ltb 65535 (floor x) then 65535 else floor x

  -- `iter().sum::<f64>()`, from the left; the standard library starts at -0.0, which adds nothing.
  abbrev pub sum_from : W → List W → W
  sum_from acc [] = acc
  sum_from acc (x ∷ xs) = sum_from (add acc x) xs

  abbrev pub sum : List W → W
  sum = sum_from (neg (nat 0))

  -- `f64::from` of a signed integer
  abbrev pub of_ℤ : ℤ → W
  of_ℤ (pos n) = nat n
  of_ℤ (negsuc n) = neg (nat (suc n))

-- Order, sign and addition.
pub record IsOrdered (W : Type 0) ⦃d : Double W⦄ : Type 0 where
  pub one_side : (x : W) → (d.above x ≡ 0) ⊎ (d.below x ≡ 0)
  pub above-neg : (x : W) → d.above (d.neg x) ≡ d.below x
  pub below-neg : (x : W) → d.below (d.neg x) ≡ d.above x
  pub neg-neg : (x : W) → d.neg (d.neg x) ≡ x
  pub sign_below : (x : W) → 0 < d.below x → d.is_negative x ≡ true
  pub sign_above : (x : W) → 0 < d.above x → d.is_negative x ≡ false
  pub positive-nat : (n : ℕ) → d.is_negative (d.nat n) ≡ false
  pub below-nat : (n : ℕ) → d.below (d.nat n) ≡ 0
  pub above-nat_zero : d.above (d.nat 0) ≡ 0
  -- The natural numbers up to 2^53 are doubles.
  pub nat_lt : (n m : ℕ) → n < m → m ≤ 2 ^ 53 → d.above (d.nat n) < d.above (d.nat m)
  pub floor-nat : (n : ℕ) → n ≤ 2 ^ 53 → d.floor (d.nat n) ≡ n
  pub nat_floor : (x : W) → d.below x ≡ 0 → d.nat (d.floor x) ≼ x
  pub floor_mono : (x y : W) → x ≼ y → d.floor x ≤ d.floor y
  -- Rounding keeps order and sign.
  pub add_mono : (x y u v : W) → x ≼ y → u ≼ v → d.add x u ≼ d.add y v
  pub add_zero :
      (x z : W)
      → d.above z ≡ 0
      → d.below z ≡ 0
      → (d.above (d.add x z) ≡ d.above x) × (d.below (d.add x z) ≡ d.below x)
  pub add_neg :
      (x y : W)
      → (d.above (d.add (d.neg x) (d.neg y)) ≡ d.below (d.add x y))
        × (d.below (d.add (d.neg x) (d.neg y)) ≡ d.above (d.add x y))
  pub add_comm : (x y : W) → d.add x y ≡ d.add y x
  pub sub_self : (x : W) → (d.above (d.add x (d.neg x)) ≡ 0) × (d.below (d.add x (d.neg x)) ≡ 0)

-- Differences: those of whole numbers up to 2^53 are exact, and with gradual underflow no difference
-- of two doubles in order is lost.
pub record IsExact (W : Type 0) ⦃d : Double W⦄ : Type 0 where
  pub sub_nat :
      (n m : ℕ)
      → m ≤ n
      → n ≤ 2 ^ 53
      → (d.above (d.add (d.nat n) (d.neg (d.nat m))) ≡ d.above (d.nat (n - m)))
        × (d.below (d.add (d.nat n) (d.neg (d.nat m))) ≡ 0)
  pub sub_strict : (x y : W) → x ≺ y → d.nat 0 ≺ d.add y (d.neg x)

-- Products with a factor between 0 and 1, and quotients of two sizes in order.
pub record IsScaling (W : Type 0) ⦃d : Double W⦄ : Type 0 where
  pub mul_shrink :
      (x s : W)
      → d.nat 0 ≼ s
      → s ≼ d.nat 1
      → (d.above (d.mul x s) ≤ d.above x) × (d.below (d.mul x s) ≤ d.below x)
  pub div_le_one :
      (a b : W) → d.nat 0 ≼ a → a ≼ b → d.nat 0 ≺ b → (d.nat 0 ≼ d.div a b) × (d.div a b ≼ d.nat 1)
