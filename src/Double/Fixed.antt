-- ===== src/Double/Fixed.antt =====
-- A double of the interface that runs: thousandths, as integers.
use shelly_multiplexer.Prelude.{
  ℕ, ◌+◌, ◌≤◌, Bool, true, false, ◌*◌, ◌/◌, ℤ, pos, negsuc, pos_part, neg_part, ◌+ℤ◌, neg_ℤ, sub_ℕ,
  arith,
}
use native.Mathlib.Nat.{div-le_of_le-mul, mul-le-mul_left}
use shelly_multiplexer.Double.{Double, IsOrdered, IsExact, IsScaling}

abbrev fixed_negative : ℤ → Bool
fixed_negative (pos n) = false
fixed_negative (negsuc n) = true

abbrev fixed_mul : ℤ → ℤ → ℤ
fixed_mul a b =
    sub_ℕ ((pos_part a * pos_part b + neg_part a * neg_part b) / 1000)
      ((pos_part a * neg_part b + neg_part a * pos_part b) / 1000)

abbrev fixed_div : ℤ → ℤ → ℤ
fixed_div a b =
    sub_ℕ ((1000 * pos_part a) / pos_part b + (1000 * neg_part a) / neg_part b)
      ((1000 * pos_part a) / neg_part b + (1000 * neg_part a) / pos_part b)

abbrev fixed_round : ℤ → ℤ
fixed_round a = sub_ℕ (1000 * ((pos_part a + 500) / 1000)) (1000 * ((neg_part a + 500) / 1000))

instance abbrev pub fixed : Double ℤ
fixed = record {
  above = pos_part;
  below = neg_part;
  is_negative = fixed_negative;
  neg = neg_ℤ;
  add = ◌+ℤ◌;
  mul = fixed_mul;
  div = fixed_div;
  nat = λ n. pos (1000 * n);
  ratio = λ n m. pos ((1000 * n) / m);
  floor = λ x. pos_part x / 1000;
  round = fixed_round;
}

pub fixed-IsOrdered : IsOrdered ℤ
fixed-IsOrdered = ground arith

pub fixed-IsExact : IsExact ℤ
fixed-IsExact = record {
  sub_nat = λ n m h fits. ground (arith, h);
  sub_strict = λ x y h. ground (arith, h);
}

scaled_le : (a s : ℕ) → s ≤ 1000 → (a * s) / 1000 ≤ a
scaled_le a s h =
    let k : a * s ≤ a * 1000 = mul-le-mul_left a h in div-le_of_le-mul 1000 (omega (arith, k))

ratio_le : (a b : ℕ) → a ≤ b → (1000 * a) / b ≤ 1000
ratio_le a b h = div-le_of_le-mul b (omega (arith, h))

pub fixed-IsScaling : IsScaling ℤ
fixed-IsScaling = record {
  mul_shrink = λ x s lo hi.
      ground (arith, scaled_le (pos_part x) (pos_part s), scaled_le (neg_part x) (pos_part s));
  div_le_one = λ a b lo h p. ground (arith, ratio_le (pos_part a) (pos_part b));
}
