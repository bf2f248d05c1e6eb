-- ===== src/Double/Order.antt =====
-- Facts about the order of doubles that the components share.
use shelly_multiplexer.Prelude.{
  ℕ, ◌+◌, ◌-◌, ◌<◌, ◌↔◌, ◌≤◌, ◌^◌, ◌≡◌, none, some, arith, if◌then◌else◌,
}
use shelly_multiplexer.Double.{Double, IsOrdered, IsExact, ◌≼◌, ◌≺◌, lt, abs, sub, clamp}

module _ {W : Type 0} ⦃d : Double W⦄ where
  open d use {above, below, is_negative, neg, add, nat, floor}

  -- A clamp that does not panic returns a value between its bounds.
  pub clamp_bounds : (x lo hi : W) {y : W} → clamp x lo hi ≡ some y → (lo ≼ y) × (y ≼ hi)
  clamp_bounds x lo hi e = ground arith

  pub clamp-some : (x lo hi : W) → lo ≼ hi → (y : W) × (clamp x lo hi ≡ some y)
  clamp-some x lo hi h = (if lt x lo then lo else if lt hi x then hi else x, ground arith)

  pub clamp-none : (x lo hi : W) → hi ≺ lo → clamp x lo hi ≡ none
  clamp-none x lo hi h = ground arith

  module _ (laws : IsOrdered W) where
    open laws use {
      one_side, above-neg, below-neg, sign_below, sign_above, below-nat, above-nat_zero, nat_lt,
      floor-nat, floor_mono, add_mono, add_zero, sub_self, neg-neg, add_neg, add_comm,
    }

    pub nat_le : (n m : ℕ) → n ≤ m → m ≤ 2 ^ 53 → nat n ≼ nat m
    nat_le n m h k = ground (arith, nat_lt n m, below-nat n, below-nat m)

    -- The size of a double is the count on its side of zero.
    pub abs_lem : (x : W) → (above (abs x) ≡ above x + below x) × (below (abs x) ≡ 0)
    abs_lem x = ground (arith, one_side x, sign_below x, sign_above x, above-neg x, below-neg x)

    pub neg_mono : (x y : W) → x ≼ y → neg y ≼ neg x
    neg_mono x y h = omega (arith, above-neg x, above-neg y, below-neg x, below-neg y)

    module _ (exact : IsExact W) where
      -- The distance of two whole numbers.
      distance :
          (n m : ℕ)
          → n ≤ m
          → m ≤ 2 ^ 53
          → (above (abs (sub (nat n) (nat m))) ≡ above (nat (m - n)))
            × (above (abs (sub (nat m) (nat n))) ≡ above (nat (m - n)))
      distance n m h fits =
          let apart = exact.sub_nat m n h fits in
          let turned =
            (rw (neg-neg (nat n), add_comm (neg (nat m)) (nat n)) at
              (add_neg (nat m) (neg (nat n)))) in
          (
            omega (arith, (abs_lem (sub (nat n) (nat m))).0, turned, apart),
            omega (arith, (abs_lem (sub (nat m) (nat n))).0, apart),
          )

      -- Two whole numbers are closer than a third where their difference is, whichever is greater.
      pub closer_iff :
          (n m k : ℕ)
          → n < 2 ^ 16
          → m < 2 ^ 16
          → k < 2 ^ 16
          → (abs (sub (nat n) (nat m)) ≺ nat k) ↔ ((n < m + k) × (m < n + k))
      closer_iff n m k hn hm hk = ground (
        arith,
        distance n m,
        distance m n,
        (abs_lem (sub (nat n) (nat m))).1,
        nat_lt (m - n) k,
        nat_lt (n - m) k,
        nat_le k (m - n),
        nat_le k (n - m),
        below-nat k,
      )
