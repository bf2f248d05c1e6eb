-- ===== src/Dispatcher/Overhead.antt =====
-- `apply_overhead_compensation` of src/dispatcher.rs: what to command so that the plug lands at the
-- target.
pub mod Standby
use shelly_multiplexer.Prelude.{
  ℕ, ◌+◌, ◌≤◌, ◌<◌, ◌≡◌, refl, ◌⊎◌, inl, inr, Bool, true, false, ◌&&◌, Option, none, some, arith,
  ltb, if◌then◌else◌, Option-cases,
}
use shelly_multiplexer.Double.{Double, IsOrdered, ◌≼◌, ◌≺◌, lt, le, eq, sub, signum, clamp}
use shelly_multiplexer.Double.Order.{clamp_bounds, clamp-some, neg_mono}

module _ {W : Type 0} ⦃d : Double W⦄ where
  open d use {above, below, is_negative, neg, add, nat}

  abbrev pub overhead_limit : W
  overhead_limit = nat 200

  -- `overhead_raw.clamp(-200.0, 200.0)`, whose bounds are in order.
  unfoldable pub clamp_overhead : W → W
  clamp_overhead x =
      if lt x (neg overhead_limit)
      then neg overhead_limit
      else if lt overhead_limit x
      then overhead_limit
      else x

  unfoldable pub apply_overhead_compensation : W → W → W
  unfolding clamp_overhead
  apply_overhead_compensation target overhead_raw =
      let overhead = clamp_overhead overhead_raw in
      if eq (signum overhead) (signum target) then sub target overhead else target

  module _ (laws : IsOrdered W) where
    open laws use {
      one_side, add_mono, add_zero, sub_self, above-neg, below-neg, below-nat, above-nat_zero,
      nat_lt, sign_above, sign_below,
    }

    clamp_overhead_bounds :
        (x : W) → (neg overhead_limit ≼ clamp_overhead x) × (clamp_overhead x ≼ overhead_limit)
    unfolding clamp_overhead
    clamp_overhead_bounds x =
        ground (arith, above-neg overhead_limit, below-neg overhead_limit, below-nat 200)

    -- `clamp_overhead` is the standard library's clamp.
    clamp_overhead_lem :
        (x : W) → clamp x (neg overhead_limit) overhead_limit ≡ some (clamp_overhead x)
    unfolding clamp_overhead
    clamp_overhead_lem x =
        ground (arith, above-neg overhead_limit, below-neg overhead_limit, below-nat 200)

    same_sign : (x y : W) → nat 0 ≺ x → eq (signum y) (signum x) ≡ true → nat 0 ≼ y
    same_sign x y p e = ground (
      arith,
      sign_above x,
      sign_below y,
      below-nat 0,
      above-nat_zero,
      nat_lt 0 1,
      below-nat 1,
      above-neg (nat 1),
      below-neg (nat 1),
      one_side x,
      one_side y,
    )

    same_sign_neg : (x y : W) → x ≺ nat 0 → eq (signum y) (signum x) ≡ true → y ≼ nat 0
    same_sign_neg x y p e = ground (
      arith,
      sign_below x,
      sign_above y,
      below-nat 0,
      above-nat_zero,
      nat_lt 0 1,
      below-nat 1,
      above-neg (nat 1),
      below-neg (nat 1),
      one_side x,
      one_side y,
    )

    -- The compensation only takes power off: a discharge target is never raised and a charge target
    -- never deepened, and either is moved by at most 200 W. A target of zero is left out.
    pub apply_overhead_compensation_bounds :
        (target overhead : W)
        → let out = apply_overhead_compensation target overhead in
          (nat 0 ≺ target) × (out ≼ target) × (sub target overhead_limit ≼ out)
          ⊎ (target ≺ nat 0) × (target ≼ out) × (out ≼ sub target (neg overhead_limit))
          ⊎ (nat 0 ≼ target) × (target ≼ nat 0)
    unfolding apply_overhead_compensation
    apply_overhead_compensation_bounds t o =
        let c = clamp_overhead o in
        ground (
          arith,
          same_sign t c,
          same_sign_neg t c,
          clamp_overhead_bounds o,
          add_mono t t (neg c) (neg (nat 0)),
          add_mono t t (neg (nat 0)) (neg c),
          add_mono t t (neg overhead_limit) (neg c),
          add_mono t t (neg c) (neg (neg overhead_limit)),
          add_mono t t (neg overhead_limit) (neg (nat 0)),
          add_mono t t (neg (nat 0)) (neg (neg overhead_limit)),
          add_zero t (neg (nat 0)),
          above-neg c,
          below-neg c,
          above-neg (nat 0),
          below-neg (nat 0),
          above-neg overhead_limit,
          below-neg overhead_limit,
          above-neg (neg overhead_limit),
          below-neg (neg overhead_limit),
          below-nat 0,
          below-nat 200,
          above-nat_zero,
        )
