-- ===== src/Dispatcher/Overhead/Standby.antt =====
-- The overhead compensation of src/dispatcher.rs at a target of 0 W.
use shelly_multiplexer.Prelude.{ℕ, ◌≤◌, ◌≡◌, refl, Option, none, some, arith}
use shelly_multiplexer.Double.{Double, IsOrdered, ◌≼◌, ◌≺◌, abs}
use shelly_multiplexer.Double.Order.{abs_lem}
use shelly_multiplexer.Config.Constants.{marstek_min_w}
use shelly_multiplexer.Setpoint.{Setpoint, standby, charge, discharge, from_signed_watts}
use shelly_multiplexer.Setpoint.Bounds.{from_signed_watts-IsSafe, from_signed_watts_panics}
use shelly_multiplexer.Dispatcher.Overhead.{
  apply_overhead_compensation, clamp_overhead, overhead_limit,
}

module _ {W : Type 0} ⦃d : Double W⦄ (laws : IsOrdered W) where
  open d use {above, below, is_negative, neg, add, nat}
  open laws use {
    one_side, add_zero, add_comm, above-neg, below-neg, below-nat, above-nat_zero, nat_lt,
    sign_above, positive-nat,
  }

  compensated_zero :
      (overhead : W)
      → marstek_min_w ≼ overhead
      → let out = apply_overhead_compensation (nat 0) overhead in
        (out ≺ nat 0) × (marstek_min_w ≼ abs out)
  unfolding apply_overhead_compensation clamp_overhead
  compensated_zero o h =
      let c = clamp_overhead o in
      let out = add (nat 0) (neg c) in
      ground (
        arith,
        abs_lem laws out,
        add_comm (nat 0) (neg c),
        add_zero (neg c) (nat 0),
        above-neg c,
        below-neg c,
        above-neg overhead_limit,
        below-neg overhead_limit,
        below-nat 0,
        below-nat 50,
        below-nat 200,
        above-nat_zero,
        nat_lt 0 50,
        nat_lt 50 200,
        sign_above c,
        one_side c,
        positive-nat 0,
      )

  -- A target of 0 W is not a standby where the learned overhead is 50 W or more (the plug shows more
  -- discharge than was commanded): the battery is then told to charge, with at least 50 W, if its
  -- charge limit is 50 W or more.
  pub standby_target_charges :
      (overhead max_charge max_discharge : W)
      → marstek_min_w ≼ overhead
      → marstek_min_w ≼ max_charge
      → (watts : ℕ) × (50 ≤ watts)
        × (from_signed_watts (apply_overhead_compensation (nat 0) overhead) max_charge max_discharge
            ≡ some (charge watts))
  standby_target_charges o mc md h k = go _ refl
    where
      w : W
      w = apply_overhead_compensation (nat 0) o

      go :
          (r : Option Setpoint)
          → from_signed_watts w mc md ≡ r
          → (watts : ℕ) × (50 ≤ watts) × (r ≡ some (charge watts))
      go none e =
          absurd (ground (arith, compensated_zero o h, (from_signed_watts_panics laws w mc md).0 e))
      go (some standby) e =
          absurd (omega (arith, compensated_zero o h, from_signed_watts-IsSafe laws w mc md e))
      go (some (charge n)) e = (n, (from_signed_watts-IsSafe laws w mc md e).0, refl)
      go (some (discharge n)) e =
          absurd (omega (arith, compensated_zero o h, (from_signed_watts-IsSafe laws w mc md e).3))
