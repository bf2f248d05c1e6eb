-- ===== src/Plug/Settling.antt =====
-- How the readings of src/plug.rs settle a pulse and a command, by the tests of src/state.rs.
use shelly_multiplexer.Prelude.{ℕ, ◌-◌, ◌≤◌, ◌≡◌, ◌⊎◌, ◌↔◌, Bool, true, Option, some, arith}
use shelly_multiplexer.Double.{Double, ◌≼◌}
use shelly_multiplexer.Config.Constants.{as_secs_f64}
use shelly_multiplexer.State.{BatteryState}
use shelly_multiplexer.State.Battery.{pulse_settled}
use shelly_multiplexer.Plug.{has_moved, read_plug}

module _ {W : Type 0} ⦃d : Double W⦄ where
  open d use {neg}

  -- A reading that has moved, after the last pulse was finished, holds the pulse open: it settles
  -- once the settle time after the pulse, or the stable time after the reading, has passed, and not
  -- before, as long as no other reading comes.
  pub pulse_settled_after_move :
      (stable_w apower stable_s timeout_s : W) (relay_on : Option Bool) (done now later : ℕ)
      (b : BatteryState W)
      → has_moved stable_w (neg apower) b ≡ true
      → b.pulse_remaining ≡ 0
      → b.last_pulse_completed_at ≡ some done
      → done ≤ now
      → (pulse_settled (read_plug stable_w apower relay_on now b) stable_s timeout_s later ≡ true)
        ↔ ((timeout_s ≼ as_secs_f64 (later - done)) ⊎ (stable_s ≼ as_secs_f64 (later - now)))
  unfolding read_plug pulse_settled
  pulse_settled_after_move stable_w apower stable_s timeout_s relay_on done now later b m r c h =
      ground (arith, m, r, c, h)
