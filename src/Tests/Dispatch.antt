-- ===== src/Tests/Dispatch.antt =====
-- The theorems about the dispatcher, on the small installation.
use shelly_multiplexer.Prelude.{
  ℕ, ◌+◌, ◌*◌, ◌≤◌, ◌≡◌, refl, ◌⊎◌, ◌↔◌, true, not, ◌||◌, some, ℤ, arith, lookup, Returns,
}
use shelly_multiplexer.Double.{◌≼◌, ◌≺◌}
use shelly_multiplexer.Double.Fixed.{fixed, fixed-IsOrdered, fixed-IsScaling}
use shelly_multiplexer.Config.Constants.{second}
use shelly_multiplexer.Config.Types.{DispatcherConfig, default_dispatcher_config, pulse}
use shelly_multiplexer.State.{BatteryState}
use shelly_multiplexer.Setpoint.{charge, from_signed_watts}
use shelly_multiplexer.Dispatcher.Overhead.{
  apply_overhead_compensation, apply_overhead_compensation_bounds,
}
use shelly_multiplexer.Dispatcher.Overhead.Standby.{standby_target_charges}
use shelly_multiplexer.Dispatcher.Mute.{
  is_muted, any_plug_stale, is_grid_fresh, update_circuit_mute,
}
use shelly_multiplexer.Dispatcher.Mute.Freshness.{pulse_mutes, modbus_never_mutes}
use shelly_multiplexer.Dispatcher.Shares.{eligible}
use shelly_multiplexer.Dispatcher.Shares.Bounded.{InBounds}
use shelly_multiplexer.Dispatcher.Targets.{bounded_targets, compute_targets}
use shelly_multiplexer.Dispatcher.Targets.Consolidated.{bounded_targets-InBounds}
use shelly_multiplexer.Dispatcher.Targets.Ramp.{AreReachable, compute_targets-AreReachable}
use shelly_multiplexer.Tests.{
  w, home, settings, now, battery, circuit, home-IsKeyed, home-IsRated, home_caps,
}

-- A battery that was found full at 50 s.
abbrev full : BatteryState ℤ
full = record (battery "left" (w 0)) { charge_locked_until = some (650 * second) }

bounded_targets-InBounds_example :
    Returns (InBounds settings now home.batteries) (bounded_targets home settings (w 900) now)
bounded_targets-InBounds_example =
    bounded_targets-InBounds fixed-IsOrdered home settings now home-IsKeyed home-IsRated (w 900)

compute_targets-AreReachable_example :
    Returns (AreReachable (w 500) (eligible home now)) (compute_targets home settings (w 900) now)
unfolding default_dispatcher_config
compute_targets-AreReachable_example =
    compute_targets-AreReachable fixed-IsOrdered fixed-IsScaling home settings (w 900) now
      home-IsKeyed home-IsRated home_caps

apply_overhead_compensation_bounds_example :
    let out = apply_overhead_compensation (w 500) (w 60) in
    (w 0 ≺ w 500) × (out ≼ w 500) × (w 300 ≼ out)
    ⊎ (w 500 ≺ w 0) × (w 500 ≼ out) × (out ≼ w 700)
    ⊎ (w 0 ≼ w 500) × (w 500 ≼ w 0)
apply_overhead_compensation_bounds_example =
    apply_overhead_compensation_bounds fixed-IsOrdered (w 500) (w 60)

standby_target_charges_example :
    (watts : ℕ) × (50 ≤ watts)
    × (from_signed_watts (apply_overhead_compensation (w 0) (w 60)) (w 2500) (w 2500)
        ≡ some (charge watts))
standby_target_charges_example =
    standby_target_charges fixed-IsOrdered (w 60) (w 2500) (w 2500) (ground arith) (ground arith)

-- A battery at 5 %.
abbrev empty : BatteryState ℤ
empty = record (battery "left" (w 0)) { soc_pct = some (w 5) }

abbrev pulsed : DispatcherConfig ℤ
pulsed = record settings { mode = pulse }

-- A minute later every measurement is stale.
abbrev later : ℕ
later = now + 60 * second

pulse_mutes_example :
    (is_muted (update_circuit_mute home pulsed now).0.circuits "garage" now ≡ true) ↔ (
      (any_plug_stale home.batteries pulsed.plug_stale_s now circuit.member_ids
          || not (is_grid_fresh home pulsed now)
        ≡ true)
      ⊎ (is_muted home.circuits "garage" now ≡ true))
unfolding lookup
pulse_mutes_example = pulse_mutes home pulsed now "garage" circuit refl refl

modbus_never_mutes_example :
    is_muted (update_circuit_mute home settings later).0.circuits "garage" later
    ≡ is_muted home.circuits "garage" later
unfolding default_dispatcher_config
modbus_never_mutes_example = modbus_never_mutes home settings later "garage" refl
