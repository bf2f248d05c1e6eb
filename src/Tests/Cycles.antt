-- ===== src/Tests/Cycles.antt =====
-- The theorems about whole cycles, the circuit safety and the night, on the small installation.
use shelly_multiplexer.Prelude.{
  ℕ, ◌*◌, ◌-◌, Bool, ◌≡◌, refl, ◌⊎◌, ◌↔◌, true, false, none, some, List, [], ◌∷◌, String, ℤ, arith,
  Returns, All, values, string_key, contains,
}
use shelly_multiplexer.Prelude.Text.{is_blank}
use shelly_multiplexer.Double.{◌≼◌}
use shelly_multiplexer.Double.Fixed.{fixed, fixed-IsOrdered, fixed-IsScaling}
use shelly_multiplexer.Config.Constants.{second, as_secs_f64}
use shelly_multiplexer.Config.Types.{
  Config, v4, cap_w, default_dispatcher_config, effective_virtual_unit_id,
}
use shelly_multiplexer.State.{AppState, BatteryState, night_cutoff}
use shelly_multiplexer.State.Startup.{battery_from_config}
use shelly_multiplexer.Setpoint.{Setpoint}
use shelly_multiplexer.Config.Validate.{
  validate, first_error, circuit_checks, batteries_checks, battery_checks, identity_checks,
  cap_check, find_circuit, soc_checks, charge_taper_checks, discharge_taper_checks, modbus_checks,
  dispatcher_checks, location_checks, server_checks, unit_checks,
}
use shelly_multiplexer.Config.Validate.Limits.{validate-AreRated}
use shelly_multiplexer.State.Battery.{pulse_settled}
use shelly_multiplexer.Plug.{has_moved, read_plug}
use shelly_multiplexer.Plug.Settling.{pulse_settled_after_move}
use shelly_multiplexer.Dispatcher.Bounds.{IsRated}
use shelly_multiplexer.Dispatcher.Mute.{update_circuit_mute, is_grid_fresh}
use shelly_multiplexer.Dispatcher.Shares.{eligible}
use shelly_multiplexer.Dispatcher.Night.{restore, leave, SolarTimes, night_step}
use shelly_multiplexer.Dispatcher.Night.Recovery.{restore_asked_once}
use shelly_multiplexer.Dispatcher.Deltas.{compute_deltas}
use shelly_multiplexer.Dispatcher.Deltas.Spans.{IsApproach, compute_deltas-AreApproaches}
use shelly_multiplexer.Dispatcher.Cycle.{step_modbus}
use shelly_multiplexer.Dispatcher.Cycle.Commands.{IsSent, IsCapable, step_modbus-AreSendable}
use shelly_multiplexer.Tests.{
  w, home, settings, now, battery, battery_config, circuit, home-IsKeyed, home-IsRated, home_caps,
}

home-IsCapable : All (λ (b : BatteryState ℤ). IsCapable b) (values home.batteries)
unfolding battery_from_config
home-IsCapable = ground arith

step_modbus-AreSendable_example :
    Returns
      (λ (r : AppState ℤ × List (String × Setpoint)).
        IsSent
          (update_circuit_mute home settings now).0
          now
          ("left" ∷ "right" ∷ [])
          (is_grid_fresh home settings now)
          r.1)
      (step_modbus home settings (some ("left" ∷ "right" ∷ [])) now)
step_modbus-AreSendable_example =
    step_modbus-AreSendable fixed-IsOrdered fixed-IsScaling home settings ("left" ∷ "right" ∷ [])
      now home-IsKeyed home-IsRated home-IsCapable home_caps

compute_deltas-AreApproaches_example :
    Returns
      (λ deltas. All (IsApproach settings now deltas) (eligible home now))
      (compute_deltas home settings (w 900) now)
compute_deltas-AreApproaches_example =
    compute_deltas-AreApproaches fixed-IsOrdered fixed-IsScaling home settings (w 900) now
      home-IsKeyed home-IsRated

-- Sunrise at 100 s, sunset at 200 s, and sunrise at 300 s.
abbrev pub sun : SolarTimes
sun = record {
  sunrise_today = 100 * second;
  sunset_today = 200 * second;
  sunrise_tomorrow = 300 * second;
}

abbrev pub asleep : BatteryState ℤ
asleep = record (battery "left" (w 0)) {
  soc_pct = some (w 6);
  plug_cut_until = some (300 * second);
  plug_cut_reason = some (night_cutoff (w 6) (w 5) (w 2));
  plug_relay_state = some false;
}

restore_asked_once_example :
    let first = night_step settings false (300 * second) asleep in
    (first.1 ≡ restore)
    × (first.0.plug_relay_state ≡ asleep.plug_relay_state)
    × (night_step settings false (400 * second) first.0 ≡ (first.0, leave))
restore_asked_once_example = restore_asked_once settings (300 * second) (400 * second) asleep refl

abbrev pub installation : Config ℤ
installation = record {
  real_shelly = record {
    host = v4 9;
    udp_port = 1010;
    poll_interval_ms = 500;
    request_timeout_ms = 900;
  };
  virtual_shelly = record {
    bind_interface = "0.0.0.0";
    udp_port = 1010;
    http_port = 80;
    device_mac = "";
    device_hostname = "";
    firmware = "";
    enable_mdns = false;
  };
  management = record { bind_address = "0.0.0.0:8080" };
  dispatcher = settings;
  home_assistant = record { enabled = false; url = ""; token = ""; timeout_ms = 5000 };
  location = record { latitude = none; longitude = none };
  virtual_modbus = record {
    enabled = true;
    bind_address = "0.0.0.0:5502";
    bulk_refresh_ms = 1000;
    slow_refresh_ms = 10000;
    debug = false;
  };
  circuits = circuit.config ∷ [];
  batteries = battery_config "left" ∷ [];
}

validate-AreRated_example :
    All
      (λ b. (ha_enabled : Bool) (index : ℕ) → IsRated (battery_from_config b ha_enabled index))
      installation.batteries
unfolding validate first_error circuit_checks contains batteries_checks battery_checks
    identity_checks is_blank cap_check find_circuit cap_w soc_checks charge_taper_checks
    discharge_taper_checks modbus_checks dispatcher_checks default_dispatcher_config location_checks
    server_checks unit_checks effective_virtual_unit_id
validate-AreRated_example = validate-AreRated (λ address. true) installation refl

-- A battery whose pulse was finished at 100 s, with the plug at 0 W.
abbrev pulsed : BatteryState ℤ
pulsed = record (battery "left" (w 0)) { last_pulse_completed_at = some (100 * second) }

-- A plug that drew nothing now shows 300 W of charging.
pulse_settled_after_move_example :
    (pulse_settled
        (read_plug (w 10) (w 300) (some true) (110 * second) pulsed)
        (w 3)
        (w 10)
        (112 * second)
      ≡ true)
    ↔ ((w 10 ≼ as_secs_f64 (112 * second - 100 * second))
        ⊎ (w 3 ≼ as_secs_f64 (112 * second - 110 * second)))
unfolding has_moved battery_from_config
pulse_settled_after_move_example =
    pulse_settled_after_move (w 10) (w 300) (w 3) (w 10) (some true) (100 * second) (110 * second)
      (112 * second) pulsed refl refl refl (ground arith)
