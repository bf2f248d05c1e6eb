-- ===== src/Tests/Programs.antt =====
-- The theorems about the whole program, on the small installation.
use shelly_multiplexer.Prelude.{
  ℕ, ◌⊎◌, ◌≢◌, ◌+◌, ◌*◌, ◌≡◌, refl, true, Option, none, some, [], ◌∷◌, ℤ, arith, contains,
  string_key,
}
use shelly_multiplexer.Prelude.Text.{is_blank}
use shelly_multiplexer.Double.Fixed.{fixed, fixed-IsOrdered, fixed-IsScaling}
use shelly_multiplexer.Config.Constants.{second}
use shelly_multiplexer.Config.Types.{cap_w, default_dispatcher_config, effective_virtual_unit_id}
use shelly_multiplexer.State.{AppState}
use shelly_multiplexer.State.Startup.{app_from_config, empty_status}
use shelly_multiplexer.Config.Validate.{
  validate, first_error, circuit_checks, batteries_checks, battery_checks, identity_checks,
  cap_check, find_circuit, soc_checks, charge_taper_checks, discharge_taper_checks, modbus_checks,
  dispatcher_checks, location_checks, server_checks, unit_checks,
}
use shelly_multiplexer.Plug.{plug_reading}
use shelly_multiplexer.Meter.{meter_tick}
use shelly_multiplexer.Dispatcher.Night.{SolarTimes}
use shelly_multiplexer.Runtime.{
  Cycle, Clocks, run_cycle, Reachable, started, step, metered, plug_read,
}
use shelly_multiplexer.Runtime.Started.{IsUsable, IsSound}
use shelly_multiplexer.Runtime.Sound.{run_cycle_returns, Reachable-IsSound}
use shelly_multiplexer.Admin.{Surroundings, AdminCtx, ok, apply_new_config}
use shelly_multiplexer.Admin.Saves.{IsSaved, apply_new_config-IsSaved}
use shelly_multiplexer.Tests.{w, now, home}
use shelly_multiplexer.Tests.Cycles.{installation}

usable : IsUsable (λ address. true) installation
unfolding validate first_error circuit_checks contains batteries_checks battery_checks
    identity_checks is_blank cap_check find_circuit cap_w soc_checks charge_taper_checks
    discharge_taper_checks modbus_checks dispatcher_checks default_dispatcher_config location_checks
    server_checks unit_checks effective_virtual_unit_id
usable = record { valid = refl; capable = ground arith; caps = ground arith }

abbrev solar : ℤ → ℤ → ℕ → Option SolarTimes
solar lat lon utc = some (record {
  sunrise_today = 100 * second;
  sunset_today = 200 * second;
  sunrise_tomorrow = 300 * second;
})

-- After the start, a reading of the meter and one of a plug.
abbrev metered_state : AppState ℤ
metered_state =
    (meter_tick (some (record (empty_status ℤ) { total_act_power = some (w 900) })) now
      (app_from_config installation 0, none)).0

abbrev running : AppState ℤ
running = plug_reading (w 10) "left" (w 150) (some true) now metered_state

running-Reachable : Reachable solar installation running
running-Reachable =
    step _ _
      (step _ _ (started 0) (
        metered (app_from_config installation 0)
          (some (record (empty_status ℤ) { total_act_power = some (w 900) })) now none))
      (plug_read metered_state (w 10) "left" (w 150) (some true) now)

abbrev clocks : Clocks
clocks = record { utc = 250 * second; safety = now; night = now + 1; step = now + 2 }

run_cycle_returns_example :
    (r : Cycle ℤ) × (run_cycle solar running installation (some ("left" ∷ [])) clocks ≡ some r)
    × IsSound r.state
run_cycle_returns_example =
    run_cycle_returns fixed-IsOrdered fixed-IsScaling solar (λ address. true) installation running
      usable running-Reachable installation (some ("left" ∷ [])) clocks

Reachable-IsSound_example : IsSound running
Reachable-IsSound_example =
    Reachable-IsSound fixed-IsOrdered fixed-IsScaling solar (λ address. true) installation running
      usable running-Reachable

abbrev admin : AdminCtx ℤ
admin = record { state = home; config = installation; file = "old" }

abbrev around : Surroundings ℤ
around = record {
  env_token = some "secret";
  to_toml = λ cfg. some cfg.home_assistant.token;
  writes = true;
  renames = true;
}

apply_new_config-IsSaved_example :
    let r = apply_new_config (λ address. true) around installation admin in
    ((r.0 ≡ ok) × IsSaved (λ address. true) around installation admin r.1)
    ⊎ ((r.0 ≢ ok) × (r.1 ≡ admin))
apply_new_config-IsSaved_example =
    apply_new_config-IsSaved (λ address. true) around installation admin
