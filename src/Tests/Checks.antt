-- ===== src/Tests/Checks.antt =====
-- The theorems about the overload of a circuit, the night, the correction of the grid and the commands
-- that a writer leaves out, on the small installation.
use shelly_multiplexer.Prelude.{
  ℕ, ◌+◌, ◌*◌, ◌≤◌, ◌≡◌, ◌≢◌, refl, ◌⊎◌, ◌↔◌, true, false, none, some, List, [], ◌∷◌, String, ℤ,
  negsuc, arith, lookup, string_key, subst,
}
use mathlib.Core.Option.{some-injective}
use shelly_multiplexer.Prelude.Text.{trim_end_slash}
use shelly_multiplexer.Double.{◌≼◌, ◌≺◌}
use shelly_multiplexer.Double.Fixed.{fixed, fixed-IsOrdered, fixed-IsExact}
use shelly_multiplexer.Config.Constants.{second}
use shelly_multiplexer.Config.Types.{cap_w}
use shelly_multiplexer.State.{BatteryState, over_cap}
use shelly_multiplexer.State.Startup.{battery_from_config}
use shelly_multiplexer.Setpoint.{Setpoint, charge}
use shelly_multiplexer.Dispatcher.Correction.{
  compute_grid_correction, idle_threshold, Follows, compute_grid_correction_direction,
}
use shelly_multiplexer.Dispatcher.Safety.{
  Trip, guard_circuit, is_overloaded, connected, hard_trips, worst_offender,
}
use shelly_multiplexer.Dispatcher.Safety.History.{
  Check, IsOver, IsOverSince, HasAsked, guard_circuit_trips_late,
}
use shelly_multiplexer.Dispatcher.Night.{cut, restore, leave, night_step}
use shelly_multiplexer.Dispatcher.Night.Recovery.{threshold, IsNightCut, night_step_rule}
use shelly_multiplexer.Writer.Writes.{should_write}
use shelly_multiplexer.Writer.Writes.Skipped.{IsClose, IsWord, should_write_iff}
use shelly_multiplexer.Tests.{w, settings, now, battery, circuit}
use shelly_multiplexer.Tests.Cycles.{asleep}
use shelly_multiplexer.Tests.Writers.{session}

-- 4400 W on a circuit of 3220 W.
abbrev heavy : List (String × BatteryState ℤ)
heavy = ("left", battery "left" (w 2500)) ∷ ("right", battery "right" (w 1900)) ∷ []

abbrev check : ℕ → Check ℤ
check t = record { bats = heavy; now = t }

abbrev earlier : List (Check ℤ)
earlier = check (85 * second) ∷ check (80 * second) ∷ []

abbrev tripped : Trip ℤ
tripped = record {
  id = "left";
  plug_url = "http://plug";
  reason = over_cap "garage" (w 4400) (w 3220) (w 500) (20 * second) (15 * second);
}

guard_circuit_trips_late_example :
    (started : ℕ) × (asked : ℕ) × IsOver (w 500) circuit (check now) earlier
    × IsOverSince (w 500) circuit started earlier
    × HasAsked (w 500) circuit asked earlier
    × (started + 15 * second ≤ now)
    × (asked + 10 * second ≤ now)
unfolding guard_circuit connected lookup battery_from_config is_overloaded cap_w hard_trips
    worst_offender trim_end_slash
guard_circuit_trips_late_example =
    guard_circuit_trips_late (w 500) circuit (check now) earlier tripped [] refl

-- The left battery is cut for the night, and has 6 %.
night_step_rule_example :
    let after = night_step settings true (300 * second) asleep in
    ((after.1 ≡ cut) ↔ (
      (true ≡ true)
      × (asleep.plug_cut_until ≡ none)
      × ((soc : ℤ) × (asleep.soc_pct ≡ some soc) × (soc ≼ threshold settings asleep))))
    × ((after.1 ≡ restore) ↔ (
        IsNightCut asleep
        × ((true ≡ false)
            ⊎ ((soc : ℤ) × (asleep.soc_pct ≡ some soc) × (threshold settings asleep ≺ soc)))))
    × ((after.1 ≢ cut)
        ⊎ (night_step settings true (400 * second) after.0 ≡ (after.0, leave))
          × ((night_step settings false (400 * second) after.0).1 ≡ restore)
          × (after.0.plug_cut_until ≡ some (300 * second))
          × (after.0.plug_relay_state ≡ some false))
night_step_rule_example = night_step_rule settings true (300 * second) (400 * second) asleep

compute_grid_correction_direction_example :
    let correction = compute_grid_correction (w 300) (w 1000) 2 in
    (w 1000 ≺ negsuc 49999) × Follows (w 300) (negsuc 9999) correction
    ⊎ (w 50 ≺ w 1000) × Follows (w 300) (w 10) correction
    ⊎ (negsuc 49999 ≼ w 1000)
      × (w 1000 ≼ w 50)
      × ((negsuc 9999 ≼ w 300) × (w 300 ≼ w 10) × (correction ≡ w 0)
          ⊎ (w 10 ≺ w 300) × (w 0 ≺ correction)
          ⊎ (w 300 ≺ negsuc 9999) × (correction ≺ w 0))
unfolding idle_threshold
compute_grid_correction_direction_example =
    compute_grid_correction_direction fixed-IsOrdered fixed-IsExact (w 300) (w 1000) 2

-- 780 W after 800 W.
should_write_iff_example :
    (should_write session.writer (charge 780) ≡ false)
    ↔ ((last : Setpoint) × (session.writer.last_written ≡ some last) × IsClose (charge 780) last)
should_write_iff_example =
    should_write_iff fixed-IsOrdered fixed-IsExact session.writer (charge 780) (ground arith)
      (λ last e. word last e)
  where
    word : (last : Setpoint) → session.writer.last_written ≡ some last → IsWord last
    word last e = subst (λ x. IsWord x) (some-injective _ _ e) (ground arith)
