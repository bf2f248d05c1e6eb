-- ===== src/Plug.antt =====
-- The poller of src/plug.rs: what a reading of a battery's plug, or a failed one, changes. The text of
-- an error is the HTTP client's.
pub mod Settling
use text.Mathlib.Text.{starts_with}
use shelly_multiplexer.Prelude.{
  ℕ, Bool, true, false, Option, none, some, String, if◌then◌else◌, map_or, modify, string_key,
}
use shelly_multiplexer.Prelude.Text.{append_text}
use shelly_multiplexer.Double.{Double, lt, le, eq, sub, abs, signum}
use shelly_multiplexer.State.{AppState, BatteryState}

module _ {W : Type 0} ⦃d : Double W⦄ where
  open d use {neg, add, mul, nat, ratio}

  unfoldable pub has_moved : W → W → BatteryState W → Bool
  has_moved stable_w signed_w b = elim b.last_plug_w [
    | some prev ↦ lt stable_w (abs (sub signed_w prev))
    | none ↦ true
  ]

  -- The moving average of what the plug shows beyond the last command.
  unfoldable pub overhead_after : W → BatteryState W → Option W
  overhead_after signed_w b = elim b.last_modbus_setpoint_w [
    | none ↦ b.plug_overhead_w_smoothed
    | some cmd ↦
        if le (nat 50) (abs cmd)
        then if eq (signum signed_w) (signum cmd)
          then some (elim b.plug_overhead_w_smoothed [
            | some prev ↦ add (mul (ratio 3 10) (sub signed_w cmd)) (mul (ratio 7 10) prev)
            | none ↦ sub signed_w cmd
          ])
          else b.plug_overhead_w_smoothed
        else b.plug_overhead_w_smoothed
  ]

  -- A reading of `apower` at `now`, with the relay state that the plug reports.
  unfoldable pub read_plug : W → W → Option Bool → ℕ → BatteryState W → BatteryState W
  read_plug stable_w apower relay_on now b =
      let signed_w = neg apower in
      record b {
        last_plug_movement_at =
            if has_moved stable_w signed_w b then some now else b.last_plug_movement_at;
        last_plug_w = some signed_w;
        last_plug_at = some now;
        plug_relay_state = relay_on;
        plug_overhead_w_smoothed = overhead_after signed_w b;
        last_error =
            if map_or b.last_error false (λ e. starts_with e "plug ") then none else b.last_error;
      }

  unfoldable pub plug_reading : W → String → W → Option Bool → ℕ → AppState W → AppState W
  unfolding read_plug
  plug_reading stable_w battery_id apower relay_on now s = record s {
    batteries = modify battery_id (read_plug stable_w apower relay_on now) s.batteries;
  }

module _ {W : Type 0} where
  unfoldable pub plug_failure : String → String → AppState W → AppState W
  plug_failure battery_id error s = record s {
    batteries =
        modify battery_id
          (λ b. record b { last_error = some (append_text "plug unreachable: " error) })
          s.batteries;
  }
