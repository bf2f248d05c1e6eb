-- ===== src/Dispatcher/Pulse.antt =====
-- The pulse mode of src/dispatcher.rs around its distribution: the outcome of the last pulses, the
-- gate, and the new pulses.
use shelly_multiplexer.Prelude.{
  ℕ, ◌+◌, ◌-◌, Bool, false, not, none, some, List, String, ltb, if◌then◌else◌, unwrap_or, any,
  lookup, values, map_values, string_key,
}
use shelly_multiplexer.Double.{Double, lt, le, sub, abs}
use shelly_multiplexer.Config.Constants.{
  plug_stable_w, plug_stable_duration_s, write_deadband_w, soc_unknown_lockout, pulse_count,
  as_secs_f64,
}
use shelly_multiplexer.Config.Types.{DispatcherConfig}
use shelly_multiplexer.State.{AppState, BatteryState}
use shelly_multiplexer.State.Battery.{pulse_settled}
use shelly_multiplexer.Dispatcher.Mute.{is_muted}

module _ {W : Type 0} ⦃d : Double W⦄ where
  open d use {nat}

  -- The body of the loop once all of its readings are there.
  classify : DispatcherConfig W → ℕ → BatteryState W → W → ℕ → W → W → BatteryState W
  classify dcfg now b delta completed_at snap plug =
      let until = some (now + soc_unknown_lockout) in
      if le plug_stable_w (abs (sub plug snap))
      then record b {
        charge_locked_until = if lt delta (nat 0) then none else b.charge_locked_until;
        discharge_locked_until =
            if lt delta (nat 0)
            then b.discharge_locked_until
            else if lt (nat 0) delta
            then none
            else b.discharge_locked_until;
        last_pulse_delta_w = none;
      }
      else if lt (abs delta) write_deadband_w
      then record b { last_pulse_delta_w = none }
      else if lt (as_secs_f64 (now - completed_at)) dcfg.settle_timeout_s
      then b
      else record b {
        charge_locked_until = if lt delta (nat 0) then until else b.charge_locked_until;
        discharge_locked_until = if lt delta (nat 0) then b.discharge_locked_until else until;
        last_pulse_delta_w = none;
      }

  unfoldable pub detect_outcome : DispatcherConfig W → ℕ → BatteryState W → BatteryState W
  unfolding classify
  detect_outcome dcfg now b = if ltb 0 b.pulse_remaining then b else elim b.last_pulse_delta_w [
    | none ↦ b
    | some delta ↦ elim b.last_pulse_completed_at [
      | none ↦ b
      | some completed_at ↦ elim b.plug_w_at_pulse_send [
        | none ↦ b
        | some snap ↦ elim b.last_plug_w [
          | none ↦ b
          | some plug ↦ classify dcfg now b delta completed_at snap plug
        ]
      ]
    ]
  ]

  unfoldable pub detect_pulse_outcomes : AppState W → DispatcherConfig W → ℕ → AppState W
  unfolding detect_outcome
  detect_pulse_outcomes s dcfg now = record s {
    batteries = map_values (detect_outcome dcfg now) s.batteries;
  }

  unfoldable pub any_pulse_in_flight : AppState W → DispatcherConfig W → ℕ → Bool
  any_pulse_in_flight s dcfg now =
      any
        (λ b.
          if is_muted s.circuits b.circuit now
          then false
          else not (pulse_settled b plug_stable_duration_s dcfg.settle_timeout_s now))
        (values s.batteries)

  unfoldable pub queue_pulse : Bool → W → BatteryState W → BatteryState W
  queue_pulse circuit_silent delta b =
      if circuit_silent
      then record b {
        pending_pulse_w = nat 0;
        pulse_remaining = 0;
        plug_w_at_pulse_send = none;
        last_pulse_completed_at = none;
        last_pulse_delta_w = none;
      }
      else if lt (abs delta) write_deadband_w
      then b
      else record b {
        pending_pulse_w = delta;
        pulse_remaining = pulse_count;
        plug_w_at_pulse_send = b.last_plug_w;
        last_pulse_completed_at = none;
        last_pulse_delta_w = some delta;
      }

  unfoldable pub queue_pulses : AppState W → List (String × W) → ℕ → AppState W
  unfolding queue_pulse
  queue_pulses s deltas now = record s {
    batteries =
        map_values
          (λ b.
            queue_pulse (is_muted s.circuits b.circuit now) (unwrap_or (lookup b.id deltas) (nat 0))
              b)
          s.batteries;
  }
