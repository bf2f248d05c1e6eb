-- ===== src/Dispatcher/Cycle.antt =====
-- `step_modbus` and `step_pulse` of src/dispatcher.rs: one cycle of either mode.
pub mod Commands
use shelly_multiplexer.Prelude.{
  ℕ, ◌+◌, Bool, true, false, not, ◌&&◌, Option, none, some, List, [], ◌∷◌, String, if◌then◌else◌,
  unwrap_or, map, lookup, values, string_key,
}
use shelly_multiplexer.Double.{Double}
use shelly_multiplexer.Config.Types.{DispatcherConfig}
use shelly_multiplexer.State.{AppState, BatteryState}
use shelly_multiplexer.State.Battery.{later_than}
use shelly_multiplexer.Setpoint.{Setpoint, standby, from_signed_watts}
use shelly_multiplexer.Dispatcher.Mute.{is_muted, update_circuit_mute}
use shelly_multiplexer.Dispatcher.Overhead.{apply_overhead_compensation}
use shelly_multiplexer.Dispatcher.Pulse.{detect_pulse_outcomes, any_pulse_in_flight, queue_pulses}
use shelly_multiplexer.Dispatcher.Shares.{target_of}
use shelly_multiplexer.Dispatcher.Targets.{compute_targets}
use shelly_multiplexer.Dispatcher.Deltas.{compute_deltas}

module _ {W : Type 0} ⦃d : Double W⦄ where
  open d use {nat}

  unfoldable pub command_of : W → BatteryState W → Option Setpoint
  command_of target b =
      from_signed_watts
        (apply_overhead_compensation target (unwrap_or b.plug_overhead_w_smoothed (nat 0)))
        b.max_charge_w b.max_discharge_w

  -- A battery whose plug is cut, or whose circuit is muted, is skipped.
  unfoldable pub is_skipped : AppState W → ℕ → BatteryState W → Bool
  is_skipped s now b =
      if later_than b.plug_cut_until now then true else is_muted s.circuits b.circuit now

  -- The loop over the batteries: what is sent, or `none` for a panic.
  unfoldable pub commands :
      AppState W → List (String × W) → ℕ → List (BatteryState W) → Option (List (String × Setpoint))
  commands s targets now [] = some []
  commands s targets now (b ∷ bs) =
      let rest = commands s targets now bs in
      if is_skipped s now b then rest else elim (command_of (target_of targets b.id) b) [
        | none ↦ none
        | some sp ↦ elim rest [ none ↦ none | some sent ↦ some ((b.id, sp) ∷ sent) ]
      ]

  -- The cycle with a fresh grid.
  unfoldable pub dispatch_targets :
      AppState W → DispatcherConfig W → ℕ → Option (List (String × Setpoint))
  dispatch_targets s dcfg now =
      let grid_w = unwrap_or s.snapshot.status.total_act_power (nat 0) in
      elim (compute_targets s dcfg grid_w now) [
        | none ↦ none
        | some targets ↦ commands s targets now (values s.batteries)
      ]

  -- `writers` are the ids of the batteries that have a writer, if there is a dispatch. The result is
  -- the state and what is sent.
  unfoldable pub step_modbus :
      AppState W
      → DispatcherConfig W
      → Option (List String)
      → ℕ
      → Option (AppState W × List (String × Setpoint))
  step_modbus s dcfg none now = some (s, [])
  step_modbus s dcfg (some writers) now =
      let (muted, grid_fresh) = update_circuit_mute s dcfg now in
      let sent : Option (List (String × Setpoint)) =
        if grid_fresh
        then dispatch_targets muted dcfg now
        else some (map (λ (id : String). (id, standby)) writers) in
      elim sent [ none ↦ none | some commands ↦ some (muted, commands) ]

  unfoldable pub step_pulse : AppState W → DispatcherConfig W → ℕ → Option (AppState W)
  step_pulse s dcfg now =
      let (muted, grid_fresh) = update_circuit_mute s dcfg now in
      let judged = detect_pulse_outcomes muted dcfg now in
      let grid_w = unwrap_or s.snapshot.status.total_act_power (nat 0) in
      let queued : Option (AppState W) = elim (compute_deltas judged dcfg grid_w now) [
        | none ↦ none
        | some deltas ↦ some (queue_pulses judged deltas now)
      ] in
      if not grid_fresh
      then some muted
      else if any_pulse_in_flight judged dcfg now
      then some judged
      else queued
