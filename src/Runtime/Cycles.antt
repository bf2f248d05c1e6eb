-- ===== src/Runtime/Cycles.antt =====
-- The invariant of the state under a cycle of src/dispatcher.rs.
use shelly_multiplexer.Prelude.{
  ℕ, ◌≡◌, sym, subst, not, Option, none, some, List, String, arith, All, Returns, Returns-some,
  Returns-map, string_key, on_each, is_some, unwrap_or,
}
use shelly_multiplexer.Double.{Double, IsOrdered, IsScaling}
use shelly_multiplexer.Config.Types.{Config, DispatchMode, pulse, modbus, DispatcherConfig}
use shelly_multiplexer.State.{AppState}
use shelly_multiplexer.Setpoint.{Setpoint}
use shelly_multiplexer.Dispatcher.Mute.{update_circuit_mute, is_grid_fresh}
use shelly_multiplexer.Dispatcher.Safety.{enforce_circuit_safety}
use shelly_multiplexer.Dispatcher.Night.{SolarTimes, enforce_night_cutoff}
use shelly_multiplexer.Dispatcher.Pulse.{detect_pulse_outcomes, any_pulse_in_flight}
use shelly_multiplexer.Dispatcher.Deltas.{compute_deltas}
use shelly_multiplexer.Dispatcher.Deltas.Spans.{IsApproach, compute_deltas-AreApproaches}
use shelly_multiplexer.Dispatcher.Shares.{eligible}
use shelly_multiplexer.Dispatcher.Cycle.{step_modbus, step_pulse}
use shelly_multiplexer.Dispatcher.Cycle.Commands.{IsSent, step_modbus-AreSendable}
use shelly_multiplexer.Runtime.{Cycle, Clocks, step_mode, run_cycle}
use shelly_multiplexer.Runtime.Tables.{IsTable-IsKeyed, IsTable-IsRated, IsTable-IsCapable}
use shelly_multiplexer.Runtime.Started.{IsSound}
use shelly_multiplexer.Runtime.Parts.{
  safety-IsSound, night-IsSound, mute-IsSound, IsSound-caps, detected-IsSound, queued-IsSound,
}

module _ {W : Type 0} ⦃d : Double W⦄ where
  open d use {nat}

  module _ (laws : IsOrdered W) (scaling : IsScaling W) where
    step_pulse-IsSound :
        (s : AppState W) (dcfg : DispatcherConfig W) (now : ℕ)
        → IsSound s
        → Returns IsSound (step_pulse s dcfg now)
    unfolding step_pulse
    step_pulse-IsSound s dcfg now h =
        let muted = (update_circuit_mute s dcfg now).0 in
        let judged = detect_pulse_outcomes muted dcfg now in
        let grid_w = unwrap_or s.snapshot.status.total_act_power (nat 0) in
        let quiet = mute-IsSound s dcfg now h in
        let sound = detected-IsSound muted dcfg now quiet in
        let (deltas, e, _) =
          Returns-some (λ deltas. All (IsApproach dcfg now deltas) (eligible judged now))
            (compute_deltas judged dcfg grid_w now)
            (compute_deltas-AreApproaches laws scaling judged dcfg grid_w now
              (IsTable-IsKeyed judged.batteries sound.table)
              (λ id b. IsTable-IsRated judged.batteries id b sound.table)) in
        on_each (Returns IsSound) (not (update_circuit_mute s dcfg now).1) (λ stale. quiet)
          (λ fresh.
            on_each (Returns IsSound) (any_pulse_in_flight judged dcfg now) (λ busy. sound)
              (λ idle. rw e (queued-IsSound judged deltas now sound)))

    step_modbus_muted :
        (s : AppState W) (dcfg : DispatcherConfig W) (writers : List String) (now : ℕ)
        (r : AppState W × List (String × Setpoint))
        → step_modbus s dcfg (some writers) now ≡ some r
        → r.0 ≡ (update_circuit_mute s dcfg now).0
    unfolding step_modbus
    step_modbus_muted s dcfg writers now r e = ground (arith, e)

    step_modbus-IsSound :
        (s : AppState W) (dcfg : DispatcherConfig W) (writers : Option (List String)) (now : ℕ)
        → IsSound s
        → Returns
            (λ (r : AppState W × List (String × Setpoint)). IsSound r.0)
            (step_modbus s dcfg writers now)
    unfolding step_modbus
    step_modbus-IsSound s dcfg none now h = h
    step_modbus-IsSound s dcfg (some writers) now h =
        let (r, e, _) =
          Returns-some
            (λ (r : AppState W × List (String × Setpoint)).
              IsSent (update_circuit_mute s dcfg now).0 now writers (is_grid_fresh s dcfg now) r.1)
            (step_modbus s dcfg (some writers) now)
            (step_modbus-AreSendable laws scaling s dcfg writers now
              (IsTable-IsKeyed s.batteries h.table)
              (λ id b. IsTable-IsRated s.batteries id b h.table)
              (IsTable-IsCapable s.batteries h.table) (IsSound-caps s.circuits h.circuits)) in
        rw e (
          subst IsSound (sym (step_modbus_muted s dcfg writers now r e))
            (mute-IsSound s dcfg now h))

    step_mode-IsSound :
        (mode : DispatchMode) (s : AppState W) (cfg : Config W) (writers : Option (List String))
        (now : ℕ)
        → IsSound s
        → Returns
            (λ (r : AppState W × List (String × Setpoint)). IsSound r.0)
            (step_mode mode s cfg writers now)
    unfolding step_mode
    step_mode-IsSound pulse s cfg writers now h =
        Returns-map IsSound (λ (r : AppState W × List (String × Setpoint)). IsSound r.0)
          (step_pulse s cfg.dispatcher now) (step_pulse-IsSound s cfg.dispatcher now h)
          (λ s' sound. sound)
    step_mode-IsSound modbus s cfg writers now h =
        step_modbus-IsSound s cfg.dispatcher writers now h

    -- A cycle of the dispatcher never panics on a state that is in order, whatever configuration is
    -- loaded and whatever the clocks read, and leaves a state in order.
    pub run_cycle-IsSound :
        (solar : W → W → ℕ → Option SolarTimes) (s : AppState W) (cfg : Config W)
        (writers : Option (List String)) (t : Clocks)
        → IsSound s
        → Returns (λ (r : Cycle W). IsSound r.state) (run_cycle solar s cfg writers t)
    unfolding run_cycle
    run_cycle-IsSound solar s cfg writers t h =
        let safe = enforce_circuit_safety s cfg.dispatcher (is_some writers) t.safety in
        let night = enforce_night_cutoff solar safe.0 cfg.dispatcher cfg.location t.utc t.night in
        let sound =
          night-IsSound solar safe.0 cfg.dispatcher cfg.location t.utc t.night
            (safety-IsSound s cfg.dispatcher (is_some writers) t.safety h) in
        Returns-map (λ (r : AppState W × List (String × Setpoint)). IsSound r.0)
          (λ (r : Cycle W). IsSound r.state)
          (step_mode cfg.dispatcher.mode night.0 cfg writers t.step)
          (step_mode-IsSound cfg.dispatcher.mode night.0 cfg writers t.step sound)
          (λ r after. after)
