-- ===== src/Runtime.antt =====
-- `run` of src/dispatcher.rs, and everything that changes the shared state while it runs: the state of
-- the whole program as a step relation. A step is what happens under one lock, or in one cycle of the
-- dispatcher, whose three parts take one lock after the other; the tasks interleave in any order.
pub mod Tables
pub mod Started
pub mod Parts
pub mod Cycles
pub mod Readings
pub mod Sessions
pub mod Sound
use shelly_multiplexer.Prelude.{ℕ, ◌≡◌, Bool, Option, none, some, List, [], String, is_some}
use shelly_multiplexer.Double.{Double}
use shelly_multiplexer.Config.Types.{BatteryConfig, IpAddr, pulse, modbus, DispatchMode, Config}
use shelly_multiplexer.State.{AppState, EmStatusIncoming}
use shelly_multiplexer.State.Startup.{app_from_config}
use shelly_multiplexer.State.Activity.{refresh_activity}
use shelly_multiplexer.Setpoint.{Setpoint}
use shelly_multiplexer.Plug.{plug_reading, plug_failure}
use shelly_multiplexer.ModbusServer.{Request, handle_request}
use shelly_multiplexer.VirtualShelly.{handle_poll}
use shelly_multiplexer.Meter.{ha_reading, ha_failure, meter_tick}
use shelly_multiplexer.Writer.{Bus, Session}
use shelly_multiplexer.Writer.Tasks.{Event, on_event}
use shelly_multiplexer.Writer.Init.{init_attempt}
use shelly_multiplexer.Writer.Poller.{poll_battery, run_pollers}
use shelly_multiplexer.Dispatcher.Safety.{
  Requests, enforce_circuit_safety, trip_done, reenable_done, manual_reset_cutoff,
}
use shelly_multiplexer.Dispatcher.Night.{
  NightRequests, SolarTimes, enforce_night_cutoff, night_cut_done, night_restore_done,
}
use shelly_multiplexer.Dispatcher.Cycle.{step_modbus, step_pulse}

-- The outcome of a cycle: the state, and what was asked for.
pub record Cycle (W : Type 0) : Type 0 where
  pub state : AppState W
  pub safety : Requests W
  pub night : NightRequests
  pub sent : List (String × Setpoint)

-- What the program reads from outside in a cycle: the two clocks, the latter at each part.
pub record Clocks : Type 0 where
  pub utc : ℕ
  pub safety : ℕ
  pub night : ℕ
  pub step : ℕ

module _ {W : Type 0} ⦃d : Double W⦄ where
  -- `match cfg.dispatcher.mode`
  unfoldable pub step_mode :
      DispatchMode
      → AppState W
      → Config W
      → Option (List String)
      → ℕ
      → Option (AppState W × List (String × Setpoint))
  step_mode pulse s cfg writers now = elim (step_pulse s cfg.dispatcher now) [
    | none ↦ none
    | some s' ↦ some (s', [])
  ]
  step_mode modbus s cfg writers now = step_modbus s cfg.dispatcher writers now

  -- One turn of the loop; `none` is a panic.
  unfoldable pub run_cycle :
      (W → W → ℕ → Option SolarTimes)
      → AppState W
      → Config W
      → Option (List String)
      → Clocks
      → Option (Cycle W)
  unfolding step_mode
  run_cycle solar s cfg writers t =
      let safe = enforce_circuit_safety s cfg.dispatcher (is_some writers) t.safety in
      let night = enforce_night_cutoff solar safe.0 cfg.dispatcher cfg.location t.utc t.night in
      elim (step_mode cfg.dispatcher.mode night.0 cfg writers t.step) [
        | none ↦ none
        | some r ↦ some (record { state = r.0; safety = safe.1; night = night.1; sent = r.1 })
      ]

  -- The steps of the program. The configuration of a step is the one that is loaded then.
  pub data Step (solar : W → W → ℕ → Option SolarTimes) : AppState W → AppState W → Type 0 where
    cycle :
        (s : AppState W) (cfg : Config W) (writers : Option (List String)) (t : Clocks)
        (r : Cycle W)
        → run_cycle solar s cfg writers t ≡ some r
        → Step solar s r.state
    tripped :
        (s : AppState W) (id : String) (error : Option String) → Step solar s (trip_done id error s)
    reenabled :
        (s : AppState W) (id : String) (error : Option String)
        → Step solar s (reenable_done id error s)
    night_cut :
        (s : AppState W) (id : String) (error : Option String)
        → Step solar s (night_cut_done id error s)
    night_restored :
        (s : AppState W) (id : String) (error : Option String)
        → Step solar s (night_restore_done id error s)
    reset :
        (s : AppState W) (set_relay : String → Bool) (id : String)
        → Step solar s (manual_reset_cutoff set_relay id s).0
    plug_read :
        (s : AppState W) (stable_w : W) (id : String) (apower : W) (relay : Option Bool) (now : ℕ)
        → Step solar s (plug_reading stable_w id apower relay now s)
    plug_failed : (s : AppState W) (id error : String) → Step solar s (plug_failure id error s)
    ha_read :
        (s : AppState W) (id entity : String) (soc : W) (now : ℕ)
        → Step solar s (ha_reading id entity soc now s)
    ha_failed : (s : AppState W) (id error : String) → Step solar s (ha_failure id error s)
    metered :
        (s : AppState W) (result : Option (EmStatusIncoming W)) (now : ℕ) (last : Option ℕ)
        → Step solar s (meter_tick result now (s, last)).0
    soc_polled :
        (s : AppState W) (cfg : BatteryConfig W) (soc power : Option W) (now : ℕ) (error : String)
        → Step solar s (poll_battery cfg soc power now error s).1
    pollers_started : (s : AppState W) (cfg : Config W) → Step solar s (run_pollers cfg s).0
    polled : (s : AppState W) (peer : IpAddr) (now : ℕ) → Step solar s (handle_poll s peer now).0
    served :
        (s : AppState W) (unit : ℕ) (req : Request) → Step solar s (handle_request s unit req).0
    initialised : (w : Session W) (bus : Bus) → Step solar w.app (init_attempt bus w).1.app
    worked : (w : Session W) (bus : Bus) (e : Event) → Step solar w.app (on_event bus e w).1.app
    reconfigured : (s : AppState W) (cfg : Config W) → Step solar s (refresh_activity s cfg)

  -- The states that a program started with a configuration can get into.
  pub data Reachable (solar : W → W → ℕ → Option SolarTimes) (cfg : Config W)
      : AppState W → Type 0 where
    started : (now : ℕ) → Reachable solar cfg (app_from_config cfg now)
    step : (s s' : AppState W) → Reachable solar cfg s → Step solar s s' → Reachable solar cfg s'
