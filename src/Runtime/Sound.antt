-- ===== src/Runtime/Sound.antt =====
-- The invariant of the state over all steps of the program.
use shelly_multiplexer.Prelude.{
  ℕ, ◌≡◌, refl, Bool, Option, some, List, String, Returns, Returns-some, subst, string_key,
}
use shelly_multiplexer.Double.{Double, IsOrdered, IsScaling}
use shelly_multiplexer.Config.Types.{Config, ip_key}
use shelly_multiplexer.State.{AppState}
use shelly_multiplexer.State.Activity.{refresh_activity}
use shelly_multiplexer.Plug.{plug_reading, plug_failure, read_plug}
use shelly_multiplexer.ModbusServer.{handle_request}
use shelly_multiplexer.Meter.{ha_reading, ha_failure}
use shelly_multiplexer.Dispatcher.Night.{SolarTimes}
use shelly_multiplexer.Runtime.{
  Cycle, Clocks, run_cycle, Step, cycle, tripped, reenabled, night_cut, night_restored, reset,
  plug_read, plug_failed, ha_read, ha_failed, metered, soc_polled, pollers_started, polled, served,
  initialised, worked, reconfigured, Reachable, started, step,
}
use shelly_multiplexer.Runtime.Started.{IsSound, IsUsable, modify-IsSound, app_from_config-IsSound}
use shelly_multiplexer.Runtime.Cycles.{run_cycle-IsSound}
use shelly_multiplexer.Runtime.Sessions.{init_attempt-IsKept, on_event-IsKept}
use shelly_multiplexer.Runtime.Readings.{
  handle_poll-IsSound, refresh_each-IsSound, reenable_done-IsSound, reset-IsSound,
  trip_done-IsSound, night_restore_done-IsSound, meter_tick-IsSound, poll_battery-IsSound,
  run_pollers-IsSound,
}

module _ {W : Type 0} ⦃d : Double W⦄ where
  module _ (laws : IsOrdered W) (scaling : IsScaling W)
      (solar : W → W → ℕ → Option SolarTimes) where
    cycled :
        (s : AppState W) (cfg : Config W) (writers : Option (List String)) (t : Clocks)
        (r : Cycle W)
        → run_cycle solar s cfg writers t ≡ some r
        → IsSound s
        → IsSound r.state
    cycled s cfg writers t r e h =
        subst (Returns (λ (r : Cycle W). IsSound r.state)) e
          (run_cycle-IsSound laws scaling solar s cfg writers t h)

    -- Every step of the program keeps the state in order.
    pub Step-IsSound : (s s' : AppState W) → Step solar s s' → IsSound s → IsSound s'
    unfolding plug_reading plug_failure read_plug ha_reading ha_failure handle_request
        refresh_activity
    Step-IsSound _ _ (cycle s cfg writers t r e) h = cycled s cfg writers t r e h
    Step-IsSound _ _ (tripped s id error) h = (trip_done-IsSound id error s h).0
    Step-IsSound _ _ (reenabled s id error) h = reenable_done-IsSound id error s h
    Step-IsSound _ _ (night_cut s id error) h = (trip_done-IsSound id error s h).1
    Step-IsSound _ _ (night_restored s id error) h = night_restore_done-IsSound id error s h
    Step-IsSound _ _ (reset s set_relay id) h = reset-IsSound set_relay id s h
    Step-IsSound _ _ (plug_read s stable_w id apower relay now) h =
        modify-IsSound id _ s (λ b. refl) h
    Step-IsSound _ _ (plug_failed s id error) h = modify-IsSound id _ s (λ b. refl) h
    Step-IsSound _ _ (ha_read s id entity soc now) h = modify-IsSound id _ s (λ b. refl) h
    Step-IsSound _ _ (ha_failed s id error) h = modify-IsSound id _ s (λ b. refl) h
    Step-IsSound _ _ (metered s result now last) h = meter_tick-IsSound result now s last h
    Step-IsSound _ _ (soc_polled s cfg soc power now error) h =
        poll_battery-IsSound cfg soc power now error s h
    Step-IsSound _ _ (pollers_started s cfg) h = run_pollers-IsSound cfg s h
    Step-IsSound _ _ (polled s peer now) h = handle_poll-IsSound s peer now h
    Step-IsSound _ _ (served s unit req) h = record { table = h.table; circuits = h.circuits }
    Step-IsSound _ _ (initialised w bus) h = init_attempt-IsKept bus w h
    Step-IsSound _ _ (worked w bus e) h = on_event-IsKept bus e w h
    Step-IsSound _ _ (reconfigured s cfg) h =
        refresh_each-IsSound cfg.home_assistant.enabled cfg.batteries s h

    -- Every state that a program started with a usable configuration can reach is in order.
    pub Reachable-IsSound :
        (is_socket_addr : String → Bool) (cfg : Config W) (s : AppState W)
        → IsUsable is_socket_addr cfg
        → Reachable solar cfg s
        → IsSound s
    Reachable-IsSound is_socket_addr cfg s usable (started now) =
        app_from_config-IsSound is_socket_addr cfg now usable
    Reachable-IsSound is_socket_addr cfg _ usable (step s s' before taken) =
        Step-IsSound s s' taken (Reachable-IsSound is_socket_addr cfg s usable before)

    -- So no cycle panics: whatever the tasks have done since the start from a usable configuration,
    -- in whatever order, a cycle with any loaded configuration and any clocks returns.
    pub run_cycle_returns :
        (is_socket_addr : String → Bool) (cfg : Config W) (s : AppState W)
        → IsUsable is_socket_addr cfg
        → Reachable solar cfg s
        → (loaded : Config W) (writers : Option (List String)) (t : Clocks)
        → (r : Cycle W) × (run_cycle solar s loaded writers t ≡ some r) × IsSound r.state
    run_cycle_returns is_socket_addr cfg s usable reached loaded writers t =
        Returns-some (λ (r : Cycle W). IsSound r.state) (run_cycle solar s loaded writers t)
          (run_cycle-IsSound laws scaling solar s loaded writers t
            (Reachable-IsSound is_socket_addr cfg s usable reached))
