-- ===== src/Runtime/Readings.antt =====
-- The invariant of the state under the pollers, the relay tasks and the polls of the batteries.
use shelly_multiplexer.Prelude.{
  ℕ, is_some, ◌||◌, refl, Bool, Option, none, some, List, [], ◌∷◌, String, arith, lookup, modify,
  on_each, on_option, string_key,
}
use shelly_multiplexer.Double.{Double}
use shelly_multiplexer.Config.Types.{Config, BatteryConfig, IpAddr, ip_key}
use shelly_multiplexer.State.{AppState, BatteryState, EmStatusIncoming}
use shelly_multiplexer.State.Startup.{has_soc_source}
use shelly_multiplexer.State.Activity.{refresh_battery, refresh_each}
use shelly_multiplexer.VirtualShelly.{handle_poll, at_battery, pop_pulse, is_mute}
use shelly_multiplexer.Meter.{meter_tick}
use shelly_multiplexer.Dispatcher.Safety.{trip_done, reenable_done, manual_reset_cutoff}
use shelly_multiplexer.Dispatcher.Night.{night_cut_done, night_restore_done}
use shelly_multiplexer.Writer.Poller.{poll_battery, start_pollers, run_pollers, is_modbus}
use shelly_multiplexer.Runtime.Tables.{Steady}
use shelly_multiplexer.Runtime.Started.{IsSound, modify-IsSound}

module _ {W : Type 0} ⦃d : Double W⦄ where
  pop_pulse-Steady : (now : ℕ) (b : BatteryState W) → Steady b (pop_pulse now b)
  unfolding pop_pulse
  pop_pulse-Steady now b = ground arith

  pub at_battery-IsSound :
      (id : Option String) (f : BatteryState W → BatteryState W) (s : AppState W)
      → ((b : BatteryState W) → Steady b (f b))
      → IsSound s
      → IsSound (at_battery id f s)
  at_battery-IsSound none f s steady h = h
  at_battery-IsSound (some id) f s steady h = modify-IsSound id f s steady h

  pub handle_poll-IsSound :
      (s : AppState W) (peer : IpAddr) (now : ℕ) → IsSound s → IsSound (handle_poll s peer now).0
  unfolding handle_poll
  handle_poll-IsSound s peer now h =
      let id = lookup peer s.by_addr in
      on_each (λ (r : AppState W × Option W). IsSound r.0) (is_mute s id now)
        (λ mute.
          at_battery-IsSound id (λ b. record b { last_marstek_poll_at = some now }) s (λ b. refl) h)
        (λ loud. at_battery-IsSound id (pop_pulse now) s (pop_pulse-Steady now) h)

  pub refresh_each-IsSound :
      (ha_enabled : Bool) (cs : List (BatteryConfig W)) (s : AppState W)
      → IsSound s
      → IsSound (record s { batteries = refresh_each ha_enabled cs s.batteries })
  unfolding refresh_each refresh_battery
  refresh_each-IsSound ha_enabled [] s h = record { table = h.table; circuits = h.circuits }
  refresh_each-IsSound ha_enabled (c ∷ cs) s h =
      refresh_each-IsSound ha_enabled cs
        (record s {
          batteries = modify c.id (refresh_battery (has_soc_source c ha_enabled)) s.batteries;
        })
        (modify-IsSound c.id _ s (λ b. refl) h)

  pub reenable_done-IsSound :
      (id : String) (error : Option String) (s : AppState W)
      → IsSound s
      → IsSound (reenable_done id error s)
  unfolding reenable_done
  reenable_done-IsSound id none s h = modify-IsSound id _ s (λ b. refl) h
  reenable_done-IsSound id (some e) s h = h

  pub reset-IsSound :
      (set_relay : String → Bool) (id : String) (s : AppState W)
      → IsSound s
      → IsSound (manual_reset_cutoff set_relay id s).0
  unfolding manual_reset_cutoff
  reset-IsSound set_relay id s h =
      let Good : AppState W × Bool → Type 0 = λ r. IsSound r.0 in
      on_option Good (lookup id s.batteries) h (λ b. on_option Good b.plug_cut_until h (λ until.
        on_each Good (set_relay b.plug_url) (λ ok. reenable_done-IsSound id none s h)
          (λ failed. h)))

  pub trip_done-IsSound :
      (id : String) (error : Option String) (s : AppState W)
      → IsSound s
      → IsSound (trip_done id error s) × IsSound (night_cut_done id error s)
  unfolding trip_done night_cut_done
  trip_done-IsSound id none s h = (h, h)
  trip_done-IsSound id (some e) s h =
      (modify-IsSound id _ s (λ b. refl) h, modify-IsSound id _ s (λ b. refl) h)

  pub night_restore_done-IsSound :
      (id : String) (error : Option String) (s : AppState W)
      → IsSound s
      → IsSound (night_restore_done id error s)
  unfolding night_restore_done
  night_restore_done-IsSound id none s h = modify-IsSound id _ s (λ b. refl) h
  night_restore_done-IsSound id (some e) s h = h

  pub meter_tick-IsSound :
      (result : Option (EmStatusIncoming W)) (now : ℕ) (s : AppState W) (last : Option ℕ)
      → IsSound s
      → IsSound (meter_tick result now (s, last)).0
  unfolding meter_tick
  meter_tick-IsSound none now s last h = h
  meter_tick-IsSound (some st) now s last h = record { table = h.table; circuits = h.circuits }

  pub poll_battery-IsSound :
      (cfg : BatteryConfig W) (soc power : Option W) (now : ℕ) (error : String) (s : AppState W)
      → IsSound s
      → IsSound (poll_battery cfg soc power now error s).1
  unfolding poll_battery
  poll_battery-IsSound cfg soc power now error s h = modify-IsSound cfg.id _ s (λ b. refl) h

  pub start_pollers-IsSound :
      (cs : List (BatteryConfig W)) (s : AppState W) → IsSound s → IsSound (start_pollers cs s).0
  unfolding start_pollers
  start_pollers-IsSound [] s h = h
  start_pollers-IsSound (c ∷ cs) s h =
      on_each (λ (r : AppState W × List (BatteryConfig W)). IsSound r.0) (is_some c.modbus_host)
        (λ polled. start_pollers-IsSound cs s h)
        (λ marked. start_pollers-IsSound cs _ (modify-IsSound c.id _ s (λ b. refl) h))

  pub run_pollers-IsSound :
      (cfg : Config W) (s : AppState W) → IsSound s → IsSound (run_pollers cfg s).0
  unfolding run_pollers
  run_pollers-IsSound cfg s h =
      on_each (λ (r : AppState W × List (BatteryConfig W)). IsSound r.0)
        (is_modbus cfg.dispatcher.mode || cfg.home_assistant.enabled) (λ others. h)
        (λ own. start_pollers-IsSound cfg.batteries s h)
