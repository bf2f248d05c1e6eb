-- ===== src/Writer/Poller.antt =====
-- `run` and `poll_battery_loop` of src/modbus.rs: the pollers that read the states of charge in pulse
-- mode, where there are no writers.
use text.Mathlib.Text.{starts_with}
use shelly_multiplexer.Prelude.{
  ℕ, ◌*◌, ◌^◌, Bool, true, false, ◌&&◌, ◌||◌, Option, none, some, List, [], ◌∷◌, String,
  if◌then◌else◌, map_or, or_else, is_some, not, lookup, modify, string_key,
}
use shelly_multiplexer.Prelude.Text.{append_text}
use shelly_multiplexer.Double.{Double}
use shelly_multiplexer.Config.Constants.{second}
use shelly_multiplexer.Config.Registers.{MarstekModel, battery_power_is_int32}
use shelly_multiplexer.Config.Types.{Config, DispatchMode, BatteryConfig, modbus, pulse}
use shelly_multiplexer.State.{AppState, BatteryState}
use shelly_multiplexer.Writer.{Answer}
use shelly_multiplexer.Writer.Reads.{read_soc_on, read_battery_power_on, soc_source_of}
use shelly_multiplexer.Writer.Tasks.{at_least}

abbrev pub reconnect_backoff : ℕ
reconnect_backoff = 5 * second

abbrev pub is_modbus : DispatchMode → Bool
is_modbus modbus = true
is_modbus pulse = false

module _ {W : Type 0} where
  -- The batteries that a poller is started for; the others are marked.
  unfoldable pub start_pollers :
      List (BatteryConfig W) → AppState W → AppState W × List (BatteryConfig W)
  start_pollers [] s = (s, [])
  start_pollers (b ∷ bs) s =
      let polled = start_pollers bs s in
      let marked = start_pollers bs (record s {
        batteries =
            modify b.id
              (λ b. record b {
                last_error =
                    some
                      "inactive: modbus_host not configured (set the RS485-to-LAN bridge IP, or the battery IP for Venus E V3 with Ethernet)";
              })
              s.batteries;
      }) in
      if is_some b.modbus_host then (polled.0, b ∷ polled.1) else marked

  -- In modbus mode the writers read the states of charge, and with Home Assistant its poller does.
  unfoldable pub run_pollers : Config W → AppState W → AppState W × List (BatteryConfig W)
  unfolding start_pollers
  run_pollers cfg s =
      let all = start_pollers cfg.batteries s in
      if is_modbus cfg.dispatcher.mode || cfg.home_assistant.enabled then (s, []) else all

module _ {W : Type 0} ⦃d : Double W⦄ where
  -- A read on a connection of its own, where that opens.
  unfoldable pub read_soc : MarstekModel → Bool → Answer → Option W
  unfolding read_soc_on
  read_soc model opened answer = if opened then read_soc_on model answer else none

  unfoldable pub read_battery_power : MarstekModel → Bool → Answer → Option W
  unfolding read_battery_power_on
  read_battery_power model opened answer =
      if opened then read_battery_power_on (battery_power_is_int32 model) answer else none

  abbrev after_poll :
      MarstekModel → Option W → Option W → ℕ → String → BatteryState W → BatteryState W
  after_poll model soc power now error b = record b {
    soc_pct = or_else soc b.soc_pct;
    soc_at = if is_some soc then some now else b.soc_at;
    soc_source = if is_some soc then some (soc_source_of model) else b.soc_source;
    last_error =
        if is_some soc
        then (if map_or b.last_error false (λ e. starts_with e "modbus ")
            then none
            else b.last_error)
        else some (append_text "modbus SoC: " error);
    last_battery_power_w = or_else power b.last_battery_power_w;
  }

  -- One turn of the loop after its reads: how long it sleeps, and the state.
  unfoldable pub poll_battery :
      BatteryConfig W → Option W → Option W → ℕ → String → AppState W → ℕ × AppState W
  poll_battery cfg soc power now error s = (
    if is_some (lookup cfg.id s.batteries) && not (is_some soc)
        then reconnect_backoff
        else at_least 1000 cfg.soc_interval_ms * 10 ^ 6,
    record s {
      batteries = modify cfg.id (after_poll cfg.marstek_model soc power now error) s.batteries;
    },
  )
