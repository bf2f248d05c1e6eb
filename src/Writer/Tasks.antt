-- ===== src/Writer/Tasks.antt =====
-- `ModbusDispatch::spawn` and `BatteryWriter::run` of src/modbus.rs: how a writer starts, when its
-- timers fire, and what it does on each event. An event is what `tokio::select!` hands to it.
pub mod Ledger
pub mod Settled
pub mod Whole
use shelly_multiplexer.Prelude.{
  ℕ, ◌+◌, ◌-◌, ◌*◌, ◌^◌, Bool, true, false, not, ◌&&◌, Option, none, some, List, [], ◌∷◌, String,
  ltb, if◌then◌else◌, unwrap_or, map_or, is_some, string_key, insert, filter_map,
}
use shelly_multiplexer.Double.{Double}
use shelly_multiplexer.Config.Constants.{second}
use shelly_multiplexer.Config.Types.{BatteryConfig, VirtualModbusConfig, Config}
use shelly_multiplexer.State.{AppState}
use shelly_multiplexer.Setpoint.{Setpoint, standby}
use shelly_multiplexer.Wire.{Line, write_setpoint_on, failsafe_shutdown}
use shelly_multiplexer.Writer.{
  Bus, BatteryWriter, Session, Tier, fast, slow, time_of, drop_ctx, ensure_conn,
}
use shelly_multiplexer.Writer.Init.{init_loop}
use shelly_multiplexer.Writer.Reads.{soc_poll_due, poll_soc_only}
use shelly_multiplexer.Writer.Reads.Refresh.{tier_refresh}
use shelly_multiplexer.Writer.Writes.{should_write, do_write, write_on}

abbrev millisecond : ℕ
millisecond = 10 ^ 6

abbrev pub at_least : ℕ → ℕ → ℕ
at_least low n = if ltb n low then low else n

-- `Duration::from_secs(3600 * 24)`
abbrev pub never : ℕ
never = 86400 * second

abbrev refresh_due_in : Option ℕ → Option ℕ → ℕ → ℕ
refresh_due_in interval last now = map_or interval never (λ iv. map_or last 0 (λ t. t + iv - now))

module _ {W : Type 0} where
  unfoldable pub writer_from_config : VirtualModbusConfig → BatteryConfig W → BatteryWriter W
  writer_from_config vm b = record {
    battery = b;
    debug_modbus = vm.debug;
    last_written = none;
    last_write_at = none;
    soc_interval = at_least 1000 b.soc_interval_ms * millisecond;
    last_soc_read_at = none;
    fast_refresh_interval =
        if vm.enabled then some (at_least 500 vm.bulk_refresh_ms * millisecond) else none;
    last_fast_refresh_at = none;
    slow_refresh_interval =
        if vm.enabled then some (at_least 1000 vm.slow_refresh_ms * millisecond) else none;
    last_slow_refresh_at = none;
  }

  -- The writers of the batteries that have a `modbus_host`, by the battery's id.
  unfoldable pub spawn_writers :
      VirtualModbusConfig
      → List (BatteryConfig W)
      → List (String × BatteryWriter W)
      → List (String × BatteryWriter W)
  unfolding writer_from_config
  spawn_writers vm [] writers = writers
  spawn_writers vm (b ∷ bs) writers =
      if is_some b.modbus_host
      then spawn_writers vm bs (insert b.id (writer_from_config vm b) writers)
      else spawn_writers vm bs writers

  unfoldable pub spawn : Config W → List (String × BatteryWriter W)
  unfolding spawn_writers
  spawn cfg = spawn_writers cfg.virtual_modbus cfg.batteries []

  -- The three times that `run` waits for.
  unfoldable pub soc_due_in : BatteryWriter W → ℕ → ℕ
  soc_due_in w now =
      if is_some w.fast_refresh_interval
      then never
      else map_or w.last_soc_read_at w.soc_interval (λ t. t + w.soc_interval - now)

  unfoldable pub fast_due_in : BatteryWriter W → ℕ → ℕ
  fast_due_in w now = refresh_due_in w.fast_refresh_interval w.last_fast_refresh_at now

  unfoldable pub slow_due_in : BatteryWriter W → ℕ → ℕ
  slow_due_in w now = refresh_due_in w.slow_refresh_interval w.last_slow_refresh_at now

pub data Event : Type 0 where
  shutdown : Event
  changed : Setpoint → Event
  sender_gone : Event
  soc_timer : Event
  fast_timer : Event
  slow_timer : Event

module _ {W : Type 0} ⦃d : Double W⦄ where
  -- The failsafe opens a connection of its own.
  unfoldable pub shut_down : Bus → Session W → Session W
  unfolding ensure_conn write_on drop_ctx failsafe_shutdown
  shut_down bus s =
      let conn = ensure_conn bus s in
      let closed = drop_ctx (if conn.0 then (write_on bus standby conn.1).1 else conn.1) in
      record closed { line = (failsafe_shutdown bus.net closed.line).1 }

  unfoldable pub on_changed : Bus → Setpoint → Session W → Session W
  on_changed bus desired s =
      if should_write s.writer desired
      then (do_write bus desired s).1
      else if soc_poll_due s.writer (time_of bus s) && not (is_some s.writer.fast_refresh_interval)
      then (poll_soc_only bus s).1
      else s

  -- Whether the task goes on, and the session.
  unfoldable pub on_event : Bus → Event → Session W → Bool × Session W
  unfolding shut_down on_changed
  on_event bus shutdown s = (false, shut_down bus s)
  on_event bus (changed desired) s = (true, on_changed bus desired s)
  on_event bus sender_gone s = (false, s)
  on_event bus soc_timer s = (true, (poll_soc_only bus s).1)
  on_event bus fast_timer s = (true, (tier_refresh bus fast s).1)
  on_event bus slow_timer s = (true, (tier_refresh bus slow s).1)

  -- The event loop, on the events that come.
  unfoldable pub event_loop : Bus → List Event → Session W → Session W
  unfolding on_event
  event_loop bus [] s = s
  event_loop bus (e ∷ es) s =
      let after = on_event bus e s in
      let rest = event_loop bus es after.1 in if after.0 then rest else after.1

  -- The whole task, with the rounds that its init loop is given.
  unfoldable pub run_writer : Bus → ℕ → List Event → Session W → Session W
  unfolding event_loop
  run_writer bus rounds es s =
      let init = init_loop bus rounds s in if init.0 then event_loop bus es init.1 else init.1
