-- ===== src/Writer.antt =====
-- `BatteryWriter` of src/modbus.rs: the task that owns the Modbus connection to one inverter. Its
-- channels are the events of `Writer.Tasks`; here are its state, its connection and what it records.
-- What the connection does is tokio-modbus's, so the answers to reads, the clock and the texts of
-- errors are parameters, asked for by the number of operations sent so far.
pub mod Frames
pub mod Writes
pub mod Reads
pub mod Init
pub mod Tasks
pub mod Poller
use shelly_multiplexer.Prelude.{
  ℕ, suc, ◌+◌, Bool, true, false, Option, none, some, List, [], ◌∷◌, String, if◌then◌else◌, modify,
  string_key,
}
use shelly_multiplexer.Double.{Double}
use shelly_multiplexer.Config.Types.{BatteryConfig}
use shelly_multiplexer.State.{AppState, BatteryState, ModbusStats}
use shelly_multiplexer.Setpoint.{Setpoint, to_signed_watts}
use shelly_multiplexer.Wire.{Line, Network, open_conn}

-- What a read of holding registers returns: their values, an exception of the inverter's firmware,
-- or an error of the connection (a timeout, an I/O or a decoding error).
pub data Answer : Type 0 where
  values : List ℕ → Answer
  exception : Answer
  broken : Answer

pub record Bus : Type 0 where
  pub net : Network
  pub answer : ℕ → Answer
  pub clock : ℕ → ℕ
  pub message : ℕ → String

pub record BatteryWriter (W : Type 0) : Type 0 where
  pub battery : BatteryConfig W
  pub debug_modbus : Bool
  pub last_written : Option Setpoint
  pub last_write_at : Option ℕ
  pub soc_interval : ℕ
  pub last_soc_read_at : Option ℕ
  pub fast_refresh_interval : Option ℕ
  pub last_fast_refresh_at : Option ℕ
  pub slow_refresh_interval : Option ℕ
  pub last_slow_refresh_at : Option ℕ

-- The writer, the shared state that it updates, its connection (open or not) and the inverter.
pub record Session (W : Type 0) : Type 0 where
  pub app : AppState W
  pub writer : BatteryWriter W
  pub is_open : Bool
  pub line : Line

pub data Tier : Type 0 where
  fast slow : Tier

module _ {W : Type 0} where
  -- `Instant::now()`
  abbrev pub time_of : Bus → Session W → ℕ
  time_of bus s = bus.clock s.line.sent

  unfoldable pub drop_ctx : Session W → Session W
  drop_ctx s = record s { is_open = false }

  -- Whether there is a connection afterwards.
  unfoldable pub ensure_conn : Bus → Session W → Bool × Session W
  unfolding open_conn
  ensure_conn bus s = if s.is_open then (true, s) else (
    (open_conn bus.net s.line).0,
    record s { is_open = (open_conn bus.net s.line).0; line = (open_conn bus.net s.line).1 },
  )

  -- A read on the open connection.
  unfoldable pub read_holding_on : Bus → Session W → Answer × Session W
  read_holding_on bus s =
      (bus.answer s.line.sent, record s { line = record s.line { sent = suc s.line.sent } })

  -- `if let Some(b) = bats.get_mut(&self.battery.id)`
  unfoldable pub with_battery : (BatteryState W → BatteryState W) → Session W → Session W
  with_battery f s = record s {
    app = record s.app { batteries = modify s.writer.battery.id f s.app.batteries };
  }

  unfoldable pub count : (ModbusStats → ModbusStats) → Session W → Session W
  count f s = record s { app = record s.app { modbus_stats = f s.app.modbus_stats } }

  unfoldable pub record_error : String → Session W → Session W
  unfolding with_battery
  record_error msg = with_battery (λ b. record b { last_modbus_write_error = some msg })

module _ {W : Type 0} ⦃d : Double W⦄ where
  unfoldable pub record_success : Bus → Setpoint → Session W → Session W
  unfolding with_battery
  record_success bus sp s =
      with_battery
        (λ b. record b {
          last_modbus_setpoint_w = some (to_signed_watts sp);
          last_modbus_write_at = some (time_of bus s);
          last_modbus_write_error = none;
        })
        (record s {
          writer = record s.writer { last_written = some sp; last_write_at = some (time_of bus s) };
        })
