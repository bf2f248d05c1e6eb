-- ===== src/Writer/Reads.antt =====
-- What `BatteryWriter` of src/modbus.rs reads: the state of charge and the battery power, on their own
-- and with a refresh of the register cache.
pub mod Refresh
use shelly_multiplexer.Prelude.{
  ℕ, suc, ◌+◌, ◌-◌, Bool, true, false, not, ◌&&◌, Option, none, some, List, [], ◌∷◌, String, leb,
  if◌then◌else◌, map_or, lookup, insert, modify, nat_key, string_key, or_else, is_some,
}
use shelly_multiplexer.Double.{Double, le, of_ℤ}
use shelly_multiplexer.Config.Registers.{
  MarstekModel, venus_a, venus_d, venus_e_v1_v2, venus_e_v3, soc_register, battery_power_register,
  battery_power_is_int32,
}
use shelly_multiplexer.State.{AppState, BatteryState, ModbusStats}
use shelly_multiplexer.Wire.{Line}
use shelly_multiplexer.ModbusDecode.{as_i16, as_i32, combined}
use shelly_multiplexer.Writer.{
  Answer, values, exception, broken, Bus, BatteryWriter, Session, time_of, drop_ctx, ensure_conn,
  read_holding_on, with_battery,
}

-- `format!("modbus:{}", model.soc_register())`
abbrev pub soc_source_of : MarstekModel → String
soc_source_of venus_e_v3 = "modbus:34002"
soc_source_of _ = "modbus:32104"

unfoldable pub soc_poll_due : {W : Type 0} → BatteryWriter W → ℕ → Bool
soc_poll_due w now = map_or w.last_soc_read_at true (λ t. leb w.soc_interval (now - t))

module _ {W : Type 0} ⦃d : Double W⦄ where
  open d use {nat, mul, ratio}

  unfoldable pub soc_scale : MarstekModel → W
  soc_scale venus_e_v3 = ratio 1 10
  soc_scale _ = nat 1

  -- `(0.0..=100.0).contains(&soc)`
  abbrev pub in_percent : W → Option W
  in_percent soc = if le (nat 0) soc && le soc (nat 100) then some soc else none

  -- The result of `read_soc_on`, from the answer to its read.
  unfoldable pub read_soc_on : MarstekModel → Answer → Option W
  unfolding soc_scale
  read_soc_on model (values (raw ∷ _)) = in_percent (mul (nat raw) (soc_scale model))
  read_soc_on model _ = none

  -- The result of `read_battery_power_on`.
  unfoldable pub read_battery_power_on : Bool → Answer → Option W
  unfolding as_i16 as_i32 combined
  read_battery_power_on true (values (hi ∷ lo ∷ _)) = some (of_ℤ (as_i32 (combined hi lo)))
  read_battery_power_on false (values (raw ∷ _)) = some (of_ℤ (as_i16 raw))
  read_battery_power_on _ _ = none

  -- A state of charge and a battery power, each where it was read.
  unfoldable pub store_readings :
      MarstekModel → ℕ → Option W → Option W → BatteryState W → BatteryState W
  store_readings model now soc power b = record b {
    soc_pct = or_else soc b.soc_pct;
    soc_at = if is_some soc then some now else b.soc_at;
    soc_source = if is_some soc then some (soc_source_of model) else b.soc_source;
    last_battery_power_w = or_else power b.last_battery_power_w;
  }

  -- Only a connection that cannot be opened is an error; the reads may fail.
  unfoldable pub read_soc_on_open : Bus → Session W → Bool × Session W
  unfolding ensure_conn read_holding_on read_soc_on read_battery_power_on store_readings
      with_battery
  read_soc_on_open bus s =
      let model = s.writer.battery.marstek_model in
      let conn = ensure_conn bus s in
      let soc = read_holding_on bus conn.1 in
      let power = read_holding_on bus soc.1 in
      let now = time_of bus power.1 in
      let s' = record power.1 { writer = record power.1.writer { last_soc_read_at = some now } } in
      if conn.0
      then (
        true,
        with_battery
            (store_readings model now (read_soc_on model soc.0)
              (read_battery_power_on (battery_power_is_int32 model) power.0))
            s',
      )
      else conn

  unfoldable pub poll_soc_only : Bus → Session W → Bool × Session W
  unfolding read_soc_on_open drop_ctx
  poll_soc_only bus s =
      let done = read_soc_on_open bus s in if done.0 then done else (false, drop_ctx done.1)
