-- ===== src/Writer/Reads/Refresh.antt =====
-- `tier_refresh` of src/modbus.rs: one tier of registers is read one at a time into the cache.
pub mod Merged
use shelly_multiplexer.Prelude.{
  ℕ, suc, ◌+◌, Bool, true, false, Option, none, some, List, [], ◌∷◌, leb, if◌then◌else◌, lookup,
  insert, nat_key, is_nil,
}
use shelly_multiplexer.Double.{Double, of_ℤ}
use shelly_multiplexer.Config.Registers.{
  MarstekModel, soc_register, battery_power_register, battery_power_is_int32, fast_registers,
  slow_registers,
}
use shelly_multiplexer.State.{BatteryState, ModbusStats, bump}
use shelly_multiplexer.ModbusDecode.{as_i16, as_i32, combined}
use shelly_multiplexer.Writer.{
  Answer, values, exception, broken, Bus, BatteryWriter, Session, Tier, fast, slow, time_of,
  drop_ctx, ensure_conn, read_holding_on, with_battery, count,
}
use shelly_multiplexer.Writer.Reads.{soc_scale, in_percent, store_readings}

abbrev pub wire_error_drop_threshold : ℕ
wire_error_drop_threshold = 3

unfoldable pub tier_registers : Tier → MarstekModel → List ℕ
tier_registers fast model = fast_registers model
tier_registers slow model = slow_registers model

-- `collected.insert(reg, v)` of the first value, if there is one.
abbrev pub collect : ℕ → List ℕ → List (ℕ × ℕ) → List (ℕ × ℕ)
collect reg [] collected = collected
collect reg (v ∷ _) collected = insert reg v collected

unfoldable pub merge : List (ℕ × ℕ) → List (ℕ × ℕ) → List (ℕ × ℕ)
merge [] cache = cache
merge ((reg, v) ∷ collected) cache = merge collected (insert reg v cache)

-- The loop's variables: what was collected, the wire errors in a row, and `connection_dead`.
pub record Sweep (W : Type 0) : Type 0 where
  pub session : Session W
  pub collected : List (ℕ × ℕ)
  pub wire_errors : ℕ
  pub connection_dead : Bool

module _ {W : Type 0} where
  -- One read of the loop, on an open connection; the loop goes on unless the connection is dead.
  unfoldable pub read_register : Bus → ℕ → Sweep W → Sweep W
  unfolding count read_holding_on drop_ctx
  read_register bus reg w =
      let asked = read_holding_on bus (
        count (λ st. record st { outbound_reads_total = bump st.outbound_reads_total })
          w.session) in
      let failed =
        count (λ st. record st { outbound_reads_failed = bump st.outbound_reads_failed }) asked.1 in
      elim asked.0 [
        | values vs ↦ record w {
          session =
              count (λ st. record st { outbound_reads_ok = bump st.outbound_reads_ok }) asked.1;
          collected = collect reg vs w.collected;
          wire_errors = 0;
        }
        | exception ↦ record w { session = failed; wire_errors = 0 }
        | broken ↦
            if leb wire_error_drop_threshold (suc w.wire_errors)
            then record w {
              session = drop_ctx failed;
              wire_errors = suc w.wire_errors;
              connection_dead = true;
            }
            else record w { session = failed; wire_errors = suc w.wire_errors }
      ]

  -- `for reg in regs`
  unfoldable pub sweep : Bus → List ℕ → Sweep W → Sweep W
  unfolding ensure_conn read_register
  sweep bus [] w = w
  sweep bus (reg ∷ regs) w =
      let conn = ensure_conn bus w.session in
      let next = read_register bus reg (record w { session = conn.1 }) in
      let rest = sweep bus regs next in
      if conn.0
      then if next.connection_dead then next else rest
      else record w { session = conn.1; connection_dead = true }

  -- The times of the refresh that the writer keeps.
  unfoldable pub refreshed_at : Tier → ℕ → BatteryWriter W → BatteryWriter W
  refreshed_at fast now w = record w {
    last_fast_refresh_at = some now;
    last_soc_read_at = some now;
  }
  refreshed_at slow now w = record w { last_slow_refresh_at = some now }

module _ {W : Type 0} ⦃d : Double W⦄ where
  open d use {nat, mul}

  unfoldable pub derived_soc : MarstekModel → List (ℕ × ℕ) → Option W
  derived_soc model collected = elim (lookup (soc_register model) collected) [
    | none ↦ none
    | some r ↦ in_percent (mul (nat r) (soc_scale model))
  ]

  unfoldable pub derived_power : MarstekModel → List (ℕ × ℕ) → Option W
  derived_power model collected =
      let reg = battery_power_register model in
      elim (lookup reg collected) [
        | none ↦ none
        | some hi ↦
            if battery_power_is_int32 model
            then elim (lookup (reg + 1) collected) [
              | none ↦ none
              | some lo ↦ some (of_ℤ (as_i32 (combined hi lo)))
            ]
            else some (of_ℤ (as_i16 hi))
      ]

  unfoldable pub store_tier :
      Tier → MarstekModel → ℕ → List (ℕ × ℕ) → BatteryState W → BatteryState W
  unfolding store_readings derived_soc derived_power merge
  store_tier fast model now collected b =
      record (store_readings model now (derived_soc model collected) (derived_power model collected)
        b) {
          cached_holding_regs = merge collected b.cached_holding_regs;
          cached_regs_refreshed_at = some now;
        }
  store_tier slow model now collected b = record b {
    cached_holding_regs = merge collected b.cached_holding_regs;
    cached_regs_refreshed_at = some now;
  }

  unfoldable pub tier_refresh : Bus → Tier → Session W → Bool × Session W
  unfolding sweep tier_registers drop_ctx refreshed_at store_tier with_battery
  tier_refresh bus tier s =
      let model = s.writer.battery.marstek_model in
      let w =
        sweep bus (tier_registers tier model)
          (record { session = s; collected = []; wire_errors = 0; connection_dead = false }) in
      let now = time_of bus w.session in
      let kept = record w.session { writer = refreshed_at tier now w.session.writer } in
      if is_nil w.collected
      then (false, if w.connection_dead then drop_ctx w.session else w.session)
      else (true, with_battery (store_tier tier model now w.collected) kept)
