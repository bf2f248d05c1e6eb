-- ===== src/State.antt =====
-- The runtime state of src/state.rs, and the measurements of src/rpc.rs that it keeps. An `Instant`
-- is a number of nanoseconds, and the time of a call is its argument. A `HashMap` is an association
-- list, whose order stands for the order of the iteration.
pub mod Battery
pub mod Startup
pub mod Activity
pub mod Energy
use shelly_multiplexer.Prelude.{ℕ, ◌+◌, ◌%◌, ◌^◌, ℤ, Bool, Option, List, String}
use shelly_multiplexer.Config.Registers.{MarstekModel}
use shelly_multiplexer.Config.Types.{IpAddr, CircuitConfig}

pub record EmStatusIncoming (W : Type 0) : Type 0 where
  pub id : ℤ
  pub a_current : Option W
  pub a_voltage : Option W
  pub a_act_power : Option W
  pub a_aprt_power : Option W
  pub a_pf : Option W
  pub a_freq : Option W
  pub b_current : Option W
  pub b_voltage : Option W
  pub b_act_power : Option W
  pub b_aprt_power : Option W
  pub b_pf : Option W
  pub b_freq : Option W
  pub c_current : Option W
  pub c_voltage : Option W
  pub c_act_power : Option W
  pub c_aprt_power : Option W
  pub c_pf : Option W
  pub c_freq : Option W
  pub n_current : Option W
  pub total_current : Option W
  pub total_act_power : Option W
  pub total_aprt_power : Option W

pub record EmSnapshot (W : Type 0) : Type 0 where
  pub status : EmStatusIncoming W
  pub age : Option ℕ

-- Why a plug was cut: the text that the program formats, by its form and the values in it. Only the
-- first form begins with "night cutoff:".
pub data CutReason (W : Type 0) : Type 0 where
  night_cutoff : W → W → W → CutReason W
  night_cutoff_failed : String → CutReason W
  over_cap : String → W → W → W → ℕ → ℕ → CutReason W
  cutoff_failed : String → CutReason W

pub record BatteryState (W : Type 0) : Type 0 where
  pub id : String
  pub circuit : String
  pub address : IpAddr
  pub marstek_model : MarstekModel
  pub plug_url : String
  pub active : Bool
  pub max_charge_w : W
  pub max_discharge_w : W
  pub capacity_wh : W
  pub priority_weight : W
  pub soc_full_pct : Option W
  pub soc_empty_pct : Option W
  pub charge_taper_soc_pct : Option W
  pub charge_taper_w : Option W
  pub discharge_taper_soc_pct : Option W
  pub discharge_taper_w : Option W
  pub pending_pulse_w : W
  pub pulse_remaining : ℕ
  pub plug_w_at_pulse_send : Option W
  pub last_pulse_completed_at : Option ℕ
  pub last_plug_w : Option W
  pub last_plug_at : Option ℕ
  pub last_plug_movement_at : Option ℕ
  pub last_marstek_poll_at : Option ℕ
  pub soc_pct : Option W
  pub soc_at : Option ℕ
  pub soc_source : Option String
  pub last_pulse_delta_w : Option W
  pub charge_locked_until : Option ℕ
  pub discharge_locked_until : Option ℕ
  pub last_modbus_setpoint_w : Option W
  pub last_modbus_write_at : Option ℕ
  pub last_modbus_write_error : Option String
  pub last_battery_power_w : Option W
  pub bms_full_pct : Option W
  pub bms_empty_pct : Option W
  pub plug_relay_state : Option Bool
  pub plug_cut_until : Option ℕ
  pub plug_cut_reason : Option (CutReason W)
  pub last_error : Option String
  pub plug_overhead_w_smoothed : Option W
  pub virtual_unit_id : ℕ
  pub cached_holding_regs : List (ℕ × ℕ)
  pub cached_regs_refreshed_at : Option ℕ

pub record CircuitState (W : Type 0) : Type 0 where
  pub config : CircuitConfig W
  pub member_ids : List String
  pub silent_until : Option ℕ
  pub overload_started_at : Option ℕ
  pub soft_remediation_started_at : Option ℕ

pub record EnergyCounters (W : Type 0) : Type 0 where
  pub consumed_wh : W
  pub returned_wh : W

-- `AtomicU64` counters.
pub record ModbusStats : Type 0 where
  pub server_requests_total : ℕ
  pub server_requests_ok : ℕ
  pub server_requests_illegal_address : ℕ
  pub server_requests_server_busy : ℕ
  pub server_requests_illegal_function : ℕ
  pub server_requests_gateway_unavailable : ℕ
  pub server_connections_accepted : ℕ
  pub outbound_reads_total : ℕ
  pub outbound_reads_ok : ℕ
  pub outbound_reads_failed : ℕ
  pub outbound_writes_total : ℕ
  pub outbound_writes_ok : ℕ
  pub outbound_writes_failed : ℕ

-- `fetch_add(1)` on an `AtomicU64` wraps.
abbrev pub bump : ℕ → ℕ
bump n = (n + 1) % 2 ^ 64

pub record AppState (W : Type 0) : Type 0 where
  pub snapshot : EmSnapshot W
  pub batteries : List (String × BatteryState W)
  pub circuits : List (String × CircuitState W)
  pub by_addr : List (IpAddr × String)
  pub by_unit_id : List (ℕ × String)
  pub energy : EnergyCounters W
  pub started_at : ℕ
  pub last_grid_stale_warn : Option ℕ
  pub modbus_stats : ModbusStats
