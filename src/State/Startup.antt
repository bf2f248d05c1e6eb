-- ===== src/State/Startup.antt =====
-- How src/state.rs builds the state from the configuration at startup.
use Prim.Native.String.{String}
use shelly_multiplexer.Prelude.{
  pos, ℕ, suc, Bool, false, not, none, List, [], ◌∷◌, map, if◌then◌else◌, map_or, keep_if, is_some,
  insert, string_key, nat_key, ◌==◌,
}
use shelly_multiplexer.Prelude.Text.{is_blank, trim_end_slash}
use shelly_multiplexer.Double.{Double, lt}
use shelly_multiplexer.Config.Types.{
  IpAddr, ip_key, CircuitConfig, BatteryConfig, Config, effective_virtual_unit_id,
}
use shelly_multiplexer.State.{EmStatusIncoming, BatteryState, CircuitState, ModbusStats, AppState}

-- `BatteryConfig::has_soc_source` of src/config.rs
unfoldable pub has_soc_source : {W : Type 0} → BatteryConfig W → Bool → Bool
has_soc_source b ha_enabled =
    if ha_enabled
    then map_or b.soc_entity_id false (λ s. not (is_blank s))
    else is_some b.modbus_host

pub empty_status : (W : Type 0) → EmStatusIncoming W
empty_status W = record {
  id = pos 0;
  a_current = none;
  a_voltage = none;
  a_act_power = none;
  a_aprt_power = none;
  a_pf = none;
  a_freq = none;
  b_current = none;
  b_voltage = none;
  b_act_power = none;
  b_aprt_power = none;
  b_pf = none;
  b_freq = none;
  c_current = none;
  c_voltage = none;
  c_act_power = none;
  c_aprt_power = none;
  c_pf = none;
  c_freq = none;
  n_current = none;
  total_current = none;
  total_act_power = none;
  total_aprt_power = none;
}

abbrev pub zero_stats : ModbusStats
zero_stats = record {
  server_requests_total = 0;
  server_requests_ok = 0;
  server_requests_illegal_address = 0;
  server_requests_server_busy = 0;
  server_requests_illegal_function = 0;
  server_requests_gateway_unavailable = 0;
  server_connections_accepted = 0;
  outbound_reads_total = 0;
  outbound_reads_ok = 0;
  outbound_reads_failed = 0;
  outbound_writes_total = 0;
  outbound_writes_ok = 0;
  outbound_writes_failed = 0;
}

-- The three maps that the loop over the configured batteries fills.
pub record BatteryMaps (W : Type 0) : Type 0 where
  pub batteries : List (String × BatteryState W)
  pub by_addr : List (IpAddr × String)
  pub by_unit_id : List (ℕ × String)

module _ {W : Type 0} ⦃d : Double W⦄ where
  open d use {nat, add}

  unfoldable pub battery_from_config : BatteryConfig W → Bool → ℕ → BatteryState W
  unfolding has_soc_source effective_virtual_unit_id
  battery_from_config cfg ha_enabled index = record {
    id = cfg.id;
    circuit = cfg.circuit;
    address = cfg.address;
    marstek_model = cfg.marstek_model;
    plug_url = trim_end_slash cfg.plug_url;
    active = has_soc_source cfg ha_enabled;
    max_charge_w = cfg.max_charge_w;
    max_discharge_w = cfg.max_discharge_w;
    capacity_wh =
        if lt (nat 0) cfg.capacity_wh
        then cfg.capacity_wh
        else add cfg.max_charge_w cfg.max_discharge_w;
    priority_weight = cfg.priority_weight;
    soc_full_pct = cfg.soc_full_pct;
    soc_empty_pct = cfg.soc_empty_pct;
    charge_taper_soc_pct = cfg.charge_taper_soc_pct;
    charge_taper_w = cfg.charge_taper_w;
    discharge_taper_soc_pct = cfg.discharge_taper_soc_pct;
    discharge_taper_w = cfg.discharge_taper_w;
    pending_pulse_w = nat 0;
    pulse_remaining = 0;
    plug_w_at_pulse_send = none;
    last_pulse_completed_at = none;
    last_plug_w = none;
    last_plug_at = none;
    last_plug_movement_at = none;
    last_marstek_poll_at = none;
    soc_pct = none;
    soc_at = none;
    soc_source = none;
    last_pulse_delta_w = none;
    charge_locked_until = none;
    discharge_locked_until = none;
    last_modbus_setpoint_w = none;
    last_modbus_write_at = none;
    last_modbus_write_error = none;
    last_battery_power_w = none;
    bms_full_pct = none;
    bms_empty_pct = none;
    plug_relay_state = none;
    plug_cut_until = none;
    plug_cut_reason = none;
    last_error = none;
    plug_overhead_w_smoothed = none;
    virtual_unit_id = effective_virtual_unit_id cfg index;
    cached_holding_regs = [];
    cached_regs_refreshed_at = none;
  }

  unfoldable pub add_batteries : Bool → ℕ → List (BatteryConfig W) → BatteryMaps W → BatteryMaps W
  unfolding battery_from_config
  add_batteries ha_enabled idx [] maps = maps
  add_batteries ha_enabled idx (b ∷ bs) maps =
      let st = battery_from_config b ha_enabled idx in
      add_batteries ha_enabled (suc idx) bs (record {
        batteries = insert st.id st maps.batteries;
        by_addr = insert st.address st.id maps.by_addr;
        by_unit_id = insert st.virtual_unit_id st.id maps.by_unit_id;
      })

  unfoldable pub circuit_from_config : List (BatteryConfig W) → CircuitConfig W → CircuitState W
  circuit_from_config batteries c = record {
    config = c;
    member_ids = map (λ (b : BatteryConfig W). b.id) (keep_if (λ b. b.circuit == c.id) batteries);
    silent_until = none;
    overload_started_at = none;
    soft_remediation_started_at = none;
  }

  unfoldable pub add_circuits :
      List (BatteryConfig W)
      → List (CircuitConfig W)
      → List (String × CircuitState W)
      → List (String × CircuitState W)
  unfolding circuit_from_config
  add_circuits batteries [] circuits = circuits
  add_circuits batteries (c ∷ cs) circuits =
      add_circuits batteries cs (insert c.id (circuit_from_config batteries c) circuits)

  unfoldable pub app_from_config : Config W → ℕ → AppState W
  unfolding add_batteries add_circuits empty_status
  app_from_config cfg now =
      let maps =
        add_batteries cfg.home_assistant.enabled 0 cfg.batteries
          (record { batteries = []; by_addr = []; by_unit_id = [] }) in
      record {
        snapshot = record { status = empty_status W; age = none };
        batteries = maps.batteries;
        circuits = add_circuits cfg.batteries cfg.circuits [];
        by_addr = maps.by_addr;
        by_unit_id = maps.by_unit_id;
        energy = record { consumed_wh = nat 0; returned_wh = nat 0 };
        started_at = now;
        last_grid_stale_warn = none;
        modbus_stats = zero_stats;
      }
