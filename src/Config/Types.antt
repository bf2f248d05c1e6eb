-- ===== src/Config/Types.antt =====
-- The records and defaults of src/config.rs. A `u8`, `u16` or `u64` field is a number, whose range
-- is that of its type; a duration is in nanoseconds.
use shelly_multiplexer.Prelude.{
  ℕ, ◌+◌, ◌≡◌, Bool, true, false, Option, List, String, ltb, nat_beq, if◌then◌else◌, unwrap_or, Key,
  arith, ◌↔◌,
}
use shelly_multiplexer.Double.{Double}
use shelly_multiplexer.Config.Registers.{MarstekModel}

-- `std::net::IpAddr`, as the number that its bytes spell.
pub data IpAddr : Type 0 where
  v4 : ℕ → IpAddr
  v6 : ℕ → IpAddr

abbrev pub ip_beq : IpAddr → IpAddr → Bool
ip_beq (v4 a) (v4 b) = nat_beq a b
ip_beq (v6 a) (v6 b) = nat_beq a b
ip_beq (v4 a) (v6 b) = false
ip_beq (v6 a) (v4 b) = false

pub ip_beq_iff : (a b : IpAddr) → (ip_beq a b ≡ true) ↔ (a ≡ b)
ip_beq_iff a b = ground arith

instance abbrev pub ip_key : Key IpAddr
ip_key = record { beq = ip_beq; beq_iff = ip_beq_iff }

-- Neither is set, or both are, where the night cutoff may be on.
pub record LocationConfig (W : Type 0) : Type 0 where
  pub latitude : Option W
  pub longitude : Option W

pub record VirtualModbusConfig : Type 0 where
  pub enabled : Bool
  pub bind_address : String
  pub bulk_refresh_ms : ℕ
  pub slow_refresh_ms : ℕ
  pub debug : Bool

pub record RealShellyConfig : Type 0 where
  pub host : IpAddr
  pub udp_port : ℕ
  pub poll_interval_ms : ℕ
  pub request_timeout_ms : ℕ

pub record VirtualShellyConfig : Type 0 where
  pub bind_interface : String
  pub udp_port : ℕ
  pub http_port : ℕ
  pub device_mac : String
  pub device_hostname : String
  pub firmware : String
  pub enable_mdns : Bool

pub record ManagementConfig : Type 0 where
  pub bind_address : String

pub data DispatchMode : Type 0 where
  modbus pulse : DispatchMode

pub record DispatcherConfig (W : Type 0) : Type 0 where
  pub mode : DispatchMode
  pub cycle_ms : ℕ
  pub rate_limit_w_per_cycle : W
  pub soc_full_pct : W
  pub soc_empty_pct : W
  pub plug_stale_s : W
  pub grid_stale_s : W
  pub settle_timeout_s : W
  pub emergency_cutoff_margin_w : W
  pub night_cutoff_enabled : Bool

pub record HomeAssistantConfig : Type 0 where
  pub enabled : Bool
  pub url : String
  pub token : String
  pub timeout_ms : ℕ

pub record CircuitConfig (W : Type 0) : Type 0 where
  pub id : String
  pub fuse_amps : W
  pub phases : ℕ
  pub voltage : W

pub record BatteryConfig (W : Type 0) : Type 0 where
  pub id : String
  pub address : IpAddr
  pub circuit : String
  pub plug_url : String
  pub max_charge_w : W
  pub max_discharge_w : W
  pub capacity_wh : W
  pub priority_weight : W
  pub marstek_model : MarstekModel
  pub modbus_host : Option IpAddr
  pub modbus_port : ℕ
  pub modbus_unit_id : ℕ
  pub virtual_unit_id : Option ℕ
  pub soc_interval_ms : ℕ
  pub soc_entity_id : Option String
  pub soc_full_pct : Option W
  pub soc_empty_pct : Option W
  pub charge_taper_soc_pct : Option W
  pub charge_taper_w : Option W
  pub discharge_taper_soc_pct : Option W
  pub discharge_taper_w : Option W

pub record Config (W : Type 0) : Type 0 where
  pub real_shelly : RealShellyConfig
  pub virtual_shelly : VirtualShellyConfig
  pub management : ManagementConfig
  pub dispatcher : DispatcherConfig W
  pub home_assistant : HomeAssistantConfig
  pub location : LocationConfig W
  pub virtual_modbus : VirtualModbusConfig
  pub circuits : List (CircuitConfig W)
  pub batteries : List (BatteryConfig W)

module _ {W : Type 0} ⦃d : Double W⦄ where
  open d use {mul, nat}

  unfoldable pub default_dispatcher_config : DispatcherConfig W
  default_dispatcher_config = record {
    mode = modbus;
    cycle_ms = 2000;
    rate_limit_w_per_cycle = nat 500;
    soc_full_pct = nat 95;
    soc_empty_pct = nat 5;
    plug_stale_s = nat 5;
    grid_stale_s = nat 5;
    settle_timeout_s = nat 10;
    emergency_cutoff_margin_w = nat 500;
    night_cutoff_enabled = false;
  }

  unfoldable pub cap_w : CircuitConfig W → W
  cap_w c = mul (mul c.fuse_amps c.voltage) (nat c.phases)

-- `(index + 1).min(247) as u8`
unfoldable pub effective_virtual_unit_id : {W : Type 0} → BatteryConfig W → ℕ → ℕ
effective_virtual_unit_id b index =
    unwrap_or b.virtual_unit_id (if ltb 247 (index + 1) then 247 else index + 1)
