-- ===== src/Tests.antt =====
-- A small installation on which the theorems of the development are tried: two batteries on one
-- circuit, both fresh, in thousandths of a watt.
pub mod Devices
pub mod Dispatch
pub mod Cycles
pub mod Writers
pub mod Services
pub mod Programs
pub mod Checks
pub mod Pulses
use shelly_multiplexer.Prelude.{
  ℕ, ◌≡◌, refl, ◌*◌, Bool, true, false, Option, none, some, List, [], ◌∷◌, String, ℤ, pos, All,
  lookup, arith, string_key, if◌then◌else◌, values, Bool-cases, inl, inr, subst, ◌==◌,
}
use shelly_multiplexer.Double.{Double, ◌≼◌}
use shelly_multiplexer.Double.Fixed.{fixed}
use shelly_multiplexer.Config.Constants.{second}
use shelly_multiplexer.Config.Registers.{MarstekModel, venus_e_v3}
use shelly_multiplexer.Config.Types.{
  IpAddr, v4, CircuitConfig, BatteryConfig, DispatcherConfig, default_dispatcher_config, pulse,
  cap_w,
}
use shelly_multiplexer.State.{BatteryState, CircuitState, AppState, EmSnapshot}
use shelly_multiplexer.State.Startup.{battery_from_config, empty_status, zero_stats}
use shelly_multiplexer.Dispatcher.Bounds.{IsRated}
use shelly_multiplexer.Dispatcher.Shares.Bounded.{IsKeyed}

abbrev pub w : ℕ → ℤ
w n = pos (1000 * n)

abbrev pub battery_config : String → BatteryConfig ℤ
battery_config name = record {
  id = name;
  address = v4 1;
  circuit = "garage";
  plug_url = "http://plug";
  max_charge_w = w 2500;
  max_discharge_w = w 2500;
  capacity_wh = w 5120;
  priority_weight = w 1;
  marstek_model = venus_e_v3;
  modbus_host = some (v4 2);
  modbus_port = 502;
  modbus_unit_id = 1;
  virtual_unit_id = none;
  soc_interval_ms = 1000;
  soc_entity_id = none;
  soc_full_pct = none;
  soc_empty_pct = none;
  charge_taper_soc_pct = none;
  charge_taper_w = none;
  discharge_taper_soc_pct = none;
  discharge_taper_w = none;
}

-- Measured at `now`, half full.
abbrev pub now : ℕ
now = 100 * second

abbrev pub battery : String → ℤ → BatteryState ℤ
battery name plug = record (battery_from_config (battery_config name) false 0) {
  last_plug_w = some plug;
  last_plug_at = some now;
  soc_pct = some (w 50);
  cached_holding_regs = (42000, 21930) ∷ (34002, 50) ∷ [];
}

abbrev pub circuit : CircuitState ℤ
circuit = record {
  config = record { id = "garage"; fuse_amps = w 14; phases = 1; voltage = w 230 };
  member_ids = "left" ∷ "right" ∷ [];
  silent_until = none;
  overload_started_at = none;
  soft_remediation_started_at = none;
}

abbrev pub home : AppState ℤ
home = record {
  snapshot = record { status = empty_status ℤ; age = some now };
  batteries = ("left", battery "left" (w 100)) ∷ ("right", battery "right" (w 200)) ∷ [];
  circuits = ("garage", circuit) ∷ [];
  by_addr = (v4 1, "left") ∷ [];
  by_unit_id = (1, "left") ∷ (2, "right") ∷ [];
  energy = record { consumed_wh = w 0; returned_wh = w 0 };
  started_at = 0;
  last_grid_stale_warn = none;
  modbus_stats = zero_stats;
}

abbrev pub settings : DispatcherConfig ℤ
settings = default_dispatcher_config

pub home-IsKeyed : IsKeyed home.batteries
unfolding lookup battery_from_config
home-IsKeyed = ((refl, refl), ((refl, refl), tt))

pub battery-IsRated : (name : String) (plug : ℤ) → IsRated (battery name plug)
unfolding battery_from_config
battery-IsRated name plug = ground arith

IsRated-lookup :
    (bats : List (String × BatteryState ℤ)) (id : String) (b : BatteryState ℤ)
    → All (λ (e : String × BatteryState ℤ). IsRated e.1) bats
    → lookup id bats ≡ some b
    → IsRated b
unfolding lookup
IsRated-lookup [] id b h e = ground arith
IsRated-lookup ((k, v) ∷ es) id b (h, hs) e = elim (Bool-cases (k == id)) [
  | inl q ↦ let same : v ≡ b = ground (arith, q, e) in subst (λ x. IsRated x) same h
  | inr q ↦ IsRated-lookup es id b hs (ground (arith, q, e))
]

pub home-IsRated :
    (id : String) (b : BatteryState ℤ) → lookup id home.batteries ≡ some b → IsRated b
home-IsRated id b =
    IsRated-lookup home.batteries id b
      (battery-IsRated "left" (w 100), (battery-IsRated "right" (w 200), tt))

pub home_caps : All (λ (c : CircuitState ℤ). w 0 ≼ cap_w c.config) (values home.circuits)
unfolding cap_w
home_caps = ground arith
