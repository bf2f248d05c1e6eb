-- ===== src/Config/Validate.antt =====
-- `Config::validate` of src/config.rs. An error is a constructor for the message; the checks are lists
-- of a test and its error, in the order of the code, of which the first that holds is the result.
pub mod Limits
use shelly_multiplexer.Prelude.{
  ℕ, suc, Bool, true, false, not, ◌&&◌, ◌||◌, Option, none, some, List, [], ◌∷◌, ◌++◌, String,
  if◌then◌else◌, unwrap_or, nat_beq, or_else, contains, string_key, nat_key, ◌==◌,
}
use shelly_multiplexer.Prelude.Text.{is_blank}
use shelly_multiplexer.Double.{Double, lt, le, max}
use shelly_multiplexer.Config.Types.{
  Config, CircuitConfig, BatteryConfig, DispatcherConfig, LocationConfig, VirtualModbusConfig,
  IpAddr, ip_key, cap_w, effective_virtual_unit_id,
}

pub data ConfigError : Type 0 where
  duplicate_circuit bad_phases bad_fuse : String → ConfigError
  duplicate_battery duplicate_address circuit_required unknown_circuit exceeds_cap :
      String → ConfigError
  negative_limit plug_url_required bad_priority bad_soc_full bad_soc_empty soc_order :
      String → ConfigError
  charge_taper_incomplete charge_taper_soc_range charge_taper_w_range : String → ConfigError
  charge_taper_above_full charge_taper_below_empty : String → ConfigError
  discharge_taper_incomplete discharge_taper_soc_range discharge_taper_w_range :
      String → ConfigError
  discharge_taper_below_empty discharge_taper_above_full : String → ConfigError
  bad_modbus_port bad_modbus_unit_id bad_soc_interval bad_virtual_unit clashing_unit :
      String → ConfigError
  bad_cycle bad_rate_limit bad_plug_stale bad_grid_stale bad_settle_timeout bad_cutoff_margin :
      ConfigError
  bad_latitude bad_longitude location_required : ConfigError
  bad_default_full bad_default_empty default_soc_order bad_poll_interval : ConfigError
  bad_bulk_refresh bad_slow_refresh bad_bind_address : ConfigError

abbrev pub Checks : Type 0
Checks = List (Bool × ConfigError)

unfoldable pub first_error : Checks → Option ConfigError
first_error [] = none
first_error ((test, error) ∷ checks) = if test then some error else first_error checks

module _ {W : Type 0} ⦃d : Double W⦄ where
  open d use {neg, nat}

  abbrev pub is_outside : W → W → W → Bool
  is_outside lo hi x = not (le lo x && le x hi)

  unfoldable pub circuit_checks : List String → List (CircuitConfig W) → Checks
  circuit_checks seen [] = []
  circuit_checks seen (c ∷ cs) =
      (contains seen c.id, duplicate_circuit c.id)
      ∷ (not (nat_beq c.phases 1 || nat_beq c.phases 3), bad_phases c.id)
      ∷ (le c.fuse_amps (nat 0), bad_fuse c.id)
      ∷ circuit_checks (c.id ∷ seen) cs

  unfoldable pub find_circuit : String → List (CircuitConfig W) → Option (CircuitConfig W)
  find_circuit id [] = none
  find_circuit id (c ∷ cs) = if c.id == id then some c else find_circuit id cs

  unfoldable pub cap_check : Config W → BatteryConfig W → Bool × ConfigError
  cap_check cfg b = elim (find_circuit b.circuit cfg.circuits) [
    | none ↦ (true, unknown_circuit b.id)
    | some circuit ↦ (lt (cap_w circuit) (max b.max_charge_w b.max_discharge_w), exceeds_cap b.id)
  ]

  unfoldable pub soc_checks : BatteryConfig W → Checks
  soc_checks b =
      (
        elim b.soc_full_pct [ none ↦ false | some s ↦ is_outside (nat 0) (nat 100) s ],
        bad_soc_full b.id,
      )
      ∷ (
        elim b.soc_empty_pct [ none ↦ false | some s ↦ is_outside (nat 0) (nat 100) s ],
        bad_soc_empty b.id,
      )
      ∷ (
        elim b.soc_full_pct [
          | none ↦ false
          | some f ↦ elim b.soc_empty_pct [ none ↦ false | some e ↦ le f e ]
        ],
        soc_order b.id,
      )
      ∷ []

  unfoldable pub charge_taper_checks : BatteryConfig W → W → W → Checks
  charge_taper_checks b full empty = elim b.charge_taper_soc_pct [
    | none ↦ elim b.charge_taper_w [
      | none ↦ []
      | some w ↦ (true, charge_taper_incomplete b.id) ∷ []
    ]
    | some soc ↦ elim b.charge_taper_w [
      | none ↦ (true, charge_taper_incomplete b.id) ∷ []
      | some w ↦
          (is_outside (nat 0) (nat 100) soc, charge_taper_soc_range b.id)
          ∷ (le w (nat 0) || le b.max_charge_w w, charge_taper_w_range b.id)
          ∷ (le full soc, charge_taper_above_full b.id)
          ∷ (le soc empty, charge_taper_below_empty b.id)
          ∷ []
    ]
  ]

  unfoldable pub discharge_taper_checks : BatteryConfig W → W → W → Checks
  discharge_taper_checks b full empty = elim b.discharge_taper_soc_pct [
    | none ↦ elim b.discharge_taper_w [
      | none ↦ []
      | some w ↦ (true, discharge_taper_incomplete b.id) ∷ []
    ]
    | some soc ↦ elim b.discharge_taper_w [
      | none ↦ (true, discharge_taper_incomplete b.id) ∷ []
      | some w ↦
          (is_outside (nat 0) (nat 100) soc, discharge_taper_soc_range b.id)
          ∷ (le w (nat 0) || le b.max_discharge_w w, discharge_taper_w_range b.id)
          ∷ (le soc empty, discharge_taper_below_empty b.id)
          ∷ (le full soc, discharge_taper_above_full b.id)
          ∷ []
    ]
  ]

  -- The checks of a battery before those of its thresholds.
  unfoldable pub identity_checks : Config W → List String → List IpAddr → BatteryConfig W → Checks
  identity_checks cfg seen_ids seen_addrs b =
      (contains seen_ids b.id, duplicate_battery b.id)
      ∷ (contains seen_addrs b.address, duplicate_address b.id)
      ∷ (is_blank b.circuit, circuit_required b.id)
      ∷ cap_check cfg b
      ∷ (lt b.max_charge_w (nat 0) || lt b.max_discharge_w (nat 0), negative_limit b.id)
      ∷ (is_blank b.plug_url, plug_url_required b.id)
      ∷ (le b.priority_weight (nat 0), bad_priority b.id)
      ∷ []

  unfoldable pub modbus_checks : BatteryConfig W → Checks
  modbus_checks b =
      (nat_beq b.modbus_port 0, bad_modbus_port b.id)
      ∷ (nat_beq b.modbus_unit_id 0, bad_modbus_unit_id b.id)
      ∷ (nat_beq b.soc_interval_ms 0, bad_soc_interval b.id)
      ∷ []

  -- The body of the loop over the batteries.
  unfoldable pub battery_checks : Config W → List String → List IpAddr → BatteryConfig W → Checks
  battery_checks cfg seen_ids seen_addrs b =
      let full = unwrap_or b.soc_full_pct cfg.dispatcher.soc_full_pct in
      let empty = unwrap_or b.soc_empty_pct cfg.dispatcher.soc_empty_pct in
      identity_checks cfg seen_ids seen_addrs b
      ++ (soc_checks b
          ++ (charge_taper_checks b full empty
              ++ (discharge_taper_checks b full empty ++ modbus_checks b)))

  unfoldable pub batteries_checks :
      Config W → List String → List IpAddr → List (BatteryConfig W) → Checks
  unfolding battery_checks
  batteries_checks cfg seen_ids seen_addrs [] = []
  batteries_checks cfg seen_ids seen_addrs (b ∷ bs) =
      battery_checks cfg seen_ids seen_addrs b
      ++ batteries_checks cfg (b.id ∷ seen_ids) (b.address ∷ seen_addrs) bs

  unfoldable pub location_checks : DispatcherConfig W → LocationConfig W → Checks
  location_checks dcfg location =
      let set : Checks = elim location.latitude [
        | none ↦ (true, location_required) ∷ []
        | some lat ↦ elim location.longitude [
          | none ↦ (true, location_required) ∷ []
          | some lon ↦
              (is_outside (neg (nat 90)) (nat 90) lat, bad_latitude)
              ∷ (is_outside (neg (nat 180)) (nat 180) lon, bad_longitude)
              ∷ []
        ]
      ] in
      if dcfg.night_cutoff_enabled then set else []

  unfoldable pub dispatcher_checks : DispatcherConfig W → LocationConfig W → Checks
  dispatcher_checks dcfg location =
      ((nat_beq dcfg.cycle_ms 0, bad_cycle)
        ∷ (le dcfg.rate_limit_w_per_cycle (nat 0), bad_rate_limit)
        ∷ (lt dcfg.plug_stale_s (nat 0), bad_plug_stale)
        ∷ (lt dcfg.grid_stale_s (nat 0), bad_grid_stale)
        ∷ (lt dcfg.settle_timeout_s (nat 0), bad_settle_timeout)
        ∷ (lt dcfg.emergency_cutoff_margin_w (nat 0), bad_cutoff_margin)
        ∷ [])
      ++ (location_checks dcfg location
          ++ ((is_outside (nat 0) (nat 100) dcfg.soc_full_pct, bad_default_full)
              ∷ (is_outside (nat 0) (nat 100) dcfg.soc_empty_pct, bad_default_empty)
              ∷ (le dcfg.soc_full_pct dcfg.soc_empty_pct, default_soc_order)
              ∷ []))

  -- The unit ids, from the index `idx` on.
  unfoldable pub unit_checks : List ℕ → ℕ → List (BatteryConfig W) → Checks
  unit_checks seen idx [] = []
  unit_checks seen idx (b ∷ bs) =
      let unit = effective_virtual_unit_id b idx in
      (nat_beq unit 0, bad_virtual_unit b.id)
      ∷ (contains seen unit, clashing_unit b.id)
      ∷ unit_checks (unit ∷ seen) (suc idx) bs

  -- `is_socket_addr` is the standard library's test that a text parses as a `SocketAddr`.
  unfoldable pub server_checks : (String → Bool) → Config W → Checks
  server_checks is_socket_addr cfg =
      let server = cfg.virtual_modbus in
      let checks : Checks =
        (nat_beq server.bulk_refresh_ms 0, bad_bulk_refresh)
        ∷ (nat_beq server.slow_refresh_ms 0, bad_slow_refresh)
        ∷ (not (is_socket_addr server.bind_address), bad_bind_address)
        ∷ unit_checks [] 0 cfg.batteries in
      if server.enabled then checks else []

  -- `none` is `Ok(())`.
  unfoldable pub validate : (String → Bool) → Config W → Option ConfigError
  validate is_socket_addr cfg = first_error (
      circuit_checks [] cfg.circuits
      ++ (batteries_checks cfg [] [] cfg.batteries
          ++ (dispatcher_checks cfg.dispatcher cfg.location
              ++ ((nat_beq cfg.real_shelly.poll_interval_ms 0, bad_poll_interval)
                  ∷ server_checks is_socket_addr cfg))))
