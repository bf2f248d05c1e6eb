-- ===== src/Config/Validate/Limits.antt =====
-- What a valid configuration of src/config.rs promises of the batteries' limits.
use shelly_multiplexer.Prelude.{
  ℕ, ◌≡◌, refl, Bool, none, List, [], ◌∷◌, ◌++◌, String, arith, All, unwrap_or, nat_beq,
}
use shelly_multiplexer.Double.{Double}
use shelly_multiplexer.Config.Types.{Config, BatteryConfig, IpAddr}
use shelly_multiplexer.Config.Validate.{
  Checks, first_error, charge_taper_checks, discharge_taper_checks, battery_checks,
  batteries_checks, cap_check, identity_checks, soc_checks, validate, circuit_checks,
  dispatcher_checks, server_checks, modbus_checks, bad_poll_interval,
}
use shelly_multiplexer.State.Startup.{battery_from_config}
use shelly_multiplexer.Dispatcher.Bounds.{IsRated, IsBelow}

first_error-append :
    (xs ys : Checks)
    → first_error (xs ++ ys) ≡ none
    → (first_error xs ≡ none) × (first_error ys ≡ none)
unfolding first_error
first_error-append [] ys h = (refl, h)
first_error-append ((test, error) ∷ xs) ys h = ground (arith, first_error-append xs ys, h)

module _ {W : Type 0} ⦃d : Double W⦄ where
  open d use {nat}

  charge_taper-IsBelow :
      (b : BatteryConfig W) (full empty : W)
      → first_error (charge_taper_checks b full empty) ≡ none
      → IsBelow b.charge_taper_w b.max_charge_w
  unfolding first_error charge_taper_checks
  charge_taper-IsBelow b full empty h = ground (arith, h)

  discharge_taper-IsBelow :
      (b : BatteryConfig W) (full empty : W)
      → first_error (discharge_taper_checks b full empty) ≡ none
      → IsBelow b.discharge_taper_w b.max_discharge_w
  unfolding first_error discharge_taper_checks
  discharge_taper-IsBelow b full empty h = ground (arith, h)

  battery_checks-IsRated :
      (cfg : Config W) (ids : List String) (addrs : List IpAddr) (b : BatteryConfig W)
      → first_error (battery_checks cfg ids addrs b) ≡ none
      → (ha_enabled : Bool) (index : ℕ) → IsRated (battery_from_config b ha_enabled index)
  unfolding first_error battery_checks identity_checks cap_check battery_from_config
  battery_checks-IsRated cfg ids addrs b h ha_enabled index =
      let full = unwrap_or b.soc_full_pct cfg.dispatcher.soc_full_pct in
      let empty = unwrap_or b.soc_empty_pct cfg.dispatcher.soc_empty_pct in
      let last = discharge_taper_checks b full empty ++ modbus_checks b in
      let tapers = charge_taper_checks b full empty ++ last in
      let (limits, rest) =
        first_error-append (identity_checks cfg ids addrs b) (soc_checks b ++ tapers) h in
      let (_, rest2) = first_error-append (soc_checks b) tapers rest in
      let (charge, rest3) = first_error-append (charge_taper_checks b full empty) last rest2 in
      let (discharge, _) =
        first_error-append (discharge_taper_checks b full empty) (modbus_checks b) rest3 in
      ground (
        arith,
        limits,
        charge_taper-IsBelow b full empty charge,
        discharge_taper-IsBelow b full empty discharge,
      )

  batteries_checks-AreRated :
      (cfg : Config W) (ids : List String) (addrs : List IpAddr) (bs : List (BatteryConfig W))
      → first_error (batteries_checks cfg ids addrs bs) ≡ none
      → All
          (λ b. (ha_enabled : Bool) (index : ℕ) → IsRated (battery_from_config b ha_enabled index))
          bs
  unfolding batteries_checks
  batteries_checks-AreRated cfg ids addrs [] h = tt
  batteries_checks-AreRated cfg ids addrs (b ∷ bs) h =
      let (here, there) =
        first_error-append (battery_checks cfg ids addrs b)
          (batteries_checks cfg (b.id ∷ ids) (b.address ∷ addrs) bs) h in
      (
        battery_checks-IsRated cfg ids addrs b here,
        batteries_checks-AreRated cfg (b.id ∷ ids) (b.address ∷ addrs) bs there,
      )

  -- Every battery of a valid configuration is rated at startup: its limits are not below zero, and a
  -- tapered limit is no higher than the hardware's.
  pub validate-AreRated :
      (is_socket_addr : String → Bool) (cfg : Config W)
      → validate is_socket_addr cfg ≡ none
      → All
          (λ b. (ha_enabled : Bool) (index : ℕ) → IsRated (battery_from_config b ha_enabled index))
          cfg.batteries
  unfolding validate
  validate-AreRated is_socket_addr cfg h =
      let last : Checks =
        dispatcher_checks cfg.dispatcher cfg.location
        ++ ((nat_beq cfg.real_shelly.poll_interval_ms 0, bad_poll_interval)
            ∷ server_checks is_socket_addr cfg) in
      let all = batteries_checks cfg [] [] cfg.batteries in
      let (_, rest) = first_error-append (circuit_checks [] cfg.circuits) (all ++ last) h in
      let (batteries, _) = first_error-append all last rest in
      batteries_checks-AreRated cfg [] [] cfg.batteries batteries
