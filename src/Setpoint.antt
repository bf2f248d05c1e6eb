-- ===== src/Setpoint.antt =====
-- `Setpoint` of src/modbus.rs: the command for one battery, to and from signed watts.
pub mod Bounds
use shelly_multiplexer.Prelude.{ℕ, Bool, Option, none, some, if◌then◌else◌}
use shelly_multiplexer.Double.{Double, lt, le, abs, min, clamp, to_u16}
use shelly_multiplexer.Config.Constants.{marstek_min_w}

pub data Setpoint : Type 0 where
  standby : Setpoint
  charge : ℕ → Setpoint
  discharge : ℕ → Setpoint

module _ {W : Type 0} ⦃d : Double W⦄ where
  open d use {neg, nat}

  abbrev pub hard_max_w : W
  hard_max_w = nat 2500

  -- `none` is the panic of a clamp whose upper bound is below 50 W.
  unfoldable pub from_signed_watts : W → W → W → Option Setpoint
  from_signed_watts w max_charge max_discharge =
      if lt (abs w) marstek_min_w
      then some standby
      else if lt w (nat 0)
      then elim (clamp (neg w) marstek_min_w (min max_charge hard_max_w)) [
        | none ↦ none
        | some x ↦ some (charge (to_u16 x))
      ]
      else elim (clamp w marstek_min_w (min max_discharge hard_max_w)) [
        | none ↦ none
        | some x ↦ some (discharge (to_u16 x))
      ]

  unfoldable pub to_signed_watts : Setpoint → W
  to_signed_watts standby = nat 0
  to_signed_watts (charge watts) = neg (nat watts)
  to_signed_watts (discharge watts) = nat watts
