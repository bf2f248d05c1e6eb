-- ===== src/Wire.antt =====
-- The register writes of src/modbus.rs on one inverter: the set-up, the setpoint sequence with its
-- retries, and the failsafe. The connection is tokio-modbus's, so what becomes of each write and of
-- each connection attempt is a parameter: the inverter may apply a write and the reply may be lost.

pub mod Interlock
pub mod Delivery
use shelly_multiplexer.Prelude.{
  ℕ, zero, suc, ◌+◌, Bool, true, false, Option, none, some, List, [], ◌∷◌, if◌then◌else◌, nat_beq,
}
use shelly_multiplexer.Config.Constants.{modbus_write_retries}
use shelly_multiplexer.Setpoint.{Setpoint, standby, charge, discharge}

abbrev pub reg_rs485_control_mode : ℕ
reg_rs485_control_mode = 42000

abbrev pub rs485_ctrl_on : ℕ
rs485_ctrl_on = 21930

abbrev pub rs485_ctrl_off : ℕ
rs485_ctrl_off = 21947

abbrev pub reg_force_mode : ℕ
reg_force_mode = 42010

abbrev pub reg_charge_power_setpoint : ℕ
reg_charge_power_setpoint = 42020

abbrev pub reg_discharge_power_setpoint : ℕ
reg_discharge_power_setpoint = 42021

-- What becomes of a write: acknowledged, applied with its reply lost or late, or not applied.
pub data Fate : Type 0 where
  acknowledged unconfirmed dropped : Fate

-- The inverter's registers, and how many operations were sent: the environment is asked for the
-- fate of each by its number.
pub record Line : Type 0 where
  pub regs : ℕ → ℕ
  pub sent : ℕ

-- What the inverter and the network do: the fate of each write, and whether each connection opens.
pub record Network : Type 0 where
  pub fate : ℕ → Fate
  pub opens : ℕ → Bool

abbrev pub store : (ℕ → ℕ) → ℕ → ℕ → ℕ → ℕ
store regs register value r = if nat_beq r register then value else regs r

-- A step of a sequence: `false` is the error that ends it, and the line is as it was left.
abbrev pub Action : Type 0
Action = Line → Bool × Line

-- The `?` operator: the next step only if the last one succeeded.
abbrev pub go_on : Bool × Line → Action → Bool × Line
go_on (true, l) k = k l
go_on (false, l) k = (false, l)

infixl 5 ◌>>◌
abbrev pub ◌>>◌ : Action → Action → Action
◌>>◌ m k l = go_on (m l) k

abbrev applied : Fate → Bool
applied dropped = false
applied _ = true

abbrev replied : Fate → Bool
replied acknowledged = true
replied _ = false

module _ (net : Network) where
  unfoldable pub write_reg : ℕ → ℕ → Action
  write_reg register value l =
      let fate = net.fate l.sent in
      (
        replied fate,
        record {
          regs = if applied fate then store l.regs register value else l.regs;
          sent = suc l.sent;
        },
      )

  -- The steps after the set-up, by the setpoint.
  setpoint_steps : Setpoint → Action
  unfolding write_reg
  setpoint_steps standby =
      write_reg reg_charge_power_setpoint 0
      >> write_reg reg_discharge_power_setpoint 0
      >> write_reg reg_force_mode 0
  setpoint_steps (charge watts) =
      write_reg reg_discharge_power_setpoint 0
      >> write_reg reg_force_mode 1
      >> write_reg reg_charge_power_setpoint watts
  setpoint_steps (discharge watts) =
      write_reg reg_charge_power_setpoint 0
      >> write_reg reg_force_mode 2
      >> write_reg reg_discharge_power_setpoint watts

  unfoldable pub write_setpoint_on : Setpoint → Action
  unfolding setpoint_steps write_reg
  write_setpoint_on sp = write_reg reg_rs485_control_mode rs485_ctrl_on >> setpoint_steps sp

  -- A connection attempt.
  unfoldable pub open_conn : Action
  open_conn l = (net.opens l.sent, record l { sent = suc l.sent })

  unfoldable pub write_setpoint_once : Setpoint → Action
  unfolding open_conn write_setpoint_on
  write_setpoint_once sp = open_conn >> write_setpoint_on sp

  -- `for attempt in 1..=max_attempts`, with `left` attempts to go.
  unfoldable pub attempts : Setpoint → ℕ → Action
  attempts sp zero l = (false, l)
  attempts sp (suc left) l =
      let first = write_setpoint_once sp l in
      let again = attempts sp left first.1 in if first.0 then first else again

  unfoldable pub write_setpoint : Setpoint → Action
  unfolding attempts
  write_setpoint sp = attempts sp (modbus_write_retries + 1)

  -- The two writes of `init_dispatch_on`, before it reads the cutoffs.
  unfoldable pub init_writes : Action
  unfolding write_reg
  init_writes = write_reg reg_rs485_control_mode rs485_ctrl_on >> write_reg reg_force_mode 0

  unfoldable pub failsafe_shutdown : Action
  unfolding open_conn write_reg
  failsafe_shutdown =
      open_conn >> write_reg reg_force_mode 0 >> write_reg reg_rs485_control_mode rs485_ctrl_off
