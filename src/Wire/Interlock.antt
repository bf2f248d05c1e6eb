-- ===== src/Wire/Interlock.antt =====
-- The inverter never sees two powers at once, whatever the network does to the writes of
-- src/modbus.rs.
use shelly_multiplexer.Prelude.{ℕ, zero, suc, ◌≡◌, ◌⊎◌, List, [], ◌∷◌, arith}
use shelly_multiplexer.Setpoint.{Setpoint, standby, charge, discharge}
use shelly_multiplexer.Wire.{
  Line, Network, Action, write_setpoint_on, open_conn, write_setpoint_once, attempts,
  write_setpoint, init_writes, failsafe_shutdown,
}

-- At most one power setpoint is set, and none against the forced direction.
pub record IsInterlocked (regs : ℕ → ℕ) : Type 0 where
  pub one_power : (regs 42020 ≡ 0) ⊎ (regs 42021 ≡ 0)
  pub charging : regs 42010 ≡ 1 → regs 42021 ≡ 0
  pub discharging : regs 42010 ≡ 2 → regs 42020 ≡ 0

module _ (net : Network) where
  write_setpoint_on-IsInterlocked :
      (sp : Setpoint) (l : Line)
      → IsInterlocked l.regs
      → IsInterlocked (write_setpoint_on net sp l).1.regs
  unfolding write_setpoint_on
  write_setpoint_on-IsInterlocked standby l h = ground arith
  write_setpoint_on-IsInterlocked (charge watts) l h = ground arith
  write_setpoint_on-IsInterlocked (discharge watts) l h = ground arith

  write_setpoint_once-IsInterlocked :
      (sp : Setpoint) (l : Line)
      → IsInterlocked l.regs
      → IsInterlocked (write_setpoint_once net sp l).1.regs
  unfolding write_setpoint_once open_conn
  write_setpoint_once-IsInterlocked sp l h =
      ground (arith, write_setpoint_on-IsInterlocked sp (record l { sent = suc l.sent }) h)

  attempts-IsInterlocked :
      (sp : Setpoint) (left : ℕ) (l : Line)
      → IsInterlocked l.regs
      → IsInterlocked (attempts net sp left l).1.regs
  unfolding attempts
  attempts-IsInterlocked sp zero l h = h
  attempts-IsInterlocked sp (suc left) l h =
      let kept = write_setpoint_once-IsInterlocked sp l h in
      ground (arith, kept, attempts-IsInterlocked sp left (write_setpoint_once net sp l).1 kept)

-- The operations of the program on one inverter.
pub data Operation : Type 0 where
  init : Operation
  command : Setpoint → Operation
  retried : Setpoint → Operation
  shutdown : Operation

unfoldable pub operate : Network → Operation → Action
operate net init = init_writes net
operate net (command sp) = write_setpoint_on net sp
operate net (retried sp) = write_setpoint net sp
operate net shutdown = failsafe_shutdown net

operate-IsInterlocked :
    (net : Network) (op : Operation) (l : Line)
    → IsInterlocked l.regs
    → IsInterlocked (operate net op l).1.regs
unfolding operate init_writes failsafe_shutdown write_setpoint
operate-IsInterlocked net init l h = ground arith
operate-IsInterlocked net (command sp) l h = write_setpoint_on-IsInterlocked net sp l h
operate-IsInterlocked net (retried sp) l h = attempts-IsInterlocked net sp 3 l h
operate-IsInterlocked net shutdown l h = ground arith

unfoldable pub operate_all : Network → List Operation → Line → Line
operate_all net [] l = l
operate_all net (op ∷ ops) l = operate_all net ops (operate net op l).1

-- If no power is set against another or against the forced direction, then that stays so after
-- every series of initialisations, commands, retried commands and failsafe shutdowns, whatever the
-- network does to each write. As the network may fail at any write, this holds between two writes
-- of a sequence too.
pub operate_all-IsInterlocked :
    (net : Network) (ops : List Operation) (l : Line)
    → IsInterlocked l.regs
    → IsInterlocked (operate_all net ops l).regs
unfolding operate_all
operate_all-IsInterlocked net [] l h = h
operate_all-IsInterlocked net (op ∷ ops) l h =
    operate_all-IsInterlocked net ops (operate net op l).1 (operate-IsInterlocked net op l h)
