-- ===== src/Wire/Delivery.antt =====
-- What a successful command of src/modbus.rs has done, and when it succeeds.
use shelly_multiplexer.Prelude.{
  ℕ, zero, suc, ◌-◌, ◌<◌, ◌≡◌, ◌≢◌, ◌⊎◌, inl, inr, true, false, arith, Bool-cases,
}
use shelly_multiplexer.Setpoint.{Setpoint, standby, charge, discharge}
use shelly_multiplexer.Wire.{
  Line, Network, acknowledged, write_setpoint_on, open_conn, write_setpoint_once, attempts,
  write_setpoint,
}

-- What the inverter is to do after a successful command.
abbrev pub Commands : Setpoint → (ℕ → ℕ) → Type 0
Commands standby regs = (regs 42010 ≡ 0) × (regs 42020 ≡ 0) × (regs 42021 ≡ 0)
Commands (charge watts) regs = (regs 42010 ≡ 1) × (regs 42020 ≡ watts) × (regs 42021 ≡ 0)
Commands (discharge watts) regs = (regs 42010 ≡ 2) × (regs 42020 ≡ 0) × (regs 42021 ≡ watts)

module _ (net : Network) where
  pub write_setpoint_on-Commands :
      (sp : Setpoint) (l : Line)
      → (write_setpoint_on net sp l).0 ≡ true
      → let regs = (write_setpoint_on net sp l).1.regs in (regs 42000 ≡ 21930) × Commands sp regs
  unfolding write_setpoint_on
  write_setpoint_on-Commands standby l e = ground arith
  write_setpoint_on-Commands (charge watts) l e = ground arith
  write_setpoint_on-Commands (discharge watts) l e = ground arith

  write_setpoint_once-Commands :
      (sp : Setpoint) (l : Line)
      → (write_setpoint_once net sp l).0 ≡ true
      → let regs = (write_setpoint_once net sp l).1.regs in (regs 42000 ≡ 21930) × Commands sp regs
  unfolding write_setpoint_once open_conn
  write_setpoint_once-Commands standby l e =
      ground (arith, write_setpoint_on-Commands standby (record l { sent = suc l.sent }))
  write_setpoint_once-Commands (charge w) l e =
      ground (arith, write_setpoint_on-Commands (charge w) (record l { sent = suc l.sent }))
  write_setpoint_once-Commands (discharge w) l e =
      ground (arith, write_setpoint_on-Commands (discharge w) (record l { sent = suc l.sent }))

  attempts-Commands :
      (sp : Setpoint) (left : ℕ) (l : Line)
      → (attempts net sp left l).0 ≡ true
      → let regs = (attempts net sp left l).1.regs in (regs 42000 ≡ 21930) × Commands sp regs
  unfolding attempts
  attempts-Commands sp zero l e = cc
  attempts-Commands sp (suc left) l e = elim (Bool-cases (write_setpoint_once net sp l).0) [
    | inl done ↦ rw done (write_setpoint_once-Commands sp l done)
    | inr failed ↦
        rw failed (attempts-Commands sp left (write_setpoint_once net sp l).1 (rw failed at e))
  ]

  -- If `write_setpoint` returns `Ok`, the inverter's control is on, its mode is the setpoint's, the
  -- power of that direction is the setpoint's, and the other power is 0.
  pub write_setpoint-Commands :
      (sp : Setpoint) (l : Line)
      → (write_setpoint net sp l).0 ≡ true
      → let regs = (write_setpoint net sp l).1.regs in (regs 42000 ≡ 21930) × Commands sp regs
  unfolding write_setpoint
  write_setpoint-Commands sp l e = attempts-Commands sp 3 l e

  -- The operation number `n` fails: it does not connect, or its reply does not come.
  abbrev pub IsBad : ℕ → Type 0
  IsBad n = (net.opens n ≡ false) ⊎ (net.fate n ≢ acknowledged)

  -- A failed attempt fails at its last operation.
  write_setpoint_once_fails :
      (sp : Setpoint) (l : Line)
      → (write_setpoint_once net sp l).0 ≡ false
      → let next = (write_setpoint_once net sp l).1.sent in (l.sent < next) × IsBad (next - 1)
  unfolding write_setpoint_once open_conn write_setpoint_on
  write_setpoint_once_fails standby l e = ground arith
  write_setpoint_once_fails (charge w) l e = ground arith
  write_setpoint_once_fails (discharge w) l e = ground arith

  attempts_fail :
      (sp : Setpoint) (left : ℕ) (l : Line)
      → (attempts net sp (suc left) l).0 ≡ false
      → let next = (write_setpoint_once net sp l).1 in
        ((write_setpoint_once net sp l).0 ≡ false) × ((attempts net sp left next).0 ≡ false)
  unfolding attempts
  attempts_fail sp left l e = ground arith

  -- If at most two operations of the network ever fail, then `write_setpoint` returns `Ok`, from
  -- whatever state and operation number it starts: it has two retries.
  pub write_setpoint_delivers :
      (sp : Setpoint) (l : Line) (i j : ℕ)
      → ((n : ℕ) → IsBad n → (n ≡ i) ⊎ (n ≡ j))
      → (write_setpoint net sp l).0 ≡ true
  unfolding write_setpoint
  write_setpoint_delivers sp l i j only = elim (Bool-cases (attempts net sp 3 l).0) [
    | inl done ↦ done
    | inr failed ↦
        let l2 = (write_setpoint_once net sp l).1 in
        let l3 = (write_setpoint_once net sp l2).1 in
        let l4 = (write_setpoint_once net sp l3).1 in
        let (f1, r2) = attempts_fail sp 2 l failed in
        let (f2, r3) = attempts_fail sp 1 l2 r2 in
        let (f3, r4) = attempts_fail sp 0 l3 r3 in
        let (s1, b1) = write_setpoint_once_fails sp l f1 in
        let (s2, b2) = write_setpoint_once_fails sp l2 f2 in
        let (s3, b3) = write_setpoint_once_fails sp l3 f3 in
        absurd (omega (arith, only (l2.sent - 1) b1, only (l3.sent - 1) b2, only (l4.sent - 1) b3))
  ]
