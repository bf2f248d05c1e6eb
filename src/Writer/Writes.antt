-- ===== src/Writer/Writes.antt =====
-- How `BatteryWriter` of src/modbus.rs writes a setpoint: when it does at all, and with which retries.
pub mod Commanded
pub mod Skipped
pub mod Failed
use shelly_multiplexer.Prelude.{
  ℕ, zero, suc, ◌+◌, Bool, true, false, not, Option, none, some, String, if◌then◌else◌,
}
use shelly_multiplexer.Prelude.Text.{append_text}
use shelly_multiplexer.Double.{Double, le, sub, abs}
use shelly_multiplexer.Config.Constants.{write_deadband_w, modbus_write_retries}
use shelly_multiplexer.State.{ModbusStats, bump}
use shelly_multiplexer.Setpoint.{Setpoint, standby, charge, discharge, to_signed_watts}
use shelly_multiplexer.Wire.{Line, write_setpoint_on}
use shelly_multiplexer.Writer.{
  Bus, BatteryWriter, Session, time_of, drop_ctx, ensure_conn, count, record_success, record_error,
}
use shelly_multiplexer.Writer.Reads.{soc_poll_due, read_soc_on_open}

-- `std::mem::discriminant(&a) == std::mem::discriminant(&b)`
abbrev pub same_kind : Setpoint → Setpoint → Bool
same_kind standby standby = true
same_kind (charge a) (charge b) = true
same_kind (discharge a) (discharge b) = true
same_kind _ _ = false

module _ {W : Type 0} ⦃d : Double W⦄ where
  unfoldable pub should_write : BatteryWriter W → Setpoint → Bool
  should_write w desired = elim w.last_written [
    | none ↦ true
    | some last ↦
        if same_kind desired last
        then (let diff : W = abs (sub (to_signed_watts desired) (to_signed_watts last)) in
            le write_deadband_w diff)
        else true
  ]

  -- `write_setpoint_on` on the session's connection.
  unfoldable pub write_on : Bus → Setpoint → Session W → Bool × Session W
  write_on bus sp s = (
    (write_setpoint_on bus.net sp s.line).0,
    record s { line = (write_setpoint_on bus.net sp s.line).1 },
  )

  -- After a successful write: the counters, the record, and the piggybacked read if it is due.
  unfoldable pub written : Bus → Setpoint → Session W → Session W
  unfolding count record_success
  written bus sp s =
      let ok =
        record_success bus sp
          (count (λ st. record st { outbound_writes_ok = bump st.outbound_writes_ok }) s) in
      if soc_poll_due ok.writer (time_of bus ok) then (read_soc_on_open bus ok).1 else ok

  -- `for attempt in 1..=max_attempts`, with `left` attempts to go.
  unfoldable pub write_attempts : Bus → Setpoint → ℕ → Session W → Bool × Session W
  unfolding ensure_conn write_on written drop_ctx
  write_attempts bus sp zero s = (false, s)
  write_attempts bus sp (suc left) s =
      let conn = ensure_conn bus s in
      let write = write_on bus sp conn.1 in
      let no_conn = write_attempts bus sp left (drop_ctx conn.1) in
      let no_write = write_attempts bus sp left (drop_ctx write.1) in
      if conn.0 then if write.0 then (true, written bus sp write.1) else no_write else no_conn

  unfoldable pub do_write : Bus → Setpoint → Session W → Bool × Session W
  unfolding count write_attempts record_error
  do_write bus sp s =
      let done =
        write_attempts bus sp (modbus_write_retries + 1)
          (count (λ st. record st { outbound_writes_total = bump st.outbound_writes_total }) s) in
      if done.0 then done else (
        false,
        record_error (append_text "write: " (bus.message done.1.line.sent)) (
            count (λ st. record st { outbound_writes_failed = bump st.outbound_writes_failed })
              done.1),
      )
