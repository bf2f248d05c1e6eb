-- ===== src/Writer/Writes/Commanded.antt =====
-- What a write of the writer in src/modbus.rs has done, when it succeeds and when it fails.
use shelly_multiplexer.Prelude.{
  ℕ, zero, suc, ◌≡◌, refl, sym, subst, ◌∙◌, Bool, true, none, some, arith, on_each, lookup,
  lookup-modify_same, string_key,
}
use mathlib.Core.Bool.{false≢true}
use shelly_multiplexer.Double.{Double}
use shelly_multiplexer.State.{BatteryState, bump}
use shelly_multiplexer.Setpoint.{Setpoint, to_signed_watts}
use shelly_multiplexer.Wire.Delivery.{Commands, write_setpoint_on-Commands}
use shelly_multiplexer.Writer.{
  Bus, Session, ensure_conn, drop_ctx, count, with_battery, record_success,
}
use shelly_multiplexer.Writer.Frames.{Keeps, read_soc_on_open-Keeps}
use shelly_multiplexer.Writer.Reads.{soc_poll_due}
use shelly_multiplexer.Writer.Writes.{write_on, written, write_attempts, do_write}

module _ {W : Type 0} ⦃d : Double W⦄ where
  -- The inverter's control is on and it does what the setpoint says.
  abbrev pub IsCommanded : Setpoint → Session W → Type 0
  IsCommanded sp s = (s.line.regs 42000 ≡ 21930) × Commands sp s.line.regs

  -- The writer takes `sp` for the last command, and the shared state shows it, without an error.
  pub record IsRecorded (sp : Setpoint) (s : Session W) : Type 0 where
    pub last : s.writer.last_written ≡ some sp
    pub shown :
        (b : BatteryState W)
        → lookup s.writer.battery.id s.app.batteries ≡ some b
        → (b.last_modbus_setpoint_w ≡ some (to_signed_watts sp))
          × (b.last_modbus_write_error ≡ none)

  record_success-IsRecorded :
      (bus : Bus) (sp : Setpoint) (s : Session W) → IsRecorded sp (record_success bus sp s)
  unfolding record_success with_battery
  record_success-IsRecorded bus sp s = record {
    last = refl;
    shown = λ b e. ground (arith, lookup-modify_same s.writer.battery.id _ s.app.batteries b e);
  }

  -- A session that keeps what a write has done is still commanded.
  Keeps-IsCommanded :
      (sp : Setpoint) {s s' : Session W} → Keeps s s' → IsCommanded sp s → IsCommanded sp s'
  Keeps-IsCommanded sp k c = subst (λ regs. (regs 42000 ≡ 21930) × Commands sp regs) (sym k.regs) c

  Keeps-IsRecorded :
      (sp : Setpoint) {s s' : Session W} → Keeps s s' → IsRecorded sp s → IsRecorded sp s'
  Keeps-IsRecorded sp k r = record {
    last = k.last ∙ r.last;
    shown = λ b' e.
        let (b, found, same) = k.shown b' e in
        let (setpoint, error) = r.shown b found in (same.setpoint ∙ setpoint, same.error ∙ error);
  }

  abbrev IsDone : Setpoint → Session W → Type 0
  IsDone sp s = IsCommanded sp s × IsRecorded sp s

  written-IsDone :
      (bus : Bus) (sp : Setpoint) (s : Session W) → IsCommanded sp s → IsDone sp (written bus sp s)
  unfolding written
  written-IsDone bus sp s c =
      let counted = count (λ st. record st { outbound_writes_ok = bump st.outbound_writes_ok }) s in
      let ok = record_success bus sp counted in
      let done : IsDone sp ok = (c, record_success-IsRecorded bus sp counted) in
      let kept = read_soc_on_open-Keeps bus ok in
      on_each (IsDone sp) (soc_poll_due ok.writer (bus.clock ok.line.sent))
        (λ due. (Keeps-IsCommanded sp kept done.0, Keeps-IsRecorded sp kept done.1))
        (λ not_due. done)

  write_attempts-IsDone :
      (bus : Bus) (sp : Setpoint) (left : ℕ) (s : Session W)
      → (write_attempts bus sp left s).0 ≡ true
      → IsDone sp (write_attempts bus sp left s).1
  unfolding write_attempts write_on
  write_attempts-IsDone bus sp zero s = λ e. absurd (false≢true e)
  write_attempts-IsDone bus sp (suc left) s =
      let conn = ensure_conn bus s in
      let write = write_on bus sp conn.1 in
      let Good : Bool × Session W → Type 0 = λ r. r.0 ≡ true → IsDone sp r.1 in
      on_each Good conn.0
        (λ opened.
          on_each Good write.0
            (λ sent e.
              written-IsDone bus sp write.1
                (write_setpoint_on-Commands bus.net sp conn.1.line sent))
            (λ unsent. write_attempts-IsDone bus sp left (drop_ctx write.1)))
        (λ closed. write_attempts-IsDone bus sp left (drop_ctx conn.1))

  -- If a write succeeds, the inverter's control is on, its mode is the setpoint's, the power of that
  -- direction is the setpoint's and the other is 0, the writer takes the setpoint for its last
  -- command, and the shared state of its battery shows the setpoint and no error. That holds also
  -- after the read of the state of charge that may follow on the same connection.
  pub do_write-IsCommanded :
      (bus : Bus) (sp : Setpoint) (s : Session W)
      → (do_write bus sp s).0 ≡ true
      → IsCommanded sp (do_write bus sp s).1 × IsRecorded sp (do_write bus sp s).1
  unfolding do_write
  do_write-IsCommanded bus sp s =
      let start =
        count (λ st. record st { outbound_writes_total = bump st.outbound_writes_total }) s in
      on_each (λ (r : Bool × Session W). r.0 ≡ true → IsDone sp r.1)
        (write_attempts bus sp 3 start).0 (λ done. write_attempts-IsDone bus sp 3 start)
        (λ failed e. absurd (false≢true e))
