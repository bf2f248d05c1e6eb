-- ===== src/Writer/Writes/Failed.antt =====
-- What a failed write of the writer in src/modbus.rs leaves behind.
use mathlib.Core.Bool.{false≢true}
use shelly_multiplexer.Prelude.{
  ℕ, zero, suc, ◌≡◌, refl, sym, ap, ◌∙◌, Bool, false, some, arith, on_each, lookup,
  lookup-modify_same, string_key,
}
use shelly_multiplexer.Prelude.Text.{append_text}
use shelly_multiplexer.Double.{Double, IsOrdered, sub}
use shelly_multiplexer.State.{BatteryState, bump}
use shelly_multiplexer.Setpoint.{Setpoint, to_signed_watts}
use shelly_multiplexer.Writer.{
  Bus, Session, ensure_conn, drop_ctx, count, with_battery, record_error,
}
use shelly_multiplexer.Writer.Writes.{should_write, write_on, write_attempts, do_write}

module _ {W : Type 0} where
  pub record Leaves (s s' : Session W) : Type 0 where
    pub writer : s'.writer ≡ s.writer
    pub batteries : s'.app.batteries ≡ s.app.batteries

  Leaves-refl : (s : Session W) → Leaves s s
  Leaves-refl s = record { writer = refl; batteries = refl }

  Leaves-trans : {s s' s'' : Session W} → Leaves s s' → Leaves s' s'' → Leaves s s''
  Leaves-trans l l' = record {
    writer = l'.writer ∙ l.writer;
    batteries = l'.batteries ∙ l.batteries;
  }

  ensure_conn-Leaves : (bus : Bus) (s : Session W) → Leaves s (ensure_conn bus s).1
  unfolding ensure_conn
  ensure_conn-Leaves bus s =
      on_each (λ (r : Bool × Session W). Leaves s r.1) s.is_open (λ o. Leaves-refl s)
        (λ c. record { writer = refl; batteries = refl })

module _ {W : Type 0} ⦃d : Double W⦄ where
  open d use {nat}

  write_attempts_fail :
      (bus : Bus) (sp : Setpoint) (left : ℕ) (s : Session W)
      → (write_attempts bus sp left s).0 ≡ false
      → Leaves s (write_attempts bus sp left s).1
  unfolding write_attempts write_on drop_ctx
  write_attempts_fail bus sp zero s = λ e. Leaves-refl s
  write_attempts_fail bus sp (suc left) s =
      let conn = ensure_conn bus s in
      let write = write_on bus sp conn.1 in
      let Good : Bool × Session W → Type 0 = λ r. r.0 ≡ false → Leaves s r.1 in
      let opening = ensure_conn-Leaves bus s in
      on_each Good conn.0
        (λ opened.
          on_each Good write.0 (λ sent e. absurd (false≢true (sym e)))
            (λ unsent e.
              Leaves-trans (record { writer = opening.writer; batteries = opening.batteries })
                (write_attempts_fail bus sp left (record write.1 { is_open = false }) e)))
        (λ closed e.
          Leaves-trans (record { writer = opening.writer; batteries = opening.batteries })
            (write_attempts_fail bus sp left (record conn.1 { is_open = false }) e))

  -- The result of a failed write.
  abbrev pub Explained : Bus → Session W → Bool × Session W → Type 0
  Explained bus s (done, s') =
      done ≡ false
      → (s'.writer ≡ s.writer)
        × ((b' : BatteryState W)
            → lookup s'.writer.battery.id s'.app.batteries ≡ some b'
            → (b : BatteryState W) × (lookup s.writer.battery.id s.app.batteries ≡ some b)
              × (b'.last_modbus_setpoint_w ≡ b.last_modbus_setpoint_w)
              × (b'.last_modbus_write_error
                  ≡ some (append_text "write: " (bus.message s'.line.sent))))

  give_up : Bus → Session W → Session W
  unfolding count record_error
  give_up bus s =
      record_error (append_text "write: " (bus.message s.line.sent))
        (count (λ st. record st { outbound_writes_failed = bump st.outbound_writes_failed }) s)

  give_up-Explained :
      (bus : Bus) (s s' : Session W) → Leaves s s' → Explained bus s (false, give_up bus s')
  unfolding give_up count record_error with_battery
  give_up-Explained bus s s' left e = (
    left.writer,
    λ b' here.
        let (b, found, same) = lookup-modify_same s'.writer.battery.id _ s'.app.batteries b' here in
        (
          b,
          rw (left.writer, left.batteries) at found,
          ap (λ (x : BatteryState W). x.last_modbus_setpoint_w) same,
          ap (λ (x : BatteryState W). x.last_modbus_write_error) same,
        ),
  )

  -- A failed write leaves what the writer takes for its last command, and what the shared state shows
  -- of it, as they were before the write, whatever the attempts have done to the inverter; the shared
  -- state shows the error.
  pub do_write_fails :
      (bus : Bus) (sp : Setpoint) (s : Session W) → Explained bus s (do_write bus sp s)
  unfolding do_write give_up
  do_write_fails bus sp s =
      let start =
        count (λ st. record st { outbound_writes_total = bump st.outbound_writes_total }) s in
      let done = write_attempts bus sp 3 start in
      on_each (Explained bus s) done.0 (λ sent e. absurd (false≢true (sym e ∙ sent)))
        (λ failed.
          let l = write_attempts_fail bus sp 3 start failed in
          give_up-Explained bus s done.1 (record { writer = l.writer; batteries = l.batteries }))

  -- So a command that is taken back after its write has failed is not sent: where the writer's last
  -- command is `last`, a failed write of any other setpoint makes it leave `last` out as unchanged.
  pub failed_write_forgotten :
      IsOrdered W
      → (bus : Bus) (sp last : Setpoint) (s : Session W) → s.writer.last_written ≡ some last
      → (do_write bus sp s).0 ≡ false
      → should_write (do_write bus sp s).1.writer last ≡ false
  unfolding should_write
  failed_write_forgotten ordered bus sp last s known failed =
      let w : W = to_signed_watts last in
      let same : W = sub w w in
      rw (do_write_fails bus sp s failed).0 (
        ground (
          arith,
          known,
          ordered.sub_self w,
          ordered.above-neg same,
          ordered.below-neg same,
          ordered.below-nat 25,
          ordered.nat_lt 0 25,
        ))
