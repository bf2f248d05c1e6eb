-- ===== src/Writer/Tasks/Settled.antt =====
-- The invariant of a writer of src/modbus.rs over all that its task does, in any order of events.
use shelly_multiplexer.Prelude.{
  ◌≡◌, sym, ◌∙◌, ap, Bool, not, ◌&&◌, some, List, [], ◌∷◌, on_each, lookup, string_key, is_some,
  inl, inr, Bool-cases,
}
use mathlib.Core.Option.{some-injective}
use shelly_multiplexer.Double.{Double}
use shelly_multiplexer.State.{BatteryState}
use shelly_multiplexer.Setpoint.{Setpoint, to_signed_watts}
use shelly_multiplexer.Wire.{Line}
use shelly_multiplexer.Writer.{Bus, BatteryWriter, Session, fast, slow, ensure_conn, drop_ctx}
use shelly_multiplexer.Writer.Frames.{
  Keeps, ensure_conn-Keeps, poll_soc_only-Keeps, tier_refresh-Keeps,
}
use shelly_multiplexer.Writer.Reads.{soc_poll_due, poll_soc_only}
use shelly_multiplexer.Writer.Writes.{should_write, write_on, do_write}
use shelly_multiplexer.Writer.Writes.Commanded.{do_write-IsCommanded}
use shelly_multiplexer.Writer.Writes.Failed.{do_write_fails}
use shelly_multiplexer.Writer.Tasks.{
  Event, shutdown, changed, sender_gone, soc_timer, fast_timer, slow_timer, shut_down, on_changed,
  on_event, event_loop,
}
use shelly_multiplexer.Writer.Tasks.Ledger.{
  IsBalanced, stats_of, ensure_conn-stats, poll_soc_only-stats, tier_refresh-IsBalanced,
  do_write-IsBalanced,
}

module _ {W : Type 0} ⦃d : Double W⦄ where
  -- The counters are balanced, and the shared state of the battery shows the setpoint that the writer
  -- takes for its last command.
  pub record IsSettled (s : Session W) : Type 0 where
    pub balanced : IsBalanced (stats_of s)
    pub shown :
        (sp : Setpoint) (b : BatteryState W)
        → s.writer.last_written ≡ some sp
        → lookup s.writer.battery.id s.app.batteries ≡ some b
        → b.last_modbus_setpoint_w ≡ some (to_signed_watts sp)

  Keeps-IsSettled :
      {s s' : Session W} → Keeps s s' → IsBalanced (stats_of s') → IsSettled s → IsSettled s'
  Keeps-IsSettled k balanced h = record {
    balanced = balanced;
    shown = λ sp b' last here.
        let (b, found, same) = k.shown b' here in
        same.setpoint ∙ h.shown sp b (sym k.last ∙ last) found;
  }

  do_write-IsSettled :
      (bus : Bus) (sp : Setpoint) (s : Session W) → IsSettled s → IsSettled (do_write bus sp s).1
  do_write-IsSettled bus sp s h =
      let done = do_write bus sp s in
      let balanced = do_write-IsBalanced bus sp s h.balanced in
      elim (Bool-cases done.0) [
        | inl ok ↦
            let (commanded, recorded) = do_write-IsCommanded bus sp s ok in
            record {
              balanced = balanced;
              shown = λ sp' b last here.
                  (recorded.shown b here).0
                  ∙ ap (λ (x : Setpoint). some (to_signed_watts x))
                      (some-injective _ _ (sym recorded.last ∙ last));
            }
        | inr failed ↦
            let (writer, shown) = do_write_fails bus sp s failed in
            record {
              balanced = balanced;
              shown = λ sp' b' last here.
                  let (b, found, same, error) = shown b' here in
                  same
                  ∙ h.shown sp' b (ap (λ (w : BatteryWriter W). w.last_written) (sym writer) ∙ last)
                      found;
            }
      ]

  on_changed-IsSettled :
      (bus : Bus) (desired : Setpoint) (s : Session W)
      → IsSettled s
      → IsSettled (on_changed bus desired s)
  unfolding on_changed
  on_changed-IsSettled bus desired s h =
      on_each IsSettled (should_write s.writer desired) (λ due. do_write-IsSettled bus desired s h)
        (λ same.
          on_each IsSettled
            (soc_poll_due s.writer (bus.clock s.line.sent)
              && not (is_some s.writer.fast_refresh_interval))
            (λ poll. polled bus s h) (λ idle. h))
    where
      polled : (bus : Bus) (s : Session W) → IsSettled s → IsSettled (poll_soc_only bus s).1
      polled bus s h =
          Keeps-IsSettled (poll_soc_only-Keeps bus s) (rw (poll_soc_only-stats bus s) h.balanced) h

  -- The connection and the inverter are not looked at.
  relined :
      (s : Session W) (is_open : Bool) (line : Line)
      → IsSettled s
      → IsSettled (record s { is_open = is_open; line = line })
  relined s is_open line h = record { balanced = h.balanced; shown = h.shown }

  shut_down-IsSettled : (bus : Bus) (s : Session W) → IsSettled s → IsSettled (shut_down bus s)
  unfolding shut_down write_on drop_ctx
  shut_down-IsSettled bus s h =
      let conn = ensure_conn bus s in
      let connected =
        Keeps-IsSettled (ensure_conn-Keeps bus s) (rw (ensure_conn-stats bus s) h.balanced) h in
      relined _ _ _
        (on_each IsSettled conn.0 (λ opened. relined conn.1 _ _ connected) (λ closed. connected))

  -- Whatever event comes, the writer's counters stay balanced, and the shared state goes on to show
  -- the setpoint that the writer takes for its last command.
  pub on_event-IsSettled :
      (bus : Bus) (e : Event) (s : Session W) → IsSettled s → IsSettled (on_event bus e s).1
  unfolding on_event
  on_event-IsSettled bus shutdown s h = shut_down-IsSettled bus s h
  on_event-IsSettled bus (changed desired) s h = on_changed-IsSettled bus desired s h
  on_event-IsSettled bus sender_gone s h = h
  on_event-IsSettled bus soc_timer s h =
      Keeps-IsSettled (poll_soc_only-Keeps bus s) (rw (poll_soc_only-stats bus s) h.balanced) h
  on_event-IsSettled bus fast_timer s h =
      Keeps-IsSettled (tier_refresh-Keeps bus fast s)
        (tier_refresh-IsBalanced bus fast s h.balanced) h
  on_event-IsSettled bus slow_timer s h =
      Keeps-IsSettled (tier_refresh-Keeps bus slow s)
        (tier_refresh-IsBalanced bus slow s h.balanced) h

  pub event_loop-IsSettled :
      (bus : Bus) (es : List Event) (s : Session W) → IsSettled s → IsSettled (event_loop bus es s)
  unfolding event_loop
  event_loop-IsSettled bus [] s h = h
  event_loop-IsSettled bus (e ∷ es) s h =
      let after = on_event-IsSettled bus e s h in
      on_each IsSettled (on_event bus e s).0
        (λ goes_on. event_loop-IsSettled bus es (on_event bus e s).1 after) (λ stops. after)
