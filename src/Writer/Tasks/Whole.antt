-- ===== src/Writer/Tasks/Whole.antt =====
-- The whole task of a writer in src/modbus.rs, from its configuration on.
use shelly_multiplexer.Prelude.{
  ℕ, zero, suc, ◌≡◌, refl, sym, ◌∙◌, ap, Bool, false, some, List, String, arith, on_each, on_option,
  lookup-modify_same, string_key,
}
use mathlib.Core.Option.{some-injective}
use shelly_multiplexer.Double.{Double}
use shelly_multiplexer.Config.Types.{VirtualModbusConfig, BatteryConfig}
use shelly_multiplexer.State.{AppState, BatteryState}
use shelly_multiplexer.Setpoint.{Setpoint, standby, to_signed_watts}
use shelly_multiplexer.Wire.{Line}
use shelly_multiplexer.Writer.{
  Bus, BatteryWriter, Session, ensure_conn, drop_ctx, with_battery, record_success, record_error,
  read_holding_on,
}
use shelly_multiplexer.Writer.Init.{
  BmsCutoffs, read_bms_cutoffs, init_dispatch_on, record_bms_cutoffs, init_attempt, init_loop,
}
use shelly_multiplexer.Writer.Tasks.{Event, run_writer, writer_from_config}
use shelly_multiplexer.Writer.Tasks.Ledger.{IsBalanced}
use shelly_multiplexer.Writer.Tasks.Settled.{IsSettled, event_loop-IsSettled}

module _ {W : Type 0} ⦃d : Double W⦄ where
  recorded :
      (bus : Bus) (sp : Setpoint) (s : Session W)
      → IsSettled s
      → IsSettled (record_success bus sp s)
  unfolding record_success with_battery
  recorded bus sp s h = record {
    balanced = h.balanced;
    shown = λ sp' b last here.
        let (old, found, same) = lookup-modify_same s.writer.battery.id _ s.app.batteries b here in
        ap (λ (x : BatteryState W). x.last_modbus_setpoint_w) same
        ∙ ap (λ (x : Setpoint). some (to_signed_watts x)) (some-injective _ _ last);
  }

  -- A change of the battery that leaves what is shown of the last command.
  changed_battery :
      (f : BatteryState W → BatteryState W) (s : Session W)
      → ((b : BatteryState W) → (f b).last_modbus_setpoint_w ≡ b.last_modbus_setpoint_w)
      → IsSettled s
      → IsSettled (with_battery f s)
  unfolding with_battery
  changed_battery f s keeps h = record {
    balanced = h.balanced;
    shown = λ sp b last here.
        let (old, found, same) = lookup-modify_same s.writer.battery.id f s.app.batteries b here in
        ap (λ (x : BatteryState W). x.last_modbus_setpoint_w) same
        ∙ keeps old
        ∙ h.shown sp old last found;
  }

  -- What is neither the connection nor the inverter is the same.
  record SameApp (s s' : Session W) : Type 0 where
    app : s'.app ≡ s.app
    writer : s'.writer ≡ s.writer

  SameApp-IsSettled : {s s' : Session W} → SameApp s s' → IsSettled s → IsSettled s'
  SameApp-IsSettled same h = record {
    balanced = rw same.app h.balanced;
    shown = λ sp b last here.
        h.shown sp b (ap (λ (w : BatteryWriter W). w.last_written) (sym same.writer) ∙ last)
          (rw (same.app, same.writer) at here);
  }

  ensure_conn-SameApp : (bus : Bus) (s : Session W) → SameApp s (ensure_conn bus s).1
  unfolding ensure_conn
  ensure_conn-SameApp bus s = record { app = ground arith; writer = ground arith }

  init_dispatch_on-SameApp : (bus : Bus) (s : Session W) → SameApp s (init_dispatch_on bus s).1
  unfolding init_dispatch_on read_bms_cutoffs read_holding_on
  init_dispatch_on-SameApp bus s = record { app = ground arith; writer = ground arith }

  failed_init : (msg : String) (s : Session W) → IsSettled s → IsSettled (record_error msg s)
  unfolding record_error
  failed_init msg s h = changed_battery _ s (λ b. refl) h

  dropped : (s : Session W) → IsSettled s → IsSettled (drop_ctx s)
  unfolding drop_ctx
  dropped s h = record { balanced = h.balanced; shown = h.shown }

  with_cutoffs :
      (cutoffs : BmsCutoffs W) (s : Session W)
      → IsSettled s
      → IsSettled (record_bms_cutoffs cutoffs s)
  unfolding record_bms_cutoffs
  with_cutoffs cutoffs s h = changed_battery _ s (λ b. refl) h

  init_attempt-IsSettled :
      (bus : Bus) (s : Session W) → IsSettled s → IsSettled (init_attempt bus s).1
  unfolding init_attempt
  init_attempt-IsSettled bus s h =
      let conn = ensure_conn bus s in
      let init = init_dispatch_on bus conn.1 in
      let opened = SameApp-IsSettled (ensure_conn-SameApp bus s) h in
      let tried = SameApp-IsSettled (init_dispatch_on-SameApp bus conn.1) opened in
      on_each (λ (r : Bool × Session W). IsSettled r.1) conn.0
        (λ is_open.
          on_option (λ (r : Bool × Session W). IsSettled r.1) init.0
            (dropped (record_error _ init.1) (failed_init _ init.1 tried))
            (λ cutoffs. with_cutoffs cutoffs _ (recorded bus standby init.1 tried)))
        (λ is_closed. failed_init _ conn.1 opened)

  init_loop-IsSettled :
      (bus : Bus) (rounds : ℕ) (s : Session W) → IsSettled s → IsSettled (init_loop bus rounds s).1
  unfolding init_loop
  init_loop-IsSettled bus zero s h = h
  init_loop-IsSettled bus (suc rounds) s h =
      let first = init_attempt-IsSettled bus s h in
      on_each (λ (r : Bool × Session W). IsSettled r.1) (init_attempt bus s).0 (λ done. first)
        (λ failed. init_loop-IsSettled bus rounds (init_attempt bus s).1 first)

  -- A writer that has been spawned from a configuration, with balanced counters, keeps them balanced
  -- through its init loop and every sequence of events, and at its end the shared state shows the
  -- setpoint that the writer takes for its last command.
  pub run_writer-IsSettled :
      (bus : Bus) (vm : VirtualModbusConfig) (cfg : BatteryConfig W) (app : AppState W)
      (line : Line) (rounds : ℕ) (es : List Event)
      → IsBalanced app.modbus_stats
      → IsSettled (
          run_writer bus rounds es (record {
            app = app;
            writer = writer_from_config vm cfg;
            is_open = false;
            line = line;
          }))
  unfolding run_writer writer_from_config
  run_writer-IsSettled bus vm cfg app line rounds es balanced =
      let start : Session W = record {
        app = app;
        writer = writer_from_config vm cfg;
        is_open = false;
        line = line;
      } in
      let init = init_loop bus rounds start in
      let settled =
        init_loop-IsSettled bus rounds start
          (record { balanced = balanced; shown = λ sp b last here. ground arith }) in
      on_each IsSettled init.0 (λ done. event_loop-IsSettled bus es init.1 settled)
        (λ not_yet. settled)
