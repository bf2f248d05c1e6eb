-- ===== src/Writer/Frames.antt =====
-- What the reads of the writer in src/modbus.rs change and what they leave alone.
use shelly_multiplexer.Prelude.{
  ℕ, suc, ◌≡◌, refl, sym, subst, ◌∙◌, Bool, false, some, List, [], ◌∷◌, arith, on_each, lookup,
  lookup-modify_same, string_key, is_nil,
}
use shelly_multiplexer.Double.{Double}
use shelly_multiplexer.Config.Registers.{MarstekModel}
use shelly_multiplexer.State.{BatteryState}
use shelly_multiplexer.Wire.{Line, open_conn}
use shelly_multiplexer.Writer.{
  Bus, BatteryWriter, Session, Tier, fast, slow, ensure_conn, drop_ctx, count, with_battery,
  read_holding_on,
}
use shelly_multiplexer.Writer.Reads.{store_readings, read_soc_on_open, poll_soc_only}
use shelly_multiplexer.Writer.Reads.Refresh.{
  Sweep, read_register, sweep, tier_refresh, store_tier, refreshed_at, tier_registers,
}

module _ {W : Type 0} where
  -- What is shown of the commands: the last one and the last error.
  pub record SameShown (b b' : BatteryState W) : Type 0 where
    pub setpoint : b'.last_modbus_setpoint_w ≡ b.last_modbus_setpoint_w
    pub error : b'.last_modbus_write_error ≡ b.last_modbus_write_error

  pub record Keeps (s s' : Session W) : Type 0 where
    pub last : s'.writer.last_written ≡ s.writer.last_written
    pub battery : s'.writer.battery ≡ s.writer.battery
    pub regs : s'.line.regs ≡ s.line.regs
    pub shown :
        (b' : BatteryState W)
        → lookup s'.writer.battery.id s'.app.batteries ≡ some b'
        → (b : BatteryState W) × (lookup s.writer.battery.id s.app.batteries ≡ some b)
          × SameShown b b'
    pub total : s'.app.modbus_stats.outbound_writes_total ≡ s.app.modbus_stats.outbound_writes_total
    pub ok : s'.app.modbus_stats.outbound_writes_ok ≡ s.app.modbus_stats.outbound_writes_ok
    pub failed :
        s'.app.modbus_stats.outbound_writes_failed ≡ s.app.modbus_stats.outbound_writes_failed

  pub Keeps-refl : (s : Session W) → Keeps s s
  Keeps-refl s = record {
    last = refl;
    battery = refl;
    regs = refl;
    shown = λ b e. (b, e, record { setpoint = refl; error = refl });
    total = refl;
    ok = refl;
    failed = refl;
  }

  pub Keeps-trans : {s s' s'' : Session W} → Keeps s s' → Keeps s' s'' → Keeps s s''
  Keeps-trans k k' = record {
    last = k'.last ∙ k.last;
    battery = k'.battery ∙ k.battery;
    regs = k'.regs ∙ k.regs;
    shown = λ b e.
        let (b1, e1, same1) = k'.shown b e in
        let (b0, e0, same0) = k.shown b1 e1 in
        (
          b0,
          e0,
          record { setpoint = same1.setpoint ∙ same0.setpoint; error = same1.error ∙ same0.error },
        );
    total = k'.total ∙ k.total;
    ok = k'.ok ∙ k.ok;
    failed = k'.failed ∙ k.failed;
  }

  -- What a command can be seen by is where it was.
  unmoved :
      (s s' : Session W)
      → s'.writer.last_written ≡ s.writer.last_written
      → s'.writer.battery ≡ s.writer.battery
      → s'.line.regs ≡ s.line.regs
      → s'.app.batteries ≡ s.app.batteries
      → s'.app.modbus_stats.outbound_writes_total ≡ s.app.modbus_stats.outbound_writes_total
      → s'.app.modbus_stats.outbound_writes_ok ≡ s.app.modbus_stats.outbound_writes_ok
      → s'.app.modbus_stats.outbound_writes_failed ≡ s.app.modbus_stats.outbound_writes_failed
      → Keeps s s'
  unmoved s s' last battery regs batteries total ok failed = record {
    last = last;
    battery = battery;
    regs = regs;
    shown = λ b e. (b, rw (battery, batteries) at e, record { setpoint = refl; error = refl });
    total = total;
    ok = ok;
    failed = failed;
  }

  pub drop_ctx-Keeps : (s : Session W) → Keeps s (drop_ctx s)
  unfolding drop_ctx
  drop_ctx-Keeps s = unmoved s (drop_ctx s) refl refl refl refl refl refl refl

  pub ensure_conn-Keeps : (bus : Bus) (s : Session W) → Keeps s (ensure_conn bus s).1
  unfolding ensure_conn open_conn
  ensure_conn-Keeps bus s =
      on_each (λ (r : Bool × Session W). Keeps s r.1) s.is_open (λ o. Keeps-refl s)
        (λ c. unmoved s _ refl refl refl refl refl refl refl)

  pub with_battery-Keeps :
      (f : BatteryState W → BatteryState W) (s : Session W)
      → ((b : BatteryState W) → SameShown b (f b))
      → Keeps s (with_battery f s)
  unfolding with_battery
  with_battery-Keeps f s same = record {
    last = refl;
    battery = refl;
    regs = refl;
    total = refl;
    ok = refl;
    failed = refl;
    shown = λ b e.
        let (old, found, changed) = lookup-modify_same s.writer.battery.id f s.app.batteries b e in
        (old, found, subst (λ b. SameShown old b) (sym changed) (same old));
  }

  -- One read of a refresh.
  read_register-Keeps :
      (bus : Bus) (reg : ℕ) (w : Sweep W) → Keeps w.session (read_register bus reg w).session
  unfolding read_register count read_holding_on drop_ctx
  read_register-Keeps bus reg w =
      unmoved w.session (read_register bus reg w).session (ground arith) (ground arith)
        (ground arith) (ground arith) (ground arith) (ground arith) (ground arith)

  sweep-Keeps :
      (bus : Bus) (regs : List ℕ) (w : Sweep W) → Keeps w.session (sweep bus regs w).session
  unfolding sweep
  sweep-Keeps bus [] w = Keeps-refl w.session
  sweep-Keeps bus (reg ∷ regs) w =
      let conn = ensure_conn bus w.session in
      let start : Sweep W = record w { session = conn.1 } in
      let next = read_register bus reg start in
      let first : Keeps w.session next.session =
        Keeps-trans (ensure_conn-Keeps bus w.session) (read_register-Keeps bus reg start) in
      on_each (λ (r : Sweep W). Keeps w.session r.session) conn.0
        (λ opened.
          on_each (λ (r : Sweep W). Keeps w.session r.session) next.connection_dead (λ dead. first)
            (λ alive. Keeps-trans first (sweep-Keeps bus regs next)))
        (λ closed. ensure_conn-Keeps bus w.session)

  pub refreshed_at-keeps :
      (tier : Tier) (now : ℕ) (w : BatteryWriter W)
      → ((refreshed_at tier now w).last_written ≡ w.last_written)
        × ((refreshed_at tier now w).battery ≡ w.battery)
  unfolding refreshed_at
  refreshed_at-keeps fast now w = (refl, refl)
  refreshed_at-keeps slow now w = (refl, refl)

  -- What the writer keeps of the times of its reads.
  retimed :
      (s : Session W) (writer : BatteryWriter W) (line : Line)
      → writer.last_written ≡ s.writer.last_written
      → writer.battery ≡ s.writer.battery
      → line.regs ≡ s.line.regs
      → Keeps s (record s { writer = writer; line = line })
  retimed s writer line last battery regs = unmoved s _ last battery regs refl refl refl refl

module _ {W : Type 0} ⦃d : Double W⦄ where
  pub read_soc_on_open-Keeps : (bus : Bus) (s : Session W) → Keeps s (read_soc_on_open bus s).1
  unfolding read_soc_on_open read_holding_on
  read_soc_on_open-Keeps bus s =
      let conn = ensure_conn bus s in
      let now = bus.clock (suc (suc conn.1.line.sent)) in
      let read = record conn.1.line { sent = suc (suc conn.1.line.sent) } in
      let writer = record conn.1.writer { last_soc_read_at = some now } in
      let timed : Session W = record conn.1 { writer = writer; line = read } in
      on_each (λ (r : Bool × Session W). Keeps s r.1) conn.0
        (λ opened.
          Keeps-trans
            (Keeps-trans (ensure_conn-Keeps bus s) (retimed conn.1 writer read refl refl refl))
            (with_battery-Keeps _ timed (λ b. record { setpoint = refl; error = refl })))
        (λ closed. ensure_conn-Keeps bus s)

  pub poll_soc_only-Keeps : (bus : Bus) (s : Session W) → Keeps s (poll_soc_only bus s).1
  unfolding poll_soc_only
  poll_soc_only-Keeps bus s =
      on_each (λ (r : Bool × Session W). Keeps s r.1) (read_soc_on_open bus s).0
        (λ done. read_soc_on_open-Keeps bus s)
        (λ failed.
          Keeps-trans (read_soc_on_open-Keeps bus s) (drop_ctx-Keeps (read_soc_on_open bus s).1))

  store_tier-SameShown :
      (tier : Tier) (model : MarstekModel) (now : ℕ) (collected : List (ℕ × ℕ)) (b : BatteryState W)
      → SameShown b (store_tier tier model now collected b)
  unfolding store_tier store_readings
  store_tier-SameShown fast model now collected b = record { setpoint = refl; error = refl }
  store_tier-SameShown slow model now collected b = record { setpoint = refl; error = refl }

  pub tier_refresh-Keeps :
      (bus : Bus) (tier : Tier) (s : Session W) → Keeps s (tier_refresh bus tier s).1
  unfolding tier_refresh
  tier_refresh-Keeps bus tier s =
      let model = s.writer.battery.marstek_model in
      let start : Sweep W = record {
        session = s;
        collected = [];
        wire_errors = 0;
        connection_dead = false;
      } in
      let w = sweep bus (tier_registers tier model) start in
      let now = bus.clock w.session.line.sent in
      let writer = refreshed_at tier now w.session.writer in
      let kept : Session W = record w.session { writer = writer } in
      let swept : Keeps s w.session = sweep-Keeps bus (tier_registers tier model) start in
      on_each (λ (r : Bool × Session W). Keeps s r.1) (is_nil w.collected)
        (λ nothing.
          on_each (λ (r : Session W). Keeps s r) w.connection_dead
            (λ dead. Keeps-trans swept (drop_ctx-Keeps w.session)) (λ alive. swept))
        (λ some_data.
          Keeps-trans
            (Keeps-trans swept (
              retimed w.session writer w.session.line (refreshed_at-keeps tier now _).0
                (refreshed_at-keeps tier now _).1 refl))
            (with_battery-Keeps _ kept (store_tier-SameShown tier model now w.collected)))
