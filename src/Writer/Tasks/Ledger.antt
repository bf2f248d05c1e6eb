-- ===== src/Writer/Tasks/Ledger.antt =====
-- The counters of the outbound traffic of src/modbus.rs.
use shelly_multiplexer.Prelude.{
  ℕ, zero, suc, ◌+◌, ◌%◌, ◌^◌, ◌≡◌, refl, sym, subst, ◌∙◌, ap, Bool, true, false, List, [], ◌∷◌,
  arith, on_each, is_nil,
}
use shelly_multiplexer.Double.{Double}
use shelly_multiplexer.State.{ModbusStats, bump}
use shelly_multiplexer.Setpoint.{Setpoint}
use shelly_multiplexer.Writer.{
  Bus, Session, Tier, ensure_conn, drop_ctx, count, with_battery, record_error, record_success,
  read_holding_on,
}
use shelly_multiplexer.Writer.Reads.{soc_poll_due, read_soc_on_open, poll_soc_only}
use shelly_multiplexer.Writer.Reads.Refresh.{
  Sweep, read_register, sweep, tier_registers, tier_refresh,
}
use shelly_multiplexer.Writer.Writes.{write_on, written, write_attempts, do_write}

-- The outcomes of the writes add up to their number, and those of the reads too, as far as 64 bits go.
pub record IsBalanced (st : ModbusStats) : Type 0 where
  pub writes :
      st.outbound_writes_total ≡ (st.outbound_writes_ok + st.outbound_writes_failed) % 2 ^ 64
  pub reads : st.outbound_reads_total ≡ (st.outbound_reads_ok + st.outbound_reads_failed) % 2 ^ 64

abbrev pub stats_of : {W : Type 0} → Session W → ModbusStats
stats_of s = s.app.modbus_stats

-- What a sequence of attempts adds to the counters, by its outcome.
abbrev counted : Bool → ModbusStats → ModbusStats
counted true st = record st { outbound_writes_ok = bump st.outbound_writes_ok }
counted false st = st

module _ {W : Type 0} where
  pub ensure_conn-stats : (bus : Bus) (s : Session W) → stats_of (ensure_conn bus s).1 ≡ stats_of s
  unfolding ensure_conn
  ensure_conn-stats bus s =
      on_each (λ (r : Bool × Session W). stats_of r.1 ≡ stats_of s) s.is_open (λ o. refl)
        (λ c. refl)

  read_register-IsBalanced :
      (bus : Bus) (reg : ℕ) (w : Sweep W)
      → IsBalanced (stats_of w.session)
      → IsBalanced (stats_of (read_register bus reg w).session)
  unfolding read_register count read_holding_on drop_ctx
  read_register-IsBalanced bus reg w h = ground (arith, h)

  sweep-IsBalanced :
      (bus : Bus) (regs : List ℕ) (w : Sweep W)
      → IsBalanced (stats_of w.session)
      → IsBalanced (stats_of (sweep bus regs w).session)
  unfolding sweep
  sweep-IsBalanced bus [] w h = h
  sweep-IsBalanced bus (reg ∷ regs) w h =
      let conn = ensure_conn bus w.session in
      let start : Sweep W = record w { session = conn.1 } in
      let next = read_register bus reg start in
      let opened : IsBalanced (stats_of conn.1) = rw (ensure_conn-stats bus w.session) h in
      let read = read_register-IsBalanced bus reg start opened in
      let Good : Sweep W → Type 0 = λ r. IsBalanced (stats_of r.session) in
      on_each Good conn.0
        (λ o.
          on_each Good next.connection_dead (λ dead. read)
            (λ alive. sweep-IsBalanced bus regs next read))
        (λ c. opened)

sent_balance :
    (st st' : ModbusStats)
    → IsBalanced st
    → st' ≡ counted true (record st { outbound_writes_total = bump st.outbound_writes_total })
    → IsBalanced st'
sent_balance st st' h e =
    subst IsBalanced (sym e) (record { writes = omega (arith, h.writes); reads = h.reads })

failed_balance :
    (st st' : ModbusStats)
    → IsBalanced st
    → st' ≡ record st { outbound_writes_total = bump st.outbound_writes_total }
    → IsBalanced (record st' { outbound_writes_failed = bump st'.outbound_writes_failed })
failed_balance st st' h e = record {
  writes = ground (arith, h.writes, e);
  reads = ground (arith, h.reads, e);
}

pub record HasStats {W : Type 0} (st : ModbusStats) (s : Session W) : Type 0 where
  pub holds : s.app.modbus_stats ≡ st

module _ {W : Type 0} ⦃d : Double W⦄ where
  pub read_soc_on_open-stats :
      (bus : Bus) (s : Session W) → stats_of (read_soc_on_open bus s).1 ≡ stats_of s
  unfolding read_soc_on_open read_holding_on with_battery
  read_soc_on_open-stats bus s =
      on_each (λ (r : Bool × Session W). stats_of r.1 ≡ stats_of s) (ensure_conn bus s).0
        (λ o. ensure_conn-stats bus s) (λ c. ensure_conn-stats bus s)

  pub poll_soc_only-stats :
      (bus : Bus) (s : Session W) → stats_of (poll_soc_only bus s).1 ≡ stats_of s
  unfolding poll_soc_only drop_ctx
  poll_soc_only-stats bus s =
      on_each (λ (r : Bool × Session W). stats_of r.1 ≡ stats_of s) (read_soc_on_open bus s).0
        (λ o. read_soc_on_open-stats bus s) (λ c. read_soc_on_open-stats bus s)

  pub tier_refresh-IsBalanced :
      (bus : Bus) (tier : Tier) (s : Session W)
      → IsBalanced (stats_of s)
      → IsBalanced (stats_of (tier_refresh bus tier s).1)
  unfolding tier_refresh drop_ctx with_battery
  tier_refresh-IsBalanced bus tier s h =
      let model = s.writer.battery.marstek_model in
      let start : Sweep W = record {
        session = s;
        collected = [];
        wire_errors = 0;
        connection_dead = false;
      } in
      let w = sweep bus (tier_registers tier model) start in
      let swept : IsBalanced (stats_of w.session) =
        sweep-IsBalanced bus (tier_registers tier model) start h in
      on_each (λ (r : Bool × Session W). IsBalanced (stats_of r.1)) (is_nil w.collected)
        (λ nothing.
          on_each (λ (r : Session W). IsBalanced (stats_of r)) w.connection_dead (λ dead. swept)
            (λ alive. swept))
        (λ some_data. swept)

  written-stats :
      (bus : Bus) (sp : Setpoint) (s : Session W)
      → HasStats (counted true (stats_of s)) (written bus sp s)
  unfolding written record_success with_battery count
  written-stats bus sp s =
      let ok =
        record_success bus sp
          (count (λ st. record st { outbound_writes_ok = bump st.outbound_writes_ok }) s) in
      on_each (HasStats (counted true (stats_of s)))
        (soc_poll_due ok.writer (bus.clock ok.line.sent))
        (λ due. record { holds = read_soc_on_open-stats bus ok })
        (λ not_due. record { holds = refl })

  write_attempts-stats :
      (bus : Bus) (sp : Setpoint) (left : ℕ) (s : Session W)
      → let r = write_attempts bus sp left s in stats_of r.1 ≡ counted r.0 (stats_of s)
  unfolding write_attempts write_on drop_ctx
  write_attempts-stats bus sp zero s = refl
  write_attempts-stats bus sp (suc left) s =
      let conn = ensure_conn bus s in
      let write = write_on bus sp conn.1 in
      let Good : Bool × Session W → Type 0 = λ r. stats_of r.1 ≡ counted r.0 (stats_of s) in
      let opening = ensure_conn-stats bus s in
      on_each Good conn.0
        (λ opened.
          on_each Good write.0
            (λ sent. (written-stats bus sp write.1).holds ∙ ap (counted true) opening)
            (λ unsent.
              let next : Session W = record write.1 { is_open = false } in
              write_attempts-stats bus sp left next
              ∙ ap (counted (write_attempts bus sp left next).0) opening))
        (λ closed.
          let next : Session W = record conn.1 { is_open = false } in
          write_attempts-stats bus sp left next
          ∙ ap (counted (write_attempts bus sp left next).0) opening)

  pub do_write-IsBalanced :
      (bus : Bus) (sp : Setpoint) (s : Session W)
      → IsBalanced (stats_of s)
      → IsBalanced (stats_of (do_write bus sp s).1)
  unfolding do_write count record_error with_battery
  do_write-IsBalanced bus sp s h =
      let start =
        count (λ st. record st { outbound_writes_total = bump st.outbound_writes_total }) s in
      let done = write_attempts bus sp 3 start in
      let sums = write_attempts-stats bus sp 3 start in
      on_each (λ (r : Bool × Session W). IsBalanced (stats_of r.1)) done.0
        (λ sent.
          sent_balance (stats_of s) (stats_of done.1) h
            (sums ∙ ap (λ c. counted c (stats_of start)) sent))
        (λ failed.
          failed_balance (stats_of s) (stats_of done.1) h
            (sums ∙ ap (λ c. counted c (stats_of start)) failed))
