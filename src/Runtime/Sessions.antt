-- ===== src/Runtime/Sessions.antt =====
-- The table of the batteries under the tasks of src/modbus.rs.
use shelly_multiplexer.Prelude.{
  ℕ, zero, suc, ◌≡◌, refl, sym, subst, Bool, false, not, ◌&&◌, List, [], ◌∷◌, String, arith,
  on_each, on_option, is_nil, is_some, string_key,
}
use shelly_multiplexer.Double.{Double}
use shelly_multiplexer.Config.Registers.{MarstekModel}
use shelly_multiplexer.State.{BatteryState, bump}
use shelly_multiplexer.Setpoint.{Setpoint, standby}
use shelly_multiplexer.Writer.{
  Bus, Session, Tier, fast, slow, ensure_conn, drop_ctx, count, with_battery, record_error,
  record_success, read_holding_on,
}
use shelly_multiplexer.Writer.Init.{
  BmsCutoffs, init_dispatch_on, record_bms_cutoffs, init_attempt, read_bms_cutoffs,
}
use shelly_multiplexer.Writer.Reads.{soc_poll_due, store_readings, read_soc_on_open, poll_soc_only}
use shelly_multiplexer.Writer.Reads.Refresh.{
  Sweep, tier_registers, read_register, sweep, store_tier, refreshed_at, tier_refresh,
}
use shelly_multiplexer.Writer.Writes.{should_write, write_on, written, write_attempts, do_write}
use shelly_multiplexer.Writer.Tasks.{
  Event, shutdown, changed, sender_gone, soc_timer, fast_timer, slow_timer, shut_down, on_changed,
  on_event,
}
use shelly_multiplexer.Runtime.Tables.{Steady}
use shelly_multiplexer.Runtime.Started.{IsSound, modify-IsSound}

module _ {W : Type 0} ⦃d : Double W⦄ where
  abbrev IsKept : Session W → Type 0
  IsKept s = IsSound s.app

  ensure_conn-IsKept : (bus : Bus) (s : Session W) → IsKept s → IsKept (ensure_conn bus s).1
  unfolding ensure_conn
  ensure_conn-IsKept bus s h =
      on_each (λ (r : Bool × Session W). IsKept r.1) s.is_open (λ o. h) (λ c. h)

  store_tier-Steady :
      (tier : Tier) (model : MarstekModel) (now : ℕ) (collected : List (ℕ × ℕ)) (b : BatteryState W)
      → Steady b (store_tier tier model now collected b)
  unfolding store_tier store_readings
  store_tier-Steady fast model now collected b = refl
  store_tier-Steady slow model now collected b = refl

  read_soc_on_open-IsKept :
      (bus : Bus) (s : Session W) → IsKept s → IsKept (read_soc_on_open bus s).1
  unfolding read_soc_on_open read_holding_on with_battery store_readings
  read_soc_on_open-IsKept bus s h =
      let conn = ensure_conn bus s in
      let opened = ensure_conn-IsKept bus s h in
      on_each (λ (r : Bool × Session W). IsKept r.1) conn.0
        (λ o. modify-IsSound conn.1.writer.battery.id _ conn.1.app (λ b. refl) opened) (λ c. opened)

  poll_soc_only-IsKept : (bus : Bus) (s : Session W) → IsKept s → IsKept (poll_soc_only bus s).1
  unfolding poll_soc_only drop_ctx
  poll_soc_only-IsKept bus s h =
      let read = read_soc_on_open-IsKept bus s h in
      on_each (λ (r : Bool × Session W). IsKept r.1) (read_soc_on_open bus s).0 (λ o. read)
        (λ c. read)

  read_register-IsKept :
      (bus : Bus) (reg : ℕ) (w : Sweep W)
      → IsKept w.session
      → IsKept (read_register bus reg w).session
  unfolding read_register count read_holding_on drop_ctx
  read_register-IsKept bus reg w h = record {
    table = ground (arith, h.table);
    circuits = ground (arith, h.circuits);
  }

  sweep-IsKept :
      (bus : Bus) (regs : List ℕ) (w : Sweep W)
      → IsKept w.session
      → IsKept (sweep bus regs w).session
  unfolding sweep
  sweep-IsKept bus [] w h = h
  sweep-IsKept bus (reg ∷ regs) w h =
      let conn = ensure_conn bus w.session in
      let start : Sweep W = record w { session = conn.1 } in
      let next = read_register bus reg start in
      let opened = ensure_conn-IsKept bus w.session h in
      let read = read_register-IsKept bus reg start opened in
      let Good : Sweep W → Type 0 = λ r. IsKept r.session in
      on_each Good conn.0
        (λ o.
          on_each Good next.connection_dead (λ dead. read)
            (λ alive. sweep-IsKept bus regs next read))
        (λ c. opened)

  tier_refresh-IsKept :
      (bus : Bus) (tier : Tier) (s : Session W) → IsKept s → IsKept (tier_refresh bus tier s).1
  unfolding tier_refresh drop_ctx with_battery
  tier_refresh-IsKept bus tier s h =
      let model = s.writer.battery.marstek_model in
      let start : Sweep W = record {
        session = s;
        collected = [];
        wire_errors = 0;
        connection_dead = false;
      } in
      let w = sweep bus (tier_registers tier model) start in
      let now = bus.clock w.session.line.sent in
      let swept : IsKept w.session = sweep-IsKept bus (tier_registers tier model) start h in
      on_each (λ (r : Bool × Session W). IsKept r.1) (is_nil w.collected)
        (λ nothing. on_each IsKept w.connection_dead (λ dead. swept) (λ alive. swept))
        (λ some_data.
          modify-IsSound (refreshed_at tier now w.session.writer).battery.id
            (store_tier tier model now w.collected) w.session.app
            (store_tier-Steady tier model now w.collected) swept)

  record_success-IsKept :
      (bus : Bus) (sp : Setpoint) (s : Session W) → IsKept s → IsKept (record_success bus sp s)
  unfolding record_success with_battery
  record_success-IsKept bus sp s h = modify-IsSound s.writer.battery.id _ s.app (λ b. refl) h

  record_error-IsKept : (msg : String) (s : Session W) → IsKept s → IsKept (record_error msg s)
  unfolding record_error with_battery
  record_error-IsKept msg s h = modify-IsSound s.writer.battery.id _ s.app (λ b. refl) h

  written-IsKept :
      (bus : Bus) (sp : Setpoint) (s : Session W) → IsKept s → IsKept (written bus sp s)
  unfolding written count
  written-IsKept bus sp s h =
      let counted = count (λ st. record st { outbound_writes_ok = bump st.outbound_writes_ok }) s in
      let ok = record_success bus sp counted in
      let kept : IsKept counted = record { table = h.table; circuits = h.circuits } in
      let sound = record_success-IsKept bus sp counted kept in
      on_each IsKept (soc_poll_due ok.writer (bus.clock ok.line.sent))
        (λ due. read_soc_on_open-IsKept bus ok sound) (λ not_due. sound)

  write_attempts-IsKept :
      (bus : Bus) (sp : Setpoint) (left : ℕ) (s : Session W)
      → IsKept s
      → IsKept (write_attempts bus sp left s).1
  unfolding write_attempts write_on drop_ctx
  write_attempts-IsKept bus sp zero s h = h
  write_attempts-IsKept bus sp (suc left) s h =
      let conn = ensure_conn bus s in
      let write = write_on bus sp conn.1 in
      let opened = ensure_conn-IsKept bus s h in
      let Good : Bool × Session W → Type 0 = λ r. IsKept r.1 in
      on_each Good conn.0
        (λ o.
          on_each Good write.0 (λ sent. written-IsKept bus sp write.1 opened)
            (λ unsent.
              write_attempts-IsKept bus sp left (record write.1 { is_open = false }) opened))
        (λ c. write_attempts-IsKept bus sp left (record conn.1 { is_open = false }) opened)

  do_write-IsKept :
      (bus : Bus) (sp : Setpoint) (s : Session W) → IsKept s → IsKept (do_write bus sp s).1
  unfolding do_write count
  do_write-IsKept bus sp s h =
      let start =
        count (λ st. record st { outbound_writes_total = bump st.outbound_writes_total }) s in
      let done = write_attempts bus sp 3 start in
      let kept : IsKept start = record { table = h.table; circuits = h.circuits } in
      let tried = write_attempts-IsKept bus sp 3 start kept in
      on_each (λ (r : Bool × Session W). IsKept r.1) done.0 (λ ok. tried)
        (λ failed.
          let given_up =
            count (λ st. record st { outbound_writes_failed = bump st.outbound_writes_failed })
              done.1 in
          let still : IsKept given_up = record { table = tried.table; circuits = tried.circuits } in
          record_error-IsKept _ given_up still)

  init_dispatch_on-app : (bus : Bus) (s : Session W) → (init_dispatch_on bus s).1.app ≡ s.app
  unfolding init_dispatch_on read_bms_cutoffs read_holding_on
  init_dispatch_on-app bus s = ground arith

  record_bms_cutoffs-IsKept :
      (cutoffs : BmsCutoffs W) (s : Session W) → IsKept s → IsKept (record_bms_cutoffs cutoffs s)
  unfolding record_bms_cutoffs with_battery
  record_bms_cutoffs-IsKept cutoffs s h = modify-IsSound s.writer.battery.id _ s.app (λ b. refl) h

  drop_ctx-IsKept : (s : Session W) → IsKept s → IsKept (drop_ctx s)
  unfolding drop_ctx
  drop_ctx-IsKept s h = h

  -- A round of the init loop keeps the state in order.
  pub init_attempt-IsKept :
      (bus : Bus) (s : Session W) → IsSound s.app → IsSound (init_attempt bus s).1.app
  unfolding init_attempt
  init_attempt-IsKept bus s h =
      let conn = ensure_conn bus s in
      let init = init_dispatch_on bus conn.1 in
      let opened = ensure_conn-IsKept bus s h in
      let tried : IsKept init.1 = subst IsSound (sym (init_dispatch_on-app bus conn.1)) opened in
      let Good : Bool × Session W → Type 0 = λ r. IsKept r.1 in
      on_each Good conn.0
        (λ o.
          on_option Good init.0
            (drop_ctx-IsKept (record_error _ init.1) (record_error-IsKept _ init.1 tried))
            (λ cutoffs.
              record_bms_cutoffs-IsKept cutoffs (record_success bus standby init.1)
                (record_success-IsKept bus standby init.1 tried)))
        (λ c. record_error-IsKept _ conn.1 opened)

  shut_down-IsKept : (bus : Bus) (s : Session W) → IsKept s → IsKept (shut_down bus s)
  unfolding shut_down write_on drop_ctx
  shut_down-IsKept bus s h =
      let opened = ensure_conn-IsKept bus s h in
      on_each IsKept (ensure_conn bus s).0 (λ o. opened) (λ c. opened)

  -- Whatever event comes to a writer, what it does keeps the state in order.
  pub on_event-IsKept :
      (bus : Bus) (e : Event) (s : Session W) → IsSound s.app → IsSound (on_event bus e s).1.app
  unfolding on_event on_changed
  on_event-IsKept bus shutdown s h = shut_down-IsKept bus s h
  on_event-IsKept bus (changed desired) s h =
      on_each IsKept (should_write s.writer desired) (λ due. do_write-IsKept bus desired s h)
        (λ same.
          on_each IsKept
            (soc_poll_due s.writer (bus.clock s.line.sent)
              && not (is_some s.writer.fast_refresh_interval))
            (λ poll. poll_soc_only-IsKept bus s h) (λ idle. h))
  on_event-IsKept bus sender_gone s h = h
  on_event-IsKept bus soc_timer s h = poll_soc_only-IsKept bus s h
  on_event-IsKept bus fast_timer s h = tier_refresh-IsKept bus fast s h
  on_event-IsKept bus slow_timer s h = tier_refresh-IsKept bus slow s h
