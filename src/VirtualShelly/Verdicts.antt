-- ===== src/VirtualShelly/Verdicts.antt =====
-- How pulse mode learns from one pulse that a battery is full or empty: the pulse is queued by
-- src/dispatcher.rs, handed out by src/virtual_shelly.rs, measured by src/plug.rs, and judged by
-- src/dispatcher.rs again.
use shelly_multiplexer.Prelude.{
  ℕ, ◌+◌, ◌-◌, ◌*◌, ◌<◌, ◌≡◌, ◌⊎◌, ◌↔◌, refl, sym, subst, true, false, none, some, List, [], ◌∷◌,
  Bool, Option, arith,
}
use shelly_multiplexer.Double.{Double, ◌≼◌, ◌≺◌, lt, sub, abs}
use shelly_multiplexer.Config.Constants.{second, as_secs_f64}
use shelly_multiplexer.Config.Types.{DispatcherConfig}
use shelly_multiplexer.State.{BatteryState}
use shelly_multiplexer.State.Battery.{is_charge_locked, is_discharge_locked}
use shelly_multiplexer.Plug.{read_plug}
use shelly_multiplexer.Dispatcher.Pulse.{queue_pulse, detect_outcome}
use shelly_multiplexer.VirtualShelly.{pop_pulse}
use shelly_multiplexer.VirtualShelly.Pulses.{popped}

module _ {W : Type 0} ⦃d : Double W⦄ where
  open d use {nat, neg}

  -- The battery after a pulse of `delta` has been queued, three polls at `t1`, `t2` and `t3`, and a
  -- reading of its plug at `seen`.
  abbrev pub pulsed : W → List ℕ → W → W → Option Bool → ℕ → BatteryState W → BatteryState W
  pulsed delta ts stable_w apower relay seen b =
      read_plug stable_w apower relay seen (popped ts (queue_pulse false delta b))

  -- What a battery is locked for: `locked` until 600 s after `now`, or as before.
  abbrev pub IsRefused : W → ℕ → BatteryState W → BatteryState W → Type 0
  IsRefused delta now b b' =
      (delta ≺ nat 0)
        × ((t : ℕ) → (is_charge_locked b' t ≡ true) ↔ (t < now + 600 * second))
        × (b'.discharge_locked_until ≡ b.discharge_locked_until)
      ⊎ (nat 0 ≼ delta)
        × ((t : ℕ) → (is_discharge_locked b' t ≡ true) ↔ (t < now + 600 * second))
        × (b'.charge_locked_until ≡ b.charge_locked_until)

  -- The direction of the pulse is not locked, and the other one is as before.
  abbrev pub IsTaken : W → BatteryState W → BatteryState W → Type 0
  IsTaken delta b b' =
      (delta ≺ nat 0)
        × ((t : ℕ) → is_charge_locked b' t ≡ false)
        × (b'.discharge_locked_until ≡ b.discharge_locked_until)
      ⊎ (nat 0 ≺ delta)
        × ((t : ℕ) → is_discharge_locked b' t ≡ false)
        × (b'.charge_locked_until ≡ b.charge_locked_until)
      ⊎ (nat 0 ≼ delta) × (delta ≼ nat 0)

  abbrev Judged : DispatcherConfig W → ℕ → W → W → ℕ → BatteryState W → BatteryState W → Type 0
  Judged dcfg now delta moved done b after =
      let b' = detect_outcome dcfg now after in
      (nat 10 ≼ moved) × (b'.last_pulse_delta_w ≡ none) × IsTaken delta b b'
      ⊎ (moved ≺ nat 10)
        × (dcfg.settle_timeout_s ≼ as_secs_f64 (now - done))
        × (b'.last_pulse_delta_w ≡ none)
        × IsRefused delta now b b'
      ⊎ (moved ≺ nat 10) × (as_secs_f64 (now - done) ≺ dcfg.settle_timeout_s) × (b' ≡ after)

  -- A pulse that was finished, the plug readings before and after it, and the locks.
  record Finished (b after : BatteryState W) (delta snap plug : W) (done : ℕ) : Type 0 where
    idle : after.pulse_remaining ≡ 0
    sent : after.last_pulse_delta_w ≡ some delta
    completed : after.last_pulse_completed_at ≡ some done
    before : after.plug_w_at_pulse_send ≡ some snap
    measured : after.last_plug_w ≡ some plug
    charge_lock : after.charge_locked_until ≡ b.charge_locked_until
    discharge_lock : after.discharge_locked_until ≡ b.discharge_locked_until

  -- What `queue_pulse` stores.
  abbrev queued : W → BatteryState W → BatteryState W
  queued delta b = record b {
    pending_pulse_w = delta;
    pulse_remaining = 3;
    plug_w_at_pulse_send = b.last_plug_w;
    last_pulse_completed_at = none;
    last_pulse_delta_w = some delta;
  }

  queue_pulse-queued :
      (b : BatteryState W) (delta : W)
      → nat 25 ≼ abs delta
      → queue_pulse false delta b ≡ queued delta b
  unfolding queue_pulse
  queue_pulse-queued b delta big =
      let due : lt (abs delta) (nat 25) ≡ false = ground (arith, big) in rw due refl

  popped-Finished :
      (b : BatteryState W) (delta snap : W) (t1 t2 t3 : ℕ)
      → b.last_plug_w ≡ some snap
      → Finished b (popped (t1 ∷ t2 ∷ t3 ∷ []) (queued delta b)) delta snap snap t3
  unfolding pop_pulse
  popped-Finished b delta snap t1 t2 t3 before = record {
    idle = refl;
    sent = refl;
    completed = refl;
    before = before;
    measured = before;
    charge_lock = refl;
    discharge_lock = refl;
  }

  queued-Finished :
      (b : BatteryState W) (delta snap : W) (t1 t2 t3 : ℕ)
      → b.last_plug_w ≡ some snap
      → nat 25 ≼ abs delta
      → Finished b (popped (t1 ∷ t2 ∷ t3 ∷ []) (queue_pulse false delta b)) delta snap snap t3
  queued-Finished b delta snap t1 t2 t3 before big =
      subst (λ q. Finished b (popped (t1 ∷ t2 ∷ t3 ∷ []) q) delta snap snap t3)
        (sym (queue_pulse-queued b delta big)) (popped-Finished b delta snap t1 t2 t3 before)

  read-Finished :
      (b after : BatteryState W) (delta snap stable_w apower : W) (relay : Option Bool)
      (done seen : ℕ)
      → Finished b after delta snap snap done
      → Finished b (read_plug stable_w apower relay seen after) delta snap (neg apower) done
  unfolding read_plug
  read-Finished b after delta snap stable_w apower relay done seen f = record {
    idle = f.idle;
    sent = f.sent;
    completed = f.completed;
    before = f.before;
    measured = refl;
    charge_lock = f.charge_lock;
    discharge_lock = f.discharge_lock;
  }

  Finished-Judged :
      (dcfg : DispatcherConfig W) (now : ℕ) (b after : BatteryState W) (delta snap plug : W)
      (done : ℕ)
      → Finished b after delta snap plug done
      → nat 25 ≼ abs delta
      → Judged dcfg now delta (abs (sub plug snap)) done b after
  unfolding detect_outcome is_charge_locked is_discharge_locked
  Finished-Judged dcfg now b after delta snap plug done f big = ground (arith, f, big)

  -- A pulse of 25 W or more that the dispatcher queues, and that the battery has fetched with three
  -- polls, is judged by the next reading of the plug against the one at the time it was queued. If the
  -- power has moved by 10 W or more, the direction of the pulse is unlocked; if it has not, and the
  -- settle time after the third poll has passed, the direction is locked for the next 600 s and no
  -- longer; before that the battery is left as it is. The other direction keeps its lock.
  pub pulse_judged :
      (dcfg : DispatcherConfig W) (b : BatteryState W) (delta snap stable_w apower : W)
      (relay : Option Bool) (t1 t2 t3 seen now : ℕ)
      → b.last_plug_w ≡ some snap
      → nat 25 ≼ abs delta
      → let after = pulsed delta (t1 ∷ t2 ∷ t3 ∷ []) stable_w apower relay seen b in
        let b' = detect_outcome dcfg now after in
        let moved = abs (sub (neg apower) snap) in
        (nat 10 ≼ moved) × (b'.last_pulse_delta_w ≡ none) × IsTaken delta b b'
        ⊎ (moved ≺ nat 10)
          × (dcfg.settle_timeout_s ≼ as_secs_f64 (now - t3))
          × (b'.last_pulse_delta_w ≡ none)
          × IsRefused delta now b b'
        ⊎ (moved ≺ nat 10) × (as_secs_f64 (now - t3) ≺ dcfg.settle_timeout_s) × (b' ≡ after)
  pulse_judged dcfg b delta snap stable_w apower relay t1 t2 t3 seen now before big =
      Finished-Judged dcfg now b _ delta snap (neg apower) t3
        (read-Finished b _ delta snap stable_w apower relay t3 seen
          (queued-Finished b delta snap t1 t2 t3 before big))
        big
