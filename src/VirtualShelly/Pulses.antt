-- ===== src/VirtualShelly/Pulses.antt =====
-- How the polls of a battery use up its pulse, in src/virtual_shelly.rs.
use shelly_multiplexer.Prelude.{
  ℕ, zero, suc, ◌-◌, ◌<◌, ◌≡◌, refl, sym, ◌∙◌, ap, true, false, Option, some, List, [], ◌∷◌, String,
  arith, All, ltb, if◌then◌else◌, length, lookup, lookup-modify, string_key, beq_refl,
}
use shelly_multiplexer.Double.{Double, ◌≼◌, abs}
use shelly_multiplexer.Config.Constants.{write_deadband_w}
use shelly_multiplexer.Config.Types.{IpAddr, ip_key}
use shelly_multiplexer.State.{AppState, BatteryState}
use shelly_multiplexer.Dispatcher.Mute.{is_muted}
use shelly_multiplexer.Dispatcher.Pulse.{queue_pulse}
use shelly_multiplexer.VirtualShelly.{is_mute, pop_pulse, pulse_value, handle_poll}

module _ {W : Type 0} ⦃d : Double W⦄ where
  open d use {nat}

  -- The polls of one peer, at these times: the state and the answers.
  abbrev pub polls : AppState W → IpAddr → List ℕ → AppState W × List (Option W)
  polls s peer [] = (s, [])
  polls s peer (t ∷ ts) =
      let first = handle_poll s peer t in
      let rest = polls first.0 peer ts in (rest.0, first.1 ∷ rest.1)

  -- The specification: `left` times the pulse, and then 0 for good.
  abbrev pub train : ℕ → W → ℕ → List (Option W)
  train left delta zero = []
  train zero delta (suc n) = some (nat 0) ∷ train zero delta n
  train (suc left) delta (suc n) = some delta ∷ train left delta n

  -- The battery after polls at these times.
  abbrev pub popped : List ℕ → BatteryState W → BatteryState W
  popped [] b = b
  popped (t ∷ ts) b = popped ts (pop_pulse t b)

  pop_pulse-circuit : (t : ℕ) (b : BatteryState W) → (pop_pulse t b).circuit ≡ b.circuit
  unfolding pop_pulse
  pop_pulse-circuit t b = ground arith

  train_over : (a b : W) (n : ℕ) → train zero a n ≡ train zero b n
  train_over a b zero = refl
  train_over a b (suc n) = ap (λ xs. some (nat 0) ∷ xs) (train_over a b n)

  -- One poll: the answer, the battery after it, and what it does not change.
  pub record OnePoll (s : AppState W) (peer : IpAddr) (id : String) (b : BatteryState W) (t : ℕ)
      : Type 0 where
    pub answer :
        (handle_poll s peer t).1
        ≡ some (if ltb 0 b.pulse_remaining then b.pending_pulse_w else nat 0)
    pub battery : lookup id (handle_poll s peer t).0.batteries ≡ some (pop_pulse t b)
    pub circuits : (handle_poll s peer t).0.circuits ≡ s.circuits
    pub routes : (handle_poll s peer t).0.by_addr ≡ s.by_addr

  one_poll :
      (s : AppState W) (peer : IpAddr) (id : String) (b : BatteryState W) (t : ℕ)
      → lookup peer s.by_addr ≡ some id
      → lookup id s.batteries ≡ some b
      → is_muted s.circuits b.circuit t ≡ false
      → OnePoll s peer id b t
  unfolding handle_poll is_mute pulse_value
  one_poll s peer id b t known here loud = record {
    answer = ground (arith, known, here, loud);
    battery =
        ground
          (arith, known, here, loud, lookup-modify id id (pop_pulse t) s.batteries, beq_refl id);
    circuits = ground arith;
    routes = ground arith;
  }

  -- The rest of the train after one poll.
  train_step :
      (left left' : ℕ) (p p' : W) (n : ℕ)
      → left' ≡ left - 1
      → (1 < left → p' ≡ p)
      → train left p (suc n) ≡ some (if ltb 0 left then p else nat 0) ∷ train left' p' n
  train_step zero left' p p' n e same = rw e (ap (λ xs. some (nat 0) ∷ xs) (train_over p p' n))
  train_step (suc zero) left' p p' n e same = rw e (ap (λ xs. some p ∷ xs) (train_over p p' n))
  train_step (suc (suc k)) left' p p' n e same =
      let less : left' ≡ suc k = omega (arith, e) in
      let some_left : ltb 0 (suc (suc k)) ≡ true = ground arith in
      rw (less, same (omega arith), some_left) refl

  pop_pulse-left :
      (t : ℕ) (b : BatteryState W) → (pop_pulse t b).pulse_remaining ≡ b.pulse_remaining - 1
  unfolding pop_pulse
  pop_pulse-left t b = ground arith

  pop_pulse-pending :
      (t : ℕ) (b : BatteryState W)
      → 1 < b.pulse_remaining
      → (pop_pulse t b).pending_pulse_w ≡ b.pending_pulse_w
  unfolding pop_pulse
  pop_pulse-pending t b more = ground arith

  -- The polls of a battery whose circuit is not muted are answered by its pulse, as often as it was
  -- left to be repeated, and then by 0; and they change that battery only by taking the pulse.
  pub polls-train :
      (s : AppState W) (peer : IpAddr) (id : String) (b : BatteryState W) (ts : List ℕ)
      → lookup peer s.by_addr ≡ some id
      → lookup id s.batteries ≡ some b
      → All (λ t. is_muted s.circuits b.circuit t ≡ false) ts
      → ((polls s peer ts).1 ≡ train b.pulse_remaining b.pending_pulse_w (length ts))
        × (lookup id (polls s peer ts).0.batteries ≡ some (popped ts b))
  polls-train s peer id b [] known here loud = (refl, here)
  polls-train s peer id b (t ∷ ts) known here (now_loud, loud) =
      let first = one_poll s peer id b t known here now_loud in
      let next = handle_poll s peer t in
      let still_loud : All (λ u. is_muted next.0.circuits (pop_pulse t b).circuit u ≡ false) ts =
        rw (first.circuits, pop_pulse-circuit t b) loud in
      let (answers, after) =
        polls-train next.0 peer id (pop_pulse t b) ts (rw first.routes known) first.battery
          still_loud in
      (
        ap (λ x. x ∷ (polls next.0 peer ts).1) first.answer
            ∙ ap (λ xs. some (if ltb 0 b.pulse_remaining then b.pending_pulse_w else nat 0) ∷ xs)
                answers
            ∙ sym (
                train_step b.pulse_remaining (pop_pulse t b).pulse_remaining b.pending_pulse_w
                  (pop_pulse t b).pending_pulse_w (length ts) (pop_pulse-left t b)
                  (pop_pulse-pending t b)),
        after,
      )

  pub queue_pulse-sets :
      (b : BatteryState W) (delta : W)
      → write_deadband_w ≼ abs delta
      → let q = queue_pulse false delta b in
        (q.pulse_remaining ≡ 3) × (q.pending_pulse_w ≡ delta) × (q.circuit ≡ b.circuit)
  unfolding queue_pulse
  queue_pulse-sets b delta big = ground arith

  pub popped_three :
      (b : BatteryState W) (t1 t2 t3 : ℕ)
      → b.pulse_remaining ≡ 3
      → let b' = popped (t1 ∷ t2 ∷ t3 ∷ []) b in
        (b'.pulse_remaining ≡ 0) × (b'.last_pulse_completed_at ≡ some t3)
  unfolding pop_pulse
  popped_three b t1 t2 t3 three = ground (arith, three)
