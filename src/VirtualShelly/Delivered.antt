-- ===== src/VirtualShelly/Delivered.antt =====
-- How a pulse that src/dispatcher.rs queues gets to its battery through src/virtual_shelly.rs.
use shelly_multiplexer.Prelude.{
  ℕ, ◌≡◌, true, false, some, [], ◌∷◌, String, All, map, lookup, string_key, Returns,
}
use shelly_multiplexer.Double.{Double, ◌≼◌, abs}
use shelly_multiplexer.Config.Constants.{write_deadband_w}
use shelly_multiplexer.Config.Types.{IpAddr, ip_key}
use shelly_multiplexer.State.{AppState, BatteryState}
use shelly_multiplexer.Dispatcher.Mute.{is_muted}
use shelly_multiplexer.Dispatcher.Pulse.{queue_pulse}
use shelly_multiplexer.VirtualShelly.Pulses.{queue_pulse-sets, popped_three}
use shelly_multiplexer.VirtualShelly.Answers.{
  shown, ask, milliwatts, on_phase_a, is_fresh, requests, answers-train,
}

module _ {W : Type 0} ⦃d : Double W⦄ where
  open d use {nat}

  -- A pulse that the dispatcher queues for a battery on a circuit that is not muted is answered to
  -- its next three polls of EM.GetStatus, whenever they come while the snapshot of the grid is fresh:
  -- each response shows the pulse, to thousandths of a watt, as the power of phase A and of all phases.
  -- The fourth shows 0; after the third the battery has no pulse left, and the pulse is complete since
  -- that poll.
  pub queued_pulse_delivered :
      (s : AppState W) (stale : W) (peer : IpAddr) (id : String) (b : BatteryState W) (delta : W)
      (t1 t2 t3 t4 : ℕ)
      → lookup peer s.by_addr ≡ some id
      → lookup id s.batteries ≡ some (queue_pulse false delta b)
      → write_deadband_w ≼ abs delta
      → All (λ t. is_muted s.circuits b.circuit t ≡ false) (t1 ∷ t2 ∷ t3 ∷ t4 ∷ [])
      → All (λ t. is_fresh s.snapshot.age stale t ≡ true) (t1 ∷ t2 ∷ t3 ∷ t4 ∷ [])
      → let pulse = on_phase_a (milliwatts delta) in
        let third = requests s stale peer (ask t1 ∷ ask t2 ∷ ask t3 ∷ []) in
        let fourth = requests s stale peer (ask t1 ∷ ask t2 ∷ ask t3 ∷ ask t4 ∷ []) in
        (map shown fourth.1 ≡ pulse ∷ pulse ∷ pulse ∷ on_phase_a (milliwatts (nat 0)) ∷ [])
        × Returns
            (λ (b' : BatteryState W).
              (b'.pulse_remaining ≡ 0) × (b'.last_pulse_completed_at ≡ some t3))
            (lookup id third.0.batteries)
  queued_pulse_delivered s stale peer id b delta t1 t2 t3 t4 known here big (m1, (m2, (m3, last)))
        (f1, (f2, (f3, (f4, end)))) =
      let q = queue_pulse false delta b in
      let (three, pending, same) = queue_pulse-sets b delta big in
      let all_loud : All (λ t. is_muted s.circuits q.circuit t ≡ false) (t1 ∷ t2 ∷ t3 ∷ t4 ∷ []) =
        rw same (m1, (m2, (m3, last))) in
      let loud : All (λ t. is_muted s.circuits q.circuit t ≡ false) (t1 ∷ t2 ∷ t3 ∷ []) =
        rw same (m1, (m2, (m3, tt))) in
      let answers =
        (answers-train s stale peer id q (ask t1 ∷ ask t2 ∷ ask t3 ∷ ask t4 ∷ []) known here
          all_loud).0 in
      let after =
        (answers-train s stale peer id q (ask t1 ∷ ask t2 ∷ ask t3 ∷ []) known here loud).1 in
      ((rw (three, pending, f1, f2, f3, f4) at answers), rw after (popped_three q t1 t2 t3 three))
