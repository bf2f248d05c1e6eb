-- ===== src/Runtime/Parts.antt =====
-- The invariant of the state under the parts of a cycle of src/dispatcher.rs.
use shelly_multiplexer.Prelude.{
  ℕ, ◌≡◌, refl, ◌∙◌, Bool, not, Option, none, List, [], ◌∷◌, String, arith, All, lookup, map_values,
  values, string_key, on_each, on_option,
}
use shelly_multiplexer.Double.{Double, ◌≼◌, le}
use shelly_multiplexer.Config.Types.{DispatcherConfig, LocationConfig, cap_w}
use shelly_multiplexer.State.{AppState, BatteryState, CircuitState}
use shelly_multiplexer.Dispatcher.Mute.{mute_circuit, update_circuit_mute, is_grid_fresh}
use shelly_multiplexer.Dispatcher.Safety.{
  Requests, Trip, stamped, stamp_trips, guard_circuit, guard_circuits, enforce_circuit_safety,
}
use shelly_multiplexer.Dispatcher.Safety.Escalation.{guard_circuit-IsStaged}
use shelly_multiplexer.Dispatcher.Night.{
  SolarTimes, NightRequests, night_step, night_each, enforce_night_cutoff, is_night_at, recovery_at,
}
use shelly_multiplexer.Dispatcher.Pulse.{
  detect_outcome, detect_pulse_outcomes, queue_pulse, queue_pulses,
}
use shelly_multiplexer.Runtime.Tables.{
  Steady, Steady-id, Steady-IsFit, IsTable, modify-IsTable, map_values-IsTable,
}
use shelly_multiplexer.Runtime.Started.{AreGuarded, IsSound}

module _ {W : Type 0} ⦃d : Double W⦄ where
  open d use {nat}

  stamp_trips-IsTable :
      (now : ℕ) (ts : List (Trip W)) (bats : List (String × BatteryState W))
      → IsTable bats
      → IsTable (stamp_trips now ts bats)
  unfolding stamp_trips
  stamp_trips-IsTable now [] bats h = h
  stamp_trips-IsTable now (t ∷ ts) bats h =
      stamp_trips-IsTable now ts _ (modify-IsTable t.id (stamped now t) bats (λ b. refl) h)

  guard_circuit-cap :
      (bats : List (String × BatteryState W)) (margin : W) (now : ℕ) (cs : CircuitState W)
      → (guard_circuit bats margin now cs).circuit.config ≡ cs.config
  unfolding guard_circuit
  guard_circuit-cap bats margin now cs = ground arith

  guard_circuits-AreGuarded :
      (bats : List (String × BatteryState W)) (margin : W) (now : ℕ)
      (circuits : List (String × CircuitState W))
      → AreGuarded circuits
      → AreGuarded (guard_circuits bats margin now circuits).0
  unfolding guard_circuits
  guard_circuits-AreGuarded bats margin now [] h = tt
  guard_circuits-AreGuarded bats margin now ((cid, cs) ∷ rest) ((cap, staged), hs) = (
    (
      rw (guard_circuit-cap bats margin now cs) cap,
      guard_circuit-IsStaged bats margin now cs staged,
    ),
    guard_circuits-AreGuarded bats margin now rest hs,
  )

  pub safety-IsSound :
      (s : AppState W) (dcfg : DispatcherConfig W) (has_dispatch : Bool) (now : ℕ)
      → IsSound s
      → IsSound (enforce_circuit_safety s dcfg has_dispatch now).0
  unfolding enforce_circuit_safety
  safety-IsSound s dcfg has_dispatch now h =
      on_each (λ (r : AppState W × Requests W). IsSound r.0)
        (le dcfg.emergency_cutoff_margin_w (nat 0)) (λ off. h)
        (λ on. record {
          table =
              stamp_trips-IsTable now
                (guard_circuits s.batteries dcfg.emergency_cutoff_margin_w now s.circuits).2
                s.batteries h.table;
          circuits =
              guard_circuits-AreGuarded s.batteries dcfg.emergency_cutoff_margin_w now s.circuits
                h.circuits;
        })

  night_step-Steady :
      (dcfg : DispatcherConfig W) (is_night : Bool) (recovery : ℕ) (b : BatteryState W)
      → Steady b (night_step dcfg is_night recovery b).0
  unfolding night_step
  night_step-Steady dcfg is_night recovery b = ground arith

  night_each-absent :
      (dcfg : DispatcherConfig W) (is_night : Bool) (recovery : ℕ) (id : String)
      (bats : List (String × BatteryState W))
      → lookup id bats ≡ none
      → lookup id (night_each dcfg is_night recovery bats).0 ≡ none
  unfolding night_each lookup
  night_each-absent dcfg is_night recovery id [] e = refl
  night_each-absent dcfg is_night recovery id ((k, b) ∷ bats) e =
      ground (arith, e, night_each-absent dcfg is_night recovery id bats)

  night_each-IsTable :
      (dcfg : DispatcherConfig W) (is_night : Bool) (recovery : ℕ)
      (bats : List (String × BatteryState W))
      → IsTable bats
      → IsTable (night_each dcfg is_night recovery bats).0
  unfolding night_each
  night_each-IsTable dcfg is_night recovery [] h = tt
  night_each-IsTable dcfg is_night recovery ((k, b) ∷ bats) (id, fit, fresh, rest) =
      let b' = (night_step dcfg is_night recovery b).0 in
      let steady = night_step-Steady dcfg is_night recovery b in
      (
        Steady-id b b' steady ∙ id,
        Steady-IsFit b b' steady fit,
        night_each-absent dcfg is_night recovery k bats fresh,
        night_each-IsTable dcfg is_night recovery bats rest,
      )

  pub night-IsSound :
      (solar : W → W → ℕ → Option SolarTimes) (s : AppState W) (dcfg : DispatcherConfig W)
      (location : LocationConfig W) (utc now : ℕ)
      → IsSound s
      → IsSound (enforce_night_cutoff solar s dcfg location utc now).0
  unfolding enforce_night_cutoff
  night-IsSound solar s dcfg location utc now h =
      let Good : AppState W × NightRequests → Type 0 = λ r. IsSound r.0 in
      on_each Good (not dcfg.night_cutoff_enabled) (λ off. h)
        (λ on. on_option Good location.latitude h (λ lat.
          on_option Good location.longitude h (λ lon. on_option Good (solar lat lon utc) h (λ sun.
            record {
              table =
                  night_each-IsTable dcfg (is_night_at sun utc) (recovery_at sun utc now)
                    s.batteries h.table;
              circuits = h.circuits;
            }))))

  mute-AreGuarded :
      (bats : List (String × BatteryState W)) (dcfg : DispatcherConfig W) (fresh : Bool) (now : ℕ)
      (circuits : List (String × CircuitState W))
      → AreGuarded circuits
      → AreGuarded (map_values (mute_circuit bats dcfg fresh now) circuits)
  unfolding mute_circuit
  mute-AreGuarded bats dcfg fresh now [] h = tt
  mute-AreGuarded bats dcfg fresh now ((k, c) ∷ cs) (h, hs) =
      (ground (arith, h), mute-AreGuarded bats dcfg fresh now cs hs)

  pub mute-IsSound :
      (s : AppState W) (dcfg : DispatcherConfig W) (now : ℕ)
      → IsSound s
      → IsSound (update_circuit_mute s dcfg now).0
  unfolding update_circuit_mute
  mute-IsSound s dcfg now h = record {
    table = h.table;
    circuits =
        mute-AreGuarded s.batteries dcfg (is_grid_fresh s dcfg now) now s.circuits h.circuits;
  }

  pub IsSound-caps :
      (circuits : List (String × CircuitState W))
      → AreGuarded circuits
      → All (λ (c : CircuitState W). nat 0 ≼ cap_w c.config) (values circuits)
  IsSound-caps [] h = tt
  IsSound-caps ((k, c) ∷ cs) ((cap, staged), hs) = (cap, IsSound-caps cs hs)

  detect_outcome-Steady :
      (dcfg : DispatcherConfig W) (now : ℕ) (b : BatteryState W)
      → Steady b (detect_outcome dcfg now b)
  unfolding detect_outcome
  detect_outcome-Steady dcfg now b = ground arith

  queue_pulse-Steady :
      (silent : Bool) (delta : W) (b : BatteryState W) → Steady b (queue_pulse silent delta b)
  unfolding queue_pulse
  queue_pulse-Steady silent delta b = ground arith

  pub detected-IsSound :
      (s : AppState W) (dcfg : DispatcherConfig W) (now : ℕ)
      → IsSound s
      → IsSound (detect_pulse_outcomes s dcfg now)
  unfolding detect_pulse_outcomes
  detected-IsSound s dcfg now h = record {
    table = map_values-IsTable _ s.batteries (detect_outcome-Steady dcfg now) h.table;
    circuits = h.circuits;
  }

  pub queued-IsSound :
      (s : AppState W) (deltas : List (String × W)) (now : ℕ)
      → IsSound s
      → IsSound (queue_pulses s deltas now)
  unfolding queue_pulses
  queued-IsSound s deltas now h = record {
    table = map_values-IsTable _ s.batteries (λ b. queue_pulse-Steady _ _ b) h.table;
    circuits = h.circuits;
  }
  -- A result is there, and its state is in order.
