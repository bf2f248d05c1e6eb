-- ===== src/Dispatcher/Safety/Escalation.antt =====
-- When src/dispatcher.rs opens a plug relay because of an overloaded circuit.
use shelly_multiplexer.Prelude.{
  ℕ, ◌+◌, ◌*◌, ◌≤◌, ◌≡◌, inl, inr, true, false, Option, none, some, List, [], ◌∷◌, String, arith,
  lookup, lookup-modify, string_key, length, Option-cases, Bool-cases, any, ◌==◌, Returns, Bool,
  All,
}
use shelly_multiplexer.Double.{Double, le}
use shelly_multiplexer.Config.Types.{DispatcherConfig}
use shelly_multiplexer.Config.Constants.{second, emergency_cutoff_grace, emergency_cutoff_recovery}
use shelly_multiplexer.State.{BatteryState, CircuitState, AppState}
use shelly_multiplexer.Dispatcher.Safety.{
  Trip, connected, is_overloaded, hard_trips, guard_circuit, stamp_trips, calm, stamped,
  guard_circuits, enforce_circuit_safety,
}

-- The standby phase of a circuit, if it runs, has started after the overload had lasted for the grace
-- time.
abbrev pub AreOrdered : Option ℕ → Option ℕ → Type 0
AreOrdered overload none = Unit
AreOrdered none (some soft) = ⊥
AreOrdered (some overload) (some soft) = overload + emergency_cutoff_grace ≤ soft

abbrev pub IsStaged : {W : Type 0} → CircuitState W → Type 0
IsStaged cs = AreOrdered cs.overload_started_at cs.soft_remediation_started_at

module _ {W : Type 0} ⦃d : Double W⦄ where
  open d use {nat}

  module _ (bats : List (String × BatteryState W)) (margin : W) (now : ℕ)
      (cs : CircuitState W) where
    -- The check of a circuit keeps its phases in order: whatever the batteries measure, and whenever
    -- it runs, the standby phase has started at least 5 s after the overload.
    pub guard_circuit-IsStaged : IsStaged cs → IsStaged (guard_circuit bats margin now cs).circuit
    unfolding guard_circuit
    guard_circuit-IsStaged h = ground (arith, h)

    -- A circuit that is not overloaded, by what its connected batteries measure, is left alone: no
    -- battery is put to standby, no relay is opened, and both phases start afresh.
    pub guard_circuit-calm :
        is_overloaded margin cs (connected bats cs) ≡ false
        → guard_circuit bats margin now cs ≡ record { circuit = calm cs; standby = []; trips = [] }
    unfolding guard_circuit
    guard_circuit-calm h = ground arith

    -- At most one relay of a circuit is opened in a cycle.
    pub guard_circuit_trips_one : length (guard_circuit bats margin now cs).trips ≤ 1
    unfolding guard_circuit hard_trips
    guard_circuit_trips_one = ground arith

    -- A relay of a circuit with its phases in order is opened only if the circuit is overloaded, and
    -- its first phase has started 15 s before or earlier, and its standby phase 10 s before or earlier.
    pub guard_circuit_trips_timed :
        (t : Trip W) (ts : List (Trip W))
        → IsStaged cs
        → (guard_circuit bats margin now cs).trips ≡ t ∷ ts
        → (is_overloaded margin cs (connected bats cs) ≡ true)
          × (started soft_started : ℕ) × (cs.overload_started_at ≡ some started)
          × (cs.soft_remediation_started_at ≡ some soft_started)
          × (started + 15 * second ≤ now)
          × (soft_started + 10 * second ≤ now)
    unfolding guard_circuit hard_trips
    guard_circuit_trips_timed t ts h e = ground (arith, h, e)

module _ {W : Type 0} where
  -- What `stamp_trips` makes of a battery.
  abbrev pub IsStamped : ℕ → BatteryState W → Type 0
  IsStamped now b =
      (b.plug_cut_until ≡ some (now + emergency_cutoff_recovery))
      × (b.plug_relay_state ≡ some false)

  stamp_trips-keeps :
      (now : ℕ) (ts : List (Trip W)) (bats : List (String × BatteryState W)) (id : String)
      → Returns (IsStamped now) (lookup id bats)
      → Returns (IsStamped now) (lookup id (stamp_trips now ts bats))
  unfolding stamp_trips
  stamp_trips-keeps now [] bats id h = h
  stamp_trips-keeps now (t ∷ ts) bats id h =
      stamp_trips-keeps now ts _ id (elim (Option-cases (lookup id bats)) [
        | inl e ↦ ground (arith, e, h)
        | inr (b, e) ↦ ground (arith, e, h, lookup-modify t.id id (stamped now t) bats)
      ])

  -- A battery whose relay is to be opened is marked in the same cycle: as cut for 600 s, and with its
  -- relay off.
  pub stamp_trips-IsStamped :
      (now : ℕ) (ts : List (Trip W)) (bats : List (String × BatteryState W)) (id : String)
      (b : BatteryState W)
      → lookup id bats ≡ some b
      → any (λ (t : Trip W). t.id == id) ts ≡ true
      → Returns (IsStamped now) (lookup id (stamp_trips now ts bats))
  unfolding stamp_trips
  stamp_trips-IsStamped now [] bats id b e a = ground arith
  stamp_trips-IsStamped now (t ∷ ts) bats id b e a =
      let p = lookup-modify t.id id (stamped now t) bats in
      elim (Bool-cases (t.id == id)) [
        | inl q ↦ stamp_trips-keeps now ts _ id (ground (arith, p, q, e))
        | inr q ↦
            stamp_trips-IsStamped now ts _ id b (ground (arith, p, q, e)) (ground (arith, q, a))
      ]

module _ {W : Type 0} ⦃d : Double W⦄ where
  open d use {nat}

  abbrev pub AreStaged : List (String × CircuitState W) → Type 0
  AreStaged = All (λ (e : String × CircuitState W). IsStaged e.1)

  guard_circuits-AreStaged :
      (bats : List (String × BatteryState W)) (margin : W) (now : ℕ)
      (circuits : List (String × CircuitState W))
      → AreStaged circuits
      → AreStaged (guard_circuits bats margin now circuits).0
  unfolding guard_circuits
  guard_circuits-AreStaged bats margin now [] h = tt
  guard_circuits-AreStaged bats margin now ((cid, cs) ∷ rest) (h, hs) = (
    guard_circuit-IsStaged bats margin now cs h,
    guard_circuits-AreStaged bats margin now rest hs,
  )

  -- The safety check of a cycle keeps the phases of all circuits in order, with the feature on or off
  -- and whatever the batteries measure.
  pub enforce_circuit_safety-AreStaged :
      (s : AppState W) (dcfg : DispatcherConfig W) (has_dispatch : Bool) (now : ℕ)
      → AreStaged s.circuits
      → AreStaged (enforce_circuit_safety s dcfg has_dispatch now).0.circuits
  unfolding enforce_circuit_safety
  enforce_circuit_safety-AreStaged s dcfg has_dispatch now h =
      elim (Bool-cases (le dcfg.emergency_cutoff_margin_w (nat 0))) [
        | inl off ↦ rw off h
        | inr on ↦
            rw on
              (guard_circuits-AreStaged s.batteries dcfg.emergency_cutoff_margin_w now s.circuits h)
      ]
