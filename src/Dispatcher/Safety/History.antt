-- ===== src/Dispatcher/Safety/History.antt =====
-- What must have happened before src/dispatcher.rs opens a plug relay because of an overloaded circuit.
use shelly_multiplexer.Prelude.{
  ℕ, ◌+◌, ◌*◌, ◌≤◌, ◌≡◌, ◌⊎◌, inl, inr, true, some, List, [], ◌∷◌, String, arith, map, keep_if,
}
use shelly_multiplexer.Double.{Double}
use shelly_multiplexer.Config.Constants.{second}
use shelly_multiplexer.State.{BatteryState, CircuitState}
use shelly_multiplexer.Dispatcher.Safety.{
  Trip, connected, not_cut, calm, is_overloaded, guard_circuit,
}
use shelly_multiplexer.Dispatcher.Safety.Escalation.{
  IsStaged, guard_circuit-IsStaged, guard_circuit_trips_timed,
}

-- A check of a circuit: what the batteries measured, and when.
pub record Check (W : Type 0) : Type 0 where
  pub bats : List (String × BatteryState W)
  pub now : ℕ

module _ {W : Type 0} ⦃d : Double W⦄ (bats : List (String × BatteryState W)) (margin : W) (now : ℕ)
    (cs : CircuitState W) where
  -- A running first phase has started with this check, or before.
  overload_step :
      (started : ℕ)
      → (guard_circuit bats margin now cs).circuit.overload_started_at ≡ some started
      → (is_overloaded margin cs (connected bats cs) ≡ true)
        × ((now ≡ started) ⊎ (cs.overload_started_at ≡ some started))
  unfolding guard_circuit
  overload_step started e = ground (arith, e)

  -- A running standby phase has started with this check, which asks for the standby, or before.
  standby_step :
      (asked : ℕ)
      → (guard_circuit bats margin now cs).circuit.soft_remediation_started_at ≡ some asked
      → (now ≡ asked)
          × ((guard_circuit bats margin now cs).standby
              ≡ map (λ (b : BatteryState W). b.id) (keep_if (not_cut now) (connected bats cs)))
        ⊎ (cs.soft_remediation_started_at ≡ some asked)
  unfolding guard_circuit
  standby_step asked e = ground (arith, e)

module _ {W : Type 0} ⦃d : Double W⦄ (margin : W) (cs : CircuitState W) where
  -- The circuit after checks of it, the last of which comes first, from a calm start.
  abbrev pub after : List (Check W) → CircuitState W
  after [] = calm cs
  after (c ∷ before) = (guard_circuit c.bats margin c.now (after before)).circuit

  -- The check found the circuit overloaded, by what its connected batteries measured.
  abbrev pub IsOver : Check W → List (Check W) → Type 0
  IsOver c before = is_overloaded margin (after before) (connected c.bats (after before)) ≡ true

  -- All checks have found the circuit overloaded, since one at the time `started`.
  abbrev pub IsOverSince : ℕ → List (Check W) → Type 0
  IsOverSince started [] = ⊥
  IsOverSince started (c ∷ before) =
      IsOver c before × ((c.now ≡ started) ⊎ IsOverSince started before)

  -- One of the checks, at the time `asked`, has asked for the standby of every connected battery that
  -- was not cut.
  abbrev pub HasAsked : ℕ → List (Check W) → Type 0
  HasAsked asked [] = ⊥
  HasAsked asked (c ∷ before) =
      (c.now ≡ asked)
        × ((guard_circuit c.bats margin c.now (after before)).standby
            ≡ map (λ (b : BatteryState W). b.id)
                (keep_if (not_cut c.now) (connected c.bats (after before))))
      ⊎ HasAsked asked before

  -- What the times in the circuit mean for the checks before.
  record IsTrue (checks : List (Check W)) : Type 0 where
    over :
        (started : ℕ)
        → (after checks).overload_started_at ≡ some started
        → IsOverSince started checks
    asked :
        (asked : ℕ)
        → (after checks).soft_remediation_started_at ≡ some asked
        → HasAsked asked checks
    staged : IsStaged (after checks)

  history : (checks : List (Check W)) → IsTrue checks
  history [] = record {
    over = λ started e. ground (arith, e);
    asked = λ asked e. ground (arith, e);
    staged = tt;
  }
  history (c ∷ before) = record {
    over = λ started e.
        let (over, since) = overload_step c.bats margin c.now (after before) started e in
        (
          over,
          elim since [
            | inl here ↦ inl here
            | inr earlier ↦ inr ((history before).over started earlier)
          ],
        );
    asked = λ asked e. elim (standby_step c.bats margin c.now (after before) asked e) [
      | inl here ↦ inl here
      | inr earlier ↦ inr ((history before).asked asked earlier)
    ];
    staged = guard_circuit-IsStaged c.bats margin c.now (after before) (history before).staged;
  }

  -- A relay of a circuit is opened by a check only if, from a calm start, all checks have found the
  -- circuit overloaded since one that came 15 s or more before, and one of them, that came 10 s or
  -- more before, has asked for the standby of every connected battery that was not cut.
  pub guard_circuit_trips_late :
      (c : Check W) (before : List (Check W)) (t : Trip W) (ts : List (Trip W))
      → (guard_circuit c.bats margin c.now (after before)).trips ≡ t ∷ ts
      → (started : ℕ) × (asked : ℕ) × IsOver c before
        × IsOverSince started before
        × HasAsked asked before
        × (started + 15 * second ≤ c.now)
        × (asked + 10 * second ≤ c.now)
  guard_circuit_trips_late c before t ts e =
      let h = history before in
      let (over, started, asked, since, soft, late, later) =
        guard_circuit_trips_timed c.bats margin c.now (after before) t ts h.staged e in
      (started, asked, over, h.over started since, h.asked asked soft, late, later)
