-- ===== src/Writer/Writes/Skipped.antt =====
-- Which commands the writer of src/modbus.rs leaves out.
use mathlib.Core.Bool.{false≢true}
use mathlib.Core.Option.{some-injective, none-ne-some}
use shelly_multiplexer.Prelude.{
  ◌+◌, ◌<◌, ◌^◌, ◌≡◌, ◌↔◌, sym, ◌∙◌, subst, true, false, none, some, arith, Option-cases, inl, inr,
}
use shelly_multiplexer.Double.{Double, IsOrdered, IsExact}
use shelly_multiplexer.Double.Order.{closer_iff}
use shelly_multiplexer.Setpoint.{Setpoint, standby, charge, discharge, to_signed_watts}
use shelly_multiplexer.Writer.{BatteryWriter}
use shelly_multiplexer.Writer.Writes.{should_write}

-- Two setpoints of one direction whose powers are less than 25 W apart.
abbrev pub IsClose : Setpoint → Setpoint → Type 0
IsClose standby standby = Unit
IsClose (charge a) (charge b) = (a < b + 25) × (b < a + 25)
IsClose (discharge a) (discharge b) = (a < b + 25) × (b < a + 25)
IsClose _ _ = ⊥

-- The power of a setpoint is a 16-bit number.
abbrev pub IsWord : Setpoint → Type 0
IsWord standby = Unit
IsWord (charge watts) = watts < 2 ^ 16
IsWord (discharge watts) = watts < 2 ^ 16

module _ {W : Type 0} ⦃d : Double W⦄ (laws : IsOrdered W) (exact : IsExact W)
    (w : BatteryWriter W) where
  skips-IsClose :
      (desired last : Setpoint)
      → w.last_written ≡ some last
      → IsWord desired
      → IsWord last
      → (should_write w desired ≡ false) ↔ IsClose desired last
  unfolding should_write to_signed_watts
  skips-IsClose standby standby e h k =
      ground (arith, e, closer_iff laws exact 0 0 25 (ground arith) (ground arith) (ground arith))
  skips-IsClose (charge a) (charge b) e h k = ground (
    arith,
    e,
    closer_iff laws exact b a 25 k h (ground arith),
    laws.add_comm (d.neg (d.nat a)) (d.nat b),
    laws.neg-neg (d.nat b),
  )
  skips-IsClose (discharge a) (discharge b) e h k =
      ground (arith, e, closer_iff laws exact a b 25 h k (ground arith))
  skips-IsClose desired last e h k = ground (arith, e)

  sends_first : (desired : Setpoint) → w.last_written ≡ none → should_write w desired ≡ true
  unfolding should_write
  sends_first desired e = ground (arith, e)

  -- A command is left out exactly where the writer knows a last command, and both are standby, or
  -- both charge or both discharge with powers less than 25 W apart.
  pub should_write_iff :
      (desired : Setpoint)
      → IsWord desired
      → ((last : Setpoint) → w.last_written ≡ some last → IsWord last)
      → (should_write w desired ≡ false)
        ↔ ((last : Setpoint) × (w.last_written ≡ some last) × IsClose desired last)
  should_write_iff desired fits known = elim (Option-cases w.last_written) [
    | inl e ↦ (
      (λ skipped. absurd (false≢true (sym skipped ∙ sends_first desired e))),
      (λ (last, here, close). absurd (none-ne-some last (sym e ∙ here))),
    )
    | inr (last, e) ↦
        let (out, back) = skips-IsClose desired last e fits (known last e) in
        (
          (λ skipped. (last, e, out skipped)),
          (λ (x, here, close).
              back (subst (λ y. IsClose desired y) (some-injective _ _ (sym here ∙ e)) close)),
        )
  ]
