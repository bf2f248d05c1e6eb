-- ===== src/Writer/Init/Started.antt =====
-- When the init loop of the writer in src/modbus.rs ends.
use mathlib.Core.Bool.{false≢true}
use shelly_multiplexer.Prelude.{
  ℕ, zero, suc, ◌+◌, ◌≤◌, ◌<◌, ◌≡◌, sym, ◌∙◌, Bool, true, false, arith, on_each,
}
use shelly_multiplexer.Double.{Double}
use shelly_multiplexer.Wire.{acknowledged, init_writes, open_conn, write_reg}
use shelly_multiplexer.Writer.{Bus, Session, ensure_conn, drop_ctx, with_battery, record_error}
use shelly_multiplexer.Writer.Init.{init_dispatch_on, init_attempt, init_loop}

-- From the operation number `n` on, the network carries everything.
abbrev pub RecoversAt : Bus → ℕ → Type 0
RecoversAt bus n = (i : ℕ) → n ≤ i → (bus.net.opens i ≡ true) × (bus.net.fate i ≡ acknowledged)

module _ {W : Type 0} ⦃d : Double W⦄ where
  -- An attempt on a network that has recovered succeeds.
  attempt_succeeds :
      (bus : Bus) (n : ℕ) (s : Session W)
      → RecoversAt bus n
      → n ≤ s.line.sent
      → (init_attempt bus s).0 ≡ true
  unfolding init_attempt init_dispatch_on ensure_conn init_writes write_reg open_conn
  attempt_succeeds bus n s recovers late =
      ground (arith, recovers s.line.sent, recovers (s.line.sent + 1), recovers (s.line.sent + 2))

  -- A failed attempt has sent something.
  attempt_sends :
      (bus : Bus) (s : Session W)
      → (init_attempt bus s).0 ≡ false
      → s.line.sent < (init_attempt bus s).1.line.sent
  unfolding init_attempt init_dispatch_on ensure_conn init_writes write_reg open_conn record_error
      with_battery drop_ctx
  attempt_sends bus s failed = ground (arith, failed)

  abbrev Ended : Bool × Session W → Type 0
  Ended r = r.0 ≡ true

  ends_within :
      (bus : Bus) (n rounds : ℕ) (s : Session W)
      → RecoversAt bus n
      → n ≤ s.line.sent + rounds
      → (init_loop bus (suc rounds) s).0 ≡ true
  unfolding init_loop
  ends_within bus n zero s recovers enough =
      on_each Ended (init_attempt bus s).0 (λ done. done)
        (λ failed.
          absurd
            (false≢true (sym failed ∙ attempt_succeeds bus n s recovers (omega (arith, enough)))))
  ends_within bus n (suc rounds) s recovers enough =
      let next = (init_attempt bus s).1 in
      on_each Ended (init_attempt bus s).0 (λ done. done)
        (λ failed.
          ends_within bus n rounds next recovers
            (omega (arith, enough, attempt_sends bus s failed)))

  -- If the network carries everything from the operation number `n` on, the init loop ends within
  -- `n + 1` rounds, from whatever state it starts.
  pub init_loop_ends :
      (bus : Bus) (n : ℕ) (s : Session W) → RecoversAt bus n → (init_loop bus (suc n) s).0 ≡ true
  init_loop_ends bus n s recovers = ends_within bus n n s recovers (omega arith)
