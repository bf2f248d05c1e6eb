-- ===== src/VirtualShelly/Polls.antt =====
-- Which polls src/virtual_shelly.rs answers, and with what power.
use mathlib.Core.Bool.{false≢true}
use mathlib.Core.Option.{none-ne-some}
use shelly_multiplexer.Prelude.{
  ℕ, ◌-◌, ◌<◌, ◌≡◌, ◌⊎◌, ◌↔◌, sym, ◌∙◌, ap, true, none, some, String, arith, lookup, string_key,
  inl, inr, Option-cases, Bool-cases,
}
use shelly_multiplexer.Double.{Double, ◌≼◌}
use shelly_multiplexer.Config.Constants.{as_secs_f64}
use shelly_multiplexer.Config.Types.{IpAddr, ip_key}
use shelly_multiplexer.State.{AppState, CircuitState, BatteryState}
use shelly_multiplexer.Dispatcher.Mute.{is_muted}
use shelly_multiplexer.VirtualShelly.{handle_poll, is_mute, pulse_value}
use shelly_multiplexer.VirtualShelly.Methods.{answer_poll}
use shelly_multiplexer.VirtualShelly.Answers.{
  error, silence, shown, ask, milliwatts, on_phase_a, is_fresh, expected, answer_expected,
  fresh_power, stale_error,
}

module _ {W : Type 0} ⦃d : Double W⦄ where
  -- A battery of the peer on a circuit that is silent beyond `now`.
  abbrev pub IsMuted : AppState W → IpAddr → ℕ → Type 0
  IsMuted s peer now =
      (id : String) × (lookup peer s.by_addr ≡ some id)
      × (b : BatteryState W) × (lookup id s.batteries ≡ some b)
      × (c : CircuitState W) × (lookup b.circuit s.circuits ≡ some c)
      × (until : ℕ) × (c.silent_until ≡ some until)
      × (now < until)

  abbrev pub IsNew : AppState W → W → ℕ → Type 0
  IsNew s stale now = (t : ℕ) × (s.snapshot.age ≡ some t) × (as_secs_f64 (now - t) ≼ stale)

  is_mute-IsMuted :
      (s : AppState W) (peer : IpAddr) (now : ℕ)
      → is_mute s (lookup peer s.by_addr) now ≡ true
      → IsMuted s peer now
  unfolding is_mute is_muted
  is_mute-IsMuted s peer now mute = elim (Option-cases (lookup peer s.by_addr)) [
    | inl e ↦ absurd (ground (arith, mute, e))
    | inr (id, known) ↦ elim (Option-cases (lookup id s.batteries)) [
      | inl e ↦ absurd (ground (arith, mute, known, e))
      | inr (b, here) ↦ elim (Option-cases (lookup b.circuit s.circuits)) [
        | inl e ↦ absurd (ground (arith, mute, known, here, e))
        | inr (c, on) ↦ elim (Option-cases c.silent_until) [
          | inl e ↦ absurd (ground (arith, mute, known, here, on, e))
          | inr (until, e) ↦
              (id, known, b, here, c, on, until, e, ground (arith, mute, known, here, on, e))
        ]
      ]
    ]
  ]

  IsMuted-is_mute :
      (s : AppState W) (peer : IpAddr) (now : ℕ)
      → IsMuted s peer now
      → is_mute s (lookup peer s.by_addr) now ≡ true
  unfolding is_mute is_muted
  IsMuted-is_mute s peer now (id, known, b, here, c, on, until, e, later) =
      ground (arith, known, here, on, e, later)

  dropped_iff :
      (s : AppState W) (peer : IpAddr) (now : ℕ)
      → ((handle_poll s peer now).1 ≡ none) ↔ IsMuted s peer now
  unfolding handle_poll
  dropped_iff s peer now = (
    (λ dropped. is_mute-IsMuted s peer now (ground (arith, dropped))),
    (λ muted. ground (arith, IsMuted-is_mute s peer now muted)),
  )

  is_fresh_iff :
      (s : AppState W) (stale : W) (now : ℕ)
      → (is_fresh s.snapshot.age stale now ≡ true) ↔ IsNew s stale now
  is_fresh_iff s stale now = ground arith

  due_value :
      (s : AppState W) (peer : IpAddr) (now : ℕ) (v : W)
      → (handle_poll s peer now).1 ≡ some v
      → v ≡ pulse_value s (lookup peer s.by_addr)
  unfolding handle_poll
  due_value s peer now v e = ground (arith, e)

  -- A poll of EM.GetStatus, of whatever peer, gets no response where the peer's battery is on a circuit
  -- that is silent beyond that time. Every other poll gets the power that is due to it, on phase A and
  -- to thousandths of a watt, where there is a snapshot of the grid that is not older than the stale
  -- time, and an error where there is none or it is older.
  pub poll_answered :
      (s : AppState W) (stale : W) (peer : IpAddr) (now : ℕ)
      → let seen = shown (answer_poll s stale peer "em.getstatus" now).1 in
        IsMuted s peer now × (seen ≡ silence)
        ⊎ (¬ IsMuted s peer now)
          × IsNew s stale now
          × (seen ≡ on_phase_a (milliwatts (pulse_value s (lookup peer s.by_addr))))
        ⊎ (¬ IsMuted s peer now) × (¬ IsNew s stale now) × (seen ≡ error)
  poll_answered s stale peer now =
      let age = s.snapshot.age in
      let answer = answer_expected s stale peer "em.getstatus" now in
      elim (Option-cases (handle_poll s peer now).1) [
        | inl dropped ↦ inl (
          (dropped_iff s peer now).0 dropped,
          answer ∙ ap (λ o. expected age stale (ask now) o) dropped,
        )
        | inr (v, due) ↦
            let loud : ¬ IsMuted s peer now =
              λ muted. none-ne-some v (sym ((dropped_iff s peer now).1 muted) ∙ due) in
            let value = due ∙ ap some (due_value s peer now v due) in
            let seen = answer ∙ ap (λ o. expected age stale (ask now) o) value in
            elim (Bool-cases (is_fresh age stale now)) [
              | inl new ↦ inr (
                  inl (
                    loud,
                    (is_fresh_iff s stale now).0 new,
                    seen ∙ fresh_power age stale _ now new,
                  ))
              | inr old ↦ inr (
                  inr (
                    loud,
                    (λ new. absurd (false≢true (sym old ∙ (is_fresh_iff s stale now).1 new))),
                    seen ∙ stale_error age stale _ now old,
                  ))
            ]
      ]
