-- ===== src/Tests/Pulses.antt =====
-- The theorems about the pulses and the polls of the batteries, on the small installation.
use shelly_multiplexer.Prelude.{
  ℕ, ◌+◌, ◌-◌, ◌*◌, ◌≡◌, refl, ◌⊎◌, true, false, none, some, List, [], ◌∷◌, String, ℤ, negsuc,
  arith, lookup, length, map, Returns, string_key, nat_key,
}
use shelly_multiplexer.Double.{◌≼◌, ◌≺◌, sub, abs}
use shelly_multiplexer.Double.Fixed.{fixed}
use shelly_multiplexer.Config.Constants.{second, as_secs_f64}
use shelly_multiplexer.Config.Types.{v4, ip_key}
use shelly_multiplexer.State.{AppState, BatteryState}
use shelly_multiplexer.State.Startup.{battery_from_config}
use shelly_multiplexer.Dispatcher.Mute.{is_muted}
use shelly_multiplexer.Dispatcher.Pulse.{queue_pulse, detect_outcome}
use shelly_multiplexer.VirtualShelly.{pulse_value}
use shelly_multiplexer.VirtualShelly.Methods.{answer_poll}
use shelly_multiplexer.VirtualShelly.Pulses.{train, popped}
use shelly_multiplexer.VirtualShelly.Answers.{
  error, silence, shown, times, ask, milliwatts, on_phase_a, expected_all, requests, answers-train,
}
use shelly_multiplexer.VirtualShelly.Delivered.{queued_pulse_delivered}
use shelly_multiplexer.VirtualShelly.Polls.{IsMuted, IsNew, poll_answered}
use shelly_multiplexer.VirtualShelly.Verdicts.{pulsed, IsRefused, IsTaken, pulse_judged}
use shelly_multiplexer.Tests.{w, home, settings, now, battery}

-- The left battery with two repeats of a pulse of 300 W to go.
abbrev pulsing : BatteryState ℤ
pulsing = record (battery "left" (w 0)) { pulse_remaining = 2; pending_pulse_w = w 300 }

abbrev pulsing_home : AppState ℤ
pulsing_home = record home { batteries = ("left", pulsing) ∷ [] }

-- A question about the device, which uses up one of them, and two for the power, of which the last
-- comes when the snapshot is stale.
abbrev asked : List (ℕ × String)
asked = (now, "sys.getstatus") ∷ ask (now + second) ∷ ask (now + 10 * second) ∷ []

answers-train_example :
    let after = requests pulsing_home (w 5) (v4 1) asked in
    (map shown after.1
      ≡ expected_all (some now) (w 5) asked (train 2 (w 300) (length (times asked))))
    × (lookup "left" after.0.batteries ≡ some (popped (times asked) pulsing))
unfolding lookup is_muted battery_from_config
answers-train_example =
    answers-train pulsing_home (w 5) (v4 1) "left" pulsing asked refl refl
      (refl, (refl, (refl, tt)))

abbrev queued_home : AppState ℤ
queued_home = record home {
  batteries = ("left", queue_pulse false (w 300) (battery "left" (w 0))) ∷ [];
}

queued_pulse_delivered_example :
    let pulse = on_phase_a (milliwatts (w 300)) in
    let third = requests queued_home (w 5) (v4 1) (ask now ∷ ask (now + 1) ∷ ask (now + 2) ∷ []) in
    let fourth =
      requests queued_home
        (w 5)
        (v4 1)
        (ask now ∷ ask (now + 1) ∷ ask (now + 2) ∷ ask (now + 3) ∷ []) in
    (map shown fourth.1 ≡ pulse ∷ pulse ∷ pulse ∷ on_phase_a (milliwatts (w 0)) ∷ [])
    × Returns
        (λ (b' : BatteryState ℤ).
          (b'.pulse_remaining ≡ 0) × (b'.last_pulse_completed_at ≡ some (now + 2)))
        (lookup "left" third.0.batteries)
unfolding lookup is_muted battery_from_config as_secs_f64
queued_pulse_delivered_example =
    queued_pulse_delivered queued_home (w 5) (v4 1) "left" (battery "left" (w 0)) (w 300) now
      (now + 1) (now + 2) (now + 3) refl refl (ground arith) (refl, (refl, (refl, (refl, tt))))
      (refl, (refl, (refl, (refl, tt))))

poll_answered_example :
    let seen = shown (answer_poll pulsing_home (w 5) (v4 1) "em.getstatus" now).1 in
    IsMuted pulsing_home (v4 1) now × (seen ≡ silence)
    ⊎ (¬ IsMuted pulsing_home (v4 1) now)
      × IsNew pulsing_home (w 5) now
      × (seen
          ≡ on_phase_a (milliwatts (pulse_value pulsing_home (lookup (v4 1) pulsing_home.by_addr))))
    ⊎ (¬ IsMuted pulsing_home (v4 1) now) × (¬ IsNew pulsing_home (w 5) now) × (seen ≡ error)
poll_answered_example = poll_answered pulsing_home (w 5) (v4 1) now

-- A pulse of -500 W, after which the plug of the left battery reads the same 100 W.
pulse_judged_example :
    let b = battery "left" (w 100) in
    let after =
      pulsed
        (negsuc 499999)
        (now ∷ now ∷ now ∷ [])
        (w 10)
        (negsuc 99999)
        (some true)
        (now + second)
        b in
    let b' = detect_outcome settings (now + 60 * second) after in
    let moved = abs (sub (w 100) (w 100)) in
    (w 10 ≼ moved) × (b'.last_pulse_delta_w ≡ none) × IsTaken (negsuc 499999) b b'
    ⊎ (moved ≺ w 10)
      × (settings.settle_timeout_s ≼ as_secs_f64 (now + 60 * second - now))
      × (b'.last_pulse_delta_w ≡ none)
      × IsRefused (negsuc 499999) (now + 60 * second) b b'
    ⊎ (moved ≺ w 10)
      × (as_secs_f64 (now + 60 * second - now) ≺ settings.settle_timeout_s)
      × (b' ≡ after)
unfolding battery_from_config
pulse_judged_example =
    pulse_judged settings (battery "left" (w 100)) (negsuc 499999) (w 100) (w 10) (negsuc 99999)
      (some true) now now now (now + second) (now + 60 * second) refl (ground arith)
