-- ===== src/Meter/Gaps.antt =====
-- What the poller of src/real_shelly.rs takes from the socket, and which gaps it integrates over.
use shelly_multiplexer.Prelude.{
  ℕ, ◌-◌, ◌&&◌, ◌≡◌, refl, Bool, true, false, Option, none, some, List, [], ◌∷◌, ℤ, arith, keep_if,
  if◌then◌else◌,
}
use shelly_multiplexer.Double.{Double, lt}
use shelly_multiplexer.Config.Constants.{as_secs_f64}
use shelly_multiplexer.State.{AppState, EmStatusIncoming}
use shelly_multiplexer.State.Energy.{integrate}
use shelly_multiplexer.Meter.{
  Packet, garbage, socket_error, error_frame, empty_frame, bad_frame, status_frame, poll_once,
  meter_tick,
}

module _ {W : Type 0} where
  -- A packet that can end the poll.
  abbrev pub is_for_us : (Option ℤ → Bool) → Packet W → Bool
  is_for_us same garbage = false
  is_for_us same socket_error = true
  is_for_us same (error_frame id) = same id
  is_for_us same (empty_frame id) = same id
  is_for_us same (bad_frame id) = same id
  is_for_us same (status_frame id st) = same id

  -- Packets that are no frame, and frames that answer another request, change nothing about a poll,
  -- wherever they arrive.
  pub poll_once-keep_if :
      (same : Option ℤ → Bool) (ps : List (Packet W))
      → poll_once same ps ≡ poll_once same (keep_if (is_for_us same) ps)
  unfolding poll_once
  poll_once-keep_if same [] = refl
  poll_once-keep_if same (garbage ∷ ps) = poll_once-keep_if same ps
  poll_once-keep_if same (socket_error ∷ ps) = refl
  poll_once-keep_if same (error_frame id ∷ ps) = ground (arith, poll_once-keep_if same ps)
  poll_once-keep_if same (empty_frame id ∷ ps) = ground (arith, poll_once-keep_if same ps)
  poll_once-keep_if same (bad_frame id ∷ ps) = ground (arith, poll_once-keep_if same ps)
  poll_once-keep_if same (status_frame id st ∷ ps) = ground (arith, poll_once-keep_if same ps)

module _ {W : Type 0} ⦃d : Double W⦄ where
  open d use {nat}

  -- The first reading after a failed poll adds no energy, however long the outage was; the reading
  -- after that adds its power over the time since, if that is less than 5 s and not zero.
  pub meter_tick_after_failure :
      (s : AppState W) (last : Option ℕ) (st st' : EmStatusIncoming W) (t0 t1 t2 : ℕ)
      → let first = meter_tick (some st) t1 (meter_tick none t0 (s, last)) in
        let second = meter_tick (some st') t2 first in
        let dt : W = as_secs_f64 (t2 - t1) in
        (first.0.energy ≡ s.energy)
        × (second.0.energy
            ≡ (if lt (nat 0) dt && lt dt (nat 5) then integrate s.energy st' dt else s.energy))
  unfolding meter_tick
  meter_tick_after_failure s last st st' t0 t1 t2 = (refl, refl)
