-- ===== src/Meter.antt =====
-- src/real_shelly.rs and src/ha.rs: what the poller of the grid meter and the one of Home Assistant
-- change. The frames arrive parsed; the texts of errors are the libraries'.
pub mod Gaps
use text.Mathlib.Text.{starts_with}
use shelly_multiplexer.Prelude.{
  ℕ, ◌-◌, ◌&&◌, Bool, true, false, not, Option, none, some, List, [], ◌∷◌, String, ℤ, if◌then◌else◌,
  map_or, modify, string_key,
}
use shelly_multiplexer.Prelude.Text.{append_text}
use shelly_multiplexer.Double.{Double, lt}
use shelly_multiplexer.Config.Constants.{as_secs_f64}
use shelly_multiplexer.State.{AppState, BatteryState, EmStatusIncoming, EnergyCounters}
use shelly_multiplexer.State.Energy.{integrate}

-- What arrives at the socket while a poll waits: a packet that is no JSON frame, or a frame with its
-- id and one of an error, no result, a result that does not parse and a status; or an error of the
-- socket. The end of the list is the timeout.
pub data Packet (W : Type 0) : Type 0 where
  garbage : Packet W
  socket_error : Packet W
  error_frame : Option ℤ → Packet W
  empty_frame : Option ℤ → Packet W
  bad_frame : Option ℤ → Packet W
  status_frame : Option ℤ → EmStatusIncoming W → Packet W

module _ {W : Type 0} where
  -- `poll_once` after its request is sent: `same` tells whether an id is the request's.
  unfoldable pub poll_once : (Option ℤ → Bool) → List (Packet W) → Option (EmStatusIncoming W)
  poll_once same [] = none
  poll_once same (garbage ∷ ps) = poll_once same ps
  poll_once same (socket_error ∷ ps) = none
  poll_once same (error_frame id ∷ ps) =
      let rest = poll_once same ps in if same id then none else rest
  poll_once same (empty_frame id ∷ ps) =
      let rest = poll_once same ps in if same id then none else rest
  poll_once same (bad_frame id ∷ ps) =
      let rest = poll_once same ps in if same id then none else rest
  poll_once same (status_frame id st ∷ ps) =
      let rest = poll_once same ps in if same id then some st else rest

  -- The poll of Home Assistant.
  unfoldable pub ha_reading : String → String → W → ℕ → AppState W → AppState W
  ha_reading battery_id entity_id soc now s = record s {
    batteries =
        modify battery_id
          (λ b. record b {
            soc_pct = some soc;
            soc_at = some now;
            soc_source = some (append_text "ha:" entity_id);
            last_error =
                if map_or b.last_error false (λ e. starts_with e "ha ") then none else b.last_error;
          })
          s.batteries;
  }

  unfoldable pub ha_failure : String → String → AppState W → AppState W
  ha_failure battery_id error s = record s {
    batteries =
        modify battery_id (λ b. record b { last_error = some (append_text "ha SoC: " error) })
          s.batteries;
  }

module _ {W : Type 0} ⦃d : Double W⦄ where
  open d use {nat}

  -- One tick: the state and `last_success` after it.
  unfoldable pub meter_tick :
      Option (EmStatusIncoming W) → ℕ → AppState W × Option ℕ → AppState W × Option ℕ
  meter_tick none now (s, last_success) = (s, none)
  meter_tick (some st) now (s, last_success) =
      let energy : EnergyCounters W = elim last_success [
        | none ↦ s.energy
        | some prev ↦
            let dt = as_secs_f64 (now - prev) in
            if lt (nat 0) dt && lt dt (nat 5) then integrate s.energy st dt else s.energy
      ] in
      (record s { energy = energy; snapshot = record { status = st; age = some now } }, some now)
