-- ===== src/Dispatcher/Night.antt =====
-- `enforce_night_cutoff` of src/dispatcher.rs: the plug of an empty battery is off between sunset and
-- sunrise. The times of the sun are the `sunrise` crate's, a parameter: for a place and a time, today's
-- sunrise and sunset and tomorrow's sunrise, or nothing where there is none or no such place.
pub mod Recovery
use shelly_multiplexer.Prelude.{
  ℕ, ◌+◌, ◌-◌, ◌*◌, Bool, true, false, not, ◌&&◌, ◌||◌, Option, none, some, List, [], ◌∷◌, String,
  ltb, leb, if◌then◌else◌, unwrap_or, is_some, map_or, modify, string_key,
}
use shelly_multiplexer.Double.{Double, lt, le}
use shelly_multiplexer.Config.Constants.{second, night_cutoff_soc_margin_pct}
use shelly_multiplexer.Config.Types.{DispatcherConfig, LocationConfig}
use shelly_multiplexer.State.{AppState, BatteryState, CutReason, night_cutoff, night_cutoff_failed}
use shelly_multiplexer.State.Battery.{effective_soc_empty_pct}

-- What a cycle asks of the plug of a battery.
pub data NightAction : Type 0 where
  leave cut restore : NightAction

-- The batteries whose relays are to be opened and to be closed, with their plugs.
pub record NightRequests : Type 0 where
  pub to_cut : List (String × String)
  pub to_restore : List (String × String)

-- Today's sunrise and sunset, and tomorrow's sunrise.
pub record SolarTimes : Type 0 where
  pub sunrise_today : ℕ
  pub sunset_today : ℕ
  pub sunrise_tomorrow : ℕ

abbrev pub is_night_at : SolarTimes → ℕ → Bool
is_night_at sun now_utc = ltb now_utc sun.sunrise_today || leb sun.sunset_today now_utc

-- The next sunrise on the monotonic clock, or 8 hours from now where it lies in the past.
unfoldable pub recovery_at : SolarTimes → ℕ → ℕ → ℕ
recovery_at sun now_utc now =
    let next_sunrise =
      if ltb now_utc sun.sunrise_today then sun.sunrise_today else sun.sunrise_tomorrow in
    if leb now_utc next_sunrise then now + (next_sunrise - now_utc) else now + 8 * 3600 * second

abbrev pub add_request : NightAction → String × String → NightRequests → NightRequests
add_request leave r q = q
add_request cut r q = record q { to_cut = r ∷ q.to_cut }
add_request restore r q = record q { to_restore = r ∷ q.to_restore }

module _ {W : Type 0} where
  -- `starts_with("night cutoff:")`
  abbrev pub is_night_reason : Option (CutReason W) → Bool
  is_night_reason (some (night_cutoff _ _ _)) = true
  is_night_reason _ = false

  -- The end of the task that opens a relay, with the error of the plug if there was one.
  unfoldable pub night_cut_done : String → Option String → AppState W → AppState W
  night_cut_done id none s = s
  night_cut_done id (some e) s = record s {
    batteries =
        modify id
          (λ b. record b { plug_cut_until = none; plug_cut_reason = some (night_cutoff_failed e) })
          s.batteries;
  }

  -- The end of the task that closes a relay again.
  unfoldable pub night_restore_done : String → Option String → AppState W → AppState W
  night_restore_done id (some e) s = s
  night_restore_done id none s = record s {
    batteries = modify id (λ b. record b { plug_relay_state = some true }) s.batteries;
  }

module _ {W : Type 0} ⦃d : Double W⦄ where
  open d use {add, nat}

  -- `matches!(b.soc_pct, Some(soc) if soc <= empty + margin)`
  unfoldable pub is_empty_at : DispatcherConfig W → BatteryState W → Bool
  is_empty_at dcfg b =
      let empty = effective_soc_empty_pct b dcfg.soc_empty_pct in
      map_or b.soc_pct false (λ soc. le soc (add empty night_cutoff_soc_margin_pct))

  unfoldable pub has_recovered : DispatcherConfig W → BatteryState W → Bool
  has_recovered dcfg b =
      let empty = effective_soc_empty_pct b dcfg.soc_empty_pct in
      map_or b.soc_pct false (λ soc. lt (add empty night_cutoff_soc_margin_pct) soc)

  -- The body of the loop over the batteries.
  unfoldable pub night_step :
      DispatcherConfig W → Bool → ℕ → BatteryState W → BatteryState W × NightAction
  unfolding is_empty_at has_recovered
  night_step dcfg is_night recovery b =
      if is_night && is_empty_at dcfg b && not (is_some b.plug_cut_until)
      then (
        record b {
          plug_cut_until = some recovery;
          plug_cut_reason = some (
              night_cutoff (unwrap_or b.soc_pct (nat 0))
                (effective_soc_empty_pct b dcfg.soc_empty_pct) night_cutoff_soc_margin_pct);
          plug_relay_state = some false;
        },
        cut,
      )
      else if is_night_reason b.plug_cut_reason && (not is_night || has_recovered dcfg b)
      then (record b { plug_cut_until = none; plug_cut_reason = none }, restore)
      else (b, leave)

  unfoldable pub night_each :
      DispatcherConfig W
      → Bool
      → ℕ
      → List (String × BatteryState W)
      → List (String × BatteryState W) × NightRequests
  unfolding night_step
  night_each dcfg is_night recovery [] = ([], record { to_cut = []; to_restore = [] })
  night_each dcfg is_night recovery ((k, b) ∷ rest) =
      let (b', action) = night_step dcfg is_night recovery b in
      let (rest', requests) = night_each dcfg is_night recovery rest in
      ((k, b') ∷ rest', add_request action (b.id, b.plug_url) requests)

  -- Nothing happens where the feature is off, the place is not set, or the sun has no times.
  unfoldable pub enforce_night_cutoff :
      (W → W → ℕ → Option SolarTimes)
      → AppState W
      → DispatcherConfig W
      → LocationConfig W
      → ℕ
      → ℕ
      → AppState W × NightRequests
  unfolding night_each recovery_at
  enforce_night_cutoff solar s dcfg location now_utc now =
      let idle : AppState W × NightRequests = (s, record { to_cut = []; to_restore = [] }) in
      if not dcfg.night_cutoff_enabled then idle else elim location.latitude [
        | none ↦ idle
        | some lat ↦ elim location.longitude [
          | none ↦ idle
          | some lon ↦ elim (solar lat lon now_utc) [
            | none ↦ idle
            | some sun ↦
                let (batteries, requests) =
                  night_each dcfg (is_night_at sun now_utc) (recovery_at sun now_utc now)
                    s.batteries in
                (record s { batteries = batteries }, requests)
          ]
        ]
      ]
