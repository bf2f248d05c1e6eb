-- ===== src/State/Battery.antt =====
-- The methods of `BatteryState` in src/state.rs that read it. `now` is the clock at the call.

use shelly_multiplexer.Prelude.{
  ℕ, ◌-◌, Bool, true, false, ◌&&◌, Option, none, some, ltb, leb, if◌then◌else◌, unwrap_or, map_or,
  or_else,
}
use shelly_multiplexer.Double.{Double, lt, le}
use shelly_multiplexer.Config.Constants.{as_secs_f64}
use shelly_multiplexer.State.{BatteryState}

module _ {W : Type 0} ⦃d : Double W⦄ where
  open d use {neg, mul, nat, ratio}

  -- The last clause of the two settle tests: the plug moved after `since`, and has been still.
  moved_then_still : BatteryState W → ℕ → W → ℕ → Bool
  moved_then_still b since stable_duration_s now = elim b.last_plug_movement_at [
    | some t ↦ leb since t && le stable_duration_s (as_secs_f64 (now - t))
    | none ↦ false
  ]

  unfoldable pub pulse_settled : BatteryState W → W → W → ℕ → Bool
  unfolding moved_then_still
  pulse_settled b stable_duration_s settle_timeout_s now =
      if ltb 0 b.pulse_remaining then false else elim b.last_pulse_completed_at [
        | none ↦ true
        | some pulse_done ↦
            if le settle_timeout_s (as_secs_f64 (now - pulse_done))
            then true
            else moved_then_still b pulse_done stable_duration_s now
      ]

  unfoldable pub is_plug_fresh : BatteryState W → ℕ → W → Bool
  is_plug_fresh b now stale_s = elim b.last_plug_at [
    | some t ↦ le (as_secs_f64 (now - t)) stale_s
    | none ↦ false
  ]

  unfoldable pub modbus_settled : BatteryState W → W → W → ℕ → Bool
  unfolding moved_then_still
  modbus_settled b stable_duration_s settle_timeout_s now = elim b.last_modbus_write_at [
    | none ↦ true
    | some written_at ↦
        if le settle_timeout_s (as_secs_f64 (now - written_at))
        then true
        else moved_then_still b written_at stable_duration_s now
  ]

  unfoldable pub effective_soc_full_pct : BatteryState W → W → W
  effective_soc_full_pct b fallback = unwrap_or (or_else b.soc_full_pct b.bms_full_pct) fallback

  unfoldable pub effective_soc_empty_pct : BatteryState W → W → W
  effective_soc_empty_pct b fallback = unwrap_or (or_else b.soc_empty_pct b.bms_empty_pct) fallback

  -- `match (soc, taper_soc, taper_w) { (Some, Some, Some) if test => taper_w, _ => hardware }`
  abbrev tapered : Option W → Option W → Option W → (W → W → Bool) → W → W
  tapered (some soc) (some taper_soc) (some taper_w) test hardware =
      if test soc taper_soc then taper_w else hardware
  tapered _ _ _ test hardware = hardware

  unfoldable pub effective_max_charge_w : BatteryState W → W
  effective_max_charge_w b =
      tapered b.soc_pct b.charge_taper_soc_pct b.charge_taper_w (λ soc t. le t soc) b.max_charge_w

  unfoldable pub effective_max_discharge_w : BatteryState W → W
  effective_max_discharge_w b =
      tapered b.soc_pct b.discharge_taper_soc_pct b.discharge_taper_w (λ soc t. le soc t)
        b.max_discharge_w

  unfoldable pub is_charge_tapered : BatteryState W → Bool
  unfolding effective_max_charge_w
  is_charge_tapered b = lt (effective_max_charge_w b) b.max_charge_w

  unfoldable pub is_discharge_tapered : BatteryState W → Bool
  unfolding effective_max_discharge_w
  is_discharge_tapered b = lt (effective_max_discharge_w b) b.max_discharge_w

  unfoldable pub is_soc_full_gated : BatteryState W → W → Bool
  unfolding effective_soc_full_pct
  is_soc_full_gated b fallback = elim b.soc_pct [
    | some soc ↦ le (effective_soc_full_pct b fallback) soc
    | none ↦ false
  ]

  unfoldable pub is_soc_empty_gated : BatteryState W → W → Bool
  unfolding effective_soc_empty_pct
  is_soc_empty_gated b fallback = elim b.soc_pct [
    | some soc ↦ le soc (effective_soc_empty_pct b fallback)
    | none ↦ false
  ]

  unfoldable pub is_at_charge_limit : BatteryState W → Bool
  unfolding effective_max_charge_w
  is_at_charge_limit b = elim b.last_plug_w [
    | none ↦ false
    | some plug ↦
        if le (nat 0) plug
        then false
        else lt (nat 0) (effective_max_charge_w b)
          && le (mul (effective_max_charge_w b) (ratio 95 100)) (neg plug)
  ]

  unfoldable pub is_at_discharge_limit : BatteryState W → Bool
  unfolding effective_max_discharge_w
  is_at_discharge_limit b = elim b.last_plug_w [
    | none ↦ false
    | some plug ↦
        if le plug (nat 0)
        then false
        else lt (nat 0) (effective_max_discharge_w b)
          && le (mul (effective_max_discharge_w b) (ratio 95 100)) plug
  ]

-- `until.map(|t| t > now).unwrap_or(false)`
abbrev pub later_than : Option ℕ → ℕ → Bool
later_than until now = map_or until false (λ t. ltb now t)

unfoldable pub is_charge_locked : {W : Type 0} → BatteryState W → ℕ → Bool
is_charge_locked b now = later_than b.charge_locked_until now

unfoldable pub is_discharge_locked : {W : Type 0} → BatteryState W → ℕ → Bool
is_discharge_locked b now = later_than b.discharge_locked_until now
