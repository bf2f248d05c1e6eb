-- ===== src/Dispatcher/Night/Recovery.antt =====
-- When src/dispatcher.rs switches a plug for the night, and back.
use shelly_multiplexer.Prelude.{ℕ, ◌<◌, ◌≡◌, ◌≢◌, ◌⊎◌, ◌↔◌, Bool, true, false, none, some, arith}
use shelly_multiplexer.Double.{Double, ◌≼◌, ◌≺◌}
use shelly_multiplexer.Config.Types.{DispatcherConfig}
use shelly_multiplexer.State.{BatteryState, night_cutoff}
use shelly_multiplexer.State.Battery.{effective_soc_empty_pct}
use shelly_multiplexer.Dispatcher.Night.{
  leave, cut, restore, SolarTimes, is_night_at, recovery_at, is_night_reason, is_empty_at,
  has_recovered, night_step,
}

-- At night, before tomorrow's sunrise, the recovery of a cut lies in the future.
pub recovery_at_next :
    (sun : SolarTimes) (now_utc now : ℕ)
    → is_night_at sun now_utc ≡ true
    → now_utc < sun.sunrise_tomorrow
    → now < recovery_at sun now_utc now
unfolding recovery_at
recovery_at_next sun u n night before = ground arith

module _ {W : Type 0} ⦃d : Double W⦄ where
  -- The charge at which a battery counts as empty for the night.
  abbrev pub threshold : DispatcherConfig W → BatteryState W → W
  threshold dcfg b = d.add (effective_soc_empty_pct b dcfg.soc_empty_pct) (d.nat 2)

  abbrev pub IsNightCut : BatteryState W → Type 0
  IsNightCut b =
      (soc : W) × (empty : W) × (margin : W) × (b.plug_cut_reason
        ≡ some (night_cutoff soc empty margin))

  -- A plug is cut exactly at night, where no cut is in force and the charge is known and not above the
  -- empty threshold plus 2 %. A plug that was cut for the night is restored exactly by day, or where the
  -- charge is known and above that; no other plug is. And a cut lasts: the next check of the
  -- night, with the same charge, leaves the battery as it is, and the next one by day restores it.
  pub night_step_rule :
      (dcfg : DispatcherConfig W) (is_night : Bool) (recovery later : ℕ) (b : BatteryState W)
      → let after = night_step dcfg is_night recovery b in
        ((after.1 ≡ cut) ↔ (
          (is_night ≡ true)
          × (b.plug_cut_until ≡ none)
          × ((soc : W) × (b.soc_pct ≡ some soc) × (soc ≼ threshold dcfg b))))
        × ((after.1 ≡ restore) ↔ (
            IsNightCut b
            × ((is_night ≡ false)
                ⊎ ((soc : W) × (b.soc_pct ≡ some soc) × (threshold dcfg b ≺ soc)))))
        × ((after.1 ≢ cut)
            ⊎ (night_step dcfg true later after.0 ≡ (after.0, leave))
              × ((night_step dcfg false later after.0).1 ≡ restore)
              × (after.0.plug_cut_until ≡ some recovery)
              × (after.0.plug_relay_state ≡ some false))
  unfolding night_step is_empty_at has_recovered effective_soc_empty_pct
  night_step_rule dcfg is_night recovery later b = (ground arith, ground arith, ground arith)

  -- A battery whose night cut is over is asked to be restored once: the next cycle of the day leaves
  -- it, with the relay as it was, whether or not the plug has been switched.
  pub restore_asked_once :
      (dcfg : DispatcherConfig W) (recovery later : ℕ) (b : BatteryState W)
      → is_night_reason b.plug_cut_reason ≡ true
      → let first = night_step dcfg false recovery b in
        (first.1 ≡ restore)
        × (first.0.plug_relay_state ≡ b.plug_relay_state)
        × (night_step dcfg false later first.0 ≡ (first.0, leave))
  unfolding night_step
  restore_asked_once dcfg recovery later b h = ground (arith, h)
