-- ===== src/Dispatcher/Bounds.antt =====
-- The bounds of one battery in src/dispatcher.rs: `low_bound` (charging, not above zero) and
-- `high_bound` (discharging, not below zero).
use shelly_multiplexer.Prelude.{ℕ, ◌≡◌, ◌⊎◌, true, Option, none, some, arith, if◌then◌else◌}
use shelly_multiplexer.Double.{Double, IsOrdered, ◌≼◌, le}
use shelly_multiplexer.Config.Types.{DispatcherConfig}
use shelly_multiplexer.State.{BatteryState}
use shelly_multiplexer.State.Battery.{
  is_charge_locked, is_discharge_locked, effective_soc_full_pct, effective_soc_empty_pct,
  effective_max_charge_w, effective_max_discharge_w, is_soc_full_gated, is_soc_empty_gated,
}

module _ {W : Type 0} ⦃d : Double W⦄ where
  open d use {above, below, neg, nat}

  unfoldable pub high_bound : BatteryState W → DispatcherConfig W → ℕ → W
  unfolding is_discharge_locked effective_soc_empty_pct effective_max_discharge_w
  high_bound b dcfg now =
      if is_discharge_locked b now
      then nat 0
      else let empty = effective_soc_empty_pct b dcfg.soc_empty_pct in
        elim b.soc_pct [
          | some soc ↦ if le soc empty then nat 0 else effective_max_discharge_w b
          | none ↦ effective_max_discharge_w b
        ]

  unfoldable pub low_bound : BatteryState W → DispatcherConfig W → ℕ → W
  unfolding is_charge_locked effective_soc_full_pct effective_max_charge_w
  low_bound b dcfg now =
      if is_charge_locked b now
      then nat 0
      else let full = effective_soc_full_pct b dcfg.soc_full_pct in
        elim b.soc_pct [
          | some soc ↦ if le full soc then nat 0 else neg (effective_max_charge_w b)
          | none ↦ neg (effective_max_charge_w b)
        ]

  -- An optional power is not below zero and not above a limit.
  abbrev pub IsBelow : Option W → W → Type 0
  IsBelow none limit = Unit
  IsBelow (some w) limit = (nat 0 ≼ w) × (w ≼ limit)

  -- The limits of a battery make sense: no limit is below zero, and a tapered limit is no higher
  -- than the hardware's.
  pub record IsRated (b : BatteryState W) : Type 0 where
    pub charge_ge : nat 0 ≼ b.max_charge_w
    pub discharge_ge : nat 0 ≼ b.max_discharge_w
    pub charge_taper : IsBelow b.charge_taper_w b.max_charge_w
    pub discharge_taper : IsBelow b.discharge_taper_w b.max_discharge_w

  -- The effective limits of a rated battery lie between zero and the hardware's limits.
  pub effective_max_bounds :
      (b : BatteryState W)
      → IsRated b
      → IsBelow (some (effective_max_charge_w b)) b.max_charge_w
        × IsBelow (some (effective_max_discharge_w b)) b.max_discharge_w
  unfolding effective_max_charge_w effective_max_discharge_w
  effective_max_bounds b r = ground arith

  -- A battery that is locked against charging, or whose state of charge is at or above its full
  -- threshold, is never asked to charge.
  pub low_bound_closed :
      (b : BatteryState W) (dcfg : DispatcherConfig W) (now : ℕ)
      → (is_charge_locked b now ≡ true) ⊎ (is_soc_full_gated b dcfg.soc_full_pct ≡ true)
      → low_bound b dcfg now ≡ nat 0
  unfolding low_bound is_soc_full_gated
  low_bound_closed b dcfg now h = ground arith

  -- A battery that is locked against discharging, or whose state of charge is at or below its empty
  -- threshold, is never asked to discharge.
  pub high_bound_closed :
      (b : BatteryState W) (dcfg : DispatcherConfig W) (now : ℕ)
      → (is_discharge_locked b now ≡ true) ⊎ (is_soc_empty_gated b dcfg.soc_empty_pct ≡ true)
      → high_bound b dcfg now ≡ nat 0
  unfolding high_bound is_soc_empty_gated
  high_bound_closed b dcfg now h = ground arith

  module _ (laws : IsOrdered W) where
    open laws use {above-neg, below-neg, below-nat, above-nat_zero}

    -- The bounds of a rated battery lie on their sides of zero and within its hardware limits, so
    -- there is always a power between them.
    pub bounds_around_zero :
        (b : BatteryState W) (dcfg : DispatcherConfig W) (now : ℕ)
        → IsRated b
        → (neg b.max_charge_w ≼ low_bound b dcfg now)
          × (low_bound b dcfg now ≼ nat 0)
          × (nat 0 ≼ high_bound b dcfg now)
          × (high_bound b dcfg now ≼ b.max_discharge_w)
    unfolding low_bound high_bound
    bounds_around_zero b dcfg now r = ground (
      arith,
      r,
      effective_max_bounds b r,
      above-neg b.max_charge_w,
      below-neg b.max_charge_w,
      above-neg (effective_max_charge_w b),
      below-neg (effective_max_charge_w b),
      below-nat 0,
      above-nat_zero,
    )
