-- ===== src/Setpoint/Bounds.antt =====
-- What src/modbus.rs guarantees of a `Setpoint` made from signed watts.
use shelly_multiplexer.Prelude.{
  ◌≤◌, ◌≡◌, ◌⊎◌, inl, inr, ◌↔◌, none, some, arith, Option-cases, Bool-cases,
}
use shelly_multiplexer.Double.{Double, IsOrdered, ◌≼◌, ◌≺◌, lt, abs, min, clamp, to_u16}
use shelly_multiplexer.Double.Order.{abs_lem, nat_le}
use shelly_multiplexer.Setpoint.{
  Setpoint, standby, charge, discharge, from_signed_watts, to_signed_watts, hard_max_w,
}
use shelly_multiplexer.Config.Constants.{marstek_min_w}

module _ {W : Type 0} ⦃d : Double W⦄ where
  open d use {above, below, is_negative, neg, add, nat, floor}

  -- What a setpoint may command: nothing, or 50 W to 2500 W, at most the battery's own limit and
  -- in the direction that was asked for.
  abbrev pub IsSafe : W → W → W → Setpoint → Type 0
  IsSafe w max_charge max_discharge standby = abs w ≺ marstek_min_w
  IsSafe w max_charge max_discharge (charge watts) =
      (50 ≤ watts) × (watts ≤ 2500) × (nat watts ≼ max_charge) × (w ≺ nat 0)
  IsSafe w max_charge max_discharge (discharge watts) =
      (50 ≤ watts) × (watts ≤ 2500) × (nat watts ≼ max_discharge) × (nat 0 ≺ w)

  -- The commands that a battery with limits of 50 W to 2500 W can be given.
  abbrev pub IsWithin : W → W → Setpoint → Type 0
  IsWithin max_charge max_discharge standby = Unit
  IsWithin max_charge max_discharge (charge watts) =
      (50 ≤ watts) × (watts ≤ 2500) × (nat watts ≼ max_charge)
  IsWithin max_charge max_discharge (discharge watts) =
      (50 ≤ watts) × (watts ≤ 2500) × (nat watts ≼ max_discharge)

  module _ (laws : IsOrdered W) where
    open laws use {
      one_side, above-neg, below-neg, neg-neg, sign_below, sign_above, below-nat, above-nat_zero,
      nat_lt, floor-nat, floor_mono, nat_floor,
    }

    -- A clamp to 50 W and the smaller of a limit and 2500 W, as whole watts.
    clamp-watts :
        (x limit y : W)
        → clamp x marstek_min_w (min limit hard_max_w) ≡ some y
        → (50 ≤ to_u16 y) × (to_u16 y ≤ 2500) × (nat (to_u16 y) ≼ limit)
    clamp-watts x limit y e = ground (
      arith,
      below-nat 50,
      below-nat 2500,
      floor-nat 50,
      floor-nat 2500,
      floor_mono (nat 50) y,
      floor_mono y (nat 2500),
      nat_floor y,
      one_side y,
      one_side (nat 50),
    )

    clamp-none_iff :
        (x limit : W)
        → (clamp x marstek_min_w (min limit hard_max_w) ≡ none) ↔ (limit ≺ marstek_min_w)
    clamp-none_iff x limit = ground (arith, nat_lt 50 2500, below-nat 50, below-nat 2500)

    -- Every setpoint that `from_signed_watts` returns is safe.
    pub from_signed_watts-IsSafe :
        (w max_charge max_discharge : W) {sp : Setpoint}
        → from_signed_watts w max_charge max_discharge ≡ some sp
        → IsSafe w max_charge max_discharge sp
    unfolding from_signed_watts
    from_signed_watts-IsSafe w mc md {sp = standby} e = ground arith
    from_signed_watts-IsSafe w mc md {sp = charge watts} e =
        elim (Option-cases (clamp (neg w) marstek_min_w (min mc hard_max_w))) [
          | inl f ↦ ground arith
          | inr (y, f) ↦ ground (arith, clamp-watts (neg w) mc y f, below-nat 0)
        ]
    from_signed_watts-IsSafe w mc md {sp = discharge watts} e =
        elim (Option-cases (clamp w marstek_min_w (min md hard_max_w))) [
          | inl f ↦ ground arith
          | inr (y, f) ↦ ground (
            arith,
            clamp-watts w md y f,
            one_side w,
            abs_lem laws w,
            below-nat 0,
            above-nat_zero,
            nat_lt 0 50,
            below-nat 50,
          )
        ]

    -- `from_signed_watts` panics exactly when the setpoint is not a standby and the limit of its
    -- direction is below 50 W.
    pub from_signed_watts_panics :
        (w max_charge max_discharge : W)
        → (from_signed_watts w max_charge max_discharge ≡ none) ↔ (
            (marstek_min_w ≼ abs w)
            × ((w ≺ nat 0) × (max_charge ≺ marstek_min_w)
                ⊎ (nat 0 ≼ w) × (max_discharge ≺ marstek_min_w)))
    unfolding from_signed_watts
    from_signed_watts_panics w mc md = elim (Bool-cases (lt (abs w) marstek_min_w)) [
      | inl small ↦ ground arith
      | inr large ↦ elim (Bool-cases (lt w (nat 0))) [
        | inl c ↦ ground (arith, clamp-none_iff (neg w) mc)
        | inr d ↦ ground (arith, clamp-none_iff w md)
      ]
    ]

    -- Round trip: a command of 50 W to 2500 W within the battery's limit, or a standby, is read back
    -- from its signed watts.
    pub from_signed_watts-to_signed_watts :
        (sp : Setpoint) (max_charge max_discharge : W)
        → IsWithin max_charge max_discharge sp
        → from_signed_watts (to_signed_watts sp) max_charge max_discharge ≡ some sp
    unfolding from_signed_watts to_signed_watts
    from_signed_watts-to_signed_watts standby mc md h =
        ground (arith, abs_lem laws (nat 0), above-nat_zero, below-nat 0, nat_lt 0 50, below-nat 50)
    from_signed_watts-to_signed_watts (charge n) mc md h =
        let size : 50 ≤ n = h.0 in
        ground (
          arith,
          abs_lem laws (neg (nat n)),
          neg-neg (nat n),
          above-neg (nat n),
          below-neg (nat n),
          below-nat n,
          below-nat 0,
          above-nat_zero,
          below-nat 50,
          below-nat 2500,
          nat_le laws 50 n,
          nat_le laws n 2500,
          nat_lt 0 50,
          floor-nat n,
        )
    from_signed_watts-to_signed_watts (discharge n) mc md h = ground (
      arith,
      abs_lem laws (nat n),
      below-nat n,
      below-nat 0,
      above-nat_zero,
      below-nat 50,
      below-nat 2500,
      nat_le laws 50 n,
      nat_le laws n 2500,
      nat_lt 0 50,
      floor-nat n,
    )
