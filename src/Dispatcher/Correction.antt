-- ===== src/Dispatcher/Correction.antt =====
-- `compute_grid_correction` of src/dispatcher.rs.
use shelly_multiplexer.Prelude.{ℕ, ◌≡◌, ◌⊎◌, arith, if◌then◌else◌}
use shelly_multiplexer.Double.{Double, IsOrdered, IsExact, ◌≼◌, ◌≺◌, lt, sub, max}
use shelly_multiplexer.Config.Constants.{safety_margin_w, marstek_min_w}

module _ {W : Type 0} ⦃d : Double W⦄ where
  open d use {above, below, neg, add, mul, div, nat}

  unfoldable pub idle_threshold : ℕ → W
  idle_threshold eligible_count =
      max (div (mul marstek_min_w (nat eligible_count)) (nat 2)) safety_margin_w

  unfoldable pub compute_grid_correction : W → W → ℕ → W
  compute_grid_correction grid_w current_total eligible_count =
      let margin : W = safety_margin_w in
      let threshold : W = idle_threshold eligible_count in
      if lt current_total (neg threshold)
      then sub grid_w (neg margin)
      else if lt threshold current_total
      then sub grid_w margin
      else if lt margin grid_w
      then sub grid_w margin
      else if lt grid_w (neg margin)
      then sub grid_w (neg margin)
      else nat 0

  -- The correction `c` is above zero where `x` is above `y`, below zero where it is below, and zero
  -- where the two are equal.
  abbrev pub Follows : W → W → W → Type 0
  Follows x y c =
      (y ≺ x) × (nat 0 ≺ c)
      ⊎ (x ≺ y) × (c ≺ nat 0)
      ⊎ ((x ≼ y) × (y ≼ x)) × (c ≼ nat 0) × (nat 0 ≼ c)

  module _ (laws : IsOrdered W) (exact : IsExact W) where
    open laws use {
      add_mono, sub_self, above-neg, below-neg, below-nat, above-nat_zero, nat_lt, neg-neg, add_neg,
    }

    sub-Follows : (x y : W) → Follows x y (sub x y)
    sub-Follows x y = ground (
      arith,
      exact.sub_strict y x,
      exact.sub_strict x y,
      add_neg y (neg x),
      neg-neg x,
      laws.add_comm x (neg y),
      add_mono x y (neg y) (neg y),
      add_mono y x (neg y) (neg y),
      sub_self y,
      below-nat 0,
      above-nat_zero,
    )

    idle_threshold-pos : (n : ℕ) → nat 0 ≺ idle_threshold n
    unfolding idle_threshold
    idle_threshold-pos n = ground (arith, nat_lt 0 10, below-nat 0, above-nat_zero, below-nat 10)

    -- The correction moves the grid towards the side that the margin asks for, and is zero only where
    -- the grid is there. While the batteries charge, it is above zero exactly where the grid stands
    -- above the 10 W of export, and below zero where it stands below; while they discharge, the same
    -- about the 10 W of import; and when they idle it is zero inside that band, above zero above it
    -- and below zero below it.
    pub compute_grid_correction_direction :
        (grid_w total : W) (n : ℕ)
        → let correction = compute_grid_correction grid_w total n in
          (total ≺ neg (idle_threshold n)) × Follows grid_w (neg (nat 10)) correction
          ⊎ (idle_threshold n ≺ total) × Follows grid_w (nat 10) correction
          ⊎ (neg (idle_threshold n) ≼ total)
            × (total ≼ idle_threshold n)
            × ((neg (nat 10) ≼ grid_w) × (grid_w ≼ nat 10) × (correction ≡ nat 0)
                ⊎ (nat 10 ≺ grid_w) × (nat 0 ≺ correction)
                ⊎ (grid_w ≺ neg (nat 10)) × (correction ≺ nat 0))
    unfolding compute_grid_correction
    compute_grid_correction_direction g t n = ground (
      arith,
      sub-Follows g (nat 10),
      sub-Follows g (neg (nat 10)),
      idle_threshold-pos n,
      above-neg (idle_threshold n),
      below-neg (idle_threshold n),
      above-neg (nat 10),
      below-neg (nat 10),
      nat_lt 0 10,
      below-nat 0,
      below-nat 10,
      above-nat_zero,
    )
