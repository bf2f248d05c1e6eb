-- ===== src/Writer/Init/Cutoffs.antt =====
-- How the BMS cutoffs of src/modbus.rs are scaled.
use shelly_multiplexer.Prelude.{ℕ, ◌≤◌, ◌≡◌, some, arith}
use shelly_multiplexer.Double.{Double, IsOrdered}
use shelly_multiplexer.Writer.Init.{cutoff_of}

module _ {W : Type 0} ⦃d : Double W⦄ where
  open d use {nat, div}

  -- The registers hold tenths of a percent. A raw value above 100 is read so, but a raw value up to
  -- 100, a cutoff of 10 % at most, is taken for whole percent, ten times what the register says: a
  -- cutoff of 10 %, which is 100, becomes 100 %.
  pub small_cutoffs_unscaled :
      IsOrdered W → (raw : ℕ) → raw ≤ 100 → cutoff_of {W = W} raw ≡ some (nat raw)
  unfolding cutoff_of
  small_cutoffs_unscaled ordered raw small = ground (
    arith,
    ordered.below-nat raw,
    ordered.below-nat 100,
    ordered.below-nat 0,
    ordered.above-nat_zero,
    ordered.nat_lt raw 100,
    small,
  )
