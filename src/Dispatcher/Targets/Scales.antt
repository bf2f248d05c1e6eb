-- ===== src/Dispatcher/Targets/Scales.antt =====
-- Intervals that a scale between 0 and 1 keeps a power in, as the caps of src/dispatcher.rs scale it.
use shelly_multiplexer.Prelude.{
  ◌≡◌, inl, inr, some, List, [], ◌∷◌, String, arith, lookup, lookup-modify, string_key,
  Option-cases,
}
use shelly_multiplexer.Double.{Double, IsOrdered, IsScaling, ◌≼◌, max, min}
use shelly_multiplexer.Dispatcher.Targets.{scale_members}

module _ {W : Type 0} ⦃d : Double W⦄ where
  open d use {above, below, mul, nat}

  -- Between two bounds, or between zero and one of them.
  abbrev pub IsSpanned : W → W → W → Type 0
  IsSpanned lo hi t = (t ≼ max hi (nat 0)) × (min lo (nat 0) ≼ t)

  abbrev pub AreSpanned : W → W → String → List (String × W) → Type 0
  AreSpanned lo hi id targets = (t : W) → lookup id targets ≡ some t → IsSpanned lo hi t

  module _ (laws : IsOrdered W) (scaling : IsScaling W) where
    open laws use {one_side, below-nat, above-nat_zero}
    open scaling use {mul_shrink}

    shrink-IsSpanned :
        (lo hi t scale : W)
        → nat 0 ≼ scale
        → scale ≼ nat 1
        → IsSpanned lo hi t
        → IsSpanned lo hi (mul t scale)
    shrink-IsSpanned lo hi t scale ge le r = ground (
      arith,
      mul_shrink t scale ge le,
      above-nat_zero,
      below-nat 0,
      one_side t,
      one_side (mul t scale),
      one_side lo,
      one_side hi,
    )

    pub scale_members-AreSpanned :
        (lo hi : W) (id : String) (scale : W) (ids : List String) (targets : List (String × W))
        → nat 0 ≼ scale
        → scale ≼ nat 1
        → AreSpanned lo hi id targets
        → AreSpanned lo hi id (scale_members scale ids targets)
    unfolding scale_members
    scale_members-AreSpanned lo hi id scale [] targets ge le r = r
    scale_members-AreSpanned lo hi id scale (j ∷ ids) targets ge le r =
        scale_members-AreSpanned lo hi id scale ids _ ge le (λ t e.
          let p = lookup-modify j id (λ t. mul t scale) targets in
          elim (Option-cases (lookup id targets)) [
            | inl n ↦ ground (arith, p, n, e)
            | inr (u, l) ↦
                ground (arith, p, l, e, r u l, shrink-IsSpanned lo hi u scale ge le (r u l))
          ])
