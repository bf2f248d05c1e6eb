-- ===== src/Dispatcher/Shares/Bounded.antt =====
-- The shares of src/dispatcher.rs respect every battery's bounds, and no clamp panics.
use shelly_multiplexer.Prelude.{
  ℕ, zero, suc, ◌≡◌, ap, ◌∙◌, Bool, not, some, List, [], ◌∷◌, String, arith, All, keep_if, lookup,
  insert, lookup-insert, values, string_key, Returns, Returns-some, contains, map,
}
use shelly_multiplexer.Double.{Double, IsOrdered, ◌≼◌, sub, sum}
use shelly_multiplexer.Double.Order.{clamp_bounds, clamp-some}
use shelly_multiplexer.Config.Types.{DispatcherConfig}
use shelly_multiplexer.State.{AppState, BatteryState}
use shelly_multiplexer.Dispatcher.Bounds.{low_bound, high_bound, IsRated, bounds_around_zero}
use shelly_multiplexer.Dispatcher.Shares.{Round, target_of, eligible, zeros, share_out, fill}

module _ {W : Type 0} where
  -- Every battery is stored under its id, and no id twice.
  abbrev pub IsKeyed : List (String × BatteryState W) → Type 0
  IsKeyed bats =
      All (λ (e : String × BatteryState W). (e.1.id ≡ e.0) × (lookup e.0 bats ≡ some e.1)) bats

  -- The batteries of a list are those that the map holds under their ids.
  abbrev pub AreStored : List (String × BatteryState W) → List (BatteryState W) → Type 0
  AreStored bats = All (λ b. lookup b.id bats ≡ some b)

  pub AreStored-values :
      (bats es : List (String × BatteryState W))
      → All (λ (e : String × BatteryState W). (e.1.id ≡ e.0) × (lookup e.0 bats ≡ some e.1)) es
      → AreStored bats (values es)
  AreStored-values bats [] h = tt
  AreStored-values bats ((k, v) ∷ es) ((i, l), hs) =
      (ap (λ x. lookup x bats) i ∙ l, AreStored-values bats es hs)

  pub AreStored-keep_if :
      (bats : List (String × BatteryState W)) (p : BatteryState W → Bool)
      (bs : List (BatteryState W))
      → AreStored bats bs
      → AreStored bats (keep_if p bs)
  AreStored-keep_if bats p [] h = tt
  AreStored-keep_if bats p (b ∷ bs) (h, hs) = ground (arith, AreStored-keep_if bats p bs hs)

  pub eligible-AreStored :
      (s : AppState W) (now : ℕ) → IsKeyed s.batteries → AreStored s.batteries (eligible s now)
  unfolding eligible
  eligible-AreStored s now k =
      AreStored-keep_if s.batteries _ (values s.batteries)
        (AreStored-values s.batteries s.batteries k)

module _ {W : Type 0} ⦃d : Double W⦄ where
  open d use {add, mul, div, nat, ratio}

  -- Every target lies between the bounds of its battery.
  abbrev pub InBounds :
      DispatcherConfig W → ℕ → List (String × BatteryState W) → List (String × W) → Type 0
  InBounds dcfg now bats targets =
      (id : String) (b : BatteryState W)
      → lookup id bats ≡ some b
      → (low_bound b dcfg now ≼ target_of targets id)
        × (target_of targets id ≼ high_bound b dcfg now)

  module _ (laws : IsOrdered W) (dcfg : DispatcherConfig W) (now : ℕ)
      (bats : List (String × BatteryState W))
      (rated : (id : String) (b : BatteryState W) → lookup id bats ≡ some b → IsRated b) where
    pub insert-InBounds :
        (b : BatteryState W) (v : W) (targets : List (String × W))
        → lookup b.id bats ≡ some b
        → low_bound b dcfg now ≼ v
        → v ≼ high_bound b dcfg now
        → InBounds dcfg now bats targets
        → InBounds dcfg now bats (insert b.id v targets)
    insert-InBounds b v targets stored lo hi h id c e =
        ground (arith, lookup-insert b.id id v targets, string_key.beq_iff b.id id, h id c e)

    pub zeros-InBounds :
        (bs : List (BatteryState W)) (targets : List (String × W))
        → AreStored bats bs
        → InBounds dcfg now bats targets
        → InBounds dcfg now bats (zeros bs targets)
    unfolding zeros
    zeros-InBounds [] targets s h = h
    zeros-InBounds (b ∷ bs) targets (s, ss) h =
        let r = bounds_around_zero laws b dcfg now (rated b.id b s) in
        zeros-InBounds bs (insert b.id (nat 0) targets) ss
          (insert-InBounds b (nat 0) targets s r.1 r.2 h)

    share_out-InBounds :
        (weight : BatteryState W → W) (remaining total : W) (bs : List (BatteryState W))
        (r : Round W)
        → AreStored bats bs
        → InBounds dcfg now bats r.0
        → Returns
            (λ (r' : Round W). InBounds dcfg now bats r'.0)
            (share_out dcfg now weight remaining total bs r)
    unfolding share_out
    share_out-InBounds weight remaining total [] r s h = h
    share_out-InBounds weight remaining total (b ∷ bs) (targets, clamped) (s, ss) h =
        let lo = low_bound b dcfg now in
        let hi = high_bound b dcfg now in
        let x = add (target_of targets b.id) (div (mul remaining (weight b)) total) in
        let r = bounds_around_zero laws b dcfg now (rated b.id b s) in
        let (y, e) = clamp-some x lo hi (omega (arith, r)) in
        let (ly, hy) = clamp_bounds x lo hi e in
        rw (e, share_out)
          (share_out-InBounds weight remaining total bs _ ss
            (insert-InBounds b y targets s ly hy h))

    pub fill-InBounds :
        (weight : BatteryState W → W) (assigned : List (BatteryState W) → List (String × W) → W)
        (desired : W) (left : ℕ) (active : List (BatteryState W)) (remaining : W)
        (targets : List (String × W))
        → AreStored bats active
        → InBounds dcfg now bats targets
        → Returns
            (InBounds dcfg now bats)
            (fill dcfg now weight assigned desired left active remaining targets)
    unfolding fill
    fill-InBounds weight assigned desired zero active remaining targets s h = h
    fill-InBounds weight assigned desired (suc left) [] remaining targets s h = h
    fill-InBounds weight assigned desired (suc left) (a ∷ as') remaining targets s h =
        let active = a ∷ as' in
        let total = sum (map weight active) in
        let (r, e, k) =
          Returns-some (λ (r : Round W). InBounds dcfg now bats r.0)
            (share_out dcfg now weight remaining total active (targets, []))
            (share_out-InBounds weight remaining total active (targets, []) s h) in
        let rest =
          fill-InBounds weight assigned desired left (keep_if (λ b. not (contains r.1 b.id)) active)
            (sub desired (assigned active r.0)) r.0
            (AreStored-keep_if bats (λ b. not (contains r.1 b.id)) active s) k in
        ground (arith, e, k, rest)
