-- ===== src/Dispatcher/Deltas/Spans.antt =====
-- How far the deltas of src/dispatcher.rs reach.
use shelly_multiplexer.Prelude.{
  ℕ, ◌≡◌, refl, ap, ◌∙◌, subst, ◌⊎◌, inl, inr, Bool, true, false, not, ◌&&◌, Option, some, List, [],
  ◌∷◌, String, if◌then◌else◌, unwrap_or, arith, All, lookup, insert, lookup-insert, values,
  string_key, ◌==◌, Option-cases, Bool-cases, Returns, Returns-some, is_nil, map, length,
}
use shelly_multiplexer.Double.{Double, IsOrdered, IsScaling, ◌≼◌, lt, sub, abs, sum}
use shelly_multiplexer.Config.Types.{DispatcherConfig}
use shelly_multiplexer.State.{AppState, BatteryState, CircuitState}
use shelly_multiplexer.Dispatcher.Bounds.{low_bound, high_bound, IsRated, bounds_around_zero}
use shelly_multiplexer.Dispatcher.Correction.{compute_grid_correction}
use shelly_multiplexer.Dispatcher.Shares.{plug_of, eligible, zeros, fill, weight_of}
use shelly_multiplexer.Dispatcher.Shares.Bounded.{
  IsKeyed, AreStored, eligible-AreStored, InBounds, zeros-InBounds, fill-InBounds,
}
use shelly_multiplexer.Dispatcher.Targets.Scales.{IsSpanned, AreSpanned, scale_members-AreSpanned}
use shelly_multiplexer.Dispatcher.Deltas.{
  deltas_of, clamp_scale, cap_deltas, cap_all_deltas, changed_deltas, compute_deltas, has_conflict,
}

module _ {W : Type 0} ⦃d : Double W⦄ where
  open d use {above, below, add, mul, div, nat, neg, ratio}

  -- The change of a battery leads to a power between its bounds, or part of the way there.
  abbrev pub IsApproach : DispatcherConfig W → ℕ → List (String × W) → BatteryState W → Type 0
  IsApproach dcfg now deltas b =
      AreSpanned (sub (low_bound b dcfg now) (plug_of b)) (sub (high_bound b dcfg now) (plug_of b))
        b.id deltas

  module _ (laws : IsOrdered W) (scaling : IsScaling W) where
    open laws use {add_mono, above-nat_zero, below-nat, nat_lt, one_side, sub_self}

    clamp_scale_bounds : (x : W) → (nat 0 ≼ clamp_scale x) × (clamp_scale x ≼ nat 1)
    unfolding clamp_scale
    clamp_scale_bounds x = ground (arith, nat_lt 0 1, below-nat 0, below-nat 1)

    either-AreSpanned :
        (lo hi : W) (id : String) (p q : Bool) (u v : List (String × W))
        → AreSpanned lo hi id u
        → AreSpanned lo hi id v
        → AreSpanned lo hi id (if p then u else if q then v else u)
    either-AreSpanned lo hi id true q u v h k = h
    either-AreSpanned lo hi id false true u v h k = k
    either-AreSpanned lo hi id false false u v h k = h

    cap_deltas-AreSpanned :
        (lo hi : W) (id : String) (bats : List (String × BatteryState W)) (cs : CircuitState W)
        (deltas : List (String × W))
        → AreSpanned lo hi id deltas
        → AreSpanned lo hi id (cap_deltas bats cs deltas)
    unfolding cap_deltas
    cap_deltas-AreSpanned lo hi id bats cs deltas h =
        let bounds = clamp_scale_bounds in
        either-AreSpanned lo hi id _ _ deltas _ h
          (scale_members-AreSpanned laws scaling lo hi id _ _ deltas (bounds _).0 (bounds _).1 h)

    cap_all_deltas-AreSpanned :
        (lo hi : W) (id : String) (bats : List (String × BatteryState W))
        (cs : List (CircuitState W)) (deltas : List (String × W))
        → AreSpanned lo hi id deltas
        → AreSpanned lo hi id (cap_all_deltas bats cs deltas)
    unfolding cap_all_deltas
    cap_all_deltas-AreSpanned lo hi id bats [] deltas h = h
    cap_all_deltas-AreSpanned lo hi id bats (c ∷ cs) deltas h =
        cap_all_deltas-AreSpanned lo hi id bats cs _
          (cap_deltas-AreSpanned lo hi id bats c deltas h)

    module _ (dcfg : DispatcherConfig W) (now : ℕ) (bats : List (String × BatteryState W))
        (targets : List (String × W)) (bounded : InBounds dcfg now bats targets) where
      change-IsSpanned :
          (b : BatteryState W)
          → lookup b.id bats ≡ some b
          → let plug = plug_of b in
            IsSpanned
              (sub (low_bound b dcfg now) plug)
              (sub (high_bound b dcfg now) plug)
              (sub (unwrap_or (lookup b.id targets) plug) plug)
      change-IsSpanned b stored =
          let plug = plug_of b in
          let lo = low_bound b dcfg now in
          let hi = high_bound b dcfg now in
          elim (Option-cases (lookup b.id targets)) [
            | inl n ↦ ground (arith, n, sub_self plug, above-nat_zero, below-nat 0)
            | inr (t, e) ↦ ground (
              arith,
              e,
              bounded b.id b stored,
              add_mono lo t (neg plug) (neg plug),
              add_mono t hi (neg plug) (neg plug),
            )
          ]

      insert-IsApproach :
          (b c : BatteryState W) (deltas : List (String × W))
          → lookup b.id bats ≡ some b
          → lookup c.id bats ≡ some c
          → (b.id ≡ c.id) ⊎ IsApproach dcfg now deltas c
          → IsApproach dcfg now
              (insert b.id (sub (unwrap_or (lookup b.id targets) (plug_of b)) (plug_of b)) deltas)
              c
      insert-IsApproach b c deltas sb sc r t e =
          let v = sub (unwrap_or (lookup b.id targets) (plug_of b)) (plug_of b) in
          let p = lookup-insert b.id c.id v deltas in
          elim (Bool-cases (b.id == c.id)) [
            | inl q ↦
                let same = (string_key.beq_iff b.id c.id).0 q in
                let k : lookup b.id bats ≡ some c = ap (λ x. lookup x bats) same ∙ sc in
                let same_battery : b ≡ c = cc in
                let reached : v ≡ t = ground (arith, p, q, e) in
                subst
                  (λ (x : BatteryState W).
                    IsSpanned (sub (low_bound x dcfg now) (plug_of x))
                      (sub (high_bound x dcfg now) (plug_of x)) t)
                  same_battery
                  (subst
                    (IsSpanned (sub (low_bound b dcfg now) (plug_of b))
                      (sub (high_bound b dcfg now) (plug_of b)))
                    reached (change-IsSpanned b sb))
            | inr q ↦ elim r [
              | inl same ↦ ground (arith, q, same, string_key.beq_iff b.id c.id)
              | inr reached ↦ reached t (ground (arith, p, q, e))
            ]
          ]

      deltas_of-IsApproach :
          (c : BatteryState W) (bs : List (BatteryState W)) (deltas : List (String × W))
          → AreStored bats bs
          → lookup c.id bats ≡ some c
          → IsApproach dcfg now deltas c
          → IsApproach dcfg now (deltas_of bs targets deltas) c
      unfolding deltas_of
      deltas_of-IsApproach c [] deltas s sc r = r
      deltas_of-IsApproach c (b ∷ bs) deltas (sb, s) sc r =
          deltas_of-IsApproach c bs _ s sc (insert-IsApproach b c deltas sb sc (inr r))

      capped-AreApproaches :
          (cs : List (CircuitState W)) (bs : List (BatteryState W)) (deltas : List (String × W))
          → AreStored bats bs
          → All
              (λ b. IsApproach dcfg now (cap_all_deltas bats cs (deltas_of bs targets deltas)) b)
              bs
      unfolding deltas_of
      capped-AreApproaches cs [] deltas s = tt
      capped-AreApproaches cs (b ∷ bs) deltas (sb, s) = (
        cap_all_deltas-AreSpanned _ _ b.id bats cs _
            (deltas_of-IsApproach b bs _ s sb (insert-IsApproach b b deltas sb sb (inl refl))),
        capped-AreApproaches cs bs _ s,
      )

    zeros_lookup :
        (bs : List (BatteryState W)) (m : List (String × W)) (id : String)
        → AreSpanned (nat 0) (nat 0) id m
        → AreSpanned (nat 0) (nat 0) id (zeros bs m)
    unfolding zeros
    zeros_lookup [] m id h = h
    zeros_lookup (b ∷ bs) m id h =
        zeros_lookup bs _ id (λ t e.
          ground (arith, lookup-insert b.id id (nat 0) m, h t, e, string_key.beq_iff b.id id))

    standing-AreApproaches :
        (dcfg : DispatcherConfig W) (now : ℕ) (all bs : List (BatteryState W))
        → All (λ b. IsApproach dcfg now (zeros all []) b) bs
    unfolding lookup
    standing-AreApproaches dcfg now all [] = tt
    standing-AreApproaches dcfg now all (b ∷ bs) = (
      λ t e.
          ground (
            arith,
            zeros_lookup all [] b.id (λ u q. ground arith) t e,
            above-nat_zero,
            below-nat 0,
          ),
      standing-AreApproaches dcfg now all bs,
    )

    either-Returns :
        (P : List (String × W) → Type 0) (p q : Bool) (u : List (String × W))
        (o : Option (List (String × W)))
        → P u
        → Returns P o
        → Returns P (if p then some u else if q then some u else o)
    either-Returns P true q u o h k = h
    either-Returns P false true u o h k = h
    either-Returns P false false u o h k = k

    changed_deltas-AreApproaches :
        (s : AppState W) (dcfg : DispatcherConfig W) (now : ℕ) (desired : W)
        → IsKeyed s.batteries
        → ((id : String) (b : BatteryState W) → lookup id s.batteries ≡ some b → IsRated b)
        → Returns
            (λ deltas. All (IsApproach dcfg now deltas) (eligible s now))
            (changed_deltas s dcfg now desired)
    unfolding changed_deltas lookup
    changed_deltas-AreApproaches s dcfg now desired keyed rated =
        let able = eligible s now in
        let stored = eligible-AreStored s now keyed in
        let start =
          zeros-InBounds laws dcfg now s.batteries rated able [] stored
            (λ id b e. let r = bounds_around_zero laws b dcfg now (rated id b e) in (r.1, r.2)) in
        let (targets, e, k) =
          Returns-some (InBounds dcfg now s.batteries)
            (fill dcfg now (weight_of dcfg (lt desired (nat 0)) now) (λ active m. sum (values m))
              desired 6 able desired (zeros able []))
            (fill-InBounds laws dcfg now s.batteries rated _ (λ active m. sum (values m)) desired 6
              able desired (zeros able []) stored start) in
        rw (e, changed_deltas)
          (capped-AreApproaches dcfg now s.batteries targets k (values s.circuits) able _ stored)

    -- For rated batteries stored under their ids, the deltas are computed without a panic, and each
    -- leads its eligible battery towards a power between its bounds and no further, or is zero: a
    -- battery that is locked or full is at most led back to 0 W.
    pub compute_deltas-AreApproaches :
        (s : AppState W) (dcfg : DispatcherConfig W) (grid_w : W) (now : ℕ)
        → IsKeyed s.batteries
        → ((id : String) (b : BatteryState W) → lookup id s.batteries ≡ some b → IsRated b)
        → Returns
            (λ deltas. All (IsApproach dcfg now deltas) (eligible s now))
            (compute_deltas s dcfg grid_w now)
    unfolding compute_deltas
    compute_deltas-AreApproaches s dcfg grid_w now keyed rated =
        let able = eligible s now in
        let total = sum (map plug_of able) in
        let correction = compute_grid_correction grid_w total (length able) in
        either-Returns (λ deltas. All (IsApproach dcfg now deltas) able) (is_nil able)
          (lt (abs correction) (ratio 1 1000) && not (has_conflict s now))
          (zeros (values s.batteries) []) (changed_deltas s dcfg now (add total correction))
          (standing-AreApproaches dcfg now (values s.batteries) able)
          (changed_deltas-AreApproaches s dcfg now (add total correction) keyed rated)
