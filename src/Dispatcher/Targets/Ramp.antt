-- ===== src/Dispatcher/Targets/Ramp.antt =====
-- The end of `compute_targets` in src/dispatcher.rs: the rate limit about the plug, and the scaling of
-- a circuit to its cap.
use mathlib.Core.Option
use mathlib.Core.Option.{Option}
use shelly_multiplexer.Prelude.{
  ℕ, ◌≡◌, refl, ap, subst, ◌∙◌, ◌⊎◌, inl, inr, true, some, List, [], ◌∷◌, String, arith, All,
  filter_map, lookup, modify, lookup-modify, values, string_key, is_nil, ◌==◌, Option-cases,
  Bool-cases, Returns, Returns-some,
}
use shelly_multiplexer.Double.{Double, IsOrdered, IsScaling, ◌≼◌, lt, sub, abs, max, clamp, sum}
use shelly_multiplexer.Config.Types.{DispatcherConfig, cap_w}
use shelly_multiplexer.State.{AppState, BatteryState, CircuitState}
use shelly_multiplexer.Dispatcher.Bounds.{IsRated}
use shelly_multiplexer.Dispatcher.Shares.{plug_of, eligible}
use shelly_multiplexer.Dispatcher.Shares.Bounded.{IsKeyed, AreStored, eligible-AreStored, InBounds}
use shelly_multiplexer.Dispatcher.Targets.{
  limit_target, rate_limit_targets, cap_circuit, cap_circuits, compute_targets, bounded_targets,
  member_targets,
}
use shelly_multiplexer.Dispatcher.Targets.Scales.{IsSpanned, AreSpanned, scale_members-AreSpanned}
use shelly_multiplexer.Dispatcher.Targets.Consolidated.{bounded_targets-InBounds}

module _ {W : Type 0} ⦃d : Double W⦄ where
  open d use {above, below, add, mul, div, nat, neg}

  -- What a battery can reach in one cycle: no further out than the plug and one step.
  abbrev pub IsReachable : W → BatteryState W → W → Type 0
  IsReachable step b = IsSpanned (add (plug_of b) (neg step)) (add (plug_of b) step)

  abbrev pub IsReached : W → BatteryState W → List (String × W) → Type 0
  IsReached step b = AreSpanned (add (plug_of b) (neg step)) (add (plug_of b) step) b.id

  -- Every target of one of the batteries is within its reach.
  abbrev pub AreReachable : W → List (BatteryState W) → List (String × W) → Type 0
  AreReachable step bs targets = All (λ b. IsReached step b targets) bs

  AreReachable-nil :
      (step : W) (bs : List (BatteryState W)) (targets : List (String × W))
      → is_nil bs ≡ true
      → AreReachable step bs targets
  AreReachable-nil step [] targets e = tt
  AreReachable-nil step (b ∷ bs) targets e = ground arith

  module _ (laws : IsOrdered W) where
    open laws use {
      one_side, add_mono, add_zero, above-neg, below-neg, below-nat, above-nat_zero, nat_lt,
    }

    -- For a limit that is not below zero, the limited change is the standard library's clamp.
    pub limit_target_lem :
        (limit plug t : W)
        → nat 0 ≼ limit
        → Option.map (add plug) (clamp (sub t plug) (neg limit) limit)
          ≡ some (limit_target limit plug t)
    unfolding limit_target
    limit_target_lem limit plug t h =
        ground (arith, above-neg limit, below-neg limit, below-nat 0, above-nat_zero)

    pub limit_target-IsReachable :
        (limit t : W) (b : BatteryState W)
        → nat 0 ≼ limit
        → IsReachable limit b (limit_target limit (plug_of b) t)
    unfolding limit_target
    limit_target-IsReachable limit t b h =
        let plug = plug_of b in
        let delta = sub t plug in
        ground (
          arith,
          above-neg limit,
          below-neg limit,
          below-nat 0,
          above-nat_zero,
          add_mono plug plug delta limit,
          add_mono plug plug (neg limit) delta,
          add_mono plug plug (neg limit) limit,
        )

    module _ (limit : W) (positive : nat 0 ≼ limit) (bats : List (String × BatteryState W)) where
      modify-IsReachable :
          (b c : BatteryState W) (targets : List (String × W))
          → lookup b.id bats ≡ some b
          → lookup c.id bats ≡ some c
          → (b.id ≡ c.id) ⊎ IsReached limit c targets
          → IsReached limit c (modify b.id (limit_target limit (plug_of b)) targets)
      modify-IsReachable b c targets sb sc r t e =
          let f = limit_target limit (plug_of b) in
          let p = lookup-modify b.id c.id f targets in
          elim (Bool-cases (b.id == c.id)) [
            | inl q ↦
                let same = (string_key.beq_iff b.id c.id).0 q in
                elim (Option-cases (lookup c.id targets)) [
                  | inl n ↦ ground (arith, p, q, n, e)
                  | inr (u, l) ↦
                      let k : lookup b.id bats ≡ some c = ap (λ x. lookup x bats) same ∙ sc in
                      let v = limit_target-IsReachable limit u b positive in
                      let same_battery : b ≡ c = cc in
                      let reached : f u ≡ t = ground (arith, p, q, l, e) in
                      subst (λ x. IsReachable limit x t) same_battery
                        (subst (IsReachable limit b) reached v)
                ]
            | inr q ↦ elim r [
              | inl same ↦ ground (arith, q, same, string_key.beq_iff b.id c.id)
              | inr reached ↦ reached t (ground (arith, p, q, e))
            ]
          ]

      rate_limit-IsReached :
          (c : BatteryState W) (bs : List (BatteryState W)) (targets : List (String × W))
          → AreStored bats bs
          → lookup c.id bats ≡ some c
          → IsReached limit c targets
          → IsReached limit c (rate_limit_targets limit bs targets)
      unfolding rate_limit_targets
      rate_limit-IsReached c [] targets s sc r = r
      rate_limit-IsReached c (b ∷ bs) targets (sb, s) sc r =
          rate_limit-IsReached c bs _ s sc (modify-IsReachable b c targets sb sc (inr r))

      rate_limit-AreReachable :
          (bs : List (BatteryState W)) (targets : List (String × W))
          → AreStored bats bs
          → AreReachable limit bs (rate_limit_targets limit bs targets)
      unfolding rate_limit_targets
      rate_limit-AreReachable [] targets s = tt
      rate_limit-AreReachable (b ∷ bs) targets (sb, s) = (
        rate_limit-IsReached b bs _ s sb (modify-IsReachable b b targets sb sb (inl refl)),
        rate_limit-AreReachable bs _ s,
      )

    module _ (scaling : IsScaling W) where
      open scaling use {div_le_one}

      cap_circuit-IsReached :
          (s : AppState W) (step : W) (b : BatteryState W) (c : CircuitState W)
          (targets : List (String × W))
          → nat 0 ≼ cap_w c.config
          → IsReached step b targets
          → IsReached step b (cap_circuit s c targets)
      unfolding cap_circuit
      cap_circuit-IsReached s step b c targets h r =
          let worst = max (abs (sum (member_targets targets c.member_ids))) (
            abs (
              sum (
                filter_map (λ (b : BatteryState W). b.last_plug_w)
                  (filter_map (λ id. lookup id s.batteries) c.member_ids)))) in
          elim (Bool-cases (lt (cap_w c.config) worst)) [
            | inl over ↦
                let unit =
                  div_le_one (cap_w c.config) worst h (ground (arith, over))
                    (ground (arith, over, h, above-nat_zero, below-nat 0)) in
                rw over (
                  scale_members-AreSpanned laws scaling (add (plug_of b) (neg step))
                    (add (plug_of b) step) b.id (div (cap_w c.config) worst) c.member_ids targets
                    unit.0 unit.1 r)
            | inr within ↦ rw within r
          ]

      cap_circuits-IsReached :
          (s : AppState W) (step : W) (b : BatteryState W) (cs : List (CircuitState W))
          (targets : List (String × W))
          → All (λ c. nat 0 ≼ cap_w c.config) cs
          → IsReached step b targets
          → IsReached step b (cap_circuits s cs targets)
      unfolding cap_circuits
      cap_circuits-IsReached s step b [] targets h r = r
      cap_circuits-IsReached s step b (c ∷ cs) targets (h, hs) r =
          cap_circuits-IsReached s step b cs _ hs (cap_circuit-IsReached s step b c targets h r)

      cap_circuits-AreReachable :
          (s : AppState W) (step : W) (bs : List (BatteryState W)) (cs : List (CircuitState W))
          (targets : List (String × W))
          → All (λ c. nat 0 ≼ cap_w c.config) cs
          → AreReachable step bs targets
          → AreReachable step bs (cap_circuits s cs targets)
      cap_circuits-AreReachable s step [] cs targets h r = tt
      cap_circuits-AreReachable s step (b ∷ bs) cs targets h (r, rs) = (
        cap_circuits-IsReached s step b cs targets h r,
        cap_circuits-AreReachable s step bs cs targets h rs,
      )

      -- For rated batteries stored under their ids, and circuits whose cap is not below zero, the
      -- targets are computed without a panic, and none of an eligible battery lies further out than
      -- its plug plus one step of the rate limit.
      pub compute_targets-AreReachable :
          (s : AppState W) (dcfg : DispatcherConfig W) (grid_w : W) (now : ℕ)
          → IsKeyed s.batteries
          → ((id : String) (b : BatteryState W) → lookup id s.batteries ≡ some b → IsRated b)
          → All (λ c. nat 0 ≼ cap_w c.config) (values s.circuits)
          → Returns
              (AreReachable (max dcfg.rate_limit_w_per_cycle (nat 1)) (eligible s now))
              (compute_targets s dcfg grid_w now)
      unfolding compute_targets
      compute_targets-AreReachable s dcfg grid_w now keyed rated caps =
          let step = max dcfg.rate_limit_w_per_cycle (nat 1) in
          let able = eligible s now in
          let (merged, e, _) =
            Returns-some (InBounds dcfg now s.batteries) (bounded_targets s dcfg grid_w now)
              (bounded_targets-InBounds laws s dcfg now keyed rated grid_w) in
          let ramped =
            rate_limit-AreReachable step (ground (arith, nat_lt 0 1, below-nat 0, below-nat 1))
              s.batteries able merged (eligible-AreStored s now keyed) in
          elim (Bool-cases (is_nil able)) [
            | inl n ↦ rw n (AreReachable-nil step able _ n)
            | inr n ↦
                rw (n, e) (cap_circuits-AreReachable s step able (values s.circuits) _ caps ramped)
          ]
