-- ===== src/Dispatcher/Targets/Consolidated.antt =====
-- The consolidation of src/dispatcher.rs: a circuit whose shares are each too small for the inverter
-- has them moved to one of its batteries.
use shelly_multiplexer.Prelude.{
  ℕ, ◌≡◌, refl, inl, inr, Bool, Option, none, some, List, [], ◌∷◌, String, if◌then◌else◌, arith,
  All, filter_map, lookup, lookup-insert, string_key, max_by, ◌==◌, Option-cases, Returns,
  Returns-some, values, map, length,
}
use shelly_multiplexer.Double.{Double, IsOrdered, ◌≼◌, lt, signum, sum}
use shelly_multiplexer.Double.Order.{clamp_bounds, clamp-some}
use shelly_multiplexer.Config.Types.{DispatcherConfig}
use shelly_multiplexer.State.{AppState, BatteryState, CircuitState}
use shelly_multiplexer.Dispatcher.Bounds.{low_bound, high_bound, IsRated, bounds_around_zero}
use shelly_multiplexer.Dispatcher.Correction.{compute_grid_correction}
use shelly_multiplexer.Dispatcher.Shares.{plug_of, eligible, zeros, weight_of, fill}
use shelly_multiplexer.Dispatcher.Shares.Bounded.{
  IsKeyed, AreStored, AreStored-keep_if, InBounds, AreStored-values, zeros-InBounds,
  eligible-AreStored, fill-InBounds,
}
use shelly_multiplexer.Dispatcher.Targets.{
  primary_of, concentrate, consolidate_circuit, consolidate, member_targets, bounded_targets,
  assigned_targets,
}

module _ {W : Type 0} where
  pub stored_of_lookup :
      (bats es : List (String × BatteryState W)) (id : String) (b : BatteryState W)
      → All (λ (e : String × BatteryState W). (e.1.id ≡ e.0) × (lookup e.0 bats ≡ some e.1)) es
      → lookup id es ≡ some b
      → (b.id ≡ id) × (lookup b.id bats ≡ some b)
  unfolding lookup
  stored_of_lookup bats [] id b h e = ground arith
  stored_of_lookup bats ((k, v) ∷ es) id b ((i, l), hs) e =
      ground (arith, string_key.beq_iff k id, stored_of_lookup bats es id b hs)

  AreStored-members :
      (bats : List (String × BatteryState W)) (ids : List String)
      → IsKeyed bats
      → AreStored bats (filter_map (λ id. lookup id bats) ids)
  AreStored-members bats [] k = tt
  AreStored-members bats (id ∷ ids) k = elim (Option-cases (lookup id bats)) [
    | inl e ↦ ground (arith, e, AreStored-members bats ids k)
    | inr (b, e) ↦
        ground (arith, e, AreStored-members bats ids k, stored_of_lookup bats bats id b k e)
  ]

  max_by-AreStored :
      (bats : List (String × BatteryState W)) (greater : BatteryState W → BatteryState W → Bool)
      (best : Option (BatteryState W)) (bs : List (BatteryState W)) (p : BatteryState W)
      → AreStored bats bs
      → ((b : BatteryState W) → best ≡ some b → lookup b.id bats ≡ some b)
      → max_by greater best bs ≡ some p
      → lookup p.id bats ≡ some p
  max_by-AreStored bats greater best [] p s h e = h p e
  max_by-AreStored bats greater none (x ∷ xs) p (s, ss) h e =
      max_by-AreStored bats greater (some x) xs p ss (λ b q. ground (arith, s)) e
  max_by-AreStored bats greater (some a) (x ∷ xs) p (s, ss) h e =
      max_by-AreStored bats greater (some (if greater a x then a else x)) xs p ss
        (λ b q. ground (arith, s, h a refl)) e

module _ {W : Type 0} ⦃d : Double W⦄ where
  open d use {nat, add}

  primary_of-AreStored :
      (s : AppState W) (dcfg : DispatcherConfig W) (now : ℕ) (targets : List (String × W))
      (ids : List String) (dir : W) (p : BatteryState W)
      → IsKeyed s.batteries
      → primary_of s dcfg now targets ids dir ≡ some p
      → lookup p.id s.batteries ≡ some p
  unfolding primary_of
  primary_of-AreStored s dcfg now targets ids dir p k e =
      max_by-AreStored s.batteries _ none _ p
        (AreStored-keep_if s.batteries _ _ (AreStored-members s.batteries ids k))
        (λ b q. ground arith) e

  module _ (laws : IsOrdered W) (s : AppState W) (dcfg : DispatcherConfig W) (now : ℕ)
      (keyed : IsKeyed s.batteries)
      (rated : (id : String) (b : BatteryState W)
        → lookup id s.batteries ≡ some b
        → IsRated b) where
    concentrate-InBounds :
        (p : BatteryState W) (w : W) (ids : List String) (targets : List (String × W))
        → lookup p.id s.batteries ≡ some p
        → low_bound p dcfg now ≼ w
        → w ≼ high_bound p dcfg now
        → InBounds dcfg now s.batteries targets
        → InBounds dcfg now s.batteries (concentrate p.id w ids targets)
    unfolding concentrate
    concentrate-InBounds p w [] targets stored lo hi h = h
    concentrate-InBounds p w (id ∷ ids) targets stored lo hi h =
        concentrate-InBounds p w ids _ stored lo hi (λ j c e. ground (
          arith,
          h j c e,
          lookup-insert id j (if id == p.id then w else nat 0) targets,
          string_key.beq_iff id j,
          string_key.beq_iff id p.id,
          bounds_around_zero laws c dcfg now (rated j c e),
        ))

    consolidate_circuit-InBounds :
        (c : CircuitState W) (targets : List (String × W))
        → InBounds dcfg now s.batteries targets
        → Returns (InBounds dcfg now s.batteries) (consolidate_circuit s dcfg now c targets)
    unfolding consolidate_circuit
    consolidate_circuit-InBounds c targets h =
        let total = sum (member_targets targets c.member_ids) in
        elim (Option-cases (primary_of s dcfg now targets c.member_ids (signum total))) [
          | inl e ↦ ground (arith, e, h)
          | inr (p, e) ↦
              let stored =
                primary_of-AreStored s dcfg now targets c.member_ids (signum total) p keyed e in
              let r = bounds_around_zero laws p dcfg now (rated p.id p stored) in
              let (w, q) =
                clamp-some total (low_bound p dcfg now) (high_bound p dcfg now)
                  (omega (arith, r)) in
              let (lo, hi) = clamp_bounds total (low_bound p dcfg now) (high_bound p dcfg now) q in
              ground (arith, e, q, h, concentrate-InBounds p w c.member_ids targets stored lo hi h)
        ]

    consolidate-InBounds :
        (cs : List (CircuitState W)) (targets : List (String × W))
        → InBounds dcfg now s.batteries targets
        → Returns (InBounds dcfg now s.batteries) (consolidate s dcfg now cs targets)
    unfolding consolidate
    consolidate-InBounds [] targets h = h
    consolidate-InBounds (c ∷ cs) targets h =
        let (m, e, k) =
          Returns-some (InBounds dcfg now s.batteries) (consolidate_circuit s dcfg now c targets)
            (consolidate_circuit-InBounds c targets h) in
        ground (arith, e, consolidate-InBounds cs m k)

    -- For rated batteries stored under their ids, the shares and their consolidation are computed
    -- without a panic, and give every battery a target between its bounds.
    pub bounded_targets-InBounds :
        (grid_w : W) → Returns (InBounds dcfg now s.batteries) (bounded_targets s dcfg grid_w now)
    unfolding bounded_targets lookup
    bounded_targets-InBounds grid_w =
        let able = eligible s now in
        let zeroed = zeros (values s.batteries) [] in
        let start =
          zeros-InBounds laws dcfg now s.batteries rated (values s.batteries) []
            (AreStored-values s.batteries s.batteries keyed)
            (λ id b e. let r = bounds_around_zero laws b dcfg now (rated id b e) in (r.1, r.2)) in
        let total = sum (map plug_of able) in
        let desired = add total (compute_grid_correction grid_w total (length able)) in
        let (shared, e, k) =
          Returns-some (InBounds dcfg now s.batteries)
            (fill dcfg now (weight_of dcfg (lt desired (nat 0)) now) assigned_targets desired 6 able
              desired zeroed)
            (fill-InBounds laws dcfg now s.batteries rated _ assigned_targets desired 6 able desired
              zeroed (eligible-AreStored s now keyed) start) in
        ground (arith, e, consolidate-InBounds (values s.circuits) shared k)
