-- ===== src/Dispatcher/Targets.antt =====
-- `compute_targets` of src/dispatcher.rs: the absolute target of every battery in modbus mode.

pub mod Consolidated
pub mod Scales
pub mod Ramp
use shelly_multiplexer.Prelude.{
  ℕ, ◌+◌, Bool, true, false, not, ◌&&◌, ◌||◌, Option, none, some, List, [], ◌∷◌, String,
  if◌then◌else◌, unwrap_or, is_some, keep_if, filter_map, map, any, length, lookup, insert, modify,
  values, keys, contains, string_key, ◌==◌, max_by, is_nil,
}
use shelly_multiplexer.Double.{Double, lt, le, eq, sub, abs, signum, max, min, clamp, sum}
use shelly_multiplexer.Config.Constants.{marstek_min_w}
use shelly_multiplexer.Config.Types.{DispatcherConfig, cap_w}
use shelly_multiplexer.State.{AppState, BatteryState, CircuitState}
use shelly_multiplexer.Dispatcher.Bounds.{low_bound, high_bound}
use shelly_multiplexer.Dispatcher.Correction.{compute_grid_correction}
use shelly_multiplexer.Dispatcher.Shares.{plug_of, target_of, eligible, zeros, weight_of, fill}

module _ {W : Type 0} ⦃d : Double W⦄ where
  open d use {add, mul, div, neg, nat}

  -- The active batteries' targets, and then those of all others.
  unfoldable pub assigned_targets : List (BatteryState W) → List (String × W) → W
  assigned_targets active targets =
      add (sum (map (λ (b : BatteryState W). target_of targets b.id) active))
        (sum (values (keep_if (λ e. not (any (λ b. b.id == e.0) active)) targets)))

  unfoldable pub primary_of :
      AppState W
      → DispatcherConfig W
      → ℕ
      → List (String × W)
      → List String
      → W
      → Option (BatteryState W)
  primary_of s dcfg now targets member_ids dir =
      let size : BatteryState W → W = λ b. abs (target_of targets b.id) in
      max_by
        (λ a b.
          lt (size b) (size a) || (eq (size a) (size b) && lt b.priority_weight a.priority_weight))
        none
        (keep_if
          (λ b.
            is_some b.last_plug_w
            && (if lt dir (nat 0)
                then lt (low_bound b dcfg now) (nat 0)
                else lt (nat 0) (high_bound b dcfg now)))
          (filter_map (λ id. lookup id s.batteries) member_ids))

  -- The primary takes `concentrated`, and every other member 0.
  unfoldable pub concentrate : String → W → List String → List (String × W) → List (String × W)
  concentrate primary concentrated [] targets = targets
  concentrate primary concentrated (id ∷ ids) targets =
      concentrate primary concentrated ids
        (insert id (if id == primary then concentrated else nat 0) targets)

  abbrev pub member_targets : List (String × W) → List String → List W
  member_targets targets = filter_map (λ id. lookup id targets)

  unfoldable pub consolidate_circuit :
      AppState W
      → DispatcherConfig W
      → ℕ
      → CircuitState W
      → List (String × W)
      → Option (List (String × W))
  consolidate_circuit s dcfg now cs targets =
      let target_sum = sum (member_targets targets cs.member_ids) in
      if lt (abs target_sum) marstek_min_w
      then some targets
      else if any (λ t. le marstek_min_w (abs t)) (member_targets targets cs.member_ids)
      then some targets
      else elim (primary_of s dcfg now targets cs.member_ids (signum target_sum)) [
        | none ↦ some targets
        | some p ↦ elim (clamp target_sum (low_bound p dcfg now) (high_bound p dcfg now)) [
          | none ↦ none
          | some concentrated ↦ some (concentrate p.id concentrated cs.member_ids targets)
        ]
      ]

  unfoldable pub consolidate :
      AppState W
      → DispatcherConfig W
      → ℕ
      → List (CircuitState W)
      → List (String × W)
      → Option (List (String × W))
  consolidate s dcfg now [] targets = some targets
  consolidate s dcfg now (c ∷ cs) targets = elim (consolidate_circuit s dcfg now c targets) [
    | none ↦ none
    | some next ↦ consolidate s dcfg now cs next
  ]

  -- `delta.clamp(-rate_limit, rate_limit)` about the plug, for a limit of at least 1.
  unfoldable pub limit_target : W → W → W → W
  limit_target rate_limit plug t =
      let delta = sub t plug in
      add plug (
        if lt delta (neg rate_limit)
        then neg rate_limit
        else if lt rate_limit delta
        then rate_limit
        else delta)

  unfoldable pub rate_limit_targets :
      W → List (BatteryState W) → List (String × W) → List (String × W)
  unfolding limit_target
  rate_limit_targets rate_limit [] targets = targets
  rate_limit_targets rate_limit (b ∷ bs) targets =
      rate_limit_targets rate_limit bs (modify b.id (limit_target rate_limit (plug_of b)) targets)

  -- `*t *= scale` for every member.
  unfoldable pub scale_members : W → List String → List (String × W) → List (String × W)
  scale_members scale [] targets = targets
  scale_members scale (id ∷ ids) targets =
      scale_members scale ids (modify id (λ t. mul t scale) targets)

  unfoldable pub cap_circuit : AppState W → CircuitState W → List (String × W) → List (String × W)
  unfolding scale_members
  cap_circuit s cs targets =
      let cap = cap_w cs.config in
      let target_sum = sum (member_targets targets cs.member_ids) in
      let plug_sum = sum (
        filter_map (λ (b : BatteryState W). b.last_plug_w)
          (filter_map (λ id. lookup id s.batteries) cs.member_ids)) in
      let worst_case = max (abs target_sum) (abs plug_sum) in
      if lt cap worst_case
      then scale_members (div cap worst_case) cs.member_ids targets
      else targets

  unfoldable pub cap_circuits :
      AppState W → List (CircuitState W) → List (String × W) → List (String × W)
  cap_circuits s [] targets = targets
  cap_circuits s (c ∷ cs) targets = cap_circuits s cs (cap_circuit s c targets)

  -- The targets before the rate limit: the shares within the bounds, consolidated.
  unfoldable pub bounded_targets :
      AppState W → DispatcherConfig W → W → ℕ → Option (List (String × W))
  bounded_targets s dcfg grid_w now =
      let targets = zeros (values s.batteries) [] in
      let able = eligible s now in
      let current_total = sum (map plug_of able) in
      let desired_total =
        add current_total (compute_grid_correction grid_w current_total (length able)) in
      let charging = lt desired_total (nat 0) in
      elim (fill dcfg now (weight_of dcfg charging now) assigned_targets desired_total 6 able
        desired_total targets) [
          | none ↦ none
          | some shared ↦ consolidate s dcfg now (values s.circuits) shared
        ]

  unfoldable pub compute_targets :
      AppState W → DispatcherConfig W → W → ℕ → Option (List (String × W))
  compute_targets s dcfg grid_w now =
      let able = eligible s now in
      let rate_limit = max dcfg.rate_limit_w_per_cycle (nat 1) in
      let limited : Option (List (String × W)) = elim (bounded_targets s dcfg grid_w now) [
        | none ↦ none
        | some merged ↦
            some (cap_circuits s (values s.circuits) (rate_limit_targets rate_limit able merged))
      ] in
      if is_nil able then some (zeros (values s.batteries) []) else limited
