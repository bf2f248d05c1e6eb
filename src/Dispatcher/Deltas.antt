-- ===== src/Dispatcher/Deltas.antt =====
-- `compute_deltas` of src/dispatcher.rs: the change of every battery in pulse mode.
pub mod Spans
use shelly_multiplexer.Prelude.{
  ℕ, ◌+◌, Bool, true, false, not, ◌&&◌, Option, none, some, List, [], ◌∷◌, String, if◌then◌else◌,
  unwrap_or, is_some, keep_if, filter_map, map, any, is_nil, length, lookup, insert, values,
  string_key,
}
use shelly_multiplexer.Double.{Double, lt, le, sub, abs, copysign, sum}
use shelly_multiplexer.Config.Constants.{marstek_min_w}
use shelly_multiplexer.Config.Types.{DispatcherConfig, cap_w}
use shelly_multiplexer.State.{AppState, BatteryState, CircuitState}
use shelly_multiplexer.State.Battery.{later_than}
use shelly_multiplexer.Dispatcher.Correction.{compute_grid_correction}
use shelly_multiplexer.Dispatcher.Shares.{plug_of, eligible, zeros, weight_of, fill}
use shelly_multiplexer.Dispatcher.Targets.{scale_members}

module _ {W : Type 0} ⦃d : Double W⦄ where
  open d use {add, div, neg, nat, ratio}

  -- The batteries of a circuit that have a plug reading.
  unfoldable pub measured_members :
      List (String × BatteryState W) → CircuitState W → List (BatteryState W)
  measured_members bats cs =
      keep_if (λ (b : BatteryState W). is_some b.last_plug_w)
        (filter_map (λ id. lookup id bats) cs.member_ids)

  -- A circuit that is not muted has opposing flows above 50 W.
  unfoldable pub has_conflict : AppState W → ℕ → Bool
  has_conflict s now =
      any
        (λ cs.
          let plugs = map plug_of (measured_members s.batteries cs) in
          if later_than cs.silent_until now
          then false
          else any (λ w. lt marstek_min_w w) plugs && any (λ w. lt w (neg marstek_min_w)) plugs)
        (values s.circuits)

  -- `targets → deltas`
  unfoldable pub deltas_of :
      List (BatteryState W) → List (String × W) → List (String × W) → List (String × W)
  deltas_of [] targets deltas = deltas
  deltas_of (b ∷ bs) targets deltas =
      let plug = plug_of b in
      deltas_of bs targets (insert b.id (sub (unwrap_or (lookup b.id targets) plug) plug) deltas)

  -- `raw_scale.clamp(0.0, 1.0)`, whose bounds are in order.
  unfoldable pub clamp_scale : W → W
  clamp_scale x = if lt x (nat 0) then nat 0 else if lt (nat 1) x then nat 1 else x

  unfoldable pub cap_deltas :
      List (String × BatteryState W) → CircuitState W → List (String × W) → List (String × W)
  unfolding clamp_scale
  cap_deltas bats cs deltas =
      let members = measured_members bats cs in
      let measured_sum = sum (map plug_of members) in
      let delta_sum =
        sum (map (λ (b : BatteryState W). unwrap_or (lookup b.id deltas) (nat 0)) members) in
      let post = add measured_sum delta_sum in
      let cap = cap_w cs.config in
      let scale = clamp_scale (div (sub (copysign cap post) measured_sum) delta_sum) in
      if is_nil members
      then deltas
      else if lt cap (abs post) && lt (ratio 1 1000) (abs delta_sum)
      then scale_members scale (map (λ (b : BatteryState W). b.id) members) deltas
      else deltas

  unfoldable pub cap_all_deltas :
      List (String × BatteryState W) → List (CircuitState W) → List (String × W) → List (String × W)
  cap_all_deltas bats [] deltas = deltas
  cap_all_deltas bats (c ∷ cs) deltas = cap_all_deltas bats cs (cap_deltas bats c deltas)

  -- The deltas of the eligible batteries for a total that is wanted.
  unfoldable pub changed_deltas :
      AppState W → DispatcherConfig W → ℕ → W → Option (List (String × W))
  changed_deltas s dcfg now desired_total =
      let able = eligible s now in
      let charging = lt desired_total (nat 0) in
      elim (fill dcfg now (weight_of dcfg charging now) (λ active targets. sum (values targets))
        desired_total 6 able desired_total (zeros able [])) [
          | none ↦ none
          | some targets ↦ some (
              cap_all_deltas s.batteries (values s.circuits)
                (deltas_of able targets (zeros (values s.batteries) [])))
        ]

  unfoldable pub compute_deltas :
      AppState W → DispatcherConfig W → W → ℕ → Option (List (String × W))
  compute_deltas s dcfg grid_w now =
      let deltas = zeros (values s.batteries) [] in
      let able = eligible s now in
      let current_total = sum (map plug_of able) in
      let grid_correction = compute_grid_correction grid_w current_total (length able) in
      if is_nil able
      then some deltas
      else if lt (abs grid_correction) (ratio 1 1000) && not (has_conflict s now)
      then some deltas
      else changed_deltas s dcfg now (add current_total grid_correction)
