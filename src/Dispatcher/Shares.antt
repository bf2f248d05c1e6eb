-- ===== src/Dispatcher/Shares.antt =====
-- What `compute_deltas` and `compute_targets` of src/dispatcher.rs have in common: the eligible
-- batteries, their weights, and one round of shares clamped to the bounds. `none` is the panic of a
-- clamp whose bounds are the wrong way round.

pub mod Bounded
use shelly_multiplexer.Prelude.{
  ℕ, zero, suc, ◌+◌, Bool, true, false, not, ◌&&◌, Option, none, some, List, [], ◌∷◌, ◌++◌, String,
  ltb, if◌then◌else◌, unwrap_or, is_some, keep_if, map, any, length, lookup, insert, values,
  contains, string_key,
}
use shelly_multiplexer.Double.{Double, lt, le, sub, abs, max, min, clamp, sum}
use shelly_multiplexer.Config.Types.{DispatcherConfig}
use shelly_multiplexer.State.{AppState, BatteryState, CircuitState}
use shelly_multiplexer.State.Battery.{
  is_charge_locked, is_discharge_locked, effective_soc_full_pct, effective_soc_empty_pct,
}
use shelly_multiplexer.Dispatcher.Mute.{is_muted}
use shelly_multiplexer.Dispatcher.Bounds.{low_bound, high_bound}

unfoldable pub eligible : {W : Type 0} → AppState W → ℕ → List (BatteryState W)
eligible s now =
    keep_if (λ b. not (is_muted s.circuits b.circuit now) && is_some b.last_plug_w)
      (values s.batteries)

-- What a round has done so far: the targets, and the ids of the batteries that were clamped.
abbrev pub Round : Type 0 → Type 0
Round W = List (String × W) × List String

module _ {W : Type 0} ⦃d : Double W⦄ where
  open d use {add, mul, div, nat, ratio, neg}

  abbrev pub plug_of : BatteryState W → W
  plug_of b = unwrap_or b.last_plug_w (nat 0)

  abbrev pub target_of : List (String × W) → String → W
  target_of targets id = unwrap_or (lookup id targets) (nat 0)

  unfoldable pub zeros : List (BatteryState W) → List (String × W) → List (String × W)
  zeros [] m = m
  zeros (b ∷ bs) m = zeros bs (insert b.id (nat 0) m)

  unfoldable pub weight_of : DispatcherConfig W → Bool → ℕ → BatteryState W → W
  weight_of dcfg charging now b =
      if charging && is_charge_locked b now
      then nat 0
      else if not charging && is_discharge_locked b now
      then nat 0
      else let cap =
          if lt (nat 0) b.capacity_wh
          then b.capacity_wh
          else add b.max_charge_w b.max_discharge_w in
        let soc_room : W = elim b.soc_pct [
          | some soc ↦
              if charging
              then max (sub (effective_soc_full_pct b dcfg.soc_full_pct) soc) (nat 0)
              else max (sub soc (effective_soc_empty_pct b dcfg.soc_empty_pct)) (nat 0)
          | none ↦ nat 50
        ] in
        mul (mul b.priority_weight cap) soc_room

  -- The loop `for b in &active`.
  unfoldable pub share_out :
      DispatcherConfig W
      → ℕ
      → (BatteryState W → W)
      → W
      → W
      → List (BatteryState W)
      → Round W
      → Option (Round W)
  share_out dcfg now weight remaining total_weight [] r = some r
  share_out dcfg now weight remaining total_weight (b ∷ bs) (targets, clamped_ids) =
      let share = div (mul remaining (weight b)) total_weight in
      let proposed = add (target_of targets b.id) share in
      elim (clamp proposed (low_bound b dcfg now) (high_bound b dcfg now)) [
        | none ↦ none
        | some clamped ↦ share_out dcfg now weight remaining total_weight bs (
          insert b.id clamped targets,
          if lt (ratio 1 1000) (abs (sub clamped proposed))
              then clamped_ids ++ b.id ∷ []
              else clamped_ids,
        )
      ]

  -- `for _ in 0..6`, with `left` rounds to go. `assigned` says what the targets add up to.
  unfoldable pub fill :
      DispatcherConfig W
      → ℕ
      → (BatteryState W → W)
      → (List (BatteryState W) → List (String × W) → W)
      → W
      → ℕ
      → List (BatteryState W)
      → W
      → List (String × W)
      → Option (List (String × W))
  fill dcfg now weight assigned desired zero active remaining targets = some targets
  fill dcfg now weight assigned desired (suc left) [] remaining targets = some targets
  fill dcfg now weight assigned desired (suc left) (a ∷ as') remaining targets =
      let active = a ∷ as' in
      let total_weight = sum (map weight active) in
      if lt (abs remaining) (ratio 1 1000)
      then some targets
      else if le total_weight (nat 0)
      then some targets
      else elim (share_out dcfg now weight remaining total_weight active (targets, [])) [
        | none ↦ none
        | some (shared, []) ↦ some shared
        | some (shared, c ∷ cs) ↦
            fill dcfg now weight assigned desired left
              (keep_if (λ b. not (contains (c ∷ cs) b.id)) active)
              (sub desired (assigned active shared)) shared
      ]
