-- ===== src/Dispatcher/Mute/Freshness.antt =====
-- When a circuit is silent after `update_circuit_mute` of src/dispatcher.rs.
use shelly_multiplexer.Prelude.{
  ℕ, ◌+◌, ◌<◌, ◌≡◌, refl, ◌⊎◌, inl, inr, ◌↔◌, true, false, not, ◌||◌, none, some, List, [], ◌∷◌,
  String, arith, lookup, string_key, map_values, Option-cases,
}
use shelly_multiplexer.Double.{Double}
use shelly_multiplexer.Config.Constants.{group_silent_after_stale}
use shelly_multiplexer.Config.Types.{modbus, pulse, DispatcherConfig}
use shelly_multiplexer.State.{AppState, CircuitState}
use shelly_multiplexer.Dispatcher.Mute.{
  is_muted, any_plug_stale, mute_circuit, update_circuit_mute, is_grid_fresh,
}

module _ {W : Type 0} ⦃d : Double W⦄ where
  lookup-map_values :
      (f : CircuitState W → CircuitState W) (cid : String) (cs : List (String × CircuitState W))
      (c : CircuitState W)
      → lookup cid cs ≡ some c
      → lookup cid (map_values f cs) ≡ some (f c)
  unfolding lookup
  lookup-map_values f cid [] c e = cc
  lookup-map_values f cid ((k, v) ∷ cs) c e = ground (arith, lookup-map_values f cid cs c)

  lookup-map_values-none :
      (f : CircuitState W → CircuitState W) (cid : String) (cs : List (String × CircuitState W))
      → lookup cid cs ≡ none
      → lookup cid (map_values f cs) ≡ none
  unfolding lookup
  lookup-map_values-none f cid [] e = refl
  lookup-map_values-none f cid ((k, v) ∷ cs) e = ground (arith, lookup-map_values-none f cid cs)

  -- In pulse mode a circuit is silent after the update, at the time of the update, exactly when one
  -- of its plugs or the grid is stale, or an earlier silence still runs.
  pub pulse_mutes :
      (s : AppState W) (dcfg : DispatcherConfig W) (now : ℕ) (cid : String) (c : CircuitState W)
      → dcfg.mode ≡ pulse
      → lookup cid s.circuits ≡ some c
      → let stale =
          any_plug_stale s.batteries dcfg.plug_stale_s now c.member_ids
          || not (is_grid_fresh s dcfg now) in
        let after = (update_circuit_mute s dcfg now).0.circuits in
        (is_muted after cid now ≡ true) ↔ ((stale ≡ true) ⊎ (is_muted s.circuits cid now ≡ true))
  unfolding update_circuit_mute is_muted mute_circuit
  pulse_mutes s dcfg now cid c m e = ground (
    arith,
    lookup-map_values (mute_circuit s.batteries dcfg (is_grid_fresh s dcfg now) now) cid s.circuits
        c e,
  )

  -- In pulse mode a stale plug of a circuit, or a stale grid, silences the circuit for 60 s from the
  -- update, an earlier silence that runs longer being kept.
  pub stale_silences :
      (s : AppState W) (dcfg : DispatcherConfig W) (now : ℕ) (cid : String) (c : CircuitState W)
      → dcfg.mode ≡ pulse
      → lookup cid s.circuits ≡ some c
      → (any_plug_stale s.batteries dcfg.plug_stale_s now c.member_ids ≡ true)
        ⊎ (is_grid_fresh s dcfg now ≡ false)
      → (t : ℕ)
      → (is_muted (update_circuit_mute s dcfg now).0.circuits cid t ≡ true)
        ↔ ((t < now + group_silent_after_stale) ⊎ (is_muted s.circuits cid t ≡ true))
  unfolding update_circuit_mute is_muted mute_circuit
  stale_silences s dcfg now cid c m e stale t = ground (
    arith,
    lookup-map_values (mute_circuit s.batteries dcfg (is_grid_fresh s dcfg now) now) cid s.circuits
        c e,
  )

  -- In modbus mode the update silences nothing: a circuit is silent afterwards exactly when it was
  -- before, however stale its plugs or the grid are.
  pub modbus_never_mutes :
      (s : AppState W) (dcfg : DispatcherConfig W) (now : ℕ) (cid : String)
      → dcfg.mode ≡ modbus
      → is_muted (update_circuit_mute s dcfg now).0.circuits cid now ≡ is_muted s.circuits cid now
  unfolding update_circuit_mute is_muted mute_circuit
  modbus_never_mutes s dcfg now cid m = elim (Option-cases (lookup cid s.circuits)) [
    | inl e ↦ ground (
      arith,
      lookup-map_values-none (mute_circuit s.batteries dcfg (is_grid_fresh s dcfg now) now) cid
          s.circuits e,
    )
    | inr (c, e) ↦ ground (
      arith,
      lookup-map_values (mute_circuit s.batteries dcfg (is_grid_fresh s dcfg now) now) cid
          s.circuits c e,
    )
  ]
