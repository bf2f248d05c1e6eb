-- ===== src/Dispatcher/Mute.antt =====
-- `update_circuit_mute` of src/dispatcher.rs: stale plugs and a stale grid silence circuits.
pub mod Freshness
use shelly_multiplexer.Prelude.{
  ℕ, ◌+◌, ◌-◌, ◌*◌, Bool, true, false, not, ◌||◌, Option, none, some, List, [], ◌∷◌, String, ltb,
  leb, if◌then◌else◌, any, map_or, lookup, map_values, string_key,
}
use shelly_multiplexer.Double.{Double, le}
use shelly_multiplexer.Config.Constants.{second, group_silent_after_stale, as_secs_f64}
use shelly_multiplexer.Config.Types.{DispatchMode, modbus, pulse, DispatcherConfig}
use shelly_multiplexer.State.{AppState, BatteryState, CircuitState}
use shelly_multiplexer.State.Battery.{is_plug_fresh, later_than}

-- `muted_circuit` of the dispatcher: the circuit is known and silent beyond `now`.
unfoldable pub is_muted : {W : Type 0} → List (String × CircuitState W) → String → ℕ → Bool
is_muted circuits cid now = elim (lookup cid circuits) [
  | none ↦ false
  | some c ↦ later_than c.silent_until now
]

abbrev pub silence_of : DispatchMode → ℕ
silence_of pulse = group_silent_after_stale
silence_of modbus = 0

-- `match prev { Some(prev) if prev > target => Some(prev), _ => Some(target) }`
abbrev pub extend_silence : Option ℕ → ℕ → Option ℕ
extend_silence (some prev) target = if ltb target prev then some prev else some target
extend_silence none target = some target

-- A silence that is over is cleared.
abbrev pub end_silence : Option ℕ → ℕ → Option ℕ
end_silence (some until) now = if leb until now then none else some until
end_silence none now = none

-- The log throttle.
abbrev warn_at : Option ℕ → ℕ → Option ℕ
warn_at (some t) now = if leb (30 * second) (now - t) then some now else some t
warn_at none now = some now

module _ {W : Type 0} ⦃d : Double W⦄ where
  unfoldable pub is_grid_fresh : AppState W → DispatcherConfig W → ℕ → Bool
  is_grid_fresh s dcfg now =
      map_or s.snapshot.age false (λ t. le (as_secs_f64 (now - t)) dcfg.grid_stale_s)

  unfoldable pub any_plug_stale : List (String × BatteryState W) → W → ℕ → List String → Bool
  any_plug_stale bats plug_stale_s now =
      any (λ bid. map_or (lookup bid bats) true (λ b. not (is_plug_fresh b now plug_stale_s)))

  unfoldable pub mute_circuit :
      List (String × BatteryState W)
      → DispatcherConfig W
      → Bool
      → ℕ
      → CircuitState W
      → CircuitState W
  mute_circuit bats dcfg grid_fresh now cs =
      if any_plug_stale bats dcfg.plug_stale_s now cs.member_ids || not grid_fresh
      then record cs { silent_until = extend_silence cs.silent_until (now + silence_of dcfg.mode) }
      else record cs { silent_until = end_silence cs.silent_until now }

  -- The new state, and whether the grid measurement is fresh.
  unfoldable pub update_circuit_mute : AppState W → DispatcherConfig W → ℕ → AppState W × Bool
  update_circuit_mute s dcfg now =
      let grid_fresh = is_grid_fresh s dcfg now in
      (
        record s {
          circuits = map_values (mute_circuit s.batteries dcfg grid_fresh now) s.circuits;
          last_grid_stale_warn =
              if grid_fresh then s.last_grid_stale_warn else warn_at s.last_grid_stale_warn now;
        },
        grid_fresh,
      )
