-- ===== src/State/Activity.antt =====
-- `AppState::refresh_activity` of src/state.rs: a changed configuration moves batteries between
-- active and inactive.
use text.Mathlib.Text.{starts_with}
use shelly_multiplexer.Prelude.{
  Bool, true, false, Option, none, some, List, [], ◌∷◌, String, if◌then◌else◌, map_or, modify,
  string_key,
}
use shelly_multiplexer.Config.Types.{BatteryConfig, Config}
use shelly_multiplexer.State.{BatteryState, AppState}
use shelly_multiplexer.State.Startup.{has_soc_source}

-- `last_error` after the change from `was_active` to `active`.
error_after : Bool → Bool → Option String → Option String
error_after true false error =
    some "inactive: SoC source removed (set modbus_host or soc_entity_id to re-enable)"
error_after false true error =
    if map_or error false (λ e. starts_with e "inactive:") then none else error
error_after _ _ error = error

module _ {W : Type 0} where
  unfoldable pub refresh_battery : Bool → BatteryState W → BatteryState W
  unfolding error_after
  refresh_battery active b = record b {
    active = active;
    soc_pct = if active then b.soc_pct else none;
    soc_at = if active then b.soc_at else none;
    soc_source = if active then b.soc_source else none;
    last_error = error_after b.active active b.last_error;
  }

  unfoldable pub refresh_each :
      Bool
      → List (BatteryConfig W)
      → List (String × BatteryState W)
      → List (String × BatteryState W)
  unfolding refresh_battery
  refresh_each ha_enabled [] bats = bats
  refresh_each ha_enabled (c ∷ cs) bats =
      refresh_each ha_enabled cs (modify c.id (refresh_battery (has_soc_source c ha_enabled)) bats)

  unfoldable pub refresh_activity : AppState W → Config W → AppState W
  unfolding refresh_each
  refresh_activity s cfg = record s {
    batteries = refresh_each cfg.home_assistant.enabled cfg.batteries s.batteries;
  }
