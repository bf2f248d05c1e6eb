-- ===== src/Runtime/Started.antt =====
-- The invariant of the state, and what it asks of the configuration that src/state.rs starts from.
use shelly_multiplexer.Prelude.{
  ℕ, suc, ◌≡◌, refl, Bool, none, List, [], ◌∷◌, String, arith, All, insert, modify, string_key,
  on_each, ◌==◌,
}
use shelly_multiplexer.Double.{Double, ◌≼◌}
use shelly_multiplexer.Config.Constants.{marstek_min_w}
use shelly_multiplexer.Config.Types.{BatteryConfig, CircuitConfig, Config, cap_w}
use shelly_multiplexer.Config.Validate.{validate}
use shelly_multiplexer.Config.Validate.Limits.{validate-AreRated}
use shelly_multiplexer.State.{AppState, BatteryState, CircuitState}
use shelly_multiplexer.State.Startup.{
  battery_from_config, add_batteries, add_circuits, circuit_from_config, app_from_config,
  BatteryMaps,
}
use shelly_multiplexer.Dispatcher.Bounds.{IsRated}
use shelly_multiplexer.Dispatcher.Safety.Escalation.{IsStaged}
use shelly_multiplexer.Runtime.Tables.{IsTable, insert-IsTable, modify-IsTable, Steady}

module _ {W : Type 0} ⦃d : Double W⦄ where
  open d use {nat}

  -- The circuits: no cap is below zero, and the phases of an overload are in order.
  abbrev pub AreGuarded : List (String × CircuitState W) → Type 0
  AreGuarded = All (λ (e : String × CircuitState W). (nat 0 ≼ cap_w e.1.config) × IsStaged e.1)

  -- The state of the program is in order.
  pub record IsSound (s : AppState W) : Type 0 where
    pub table : IsTable s.batteries
    pub circuits : AreGuarded s.circuits

  -- A change of one battery that leaves its id and its limits.
  pub modify-IsSound :
      (id : String) (f : BatteryState W → BatteryState W) (s : AppState W)
      → ((b : BatteryState W) → Steady b (f b))
      → IsSound s
      → IsSound (record s { batteries = modify id f s.batteries })
  modify-IsSound id f s steady h = record {
    table = modify-IsTable id f s.batteries steady h.table;
    circuits = h.circuits;
  }

  -- A configuration that validates, whose limits are 50 W or more and whose caps are not below zero.
  pub record IsUsable (is_socket_addr : String → Bool) (cfg : Config W) : Type 0 where
    pub valid : validate is_socket_addr cfg ≡ none
    pub capable :
        All
          (λ (b : BatteryConfig W).
            (marstek_min_w ≼ b.max_charge_w) × (marstek_min_w ≼ b.max_discharge_w))
          cfg.batteries
    pub caps : All (λ (c : CircuitConfig W). nat 0 ≼ cap_w c) cfg.circuits

  from_config-capable :
      (ha_enabled : Bool) (idx : ℕ) (b : BatteryConfig W)
      → (marstek_min_w ≼ b.max_charge_w) × (marstek_min_w ≼ b.max_discharge_w)
      → let st = battery_from_config b ha_enabled idx in
        (marstek_min_w ≼ st.max_charge_w) × (marstek_min_w ≼ st.max_discharge_w)
  unfolding battery_from_config
  from_config-capable ha_enabled idx b c = c

  circuit_from_config-guarded :
      (batteries : List (BatteryConfig W)) (c : CircuitConfig W)
      → nat 0 ≼ cap_w c
      → let cs = circuit_from_config batteries c in (nat 0 ≼ cap_w cs.config) × IsStaged cs
  unfolding circuit_from_config
  circuit_from_config-guarded batteries c cap = (cap, ground arith)

  add_batteries-IsTable :
      (ha_enabled : Bool) (idx : ℕ) (bs : List (BatteryConfig W)) (maps : BatteryMaps W)
      → All
          (λ b. (ha_enabled : Bool) (index : ℕ) → IsRated (battery_from_config b ha_enabled index))
          bs
      → All
          (λ (b : BatteryConfig W).
            (marstek_min_w ≼ b.max_charge_w) × (marstek_min_w ≼ b.max_discharge_w))
          bs
      → IsTable maps.batteries
      → IsTable (add_batteries ha_enabled idx bs maps).batteries
  unfolding add_batteries
  add_batteries-IsTable ha_enabled idx [] maps rated capable h = h
  add_batteries-IsTable ha_enabled idx (b ∷ bs) maps (r, rated) (c, capable) h =
      let st = battery_from_config b ha_enabled idx in
      add_batteries-IsTable ha_enabled (suc idx) bs _ rated capable (
        insert-IsTable st.id st maps.batteries refl
          (record { rated = r ha_enabled idx; capable = from_config-capable ha_enabled idx b c }) h)

  insert-AreGuarded :
      (key : String) (c : CircuitState W) (circuits : List (String × CircuitState W))
      → (nat 0 ≼ cap_w c.config) × IsStaged c
      → AreGuarded circuits
      → AreGuarded (insert key c circuits)
  unfolding insert
  insert-AreGuarded key c [] good h = (good, tt)
  insert-AreGuarded key c ((k, old) ∷ rest) good (h, hs) =
      on_each AreGuarded (k == key) (λ here. (good, hs))
        (λ other. (h, insert-AreGuarded key c rest good hs))

  add_circuits-AreGuarded :
      (batteries : List (BatteryConfig W)) (cs : List (CircuitConfig W))
      (circuits : List (String × CircuitState W))
      → All (λ (c : CircuitConfig W). nat 0 ≼ cap_w c) cs
      → AreGuarded circuits
      → AreGuarded (add_circuits batteries cs circuits)
  unfolding add_circuits
  add_circuits-AreGuarded batteries [] circuits caps h = h
  add_circuits-AreGuarded batteries (c ∷ cs) circuits (cap, caps) h =
      add_circuits-AreGuarded batteries cs _ caps (
        insert-AreGuarded c.id (circuit_from_config batteries c) circuits
          (circuit_from_config-guarded batteries c cap) h)

  -- The program starts in order from every usable configuration.
  pub app_from_config-IsSound :
      (is_socket_addr : String → Bool) (cfg : Config W) (now : ℕ)
      → IsUsable is_socket_addr cfg
      → IsSound (app_from_config cfg now)
  unfolding app_from_config
  app_from_config-IsSound is_socket_addr cfg now usable = record {
    table =
        add_batteries-IsTable cfg.home_assistant.enabled 0 cfg.batteries _
          (validate-AreRated is_socket_addr cfg usable.valid) usable.capable tt;
    circuits = add_circuits-AreGuarded cfg.batteries cfg.circuits [] usable.caps tt;
  }
