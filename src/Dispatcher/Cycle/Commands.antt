-- ===== src/Dispatcher/Cycle/Commands.antt =====
-- What `step_modbus` of src/dispatcher.rs sends.
use shelly_multiplexer.Prelude.{
  ℕ, ◌≡◌, refl, ◌⊎◌, inl, inr, Bool, true, false, Option, none, some, List, [], ◌∷◌, String,
  if◌then◌else◌, unwrap_or, arith, All, map, lookup, values, string_key, Bool-cases, Returns,
  Returns-some, map_values,
}
use shelly_multiplexer.Double.{Double, IsOrdered, IsScaling, ◌≼◌, max}
use shelly_multiplexer.Config.Constants.{marstek_min_w}
use shelly_multiplexer.Config.Types.{DispatcherConfig, cap_w}
use shelly_multiplexer.State.{AppState, BatteryState, CircuitState}
use shelly_multiplexer.Setpoint.{Setpoint, standby, charge, discharge, from_signed_watts}
use shelly_multiplexer.Setpoint.Bounds.{
  IsWithin, from_signed_watts-IsSafe, from_signed_watts_panics,
}
use shelly_multiplexer.Dispatcher.Mute.{update_circuit_mute, is_grid_fresh, mute_circuit}
use shelly_multiplexer.Dispatcher.Overhead.{apply_overhead_compensation}
use shelly_multiplexer.Dispatcher.Bounds.{IsRated}
use shelly_multiplexer.Dispatcher.Shares.{target_of, eligible}
use shelly_multiplexer.Dispatcher.Shares.Bounded.{IsKeyed, AreStored, AreStored-values}
use shelly_multiplexer.Dispatcher.Targets.{compute_targets}
use shelly_multiplexer.Dispatcher.Targets.Ramp.{AreReachable, compute_targets-AreReachable}
use shelly_multiplexer.Dispatcher.Cycle.{
  command_of, is_skipped, commands, dispatch_targets, step_modbus,
}

module _ {W : Type 0} ⦃d : Double W⦄ where
  open d use {nat}

  -- A command is for a stored battery that is not skipped, and within its limits.
  abbrev pub IsSendable : AppState W → ℕ → String × Setpoint → Type 0
  IsSendable s now c =
      (b : BatteryState W) × (lookup c.0 s.batteries ≡ some b)
      × (is_skipped s now b ≡ false)
      × IsWithin b.max_charge_w b.max_discharge_w c.1

  -- The limits of a battery leave room for the smallest power that an inverter takes.
  abbrev pub IsCapable : BatteryState W → Type 0
  IsCapable b = (marstek_min_w ≼ b.max_charge_w) × (marstek_min_w ≼ b.max_discharge_w)

  -- What a cycle sends, by whether the grid is fresh.
  abbrev pub IsSent : AppState W → ℕ → List String → Bool → List (String × Setpoint) → Type 0
  IsSent s now writers fresh sent =
      (fresh ≡ true) × All (IsSendable s now) sent
      ⊎ (fresh ≡ false) × (sent ≡ map (λ id. (id, standby)) writers)

  module _ (laws : IsOrdered W) (scaling : IsScaling W) where
    command_of-IsWithin :
        (target : W) (b : BatteryState W)
        → IsCapable b
        → Returns (IsWithin b.max_charge_w b.max_discharge_w) (command_of target b)
    unfolding command_of
    command_of-IsWithin target b h =
        let w = apply_overhead_compensation target (unwrap_or b.plug_overhead_w_smoothed (nat 0)) in
        let p = from_signed_watts_panics laws w b.max_charge_w b.max_discharge_w in
        within w (from_signed_watts w b.max_charge_w b.max_discharge_w) refl
      where
        within :
            (w : W) (r : Option Setpoint)
            → from_signed_watts w b.max_charge_w b.max_discharge_w ≡ r
            → Returns (IsWithin b.max_charge_w b.max_discharge_w) r
        within w none e =
            ground
              (arith, h, (from_signed_watts_panics laws w b.max_charge_w b.max_discharge_w).0 e)
        within w (some standby) e = tt
        within w (some (charge n)) e =
            ground (arith, from_signed_watts-IsSafe laws w b.max_charge_w b.max_discharge_w e)
        within w (some (discharge n)) e =
            ground (arith, from_signed_watts-IsSafe laws w b.max_charge_w b.max_discharge_w e)

    add_command :
        (s : AppState W) (now : ℕ) (b : BatteryState W) (o : Option Setpoint)
        (rest : Option (List (String × Setpoint)))
        → lookup b.id s.batteries ≡ some b
        → is_skipped s now b ≡ false
        → Returns (IsWithin b.max_charge_w b.max_discharge_w) o
        → Returns (All (IsSendable s now)) rest
        → Returns (All (IsSendable s now)) (elim o [
          | none ↦ none
          | some sp ↦ elim rest [ none ↦ none | some sent ↦ some ((b.id, sp) ∷ sent) ]
        ])
    add_command s now b none rest sb q h k = absurd h
    add_command s now b (some sp) none sb q h k = absurd k
    add_command s now b (some sp) (some sent) sb q h k = ((b, sb, q, h), k)

    commands-AreSendable :
        (s : AppState W) (targets : List (String × W)) (now : ℕ) (bs : List (BatteryState W))
        → AreStored s.batteries bs
        → All IsCapable bs
        → Returns (All (IsSendable s now)) (commands s targets now bs)
    unfolding commands
    commands-AreSendable s targets now [] st h = tt
    commands-AreSendable s targets now (b ∷ bs) (sb, st) (hb, hs) =
        let rest = commands-AreSendable s targets now bs st hs in
        elim (Bool-cases (is_skipped s now b)) [
          | inl q ↦ rw q rest
          | inr q ↦ rw q (
              add_command s now b (command_of (target_of targets b.id) b)
                (commands s targets now bs) sb q (command_of-IsWithin (target_of targets b.id) b hb)
                rest)
        ]

    caps_muted :
        (bats : List (String × BatteryState W)) (dcfg : DispatcherConfig W) (fresh : Bool) (now : ℕ)
        (cs : List (String × CircuitState W))
        → All (λ c. nat 0 ≼ cap_w c.config) (values cs)
        → All
            (λ c. nat 0 ≼ cap_w c.config)
            (values (map_values (mute_circuit bats dcfg fresh now) cs))
    unfolding mute_circuit
    caps_muted bats dcfg fresh now [] h = tt
    caps_muted bats dcfg fresh now ((k, c) ∷ cs) (h, hs) =
        ground (arith, h, caps_muted bats dcfg fresh now cs hs)

    send :
        (s : AppState W) (now : ℕ) (writers : List String) (fresh : Bool)
        (dispatched : Option (List (String × Setpoint)))
        → Returns (All (IsSendable s now)) dispatched
        → let sent : Option (List (String × Setpoint)) =
            if fresh then dispatched else some (map (λ (id : String). (id, standby)) writers) in
          Returns
            (λ (r : AppState W × List (String × Setpoint)). IsSent s now writers fresh r.1)
            (elim sent [ none ↦ none | some commands ↦ some (s, commands) ])
    send s now writers true none h = absurd h
    send s now writers true (some sent) h = inl (refl, h)
    send s now writers false dispatched h = inr (refl, refl)

    -- A cycle of the modbus mode never panics, for rated batteries stored under their ids whose
    -- limits are 50 W or more, and circuits whose cap is not below zero. With a stale grid it sends a
    -- standby to every writer; with a fresh one, all it sends is commands of 50 W to 2500 W within
    -- the limits of the battery or a standby, and nothing to a battery whose plug is cut or whose
    -- circuit is muted.
    pub step_modbus-AreSendable :
        (s : AppState W) (dcfg : DispatcherConfig W) (writers : List String) (now : ℕ)
        → IsKeyed s.batteries
        → ((id : String) (b : BatteryState W) → lookup id s.batteries ≡ some b → IsRated b)
        → All IsCapable (values s.batteries)
        → All (λ c. nat 0 ≼ cap_w c.config) (values s.circuits)
        → Returns
            (λ (r : AppState W × List (String × Setpoint)).
              IsSent (update_circuit_mute s dcfg now).0 now writers (is_grid_fresh s dcfg now) r.1)
            (step_modbus s dcfg (some writers) now)
    unfolding step_modbus dispatch_targets update_circuit_mute
    step_modbus-AreSendable s dcfg writers now keyed rated capable caps =
        let muted = (update_circuit_mute s dcfg now).0 in
        let fresh = is_grid_fresh s dcfg now in
        let grid_w = unwrap_or s.snapshot.status.total_act_power (nat 0) in
        let (targets, e, _) =
          Returns-some (AreReachable (max dcfg.rate_limit_w_per_cycle (nat 1)) (eligible muted now))
            (compute_targets muted dcfg grid_w now)
            (compute_targets-AreReachable laws scaling muted dcfg grid_w now keyed rated
              (caps_muted s.batteries dcfg fresh now s.circuits caps)) in
        let k =
          commands-AreSendable muted targets now (values s.batteries)
            (AreStored-values s.batteries s.batteries keyed) capable in
        send muted now writers fresh (dispatch_targets muted dcfg now) (rw (e, dispatch_targets) k)
