-- ===== src/Dispatcher/Safety.antt =====
-- `enforce_circuit_safety` and `manual_reset_cutoff` of src/dispatcher.rs: the escalation from an
-- overloaded circuit to standby commands, and to an opened plug relay. A relay is switched by a task
-- that the cycle only starts: what the cycle asks for is its result, and what a task does to the
-- state when the plug has answered is a step of its own.
pub mod Escalation
pub mod History
use shelly_multiplexer.Prelude.{
  ℕ, ◌+◌, ◌-◌, Bool, true, false, not, ◌&&◌, Option, none, some, List, [], ◌∷◌, ◌++◌, String, ltb,
  leb, if◌then◌else◌, unwrap_or, map_or, keep_if, filter_map, map, lookup, modify, values,
  string_key, max_by, is_nil,
}
use shelly_multiplexer.Double.{Double, lt, le, eq, abs, signum, sum}
use shelly_multiplexer.Config.Constants.{
  emergency_cutoff_grace, emergency_soft_remediation_grace, emergency_cutoff_recovery,
}
use shelly_multiplexer.Config.Types.{DispatcherConfig, cap_w}
use shelly_multiplexer.State.{
  AppState, BatteryState, CircuitState, CutReason, over_cap, cutoff_failed,
}

-- A relay to open: the battery, its plug and the reason.
pub record Trip (W : Type 0) : Type 0 where
  pub id : String
  pub plug_url : String
  pub reason : CutReason W

-- What the check of one circuit decides.
pub record Verdict (W : Type 0) : Type 0 where
  pub circuit : CircuitState W
  pub standby : List String
  pub trips : List (Trip W)

-- What a cycle asks for: the batteries to put to standby, the relays to open, and those to close.
pub record Requests (W : Type 0) : Type 0 where
  pub standby : List String
  pub trips : List (Trip W)
  pub reenable : List (String × String)

module _ {W : Type 0} where
  -- `plug_cut_until.map_or(true, |t| t <= now)`
  abbrev pub not_cut : ℕ → BatteryState W → Bool
  not_cut now b = map_or b.plug_cut_until true (λ t. leb t now)

  -- The members whose plug is on, or not known to be off.
  unfoldable pub connected : List (String × BatteryState W) → CircuitState W → List (BatteryState W)
  connected bats cs =
      keep_if (λ (b : BatteryState W). unwrap_or b.plug_relay_state true)
        (filter_map (λ id. lookup id bats) cs.member_ids)

  abbrev pub calm : CircuitState W → CircuitState W
  calm cs = record cs { overload_started_at = none; soft_remediation_started_at = none }

  -- The recovery sweep.
  unfoldable pub expired : ℕ → List (BatteryState W) → List (String × String)
  expired now [] = []
  expired now (b ∷ bs) =
      if map_or b.plug_cut_until false (λ t. leb t now)
      then (b.id, b.plug_url) ∷ expired now bs
      else expired now bs

  abbrev pub stamped : ℕ → Trip W → BatteryState W → BatteryState W
  stamped now t b = record b {
    plug_cut_until = some (now + emergency_cutoff_recovery);
    plug_cut_reason = some t.reason;
    plug_relay_state = some false;
  }

  -- The state that the same cycle goes on with.
  unfoldable pub stamp_trips :
      ℕ → List (Trip W) → List (String × BatteryState W) → List (String × BatteryState W)
  stamp_trips now [] bats = bats
  stamp_trips now (t ∷ ts) bats = stamp_trips now ts (modify t.id (stamped now t) bats)

  -- The end of the task that opens a relay, with the error of the plug if there was one.
  unfoldable pub trip_done : String → Option String → AppState W → AppState W
  trip_done id none s = s
  trip_done id (some e) s = record s {
    batteries =
        modify id
          (λ b. record b { plug_cut_until = none; plug_cut_reason = some (cutoff_failed e) })
          s.batteries;
  }

  -- The end of the task that closes a relay after the recovery time.
  unfoldable pub reenable_done : String → Option String → AppState W → AppState W
  reenable_done id (some e) s = s
  reenable_done id none s = record s {
    batteries =
        modify id
          (λ b. record b {
            plug_cut_until = none;
            plug_cut_reason = none;
            plug_relay_state = some true;
          })
          s.batteries;
  }

  -- `manual_reset_cutoff`: `set_relay` is the plug's answer to the url, and the result is `false`
  -- where the function returns an error. Nothing else runs between its two locks.
  unfoldable pub manual_reset_cutoff : (String → Bool) → String → AppState W → AppState W × Bool
  unfolding reenable_done
  manual_reset_cutoff set_relay battery_id s = elim (lookup battery_id s.batteries) [
    | none ↦ (s, false)
    | some b ↦ elim b.plug_cut_until [
      | none ↦ (s, false)
      | some _ ↦
          if set_relay b.plug_url then (reenable_done battery_id none s, true) else (s, false)
    ]
  ]

module _ {W : Type 0} ⦃d : Double W⦄ where
  open d use {add, nat}

  abbrev pub signed_sum : List (BatteryState W) → W
  signed_sum bs = sum (filter_map (λ (b : BatteryState W). b.last_plug_w) bs)

  unfoldable pub is_overloaded : W → CircuitState W → List (BatteryState W) → Bool
  is_overloaded margin cs members = lt (add (cap_w cs.config) margin) (abs (signed_sum members))

  -- The member that contributes most in the direction of the sum, and is not cut yet.
  unfoldable pub worst_offender : ℕ → W → List (BatteryState W) → Option (BatteryState W)
  worst_offender now dir members =
      let size : BatteryState W → W = λ b. abs (unwrap_or b.last_plug_w (nat 0)) in
      max_by (λ a b. lt (size b) (size a)) none
        (keep_if
          (λ b.
            not_cut now b
            && map_or b.last_plug_w false (λ w. eq (signum w) dir && lt (nat 0) (abs w)))
          members)

  -- The second phase: the trip, if the standby has been asked for long enough.
  unfoldable pub hard_trips : ℕ → W → CircuitState W → List (BatteryState W) → ℕ → ℕ → List (Trip W)
  hard_trips now margin cs members started soft_started =
      let total = signed_sum members in
      let trip : List (Trip W) = elim (worst_offender now (signum total) members) [
        | none ↦ []
        | some b ↦
            record {
              id = b.id;
              plug_url = b.plug_url;
              reason =
                  over_cap cs.config.id total (cap_w cs.config) margin (now - started)
                    (now - soft_started);
            }
            ∷ []
      ] in
      if leb emergency_soft_remediation_grace (now - soft_started) then trip else []

  -- The body of the loop over the circuits. `duration_since` is 0 where the start lies ahead.
  unfoldable pub guard_circuit : List (String × BatteryState W) → W → ℕ → CircuitState W → Verdict W
  guard_circuit bats margin now cs =
      let members = connected bats cs in
      let started = unwrap_or cs.overload_started_at now in
      let soft_started = unwrap_or cs.soft_remediation_started_at now in
      let tracked = record cs { overload_started_at = some started } in
      if is_nil members
      then record { circuit = calm cs; standby = []; trips = [] }
      else if not (is_overloaded margin cs members)
      then record { circuit = calm cs; standby = []; trips = [] }
      else if ltb (now - started) emergency_cutoff_grace
      then record { circuit = tracked; standby = []; trips = [] }
      else record {
        circuit = record tracked { soft_remediation_started_at = some soft_started };
        standby = map (λ (b : BatteryState W). b.id) (keep_if (not_cut now) members);
        trips = hard_trips now margin cs members started soft_started;
      }

  -- The loop over the circuits.
  unfoldable pub guard_circuits :
      List (String × BatteryState W)
      → W
      → ℕ
      → List (String × CircuitState W)
      → List (String × CircuitState W) × List String × List (Trip W)
  unfolding guard_circuit
  guard_circuits bats margin now [] = ([], [], [])
  guard_circuits bats margin now ((cid, cs) ∷ rest) =
      let v = guard_circuit bats margin now cs in
      let (circuits, standby, trips) = guard_circuits bats margin now rest in
      ((cid, v.circuit) ∷ circuits, v.standby ++ standby, v.trips ++ trips)

  -- Without a `dispatch` the standby commands are not sent.
  unfoldable pub enforce_circuit_safety :
      AppState W → DispatcherConfig W → Bool → ℕ → AppState W × Requests W
  unfolding guard_circuits expired stamp_trips
  enforce_circuit_safety s dcfg has_dispatch now =
      let margin = dcfg.emergency_cutoff_margin_w in
      let (circuits, standby, trips) = guard_circuits s.batteries margin now s.circuits in
      if le margin (nat 0) then (s, record { standby = []; trips = []; reenable = [] }) else (
        record s { circuits = circuits; batteries = stamp_trips now trips s.batteries },
        record {
          standby = if has_dispatch then standby else [];
          trips = trips;
          reenable = expired now (values s.batteries);
        },
      )
