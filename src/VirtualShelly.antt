-- ===== src/VirtualShelly.antt =====
-- src/virtual_shelly.rs: what a poll of a Marstek changes, and what it is answered. A request is a
-- frame that has been parsed, with its method in lower case; the socket and the JSON are libraries'.
pub mod Methods
pub mod Pulses
pub mod Answers
pub mod Delivered
pub mod Polls
pub mod Silence
pub mod Verdicts
use shelly_multiplexer.Prelude.{
  ℕ, suc, ◌+◌, ◌-◌, ◌*◌, ◌≡◌, ◌↔◌, Bool, true, false, not, ◌&&◌, Option, none, some, List, [], ◌∷◌,
  String, ℤ, pos, negsuc, ltb, leb, nat_beq, if◌then◌else◌, map_or, or_else, lookup, insert, modify,
  contains, keys, length, nat_key, string_key, ◌==◌, Key, arith,
}
use shelly_multiplexer.Double.{Double, lt, abs}
use shelly_multiplexer.Config.Constants.{second, as_secs_f64}
use shelly_multiplexer.Config.Types.{IpAddr, ip_key, ip_beq_iff}
use shelly_multiplexer.State.{AppState, BatteryState, EmStatusIncoming, EnergyCounters, bump}
use shelly_multiplexer.Dispatcher.Mute.{is_muted}

abbrev pub max_response_counters : ℕ
max_response_counters = 1024

-- The answers to `EM.GetStatus` and `EMData.GetStatus`.
pub record EmStatus (W : Type 0) : Type 0 where
  pub id : ℤ
  pub a_current : Option W
  pub a_voltage : Option W
  pub a_act_power : Option W
  pub a_aprt_power : Option W
  pub a_pf : Option W
  pub a_freq : Option W
  pub a_errors : List String
  pub b_current : Option W
  pub b_voltage : Option W
  pub b_act_power : Option W
  pub b_aprt_power : Option W
  pub b_pf : Option W
  pub b_freq : Option W
  pub b_errors : List String
  pub c_current : Option W
  pub c_voltage : Option W
  pub c_act_power : Option W
  pub c_aprt_power : Option W
  pub c_pf : Option W
  pub c_freq : Option W
  pub c_errors : List String
  pub n_current : Option W
  pub n_errors : List String
  pub total_current : Option W
  pub total_act_power : Option W
  pub total_aprt_power : Option W
  pub user_calibrated_phase : List String
  pub errors : List String

pub record EmDataStatus (W : Type 0) : Type 0 where
  pub id : ℤ
  pub a_total_act_energy : W
  pub a_total_act_ret_energy : W
  pub b_total_act_energy : W
  pub b_total_act_ret_energy : W
  pub c_total_act_energy : W
  pub c_total_act_ret_energy : W
  pub total_act : W
  pub total_act_ret : W

-- The errors of `em_get_status`, both with the code -114, by their cause, and that of an unknown
-- method, with the code -32601.
pub data RpcError (W : Type 0) : Type 0 where
  no_power_data_yet : RpcError W
  snapshot_stale : W → RpcError W
  method_not_found : String → RpcError W

-- `Result` of `em_get_status`.
pub data EmReply (W : Type 0) : Type 0 where
  status : EmStatus W → EmReply W
  refused : RpcError W → EmReply W

-- `bats.get_mut(bid)` after `state.by_addr.get(&peer.ip())`.
abbrev pub at_battery :
    {W : Type 0} → Option String → (BatteryState W → BatteryState W) → AppState W → AppState W
at_battery none f s = s
at_battery (some id) f s = record s { batteries = modify id f s.batteries }

module _ {W : Type 0} where
  -- `mute`
  unfoldable pub is_mute : AppState W → Option String → ℕ → Bool
  is_mute s none now = false
  is_mute s (some bid) now = elim (lookup bid s.batteries) [
    | none ↦ false
    | some b ↦ is_muted s.circuits b.circuit now
  ]

module _ {W : Type 0} ⦃d : Double W⦄ where
  open d use {nat, mul, div, round}

  -- The poll takes one repetition of the pending pulse.
  unfoldable pub pop_pulse : ℕ → BatteryState W → BatteryState W
  pop_pulse now b =
      let polled = record b { last_marstek_poll_at = some now } in
      let left = b.pulse_remaining - 1 in
      if ltb 0 b.pulse_remaining
      then if nat_beq left 0
        then record polled {
          pulse_remaining = left;
          pending_pulse_w = nat 0;
          last_pulse_completed_at = some now;
        }
        else record polled { pulse_remaining = left }
      else polled

  -- `pulse_value_w`
  unfoldable pub pulse_value : AppState W → Option String → W
  pulse_value s none = nat 0
  pulse_value s (some id) = elim (lookup id s.batteries) [
    | none ↦ nat 0
    | some b ↦ if ltb 0 b.pulse_remaining then b.pending_pulse_w else nat 0
  ]

  -- The value that the response is built with; `none` where the poll is dropped.
  unfoldable pub handle_poll : AppState W → IpAddr → ℕ → AppState W × Option W
  unfolding is_mute pop_pulse pulse_value
  handle_poll s peer now =
      let id = lookup peer s.by_addr in
      if is_mute s id now
      then (at_battery id (λ b. record b { last_marstek_poll_at = some now }) s, none)
      else (at_battery id (pop_pulse now) s, some (pulse_value s id))

  unfoldable pub em_get_status : AppState W → W → W → ℕ → EmReply W
  em_get_status s pulse_value_w grid_stale_s now = elim s.snapshot.age [
    | none ↦ refused no_power_data_yet
    | some t ↦
        let age = as_secs_f64 (now - t) in
        let st = s.snapshot.status in
        let v = div (round (mul pulse_value_w (nat 1000))) (nat 1000) in
        let i = div v (nat 230) in
        if lt grid_stale_s age
        then refused (snapshot_stale age)
        else status (record {
          id = pos 0;
          a_current = some i;
          a_voltage = or_else st.a_voltage (some (nat 230));
          a_act_power = some v;
          a_aprt_power = some (abs v);
          a_pf = or_else st.a_pf (some (nat 1));
          a_freq = or_else st.a_freq (some (nat 50));
          a_errors = [];
          b_current = some (nat 0);
          b_voltage = or_else st.b_voltage (some (nat 230));
          b_act_power = some (nat 0);
          b_aprt_power = some (nat 0);
          b_pf = or_else st.b_pf (some (nat 1));
          b_freq = or_else st.b_freq (some (nat 50));
          b_errors = [];
          c_current = some (nat 0);
          c_voltage = or_else st.c_voltage (some (nat 230));
          c_act_power = some (nat 0);
          c_aprt_power = some (nat 0);
          c_pf = or_else st.c_pf (some (nat 1));
          c_freq = or_else st.c_freq (some (nat 50));
          c_errors = [];
          n_current = some (nat 0);
          n_errors = [];
          total_current = some i;
          total_act_power = some v;
          total_aprt_power = some (abs v);
          user_calibrated_phase = [];
          errors = [];
        })
  ]

  unfoldable pub emdata_status : AppState W → EmDataStatus W
  emdata_status s = record {
    id = pos 0;
    a_total_act_energy = s.energy.consumed_wh;
    a_total_act_ret_energy = s.energy.returned_wh;
    b_total_act_energy = nat 0;
    b_total_act_ret_energy = nat 0;
    c_total_act_energy = nat 0;
    c_total_act_ret_energy = nat 0;
    total_act = s.energy.consumed_wh;
    total_act_ret = s.energy.returned_wh;
  }

-- The counters of the responses, by the peer and the method.
abbrev pub PeerMethod : Type 0
PeerMethod = IpAddr × String

abbrev peer_method_beq : PeerMethod → PeerMethod → Bool
peer_method_beq (a, m) (b, n) = a == b && m == n

pub peer_method_beq_iff : (a b : PeerMethod) → (peer_method_beq a b ≡ true) ↔ (a ≡ b)
peer_method_beq_iff (a, m) (b, n) = ground (arith, ip_beq_iff a b, string_key.beq_iff m n)

instance abbrev pub peer_method_key : Key PeerMethod
peer_method_key = record { beq = peer_method_beq; beq_iff = peer_method_beq_iff }

-- `map.keys().next()` is the first entry of the list.
abbrev pub evict : {V : Type 0} → List (PeerMethod × V) → List (PeerMethod × V)
evict [] = []
evict (_ ∷ rest) = rest

unfoldable pub count_response : PeerMethod → List (PeerMethod × ℕ) → List (PeerMethod × ℕ)
count_response key counters =
    let room =
      if leb max_response_counters (length counters) && not (contains (keys counters) key)
      then evict counters
      else counters in
    insert key (map_or (lookup key room) 1 bump) room
