-- ===== src/ModbusServer.antt =====
-- The virtual Modbus server of src/modbus_server.rs: one request on the shared state. The request
-- and exception types are tokio-modbus's, by the constructors that the source names; `other` is the
-- rest of the requests, which the source takes together.

pub mod Counters
pub mod Reads
use shelly_multiplexer.Prelude.{
  ℕ, zero, suc, ◌+◌, ◌%◌, ◌^◌, Bool, Option, none, some, List, [], ◌∷◌, if◌then◌else◌, lookup,
  nat_key, string_key, String, nat_beq,
}
use shelly_multiplexer.Config.Registers.{MarstekModel, venus_e_v3}
use shelly_multiplexer.State.{AppState, BatteryState, ModbusStats, bump}

pub data Request : Type 0 where
  read_coils : ℕ → ℕ → Request
  read_discrete_inputs : ℕ → ℕ → Request
  read_holding_registers : ℕ → ℕ → Request
  read_input_registers : ℕ → ℕ → Request
  write_single_coil : ℕ → Bool → Request
  write_multiple_coils : ℕ → List Bool → Request
  write_single_register : ℕ → ℕ → Request
  write_multiple_registers : ℕ → List ℕ → Request
  mask_write_register : ℕ → ℕ → ℕ → Request
  read_write_multiple_registers : ℕ → ℕ → ℕ → List ℕ → Request
  other : ℕ → Request

-- The responses that the handler builds: its one response constructor is `ReadHoldingRegisters`.
pub data Outcome : Type 0 where
  holding_registers : List ℕ → Outcome
  gateway_path_unavailable server_device_busy illegal_data_address illegal_function : Outcome

unfoldable pub alias_probe_register : MarstekModel → ℕ → ℕ
alias_probe_register venus_e_v3 addr = if nat_beq addr 32104 then 34002 else addr
alias_probe_register _ addr = addr

-- `for offset in 0..count`: `left` offsets are still to come. `none` is a register not in the cache.
unfoldable pub read_from : MarstekModel → List (ℕ × ℕ) → ℕ → ℕ → ℕ → Option (List ℕ)
unfolding alias_probe_register
read_from model cache addr offset zero = some []
read_from model cache addr offset (suc left) =
    let rest = read_from model cache addr (suc offset) left in
    elim (lookup (alias_probe_register model ((addr + offset) % 65536)) cache) [
      | none ↦ none
      | some v ↦ elim rest [ none ↦ none | some vs ↦ some (v ∷ vs) ]
    ]

gateway_unavailable : ModbusStats → ModbusStats × Outcome
gateway_unavailable s = (
  record s { server_requests_gateway_unavailable = bump s.server_requests_gateway_unavailable },
  gateway_path_unavailable,
)

refuse : ModbusStats → ModbusStats × Outcome
refuse s = (
  record s { server_requests_illegal_function = bump s.server_requests_illegal_function },
  illegal_function,
)

module _ {W : Type 0} where
  read_cached : BatteryState W → ℕ → ℕ → ModbusStats → ModbusStats × Outcome
  unfolding read_from
  read_cached b addr count s = elim b.cached_holding_regs [
    | [] ↦ (
      record s { server_requests_server_busy = bump s.server_requests_server_busy },
      server_device_busy,
    )
    | _ ∷ _ ↦ elim (read_from b.marstek_model b.cached_holding_regs addr 0 count) [
      | none ↦ (
        record s { server_requests_illegal_address = bump s.server_requests_illegal_address },
        illegal_data_address,
      )
      | some out ↦
          (record s { server_requests_ok = bump s.server_requests_ok }, holding_registers out)
    ]
  ]

  read_registers : AppState W → String → ℕ → ℕ → ModbusStats → ModbusStats × Outcome
  unfolding read_cached gateway_unavailable
  read_registers state battery_id addr count s = elim (lookup battery_id state.batteries) [
    | none ↦ gateway_unavailable s
    | some b ↦ read_cached b addr count s
  ]

  -- `match req.request`, for a unit that is known.
  serve : AppState W → String → Request → ModbusStats → ModbusStats × Outcome
  unfolding read_registers refuse
  serve state battery_id (read_holding_registers addr count) s =
      read_registers state battery_id addr count s
  serve state battery_id (read_input_registers addr count) s =
      read_registers state battery_id addr count s
  serve state battery_id _ s = refuse s

  unfoldable pub handle_request : AppState W → ℕ → Request → AppState W × Outcome
  unfolding serve gateway_unavailable
  handle_request state unit req =
      let s0 = state.modbus_stats in
      let s1 = record s0 { server_requests_total = bump s0.server_requests_total } in
      let answer : ModbusStats × Outcome = elim (lookup unit state.by_unit_id) [
        | none ↦ gateway_unavailable s1
        | some battery_id ↦ serve state battery_id req s1
      ] in
      (record state { modbus_stats = answer.0 }, answer.1)
