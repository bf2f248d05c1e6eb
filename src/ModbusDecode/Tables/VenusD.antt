-- ===== src/ModbusDecode/Tables/VenusD.antt =====
-- The register table of the Venus D, of src/modbus_decode.rs.
use shelly_multiplexer.Prelude.{none, some, List, [], ◌∷◌}
use shelly_multiplexer.Double.{Double}
use shelly_multiplexer.ModbusDecode.{RegisterDef, char, int16, int32, labels, uint16, uint32}
use shelly_multiplexer.ModbusDecode.Labels.{force_mode, inverter_state, rs485_ctrl}
use shelly_multiplexer.ModbusDecode.Tables.Signals.{signal}

module _ {W : Type 0} ⦃d : Double W⦄ where
  open d use {nat, ratio}

  unfoldable pub venus_d_table : List (RegisterDef W)
  unfolding force_mode inverter_state rs485_ctrl
  venus_d_table =
      signal 31000 "device_name" "Metadata" none (char 10)
      ∷ signal 30200 "ems_version" "Metadata" none (uint16 (nat 1))
      ∷ signal 30202 "vms_version" "Metadata" none (uint16 (nat 1))
      ∷ signal 30204 "bms_version" "Metadata" none (uint16 (nat 1))
      ∷ signal 30350 "comm_module_firmware" "Metadata" none (char 6)
      ∷ signal 30304 "mac_address" "Metadata" none (char 6)
      ∷ signal 30303 "wifi_signal_strength" "Connectivity" (some "dBm") (int16 (nat 1))
      ∷ signal 30001 "battery_power" "Battery" (some "W") (int16 (nat 1))
      ∷ signal 30100 "battery_voltage" "Battery" (some "V") (uint16 (ratio 1 100))
      ∷ signal 30101 "battery_current" "Battery" (some "A") (int16 (ratio 1 10))
      ∷ signal 32104 "battery_soc" "Battery" (some "%") (uint16 (nat 1))
      ∷ signal 32105 "battery_total_energy" "Battery" (some "kWh") (uint16 (ratio 1 1000))
      ∷ signal 34003 "battery_cycle_count" "Battery" none (uint16 (nat 1))
      ∷ signal 30006 "ac_power" "AC Grid" (some "W") (int16 (nat 1))
      ∷ signal 32200 "ac_voltage" "AC Grid" (some "V") (uint16 (ratio 1 10))
      ∷ signal 37004 "ac_current" "AC Grid" (some "A") (int16 (ratio 4 1000))
      ∷ signal 32204 "ac_frequency" "AC Grid" (some "Hz") (int16 (ratio 1 10))
      ∷ signal 30020 "mppt1_voltage" "MPPT" (some "V") (uint16 (ratio 1 10))
      ∷ signal 30021 "mppt2_voltage" "MPPT" (some "V") (uint16 (ratio 1 10))
      ∷ signal 30022 "mppt3_voltage" "MPPT" (some "V") (uint16 (ratio 1 10))
      ∷ signal 30023 "mppt4_voltage" "MPPT" (some "V") (uint16 (ratio 1 10))
      ∷ signal 30024 "mppt1_current" "MPPT" (some "A") (uint16 (ratio 1 10))
      ∷ signal 30025 "mppt2_current" "MPPT" (some "A") (uint16 (ratio 1 10))
      ∷ signal 30026 "mppt3_current" "MPPT" (some "A") (uint16 (ratio 1 10))
      ∷ signal 30027 "mppt4_current" "MPPT" (some "A") (uint16 (ratio 1 10))
      ∷ signal 30037 "mppt1_power" "MPPT" (some "W") (uint16 (ratio 1 10))
      ∷ signal 30038 "mppt2_power" "MPPT" (some "W") (uint16 (ratio 1 10))
      ∷ signal 30039 "mppt3_power" "MPPT" (some "W") (uint16 (ratio 1 10))
      ∷ signal 30040 "mppt4_power" "MPPT" (some "W") (uint16 (ratio 1 10))
      ∷ signal 33000 "total_charging_energy" "Energy" (some "kWh") (uint32 (ratio 1 100))
      ∷ signal 33002 "total_discharging_energy" "Energy" (some "kWh") (int32 (ratio 1 100))
      ∷ signal 33004 "daily_charging_energy" "Energy" (some "kWh") (uint32 (ratio 1 100))
      ∷ signal 33006 "daily_discharging_energy" "Energy" (some "kWh") (int32 (ratio 1 100))
      ∷ signal 35000 "internal_temperature" "Temperature" (some "°C") (int16 (ratio 1 10))
      ∷ signal 35100 "inverter_state" "State" none (labels inverter_state)
      ∷ signal 42000 "rs485_control_mode" "Control" none (labels rs485_ctrl)
      ∷ signal 42010 "force_mode" "Control" none (labels force_mode)
      ∷ signal 42020 "set_charge_power" "Control" (some "W") (uint16 (nat 1))
      ∷ signal 42021 "set_discharge_power" "Control" (some "W") (uint16 (nat 1))
      ∷ []
