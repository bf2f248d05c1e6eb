-- ===== src/ModbusDecode/Tables/VenusEv3.antt =====
-- The register table of the Venus E of the third generation, of src/modbus_decode.rs.
use shelly_multiplexer.Prelude.{none, some, List, [], ◌∷◌}
use shelly_multiplexer.Double.{Double}
use shelly_multiplexer.ModbusDecode.{RegisterDef, char, int16, int32, labels, uint16, uint32}
use shelly_multiplexer.ModbusDecode.Labels.{
  force_mode, inverter_state, on_off, rs485_ctrl, user_work_mode,
}
use shelly_multiplexer.ModbusDecode.Tables.Signals.{signal}

module _ {W : Type 0} ⦃d : Double W⦄ where
  open d use {nat, ratio}

  unfoldable pub venus_e_v3_table : List (RegisterDef W)
  unfolding force_mode inverter_state on_off rs485_ctrl user_work_mode
  venus_e_v3_table =
      signal 31000 "device_name" "Metadata" none (char 10)
      ∷ signal 30200 "ems_version" "Metadata" none (uint16 (nat 1))
      ∷ signal 30202 "vms_version" "Metadata" none (uint16 (nat 1))
      ∷ signal 30204 "bms_version" "Metadata" none (uint16 (nat 1))
      ∷ signal 30350 "comm_module_firmware" "Metadata" none (char 6)
      ∷ signal 30304 "mac_address" "Metadata" none (char 6)
      ∷ signal 30303 "wifi_signal_strength" "Connectivity" (some "dBm") (int16 (nat 1))
      ∷ signal 30300 "wifi_status" "Connectivity" none (labels on_off)
      ∷ signal 30301 "bluetooth_status" "Connectivity" none (labels on_off)
      ∷ signal 30302 "cloud_status" "Connectivity" none (labels on_off)
      ∷ signal 30001 "battery_power" "Battery" (some "W") (int16 (nat 1))
      ∷ signal 30100 "battery_voltage" "Battery" (some "V") (uint16 (ratio 1 100))
      ∷ signal 30101 "battery_current" "Battery" (some "A") (int16 (ratio 1 10))
      ∷ signal 34002 "battery_soc" "Battery" (some "%") (uint16 (ratio 1 10))
      ∷ signal 34003 "battery_cycle_count" "Battery" none (uint16 (nat 1))
      ∷ signal 32105 "battery_total_energy" "Battery" (some "kWh") (uint16 (ratio 1 1000))
      ∷ signal 30006 "ac_power" "AC Grid" (some "W") (int16 (nat 1))
      ∷ signal 32200 "ac_voltage" "AC Grid" (some "V") (uint16 (ratio 1 10))
      ∷ signal 37004 "ac_current" "AC Grid" (some "A") (int16 (ratio 4 1000))
      ∷ signal 32204 "ac_frequency" "AC Grid" (some "Hz") (int16 (ratio 1 10))
      ∷ signal 32300 "ac_offgrid_voltage" "AC Off-grid" (some "V") (uint16 (ratio 1 10))
      ∷ signal 32301 "ac_offgrid_current" "AC Off-grid" (some "A") (uint16 (ratio 1 100))
      ∷ signal 32302 "ac_offgrid_power" "AC Off-grid" (some "W") (int16 (nat 1))
      ∷ signal 33000 "total_charging_energy" "Energy" (some "kWh") (uint32 (ratio 1 100))
      ∷ signal 33002 "total_discharging_energy" "Energy" (some "kWh") (int32 (ratio 1 100))
      ∷ signal 33004 "daily_charging_energy" "Energy" (some "kWh") (uint32 (ratio 1 100))
      ∷ signal 33006 "daily_discharging_energy" "Energy" (some "kWh") (int32 (ratio 1 100))
      ∷ signal 33008 "monthly_charging_energy" "Energy" (some "kWh") (uint32 (ratio 1 100))
      ∷ signal 33010 "monthly_discharging_energy" "Energy" (some "kWh") (int32 (ratio 1 100))
      ∷ signal 35000 "internal_temperature" "Temperature" (some "°C") (int16 (ratio 1 10))
      ∷ signal 35001 "mos1_temperature" "Temperature" (some "°C") (int16 (ratio 1 10))
      ∷ signal 35002 "mos2_temperature" "Temperature" (some "°C") (int16 (ratio 1 10))
      ∷ signal 35010 "max_cell_temperature" "Temperature" (some "°C") (int16 (ratio 1 10))
      ∷ signal 35011 "min_cell_temperature" "Temperature" (some "°C") (int16 (ratio 1 10))
      ∷ signal 37007 "max_cell_voltage" "Cells" (some "V") (int16 (ratio 1 1000))
      ∷ signal 37008 "min_cell_voltage" "Cells" (some "V") (int16 (ratio 1 1000))
      ∷ signal 34018 "cell_1_voltage" "Cells" (some "V") (int16 (ratio 1 1000))
      ∷ signal 34019 "cell_2_voltage" "Cells" (some "V") (int16 (ratio 1 1000))
      ∷ signal 34020 "cell_3_voltage" "Cells" (some "V") (int16 (ratio 1 1000))
      ∷ signal 34021 "cell_4_voltage" "Cells" (some "V") (int16 (ratio 1 1000))
      ∷ signal 34022 "cell_5_voltage" "Cells" (some "V") (int16 (ratio 1 1000))
      ∷ signal 34023 "cell_6_voltage" "Cells" (some "V") (int16 (ratio 1 1000))
      ∷ signal 34024 "cell_7_voltage" "Cells" (some "V") (int16 (ratio 1 1000))
      ∷ signal 34025 "cell_8_voltage" "Cells" (some "V") (int16 (ratio 1 1000))
      ∷ signal 34026 "cell_9_voltage" "Cells" (some "V") (int16 (ratio 1 1000))
      ∷ signal 34027 "cell_10_voltage" "Cells" (some "V") (int16 (ratio 1 1000))
      ∷ signal 34028 "cell_11_voltage" "Cells" (some "V") (int16 (ratio 1 1000))
      ∷ signal 34029 "cell_12_voltage" "Cells" (some "V") (int16 (ratio 1 1000))
      ∷ signal 34030 "cell_13_voltage" "Cells" (some "V") (int16 (ratio 1 1000))
      ∷ signal 34031 "cell_14_voltage" "Cells" (some "V") (int16 (ratio 1 1000))
      ∷ signal 34032 "cell_15_voltage" "Cells" (some "V") (int16 (ratio 1 1000))
      ∷ signal 34033 "cell_16_voltage" "Cells" (some "V") (int16 (ratio 1 1000))
      ∷ signal 35100 "inverter_state" "State" none (labels inverter_state)
      ∷ signal 42000 "rs485_control_mode" "Control" none (labels rs485_ctrl)
      ∷ signal 42010 "force_mode" "Control" none (labels force_mode)
      ∷ signal 42011 "charge_to_soc" "Control" (some "%") (uint16 (nat 1))
      ∷ signal 42020 "set_charge_power" "Control" (some "W") (uint16 (nat 1))
      ∷ signal 42021 "set_discharge_power" "Control" (some "W") (uint16 (nat 1))
      ∷ signal 43000 "user_work_mode" "Control" none (labels user_work_mode)
      ∷ signal 41100 "modbus_address" "Control" none (uint16 (nat 1))
      ∷ signal 41200 "backup_function" "Control" none (labels on_off)
      ∷ signal 44002 "bms_max_charge_power" "BMS" (some "W") (uint16 (nat 1))
      ∷ signal 44003 "bms_max_discharge_power" "BMS" (some "W") (uint16 (nat 1))
      ∷ []
