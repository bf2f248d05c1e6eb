-- ===== src/ModbusDecode/Tables/VenusEv1V2.antt =====
-- The register table of the Venus E of the first two generations, of src/modbus_decode.rs.
use shelly_multiplexer.Prelude.{none, some, List, [], ◌∷◌}
use shelly_multiplexer.Double.{Double}
use shelly_multiplexer.ModbusDecode.{RegisterDef, char, int16, int32, labels, uint16, uint32}
use shelly_multiplexer.ModbusDecode.Labels.{
  force_mode, inverter_state, on_off, rs485_ctrl, user_work_mode,
}
use shelly_multiplexer.ModbusDecode.Tables.Signals.{signal}

module _ {W : Type 0} ⦃d : Double W⦄ where
  open d use {nat, ratio}

  unfoldable pub venus_e_v1v2_table : List (RegisterDef W)
  unfolding force_mode inverter_state on_off rs485_ctrl user_work_mode
  venus_e_v1v2_table =
      signal 31000 "device_name" "Metadata" none (char 10)
      ∷ signal 31200 "serial_number" "Metadata" none (char 10)
      ∷ signal 31100 "software_version" "Metadata" none (uint16 (ratio 1 100))
      ∷ signal 31101 "ems_version" "Metadata" none (uint16 (nat 1))
      ∷ signal 31102 "bms_version" "Metadata" none (uint16 (nat 1))
      ∷ signal 30800 "comm_module_firmware" "Metadata" none (char 6)
      ∷ signal 30402 "mac_address" "Metadata" none (char 6)
      ∷ signal 30303 "wifi_signal_strength" "Connectivity" (some "dBm") (int16 (nat 1))
      ∷ signal 30300 "wifi_status" "Connectivity" none (labels on_off)
      ∷ signal 30301 "bluetooth_status" "Connectivity" none (labels on_off)
      ∷ signal 30302 "cloud_status" "Connectivity" none (labels on_off)
      ∷ signal 32100 "battery_voltage" "Battery" (some "V") (uint16 (ratio 1 100))
      ∷ signal 32101 "battery_current" "Battery" (some "A") (int16 (ratio 1 100))
      ∷ signal 32102 "battery_power" "Battery" (some "W") (int32 (nat 1))
      ∷ signal 32104 "battery_soc" "Battery" (some "%") (uint16 (nat 1))
      ∷ signal 32105 "battery_total_energy" "Battery" (some "kWh") (uint16 (ratio 1 1000))
      ∷ signal 32200 "ac_voltage" "AC Grid" (some "V") (uint16 (ratio 1 10))
      ∷ signal 32201 "ac_current" "AC Grid" (some "A") (int16 (ratio 1 100))
      ∷ signal 32202 "ac_power" "AC Grid" (some "W") (int32 (nat 1))
      ∷ signal 32204 "ac_frequency" "AC Grid" (some "Hz") (int16 (ratio 1 100))
      ∷ signal 32300 "ac_offgrid_voltage" "AC Off-grid" (some "V") (uint16 (ratio 1 10))
      ∷ signal 32301 "ac_offgrid_current" "AC Off-grid" (some "A") (uint16 (ratio 1 100))
      ∷ signal 32302 "ac_offgrid_power" "AC Off-grid" (some "W") (int32 (nat 1))
      ∷ signal 33000 "total_charging_energy" "Energy" (some "kWh") (uint32 (ratio 1 100))
      ∷ signal 33002 "total_discharging_energy" "Energy" (some "kWh") (int32 (ratio 1 100))
      ∷ signal 33004 "daily_charging_energy" "Energy" (some "kWh") (uint32 (ratio 1 100))
      ∷ signal 33006 "daily_discharging_energy" "Energy" (some "kWh") (int32 (ratio 1 100))
      ∷ signal 33008 "monthly_charging_energy" "Energy" (some "kWh") (uint32 (ratio 1 100))
      ∷ signal 33010 "monthly_discharging_energy" "Energy" (some "kWh") (int32 (ratio 1 100))
      ∷ signal 35000 "internal_temperature" "Temperature" (some "°C") (int16 (ratio 1 10))
      ∷ signal 35001 "mos1_temperature" "Temperature" (some "°C") (int16 (ratio 1 10))
      ∷ signal 35002 "mos2_temperature" "Temperature" (some "°C") (int16 (ratio 1 10))
      ∷ signal 35010 "max_cell_temperature" "Temperature" (some "°C") (int16 (nat 1))
      ∷ signal 35011 "min_cell_temperature" "Temperature" (some "°C") (int16 (nat 1))
      ∷ signal 37007 "max_cell_voltage" "Cells" (some "V") (int16 (ratio 1 1000))
      ∷ signal 37008 "min_cell_voltage" "Cells" (some "V") (int16 (ratio 1 1000))
      ∷ signal 35100 "inverter_state" "State" none (labels inverter_state)
      ∷ signal 36000 "alarm_status_lo" "State" none (uint16 (nat 1))
      ∷ signal 36001 "alarm_status_hi" "State" none (uint16 (nat 1))
      ∷ signal 36100 "fault_status_1" "State" none (uint16 (nat 1))
      ∷ signal 36101 "fault_status_2" "State" none (uint16 (nat 1))
      ∷ signal 36102 "fault_status_3" "State" none (uint16 (nat 1))
      ∷ signal 36103 "fault_status_4" "State" none (uint16 (nat 1))
      ∷ signal 42000 "rs485_control_mode" "Control" none (labels rs485_ctrl)
      ∷ signal 42010 "force_mode" "Control" none (labels force_mode)
      ∷ signal 42011 "charge_to_soc" "Control" (some "%") (uint16 (nat 1))
      ∷ signal 42020 "set_charge_power" "Control" (some "W") (uint16 (nat 1))
      ∷ signal 42021 "set_discharge_power" "Control" (some "W") (uint16 (nat 1))
      ∷ signal 43000 "user_work_mode" "Control" none (labels user_work_mode)
      ∷ signal 41010 "discharge_limit_mode" "Control" none (uint16 (nat 1))
      ∷ signal 41100 "modbus_address" "Control" none (uint16 (nat 1))
      ∷ signal 41200 "backup_function" "Control" none (labels on_off)
      ∷ signal 44000 "bms_charging_cutoff" "BMS" (some "%") (uint16 (ratio 1 10))
      ∷ signal 44001 "bms_discharging_cutoff" "BMS" (some "%") (uint16 (ratio 1 10))
      ∷ signal 44002 "bms_max_charge_power" "BMS" (some "W") (uint16 (nat 1))
      ∷ signal 44003 "bms_max_discharge_power" "BMS" (some "W") (uint16 (nat 1))
      ∷ signal 44100 "grid_standard" "BMS" none (uint16 (nat 1))
      ∷ []
