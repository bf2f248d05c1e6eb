-- ===== src/ModbusDecode/Tables/VenusA.antt =====
-- The register table of the Venus A, of src/modbus_decode.rs.
use shelly_multiplexer.Prelude.{none, some, List, [], ◌∷◌}
use shelly_multiplexer.Double.{Double}
use shelly_multiplexer.ModbusDecode.{RegisterDef, char, int16, labels, uint16}
use shelly_multiplexer.ModbusDecode.Labels.{force_mode, inverter_state}
use shelly_multiplexer.ModbusDecode.Tables.Signals.{signal}

module _ {W : Type 0} ⦃d : Double W⦄ where
  open d use {nat, ratio}

  unfoldable pub venus_a_table : List (RegisterDef W)
  unfolding force_mode inverter_state
  venus_a_table =
      signal 31000 "device_name" "Metadata" none (char 10)
      ∷ signal 30001 "battery_power" "Battery" (some "W") (int16 (nat 1))
      ∷ signal 30100 "battery_voltage" "Battery" (some "V") (uint16 (ratio 1 100))
      ∷ signal 30101 "battery_current" "Battery" (some "A") (int16 (ratio 1 10))
      ∷ signal 32104 "battery_soc" "Battery" (some "%") (uint16 (nat 1))
      ∷ signal 34002 "battery_soc_unit1" "Battery" (some "%") (uint16 (ratio 1 10))
      ∷ signal 34102 "battery_soc_unit2" "Battery" (some "%") (uint16 (ratio 1 10))
      ∷ signal 34202 "battery_soc_unit3" "Battery" (some "%") (uint16 (ratio 1 10))
      ∷ signal 34302 "battery_soc_unit4" "Battery" (some "%") (uint16 (ratio 1 10))
      ∷ signal 34402 "battery_soc_unit5" "Battery" (some "%") (uint16 (ratio 1 10))
      ∷ signal 34502 "battery_soc_unit6" "Battery" (some "%") (uint16 (ratio 1 10))
      ∷ signal 30006 "ac_power" "AC Grid" (some "W") (int16 (nat 1))
      ∷ signal 32200 "ac_voltage" "AC Grid" (some "V") (uint16 (ratio 1 10))
      ∷ signal 37004 "ac_current" "AC Grid" (some "A") (int16 (ratio 4 1000))
      ∷ signal 30020 "mppt1_voltage" "MPPT" (some "V") (uint16 (ratio 1 10))
      ∷ signal 30037 "mppt1_power" "MPPT" (some "W") (uint16 (ratio 1 10))
      ∷ signal 35100 "inverter_state" "State" none (labels inverter_state)
      ∷ signal 42010 "force_mode" "Control" none (labels force_mode)
      ∷ signal 42020 "set_charge_power" "Control" (some "W") (uint16 (nat 1))
      ∷ signal 42021 "set_discharge_power" "Control" (some "W") (uint16 (nat 1))
      ∷ []
