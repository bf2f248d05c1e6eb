-- ===== src/ModbusDecode/Tables.antt =====
-- `register_table` and `decode` of src/modbus_decode.rs.
pub mod Signals
pub mod VenusEv1V2
pub mod VenusEv3
pub mod VenusD
pub mod VenusA
use shelly_multiplexer.Prelude.{ℕ, List}
use shelly_multiplexer.Double.{Double}
use shelly_multiplexer.Config.Registers.{MarstekModel, venus_a, venus_d, venus_e_v1_v2, venus_e_v3}
use shelly_multiplexer.ModbusDecode.{RegisterDef, DecodedRegister, decode_table}
use shelly_multiplexer.ModbusDecode.Tables.VenusEv1V2.{venus_e_v1v2_table}
use shelly_multiplexer.ModbusDecode.Tables.VenusEv3.{venus_e_v3_table}
use shelly_multiplexer.ModbusDecode.Tables.VenusD.{venus_d_table}
use shelly_multiplexer.ModbusDecode.Tables.VenusA.{venus_a_table}

module _ {W : Type 0} ⦃d : Double W⦄ where
  unfoldable pub register_table : MarstekModel → List (RegisterDef W)
  unfolding venus_e_v1v2_table venus_e_v3_table venus_d_table venus_a_table
  register_table venus_e_v1_v2 = venus_e_v1v2_table
  register_table venus_e_v3 = venus_e_v3_table
  register_table venus_d = venus_d_table
  register_table venus_a = venus_a_table

  unfoldable pub decode : MarstekModel → List (ℕ × ℕ) → List (DecodedRegister W)
  unfolding register_table decode_table
  decode model cache = decode_table (register_table model) cache
