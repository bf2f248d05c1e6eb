-- ===== src/ModbusDecode/Tables/Signals.antt =====
-- A row of a register table of src/modbus_decode.rs, with its fields in the order of the source.
use shelly_multiplexer.Prelude.{ℕ, Option, String}
use shelly_multiplexer.ModbusDecode.{RegisterDef, RegisterKind}

abbrev pub signal :
    {W : Type 0} → ℕ → String → String → Option String → RegisterKind W → RegisterDef W
signal address name section unit kind = record {
  address = address;
  name = name;
  section = section;
  unit = unit;
  kind = kind;
}
