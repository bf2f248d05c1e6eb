-- ===== src/ModbusDecode/Agreement.antt =====
-- The register tables of src/modbus_decode.rs against the register lists of src/config.rs.
use shelly_multiplexer.Prelude.{
  ℕ, zero, suc, ◌+◌, ◌≡◌, refl, true, not, List, [], ◌∷◌, ◌++◌, String, if◌then◌else◌, contains,
  length, nat_key, string_key, ◌==◌, keep_if,
}
use shelly_multiplexer.Double.{Double}
use shelly_multiplexer.Config.Registers.{
  MarstekModel, venus_a, venus_d, venus_e_v1_v2, venus_e_v3, soc_register, battery_power_register,
  fast_registers, slow_registers,
}
use shelly_multiplexer.Config.Registers.Coverage.{all_in, distinct}
use shelly_multiplexer.ModbusDecode.{RegisterDef}
use shelly_multiplexer.ModbusDecode.Nulls.{words_of}
use shelly_multiplexer.ModbusDecode.Tables.{register_table}

abbrev pub span : ℕ → ℕ → List ℕ
span address zero = []
span address (suc n) = address ∷ span (address + 1) n

module _ {W : Type 0} ⦃d : Double W⦄ where
  -- The registers that a table reads.
  abbrev pub registers_of : List (RegisterDef W) → List ℕ
  registers_of [] = []
  registers_of (def ∷ table) = span def.address (words_of def.kind) ++ registers_of table

  abbrev pub addresses_named : String → List (RegisterDef W) → List ℕ
  addresses_named name [] = []
  addresses_named name (def ∷ table) =
      let rest = addresses_named name table in if def.name == name then def.address ∷ rest else rest

  abbrev pub undecoded : List ℕ → List (RegisterDef W) → List ℕ
  undecoded polled table = keep_if (λ r. not (contains (registers_of table) r)) polled

module _ (W : Type 0) ⦃d : Double W⦄ where
  -- For every variant, each register that the decoder's table reads is polled, so that no value stays
  -- null for want of a poll, no register is named twice, and the entries `battery_soc` and
  -- `battery_power` stand at the registers that the dispatcher reads them from.
  pub register_table-polled :
      (m : MarstekModel)
      → let table = register_table {W = W} m in
        (all_in (registers_of table) (fast_registers m ++ slow_registers m) ≡ true)
        × (distinct (registers_of table) ≡ true)
        × (addresses_named "battery_soc" table ≡ soc_register m ∷ [])
        × (addresses_named "battery_power" table ≡ battery_power_register m ∷ [])
  unfolding register_table fast_registers slow_registers soc_register battery_power_register
      contains
  register_table-polled venus_a = (refl, refl, refl, refl)
  register_table-polled venus_d = (refl, refl, refl, refl)
  register_table-polled venus_e_v1_v2 = (refl, refl, refl, refl)
  register_table-polled venus_e_v3 = (refl, refl, refl, refl)

  -- The decoder of the two Venus E variants names every register that is polled but the 30 of the
  -- schedules. The one of the Venus D leaves 65 polled registers without a name, the control register
  -- 42011 among them, and the one of the Venus A leaves 169, the control registers 42000 and 42011
  -- among them.
  pub register_table_gaps :
      let gaps : MarstekModel → List ℕ =
        λ m. undecoded (fast_registers m ++ slow_registers m) (register_table {W = W} m) in
      (gaps venus_e_v1_v2 ≡ span 43100 30)
      × (gaps venus_e_v3 ≡ span 43100 30)
      × (length (gaps venus_d) ≡ 65)
      × (contains (gaps venus_d) 42011 ≡ true)
      × (length (gaps venus_a) ≡ 169)
      × (all_in (42000 ∷ 42011 ∷ []) (gaps venus_a) ≡ true)
  unfolding register_table fast_registers slow_registers contains
  register_table_gaps = (refl, refl, refl, refl, refl, refl)
