-- ===== src/Config/Registers/Coverage.antt =====
-- What the register lists of src/config.rs cover.
use shelly_multiplexer.Prelude.{
  ℕ, ◌+◌, ◌≡◌, refl, Bool, true, not, ◌&&◌, List, [], ◌∷◌, if◌then◌else◌, contains, nat_key,
}
use shelly_multiplexer.Config.Registers.{
  MarstekModel, venus_a, venus_d, venus_e_v1_v2, venus_e_v3, soc_register, battery_power_register,
  battery_power_is_int32, supports_bms_cutoffs, fast_registers, slow_registers,
}

abbrev pub all_in : List ℕ → List ℕ → Bool
all_in [] table = true
all_in (r ∷ rs) table = contains table r && all_in rs table

abbrev pub none_in : List ℕ → List ℕ → Bool
none_in [] table = true
none_in (r ∷ rs) table = not (contains table r) && none_in rs table

abbrev pub distinct : List ℕ → Bool
distinct [] = true
distinct (r ∷ rs) = not (contains rs r) && distinct rs

abbrev pub power_registers : MarstekModel → List ℕ
power_registers m =
    if battery_power_is_int32 m
    then battery_power_register m ∷ (battery_power_register m + 1) ∷ []
    else battery_power_register m ∷ []

-- For every variant the fast list reads the state of charge, every register of the battery power
-- (two for a 32-bit value) and the five control registers that the dispatcher uses.
pub fast_registers_cover :
    (m : MarstekModel)
    → all_in (soc_register m ∷ 42000 ∷ 42010 ∷ 42020 ∷ 42021 ∷ power_registers m) (fast_registers m)
      ≡ true
unfolding fast_registers soc_register battery_power_register battery_power_is_int32 contains
fast_registers_cover venus_a = refl
fast_registers_cover venus_d = refl
fast_registers_cover venus_e_v1_v2 = refl
fast_registers_cover venus_e_v3 = refl

-- For every variant no register is listed twice, in one list or across the fast and the slow list:
-- a refresh never reads a register twice, and no register has two refresh rates.
pub registers_distinct :
    (m : MarstekModel)
    → (distinct (fast_registers m) ≡ true)
      × (distinct (slow_registers m) ≡ true)
      × (none_in (slow_registers m) (fast_registers m) ≡ true)
unfolding fast_registers slow_registers contains
registers_distinct venus_a = (refl, refl, refl)
registers_distinct venus_d = (refl, refl, refl)
registers_distinct venus_e_v1_v2 = (refl, refl, refl)
registers_distinct venus_e_v3 = (refl, refl, refl)

-- The slow list holds both BMS cutoff registers for the variant that supports them, and neither for
-- every other variant.
pub slow_registers-bms_cutoffs :
    (m : MarstekModel)
    → (contains (slow_registers m) 44000 ≡ supports_bms_cutoffs m)
      × (contains (slow_registers m) 44001 ≡ supports_bms_cutoffs m)
unfolding slow_registers supports_bms_cutoffs contains
slow_registers-bms_cutoffs venus_a = (refl, refl)
slow_registers-bms_cutoffs venus_d = (refl, refl)
slow_registers-bms_cutoffs venus_e_v1_v2 = (refl, refl)
slow_registers-bms_cutoffs venus_e_v3 = (refl, refl)
