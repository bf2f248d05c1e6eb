-- ===== src/ModbusDecode/Labels.antt =====
-- The label tables of src/modbus_decode.rs.
use shelly_multiplexer.Prelude.{ℕ, List, [], ◌∷◌, String}

unfoldable pub inverter_state : List (ℕ × String)
inverter_state =
    (0, "Sleep")
    ∷ (1, "Standby")
    ∷ (2, "Charge")
    ∷ (3, "Discharge")
    ∷ (4, "Backup")
    ∷ (5, "OTA")
    ∷ (6, "Bypass")
    ∷ []

unfoldable pub force_mode : List (ℕ × String)
force_mode = (0, "Standby") ∷ (1, "Charge") ∷ (2, "Discharge") ∷ []

unfoldable pub user_work_mode : List (ℕ × String)
user_work_mode = (0, "Manual") ∷ (1, "AntiFeed") ∷ (2, "Trade") ∷ []

unfoldable pub rs485_ctrl : List (ℕ × String)
rs485_ctrl = (21930, "On (control enabled)") ∷ (21947, "Off (auto mode)") ∷ []

unfoldable pub on_off : List (ℕ × String)
on_off = (0, "Off") ∷ (1, "On") ∷ []
