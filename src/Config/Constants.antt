-- ===== src/Config/Constants.antt =====
-- The constants of src/config.rs and src/modbus.rs. Durations are in nanoseconds.
use shelly_multiplexer.Prelude.{ℕ, ◌*◌, ◌^◌, ◌/◌, ◌%◌}
use shelly_multiplexer.Double.{Double}

-- One second.
abbrev pub second : ℕ
second = 10 ^ 9

abbrev pub modbus_write_retries : ℕ
modbus_write_retries = 2

abbrev pub pulse_count : ℕ
pulse_count = 3

abbrev pub group_silent_after_stale : ℕ
group_silent_after_stale = 60 * second

abbrev pub soc_unknown_lockout : ℕ
soc_unknown_lockout = 600 * second

-- `EMERGENCY_CUTOFF_GRACE_S.max(0.5)` and the two below, as the dispatcher takes them.
abbrev pub emergency_cutoff_grace : ℕ
emergency_cutoff_grace = 5 * second

abbrev pub emergency_soft_remediation_grace : ℕ
emergency_soft_remediation_grace = 10 * second

abbrev pub emergency_cutoff_recovery : ℕ
emergency_cutoff_recovery = 600 * second

module _ {W : Type 0} ⦃d : Double W⦄ where
  open d use {nat, add, div}

  abbrev pub safety_margin_w : W
  safety_margin_w = nat 10

  abbrev pub write_deadband_w : W
  write_deadband_w = nat 25

  abbrev pub plug_stable_w : W
  plug_stable_w = nat 10

  abbrev pub plug_stable_duration_s : W
  plug_stable_duration_s = nat 3

  abbrev pub night_cutoff_soc_margin_pct : W
  night_cutoff_soc_margin_pct = nat 2

  abbrev pub marstek_min_w : W
  marstek_min_w = nat 50

  -- `Duration::as_secs_f64`, of nanoseconds.
  unfoldable pub as_secs_f64 : ℕ → W
  as_secs_f64 t = add (nat (t / second)) (div (nat (t % second)) (nat second))
