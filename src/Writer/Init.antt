-- ===== src/Writer/Init.antt =====
-- `init_dispatch_on` of src/modbus.rs and the loop of the writer that repeats it until it succeeds.
pub mod Cutoffs
pub mod Started
use shelly_multiplexer.Prelude.{
  ℕ, zero, suc, ◌+◌, Bool, true, false, Option, none, some, List, [], ◌∷◌, ltb, if◌then◌else◌,
  String,
}
use shelly_multiplexer.Prelude.Text.{append_text}
use shelly_multiplexer.Double.{Double}
use shelly_multiplexer.Config.Registers.{MarstekModel, supports_bms_cutoffs}
use shelly_multiplexer.State.{BatteryState}
use shelly_multiplexer.Setpoint.{standby}
use shelly_multiplexer.Wire.{Line, init_writes}
use shelly_multiplexer.Writer.{
  Answer, values, Bus, Session, drop_ctx, ensure_conn, read_holding_on, with_battery,
  record_success, record_error,
}
use shelly_multiplexer.Writer.Reads.{in_percent}

pub record BmsCutoffs (W : Type 0) : Type 0 where
  pub charging_cutoff_pct : Option W
  pub discharging_cutoff_pct : Option W

abbrev pub no_cutoffs : {W : Type 0} → BmsCutoffs W
no_cutoffs = record { charging_cutoff_pct = none; discharging_cutoff_pct = none }

-- The result of `read_single`, from the answer to its read.
abbrev pub read_single : Answer → Option ℕ
read_single (values (v ∷ _)) = some v
read_single _ = none

module _ {W : Type 0} ⦃d : Double W⦄ where
  open d use {nat, div}

  -- The closure `scale` of `read_bms_cutoffs`.
  unfoldable pub cutoff_of : ℕ → Option W
  cutoff_of raw = in_percent (if ltb 100 raw then div (nat raw) (nat 10) else nat raw)

  -- The two reads, and the default where one of them fails (`unwrap_or_else`).
  unfoldable pub read_bms_cutoffs : Bus → Session W → BmsCutoffs W × Session W
  unfolding read_holding_on cutoff_of
  read_bms_cutoffs bus s =
      let charging = read_holding_on bus s in
      let discharging = read_holding_on bus charging.1 in
      elim (read_single charging.0) [
        | none ↦ (no_cutoffs, charging.1)
        | some c ↦ elim (read_single discharging.0) [
          | none ↦ (no_cutoffs, discharging.1)
          | some e ↦ (
            record { charging_cutoff_pct = cutoff_of c; discharging_cutoff_pct = cutoff_of e },
            discharging.1,
          )
        ]
      ]

  unfoldable pub record_bms_cutoffs : BmsCutoffs W → Session W → Session W
  unfolding with_battery
  record_bms_cutoffs cutoffs = with_battery (λ b. record b {
    bms_full_pct = cutoffs.charging_cutoff_pct;
    bms_empty_pct = cutoffs.discharging_cutoff_pct;
  })

  -- On the open connection; `none` is the error of one of the two writes.
  unfoldable pub init_dispatch_on : Bus → Session W → Option (BmsCutoffs W) × Session W
  unfolding init_writes read_bms_cutoffs
  init_dispatch_on bus s =
      let writes = init_writes bus.net s.line in
      let s' = record s { line = writes.1 } in
      let read = read_bms_cutoffs bus s' in
      if writes.0
      then if supports_bms_cutoffs s.writer.battery.marstek_model
        then (some read.0, read.1)
        else (some no_cutoffs, s')
      else (none, s')

  -- One round of the init loop, and whether the loop ends with it.
  unfoldable pub init_attempt : Bus → Session W → Bool × Session W
  unfolding ensure_conn init_dispatch_on record_success record_bms_cutoffs record_error drop_ctx
  init_attempt bus s =
      let conn = ensure_conn bus s in
      let init = init_dispatch_on bus conn.1 in
      if conn.0
      then elim init.0 [
        | some cutoffs ↦ (true, record_bms_cutoffs cutoffs (record_success bus standby init.1))
        | none ↦ (
          false,
          drop_ctx (record_error (append_text "init: " (bus.message init.1.line.sent)) init.1),
        )
      ]
      else (
        false,
        record_error (append_text "init connect: " (bus.message conn.1.line.sent)) conn.1,
      )

  -- The loop, with `rounds` rounds at most: whether it has ended, and the session.
  unfoldable pub init_loop : Bus → ℕ → Session W → Bool × Session W
  unfolding init_attempt
  init_loop bus zero s = (false, s)
  init_loop bus (suc rounds) s =
      let first = init_attempt bus s in
      let again = init_loop bus rounds first.1 in if first.0 then first else again
