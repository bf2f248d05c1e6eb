-- ===== src/Tests/Services.antt =====
-- The theorems about what batteries poll, about the meter and about the decoder, on the small
-- installation.
use shelly_multiplexer.Prelude.{
  ℕ, zero, suc, ◌+◌, ◌-◌, ◌*◌, ◌≤◌, ◌<◌, ◌≡◌, refl, ◌↔◌, Bool, true, false, Option, none, some,
  List, [], ◌∷◌, ℤ, pos, negsuc, arith, lookup, length, nat_key, string_key, keep_if, ap, nat_beq,
  ◌++◌, if◌then◌else◌, ◌&&◌,
}
use shelly_multiplexer.Double.{lt, of_ℤ}
use shelly_multiplexer.Double.Fixed.{fixed}
use shelly_multiplexer.Config.Constants.{second, as_secs_f64}
use shelly_multiplexer.Config.Types.{v4, ip_key}
use shelly_multiplexer.State.{EmStatusIncoming}
use shelly_multiplexer.State.Energy.{integrate}
use shelly_multiplexer.State.Startup.{empty_status}
use shelly_multiplexer.VirtualShelly.{PeerMethod, count_response}
use shelly_multiplexer.VirtualShelly.Silence.{count_response_bounded}
use shelly_multiplexer.Meter.{garbage, error_frame, status_frame, poll_once, meter_tick}
use shelly_multiplexer.Meter.Gaps.{is_for_us, poll_once-keep_if, meter_tick_after_failure}
use shelly_multiplexer.ModbusDecode.{
  RegisterDef, int32, null, number, address_at, decode_one, decode_value, scale_num,
}
use shelly_multiplexer.ModbusDecode.Words.{decode_value-encode}
use shelly_multiplexer.ModbusDecode.Nulls.{decode_one_null}
use shelly_multiplexer.ModbusDecode.Tables.{register_table}
use shelly_multiplexer.ModbusDecode.Agreement.{registers_of, addresses_named, register_table-polled}
use shelly_multiplexer.Config.Registers.{
  venus_e_v3, fast_registers, slow_registers, soc_register, battery_power_register,
}
use shelly_multiplexer.Config.Registers.Coverage.{all_in, distinct}
use shelly_multiplexer.Tests.{w, home, now}

-- One counter for each of the peers from 1 to `n`.
abbrev counters : ℕ → List (PeerMethod × ℕ)
counters zero = []
counters (suc n) = ((v4 (suc n), "EM.GetStatus"), 7) ∷ counters n

length-counters : (n : ℕ) → length (counters n) ≡ n
length-counters zero = refl
length-counters (suc n) = ap suc (length-counters n)

-- A full map, and a new peer.
count_response_bounded_example :
    length (count_response (v4 0, "EM.GetStatus") (counters 1024)) ≤ 1024
count_response_bounded_example =
    count_response_bounded (v4 0, "EM.GetStatus") (counters 1024)
      (omega (arith, length-counters 1024))

abbrev is_seven : Option ℤ → Bool
is_seven none = false
is_seven (some (pos n)) = nat_beq n 7
is_seven (some (negsuc n)) = false

poll_once-keep_if_example :
    let ps =
      garbage ∷ error_frame (some (pos 6)) ∷ status_frame (some (pos 7)) (empty_status ℤ) ∷ [] in
    poll_once is_seven ps ≡ poll_once is_seven (keep_if (is_for_us is_seven) ps)
poll_once-keep_if_example =
    poll_once-keep_if is_seven
      (garbage ∷ error_frame (some (pos 6)) ∷ status_frame (some (pos 7)) (empty_status ℤ) ∷ [])

abbrev reading : EmStatusIncoming ℤ
reading = record (empty_status ℤ) { total_act_power = some (w 700) }

meter_tick_after_failure_example :
    let first = meter_tick (some reading) (now + second) (meter_tick none now (home, some 0)) in
    let after = meter_tick (some reading) (now + 2 * second) first in
    let dt : ℤ = as_secs_f64 (now + 2 * second - (now + second)) in
    (first.0.energy ≡ home.energy)
    × (after.0.energy
        ≡ (if lt (w 0) dt && lt dt (w 5) then integrate home.energy reading dt else home.energy))
meter_tick_after_failure_example =
    meter_tick_after_failure home (some 0) reading reading now (now + second) (now + 2 * second)

-- A battery power of -300 W, in two registers.
abbrev cached : List (ℕ × ℕ)
cached = (32102, 65535) ∷ (32103, 65236) ∷ []

decode_value-encode_example :
    decode_value (int32 (w 1)) 32102 cached ≡ number (scale_num (of_ℤ (negsuc 299)) (w 1))
unfolding lookup
decode_value-encode_example =
    decode_value-encode cached 32102 (w 1) (negsuc 299) (ground arith) refl refl

abbrev battery_power : RegisterDef ℤ
battery_power = record {
  address = 32102;
  name = "battery_power";
  section = "Battery";
  unit = some "W";
  kind = int32 (w 1);
}

decode_one_null_example :
    ((decode_one cached battery_power).value ≡ null)
    ↔ ((i : ℕ) × (i < 2) × (lookup (address_at 32102 i) cached ≡ none))
decode_one_null_example = decode_one_null cached battery_power (ground arith) (ground arith)

register_table-polled_example :
    let table = register_table {W = ℤ} venus_e_v3 in
    (all_in (registers_of table) (fast_registers venus_e_v3 ++ slow_registers venus_e_v3) ≡ true)
    × (distinct (registers_of table) ≡ true)
    × (addresses_named "battery_soc" table ≡ soc_register venus_e_v3 ∷ [])
    × (addresses_named "battery_power" table ≡ battery_power_register venus_e_v3 ∷ [])
register_table-polled_example = register_table-polled ℤ venus_e_v3
