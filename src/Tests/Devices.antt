-- ===== src/Tests/Devices.antt =====
-- The theorems about setpoints, register writes and the virtual server, on the small installation.
use shelly_multiplexer.Prelude.{
  nat_key, ◌%◌, ◌≡◌, refl, ◌⊎◌, ◌↔◌, true, false, none, some, [], ◌∷◌, negsuc, arith, nat_beq,
  if◌then◌else◌,
}
use shelly_multiplexer.Double.{◌≼◌, ◌≺◌}
use shelly_multiplexer.Double.Fixed.{fixed, fixed-IsOrdered}
use shelly_multiplexer.Setpoint.{charge, discharge, from_signed_watts, to_signed_watts}
use shelly_multiplexer.Setpoint.Bounds.{
  IsSafe, from_signed_watts-IsSafe, from_signed_watts_panics, from_signed_watts-to_signed_watts,
}
use shelly_multiplexer.Wire.{
  Network, Line, acknowledged, unconfirmed, dropped, write_setpoint, write_setpoint_once,
}
use shelly_multiplexer.Wire.Interlock.{
  IsInterlocked, init, command, retried, shutdown, operate_all, operate_all-IsInterlocked,
}
use shelly_multiplexer.Wire.Delivery.{Commands, write_setpoint-Commands, write_setpoint_delivers}
use shelly_multiplexer.ModbusServer.{read_holding_registers, read_input_registers, handle_request}
use shelly_multiplexer.ModbusServer.Counters.{IsBalanced, handle_request-IsBalanced}
use shelly_multiplexer.ModbusServer.Reads.{Answers, handle_request-Answers}
use shelly_multiplexer.Tests.{w, home}

-- A request to charge with 3000 W is capped to 2500 W.
from_signed_watts-IsSafe_example : IsSafe (negsuc 2999999) (w 2500) (w 2500) (charge 2500)
unfolding from_signed_watts
from_signed_watts-IsSafe_example =
    from_signed_watts-IsSafe fixed-IsOrdered (negsuc 2999999) (w 2500) (w 2500) refl

from_signed_watts_panics_example :
    (from_signed_watts (w 100) (w 2500) (w 40) ≡ none)
    ↔ ((w 50 ≼ w 100) × ((w 100 ≺ w 0) × (w 2500 ≺ w 50) ⊎ (w 0 ≼ w 100) × (w 40 ≺ w 50)))
from_signed_watts_panics_example = from_signed_watts_panics fixed-IsOrdered (w 100) (w 2500) (w 40)

from_signed_watts-to_signed_watts_example :
    from_signed_watts (to_signed_watts (charge 1200)) (w 2500) (w 800) ≡ some (charge 1200)
from_signed_watts-to_signed_watts_example =
    from_signed_watts-to_signed_watts fixed-IsOrdered (charge 1200) (w 2500) (w 800) (ground arith)

-- Every second reply is lost.
abbrev lossy : Network
lossy = record {
  fate = λ n. if nat_beq (n % 2) 0 then acknowledged else unconfirmed;
  opens = λ n. true;
}

-- Two operations fail: the first connection, and the second write of the second attempt.
abbrev flaky : Network
flaky = record {
  fate = λ n. if nat_beq n 3 then dropped else acknowledged;
  opens = λ n. if nat_beq n 0 then false else true;
}

abbrev idle : Line
idle = record { regs = λ r. 0; sent = 0 }

operate_all-IsInterlocked_example :
    IsInterlocked
      (operate_all lossy
        (init ∷ command (charge 900) ∷ retried (discharge 800) ∷ shutdown ∷ [])
        idle).regs
operate_all-IsInterlocked_example =
    operate_all-IsInterlocked lossy
      (init ∷ command (charge 900) ∷ retried (discharge 800) ∷ shutdown ∷ []) idle (ground arith)

write_setpoint-Commands_example :
    let regs = (write_setpoint flaky (charge 900) idle).1.regs in
    (regs 42000 ≡ 21930) × Commands (charge 900) regs
unfolding write_setpoint write_setpoint_once
write_setpoint-Commands_example = write_setpoint-Commands flaky (charge 900) idle refl

write_setpoint_delivers_example : (write_setpoint flaky (charge 900) idle).0 ≡ true
write_setpoint_delivers_example =
    write_setpoint_delivers flaky (charge 900) idle 0 3 (λ n bad. ground (arith, bad))

handle_request-IsBalanced_example :
    IsBalanced (handle_request home 1 (read_holding_registers 42000 1)).0.modbus_stats
handle_request-IsBalanced_example =
    handle_request-IsBalanced home 1 (read_holding_registers 42000 1) (record { balance = refl })

handle_request-Answers_example :
    Answers home 1
      (read_input_registers 32104 1)
      (handle_request home 1 (read_input_registers 32104 1)).1
handle_request-Answers_example = handle_request-Answers home 1 (read_input_registers 32104 1)
