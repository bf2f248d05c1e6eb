-- ===== src/Tests/Writers.antt =====
-- The theorems about the writer of one battery, on the small installation.
use shelly_multiplexer.Prelude.{
  ◌+◌, ◌*◌, ◌≡◌, refl, true, false, some, [], ◌∷◌, ℤ, arith, lookup, if◌then◌else◌, string_key,
  unwrap_or, contains, nat_key, ltb,
}
use shelly_multiplexer.Double.Fixed.{fixed, fixed-IsOrdered}
use shelly_multiplexer.Config.Constants.{second}
use shelly_multiplexer.Config.Registers.{fast_registers}
use shelly_multiplexer.Config.Types.{VirtualModbusConfig}
use shelly_multiplexer.State.{BatteryState}
use shelly_multiplexer.Setpoint.{charge, discharge}
use shelly_multiplexer.Wire.{Line, acknowledged, dropped, write_setpoint_on}
use shelly_multiplexer.Writer.{Bus, Session, values, broken, fast}
use shelly_multiplexer.Writer.Writes.{should_write, do_write}
use shelly_multiplexer.Writer.Writes.Commanded.{IsCommanded, IsRecorded, do_write-IsCommanded}
use shelly_multiplexer.Writer.Writes.Failed.{failed_write_forgotten}
use shelly_multiplexer.Writer.Reads.Refresh.{tier_refresh}
use shelly_multiplexer.Writer.Reads.Refresh.Merged.{IsRefreshed, tier_refresh-IsRefreshed}
use shelly_multiplexer.Writer.Init.{init_loop}
use shelly_multiplexer.Writer.Init.Started.{init_loop_ends}
use shelly_multiplexer.Writer.Tasks.{writer_from_config, run_writer, changed, fast_timer, shutdown}
use shelly_multiplexer.Writer.Tasks.Settled.{IsSettled}
use shelly_multiplexer.Writer.Tasks.Whole.{run_writer-IsSettled}
use shelly_multiplexer.Tests.{w, home, now, battery, battery_config}

-- Operations before the third are lost, and every register reads as 55.
abbrev late_bus : Bus
late_bus = record {
  net = record {
    fate = λ n. if ltb n 3 then dropped else acknowledged;
    opens = λ n. if ltb n 3 then false else true;
  };
  answer = λ n. values (55 ∷ []);
  clock = λ n. now + n * second;
  message = λ n. "timeout";
}

-- Nothing gets through.
abbrev dead_bus : Bus
dead_bus = record {
  net = record { fate = λ n. dropped; opens = λ n. false };
  answer = λ n. broken;
  clock = λ n. now + n * second;
  message = λ n. "timeout";
}

abbrev polling : VirtualModbusConfig
polling = record {
  enabled = true;
  bind_address = "0.0.0.0:5502";
  bulk_refresh_ms = 1000;
  slow_refresh_ms = 10000;
  debug = false;
}

abbrev line : Line
line = record { regs = λ r. 0; sent = 1 }

-- The writer of the left battery, which has charged it with 800 W.
abbrev pub session : Session ℤ
session = record {
  app = home;
  writer = record (writer_from_config polling (battery_config "left")) {
    last_written = some (charge 800);
    last_soc_read_at = some now;
  };
  is_open = false;
  line = line;
}

-- The third attempt gets through, then the inverter answers a read of the state of charge.
do_write-IsCommanded_example :
    let done = do_write late_bus (discharge 600) session in
    IsCommanded (discharge 600) done.1 × IsRecorded (discharge 600) done.1
unfolding do_write write_setpoint_on
do_write-IsCommanded_example = do_write-IsCommanded late_bus (discharge 600) session refl

failed_write_forgotten_example :
    should_write (do_write dead_bus (discharge 600) session).1.writer (charge 800) ≡ false
unfolding do_write
failed_write_forgotten_example =
    failed_write_forgotten fixed-IsOrdered dead_bus (discharge 600) (charge 800) session refl refl

init_loop_ends_example : (init_loop late_bus 4 session).0 ≡ true
init_loop_ends_example = init_loop_ends late_bus 3 session (λ i late. ground (arith, late))

run_writer-IsSettled_example : IsSettled (
    run_writer late_bus 4
      (changed (charge 300) ∷ fast_timer ∷ changed (discharge 200) ∷ shutdown ∷ [])
      (record {
        app = home;
        writer = writer_from_config polling (battery_config "left");
        is_open = false;
        line = line;
      }))
run_writer-IsSettled_example =
    run_writer-IsSettled late_bus polling (battery_config "left") home line 4
      (changed (charge 300) ∷ fast_timer ∷ changed (discharge 200) ∷ shutdown ∷ []) (ground arith)

-- The left battery after a fast refresh, in which every register is 55.
abbrev refreshed : BatteryState ℤ
refreshed =
    unwrap_or (lookup "left" (tier_refresh late_bus fast session).1.app.batteries)
      (battery "left" (w 0))

tier_refresh-IsRefreshed_example :
    (b : BatteryState ℤ) × (lookup "left" home.batteries ≡ some b) × IsRefreshed 44001 b refreshed
unfolding tier_refresh contains fast_registers lookup writer_from_config
tier_refresh-IsRefreshed_example =
    tier_refresh-IsRefreshed late_bus fast session 44001 refreshed refl refl
