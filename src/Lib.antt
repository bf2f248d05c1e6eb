-- ===== src/Lib.antt =====
-- shelly-multiplexer: one power meter shared by several plug-in batteries.
--
-- The program reads a Shelly meter at the grid connection and steers Marstek batteries so that the
-- house neither draws nor feeds power. Its parts share one state (src/state.rs) behind locks: pollers
-- fill in measurements, the dispatcher (src/dispatcher.rs) decides in cycles what each battery is to
-- do, writer tasks (src/modbus.rs) send it to the inverters, and a virtual Modbus server
-- (src/modbus_server.rs) answers clients from the registers that the writers have read. In pulse mode
-- the batteries poll a virtual Shelly meter (src/virtual_shelly.rs) instead, which hands out what the
-- dispatcher has queued for them.
--
-- Which file models what:
--   Prelude        Boolean tests, lists by native numbers, integers, keys, association lists, text
--   Double         f64: an interface with the laws that the proofs use; Double/Fixed is an instance
--                  of it that runs, by which the examples are computed
--   Config         src/config.rs: the records, the defaults of the dispatcher, the constants, and the
--                  register lists of each inverter variant; Config/Validate is Config::validate
--   State          src/state.rs and EmStatusIncoming of src/rpc.rs: the state, the methods that read
--                  a battery (State/Battery), from_config (State/Startup), refresh_activity
--                  (State/Activity), and the energy counters (State/Energy)
--   ModbusServer   src/modbus_server.rs: alias_probe_register and handle_request
--   Plug           src/plug.rs: what a reading of a plug, or a failed one, changes
--   Setpoint       src/modbus.rs: Setpoint, from_signed_watts and to_signed_watts
--   Wire           src/modbus.rs: write_reg, write_setpoint and its attempts, the writes of
--                  init_dispatch_on, and failsafe_shutdown
--   Writer         src/modbus.rs: BatteryWriter, by its connection (Writer), its writes
--                  (Writer/Writes), its reads and refreshes (Writer/Reads), its init loop
--                  (Writer/Init), and its task with the events it waits for (Writer/Tasks);
--                  Writer/Poller is run and poll_battery_loop
--   ModbusDecode   src/modbus_decode.rs: decode, the register tables and their labels
--   VirtualShelly  src/virtual_shelly.rs and the statuses of src/rpc.rs: what a poll changes and what it
--                  is answered (handle_request, dispatch_method, em_get_status, emdata_status)
--   Meter          src/real_shelly.rs and src/ha.rs: the tick and the poll of the grid meter, and the
--                  readings of Home Assistant
--   Dispatcher     src/dispatcher.rs, by its parts: Bounds (low_bound, high_bound), Correction
--                  (compute_grid_correction), Overhead (apply_overhead_compensation), Mute
--                  (update_circuit_mute), Pulse (detect_pulse_outcomes, any_pulse_in_flight,
--                  queue_pulses), Shares (what compute_targets and compute_deltas share), Targets
--                  (compute_targets), Deltas (compute_deltas), Safety (enforce_circuit_safety,
--                  manual_reset_cutoff), Night (enforce_night_cutoff), and Cycle (step_modbus,
--                  step_pulse)
--   Runtime        run of src/dispatcher.rs: a turn of its loop, and the whole program as a relation
--                  between states (Step, Reachable)
--   Admin          src/http_admin.rs: apply_new_config, the token that api_get_config hides, and the one
--                  that src/main.rs takes from the environment at the start
--   Tests          a small installation, and each theorem applied to it
--
-- How the code is translated. A struct is a record with its fields, an enum a data type. A function
-- that changes the shared state takes it and returns it; a part of it that is a closure or the body of
-- a loop in the code is a function of its own. An Instant is a number of nanoseconds, and the time at
-- a call is an argument of it, so that one call sees one time. A HashMap is an association list, whose
-- order stands for the order of the iteration, which is arbitrary. A panic of f64::clamp, whose bounds
-- may be the wrong way round, is none. A task that is spawned to switch a relay is a request in the
-- result, and its end is a function of its own, with the answer of the plug as an argument. The
-- network of Wire is an argument that decides what becomes of each write: acknowledged, applied
-- without a reply, or not applied. The times of the sun come from an argument in the place of the
-- sunrise crate.
--
-- Bounds. The distribution of the power runs for at most 6 rounds, as in the code: the number of
-- rounds is an argument, and the code's 6 is given where the loop is called. write_setpoint makes
-- MODBUS_WRITE_RETRIES + 1 attempts. The counters of the server wrap at 2^64 and register addresses
-- at 2^16. The init loop of a writer, which the code repeats for ever, is given a number of rounds; it
-- ends within n + 1 rounds if the network carries everything from its operation n on.
--
-- What is not modelled: NaN, and what it does to comparisons; the logging and the totals that are
-- computed only for it; the sleeps between attempts; the locks: each function that is modelled holds
-- them for as long as it reads and writes, except that a step of Runtime joins what a cycle or an event
-- does under several locks one after the other; the channels of ModbusDispatch and panic_failsafe; what
-- the answers of the virtual Shelly say about the device, which is constant or taken from the
-- configuration; the web servers beyond the change of the configuration, the loading of the
-- configuration, and all input and output over HTTP, UDP and mDNS, which belong to libraries.
pub mod Prelude
pub mod Double
pub mod Config
pub mod State
pub mod ModbusServer
pub mod ModbusDecode
pub mod Setpoint
pub mod Wire
pub mod Writer
pub mod Dispatcher
pub mod Plug
pub mod VirtualShelly
pub mod Meter
pub mod Runtime
pub mod Admin
pub mod Tests
