-- ===== src/ModbusServer/Counters.antt =====
-- What a request to src/modbus_server.rs changes: the counters, and nothing else.
use shelly_multiplexer.Prelude.{ℕ, ◌+◌, ◌%◌, ◌^◌, ◌≡◌, refl, arith, nat_key, string_key}
use shelly_multiplexer.State.{AppState, ModbusStats}
use shelly_multiplexer.ModbusServer.{Request, handle_request}

-- The outcome counters add up to the total, as far as 64 bits go.
pub record IsBalanced (s : ModbusStats) : Type 0 where
  pub balance :
      s.server_requests_total
      ≡ (s.server_requests_ok + s.server_requests_illegal_address + s.server_requests_server_busy
          + s.server_requests_illegal_function + s.server_requests_gateway_unavailable)
        % 2 ^ 64

module _ {W : Type 0} where
  -- A request changes nothing but the counters: a client cannot write to a battery through the
  -- server, nor move a circuit or a route.
  pub handle_request_frame :
      (state : AppState W) (unit : ℕ) (req : Request)
      → let after = (handle_request state unit req).0 in
        after ≡ record state { modbus_stats = after.modbus_stats }
  unfolding handle_request
  handle_request_frame state unit req = refl

  -- Every request keeps the counters balanced: it adds one to the total and one to exactly one of
  -- the five outcome counters.
  pub handle_request-IsBalanced :
      (state : AppState W) (unit : ℕ) (req : Request)
      → IsBalanced state.modbus_stats
      → IsBalanced (handle_request state unit req).0.modbus_stats
  unfolding handle_request
  handle_request-IsBalanced state unit req h = ground arith
