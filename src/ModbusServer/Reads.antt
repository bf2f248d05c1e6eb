-- ===== src/ModbusServer/Reads.antt =====
-- What src/modbus_server.rs answers.
use native.Mathlib.Nat.{add-zero, zero-add, add-suc, suc-add}
use shelly_multiplexer.Prelude.{
  ℕ, zero, suc, ◌+◌, ◌%◌, ◌<◌, ◌≡◌, refl, ◌↔◌, List, [], ◌∷◌, String, Option, some, none, arith,
  lookup, nat_key, string_key, Option-cases, inl, inr, length, get_elem?, ◌≢◌, ap,
}
use shelly_multiplexer.Config.Registers.{MarstekModel}
use shelly_multiplexer.State.{AppState, BatteryState, ModbusStats}
use shelly_multiplexer.ModbusServer.{
  Request, Outcome, read_holding_registers, read_input_registers, holding_registers,
  gateway_path_unavailable, server_device_busy, illegal_data_address, illegal_function,
  alias_probe_register, read_from, read_cached, read_registers, gateway_unavailable, refuse, serve,
  handle_request, read_coils, read_discrete_inputs, write_single_coil, write_multiple_coils,
  write_single_register, write_multiple_registers, mask_write_register,
  read_write_multiple_registers, other,
}

-- `out` holds the cached values of the `count` registers from `addr` on, each under its alias, and
-- addresses wrap round at 2^16.
abbrev pub Serves : MarstekModel → List (ℕ × ℕ) → ℕ → ℕ → List ℕ → Type 0
Serves model cache addr count out =
    (length out ≡ count)
    × ((i : ℕ)
        → i < count
        → lookup (alias_probe_register model ((addr + i) % 65536)) cache ≡ get_elem? out i)

-- The same, from the offset `offset` on.
abbrev ServesFrom : MarstekModel → List (ℕ × ℕ) → ℕ → ℕ → ℕ → List ℕ → Type 0
ServesFrom model cache addr offset left out =
    (length out ≡ left)
    × ((i : ℕ)
        → i < left
        → lookup (alias_probe_register model ((addr + (offset + i)) % 65536)) cache
          ≡ get_elem? out i)

module _ (model : MarstekModel) (cache : List (ℕ × ℕ)) (addr : ℕ) where
  abbrev cell : ℕ → Option ℕ
  cell i = lookup (alias_probe_register model ((addr + i) % 65536)) cache

  read_from_parts :
      (offset left v : ℕ) (vs : List ℕ)
      → read_from model cache addr offset (suc left) ≡ some (v ∷ vs)
      → (cell offset ≡ some v) × (read_from model cache addr (suc offset) left ≡ some vs)
  unfolding read_from
  read_from_parts offset left v vs e = ground arith

  ServesFrom-cons :
      (offset left v : ℕ) (vs : List ℕ)
      → cell offset ≡ some v
      → ServesFrom model cache addr (suc offset) left vs
      → ServesFrom model cache addr offset (suc left) (v ∷ vs)
  ServesFrom-cons offset left v vs here (long, there) = (ap suc long, at)
    where
      at : (i : ℕ) → i < suc left → cell (offset + i) ≡ get_elem? (v ∷ vs) i
      at zero h = rw add-zero here
      at (suc i) h = rw (add-suc, ← suc-add) (there i (omega arith))

  ServesFrom-of_read :
      (offset left : ℕ) (out : List ℕ)
      → read_from model cache addr offset left ≡ some out
      → ServesFrom model cache addr offset left out
  unfolding read_from
  ServesFrom-of_read offset zero [] e = (refl, λ i h. elim h [ ])
  ServesFrom-of_read offset zero (v ∷ vs) e = cc
  ServesFrom-of_read offset (suc left) [] e = ground arith
  ServesFrom-of_read offset (suc left) (v ∷ vs) e =
      let (here, there) = read_from_parts offset left v vs e in
      ServesFrom-cons offset left v vs here (ServesFrom-of_read (suc offset) left vs there)

  read_of_ServesFrom :
      (offset left : ℕ) (out : List ℕ)
      → ServesFrom model cache addr offset left out
      → read_from model cache addr offset left ≡ some out
  unfolding read_from
  read_of_ServesFrom offset zero [] s = refl
  read_of_ServesFrom offset zero (v ∷ vs) s = absurd (omega arith)
  read_of_ServesFrom offset (suc left) [] s = absurd (omega arith)
  read_of_ServesFrom offset (suc left) (v ∷ vs) (long, at) =
      ground (arith, here, read_of_ServesFrom (suc offset) left vs (omega arith, there))
    where
      here : cell offset ≡ some v
      here = rw add-zero at (at 0 (omega arith))

      there : (i : ℕ) → i < left → cell (suc offset + i) ≡ get_elem? vs i
      there i h = rw (suc-add, ← add-suc) (at (suc i) (omega arith))

-- The cached values are the answer exactly when they are all there.
pub read_from_iff :
    (model : MarstekModel) (cache : List (ℕ × ℕ)) (addr count : ℕ) (out : List ℕ)
    → (read_from model cache addr 0 count ≡ some out) ↔ Serves model cache addr count out
read_from_iff model cache addr count out = (to, from)
  where
    to : read_from model cache addr 0 count ≡ some out → Serves model cache addr count out
    to e =
        let (long, at) = ServesFrom-of_read model cache addr 0 count out e in
        (long, λ i h. rw zero-add at (at i h))

    from : Serves model cache addr count out → read_from model cache addr 0 count ≡ some out
    from (long, at) =
        read_of_ServesFrom model cache addr 0 count out (long, λ i h. rw zero-add (at i h))

-- A request to read `count` registers from `addr` on, by either function code.
pub data IsRead : Request → ℕ → ℕ → Type 0 where
  holding : (addr count : ℕ) → IsRead (read_holding_registers addr count) addr count
  input : (addr count : ℕ) → IsRead (read_input_registers addr count) addr count

-- The contract of the server: which outcome a request has, by what the client may know.
pub data Answers {W : Type 0} (state : AppState W) (unit : ℕ) (req : Request)
    : Outcome → Type 0 where
  unknown_unit :
      lookup unit state.by_unit_id ≡ none → Answers state unit req gateway_path_unavailable
  refused :
      (id : String)
      → lookup unit state.by_unit_id ≡ some id
      → ((addr count : ℕ) → ¬ IsRead req addr count)
      → Answers state unit req illegal_function
  unknown_battery :
      (id : String) (addr count : ℕ)
      → lookup unit state.by_unit_id ≡ some id
      → IsRead req addr count
      → lookup id state.batteries ≡ none
      → Answers state unit req gateway_path_unavailable
  busy :
      (id : String) (addr count : ℕ) (b : BatteryState W)
      → lookup unit state.by_unit_id ≡ some id
      → IsRead req addr count
      → lookup id state.batteries ≡ some b
      → b.cached_holding_regs ≡ []
      → Answers state unit req server_device_busy
  missing :
      (id : String) (addr count : ℕ) (b : BatteryState W)
      → lookup unit state.by_unit_id ≡ some id
      → IsRead req addr count
      → lookup id state.batteries ≡ some b
      → b.cached_holding_regs ≢ []
      → ((out : List ℕ) → ¬ Serves b.marstek_model b.cached_holding_regs addr count out)
      → Answers state unit req illegal_data_address
  served :
      (id : String) (addr count : ℕ) (b : BatteryState W) (out : List ℕ)
      → lookup unit state.by_unit_id ≡ some id
      → IsRead req addr count
      → lookup id state.batteries ≡ some b
      → b.cached_holding_regs ≢ []
      → Serves b.marstek_model b.cached_holding_regs addr count out
      → Answers state unit req (holding_registers out)

module _ {W : Type 0} (state : AppState W) (unit : ℕ) where
  -- The three outcomes of a read whose battery is known.
  module _ (req : Request) (id : String) (addr count : ℕ) (b : BatteryState W) (s : ModbusStats)
      (u : lookup unit state.by_unit_id ≡ some id) (r : IsRead req addr count)
      (k : lookup id state.batteries ≡ some b) where
    read_filled-Answers :
        (c : ℕ × ℕ) (cs : List (ℕ × ℕ))
        → b.cached_holding_regs ≡ c ∷ cs
        → Answers state unit req (read_cached b addr count s).1
    unfolding read_cached
    read_filled-Answers c cs e =
        let filled : b.cached_holding_regs ≢ [] = λ (h : b.cached_holding_regs ≡ []). cc in
        elim (Option-cases (read_from b.marstek_model b.cached_holding_regs addr 0 count)) [
          | inl f ↦
              rw (e, read_cached)
                (rw f (
                  missing id addr count b u r k filled
                    λ out h. cc ((read_from_iff b.marstek_model _ addr count out).1 h)))
          | inr (out, f) ↦
              rw (e, read_cached)
                (rw f (
                  served id addr count b out u r k filled
                    ((read_from_iff b.marstek_model _ addr count out).0 f)))
        ]

    read_cached-Answers : Answers state unit req (read_cached b addr count s).1
    unfolding read_cached
    read_cached-Answers = go b.cached_holding_regs refl
      where
        go :
            (cache : List (ℕ × ℕ))
            → b.cached_holding_regs ≡ cache
            → Answers state unit req (read_cached b addr count s).1
        go [] e = rw (e, read_cached) (busy id addr count b u r k e)
        go (c ∷ cs) e = read_filled-Answers c cs e

  read_registers-Answers :
      (req : Request) (id : String) (addr count : ℕ) (s : ModbusStats)
      → lookup unit state.by_unit_id ≡ some id
      → IsRead req addr count
      → Answers state unit req (read_registers state id addr count s).1
  unfolding read_registers gateway_unavailable
  read_registers-Answers req id addr count s u r = elim (Option-cases (lookup id state.batteries)) [
    | inl k ↦ rw (k, read_registers) (unknown_battery id addr count u r k)
    | inr (b, k) ↦ rw (k, read_registers) (read_cached-Answers req id addr count b s u r k)
  ]

  serve-Answers :
      (req : Request) (id : String) (s : ModbusStats)
      → lookup unit state.by_unit_id ≡ some id
      → Answers state unit req (serve state id req s).1
  unfolding serve refuse
  serve-Answers (read_holding_registers addr count) id s u =
      read_registers-Answers _ id addr count s u (holding addr count)
  serve-Answers (read_input_registers addr count) id s u =
      read_registers-Answers _ id addr count s u (input addr count)
  serve-Answers (read_coils _ _) id s u = refused id u (λ a c. elim [ ])
  serve-Answers (read_discrete_inputs _ _) id s u = refused id u (λ a c. elim [ ])
  serve-Answers (write_single_coil _ _) id s u = refused id u (λ a c. elim [ ])
  serve-Answers (write_multiple_coils _ _) id s u = refused id u (λ a c. elim [ ])
  serve-Answers (write_single_register _ _) id s u = refused id u (λ a c. elim [ ])
  serve-Answers (write_multiple_registers _ _) id s u = refused id u (λ a c. elim [ ])
  serve-Answers (mask_write_register _ _ _) id s u = refused id u (λ a c. elim [ ])
  serve-Answers (read_write_multiple_registers _ _ _ _) id s u = refused id u (λ a c. elim [ ])
  serve-Answers (other _) id s u = refused id u (λ a c. elim [ ])

  -- Every request is answered as the contract says: an unknown unit or battery by
  -- GatewayPathUnavailable, all but a read by IllegalFunction, a read from an empty cache by
  -- ServerDeviceBusy, and any other read by the cached values of all its registers, or by
  -- IllegalDataAddress if the cache cannot serve them all.
  pub handle_request-Answers :
      (req : Request) → Answers state unit req (handle_request state unit req).1
  unfolding handle_request
  handle_request-Answers req = elim (Option-cases (lookup unit state.by_unit_id)) [
    | inl u ↦ rw (u, handle_request) (unknown_unit u)
    | inr (id, u) ↦ rw (u, handle_request) (serve-Answers req id _ u)
  ]
