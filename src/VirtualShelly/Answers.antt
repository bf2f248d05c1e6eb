-- ===== src/VirtualShelly/Answers.antt =====
-- What the polls of a battery are answered in src/virtual_shelly.rs, from their arrival to the response.
use shelly_multiplexer.Prelude.{
  ℕ, ◌-◌, ◌≡◌, refl, ◌∙◌, ap, Bool, true, false, Option, none, some, List, [], ◌∷◌, String, arith,
  All, if◌then◌else◌, length, map, lookup, string_key, ◌==◌, contains, ◌||◌, inl, inr, Option-cases,
  Bool-cases,
}
use shelly_multiplexer.Double.{Double, le, lt}
use shelly_multiplexer.Config.Constants.{as_secs_f64}
use shelly_multiplexer.Config.Types.{IpAddr, ip_key}
use shelly_multiplexer.State.{AppState, EmSnapshot, BatteryState}
use shelly_multiplexer.Dispatcher.Mute.{is_muted}
use shelly_multiplexer.VirtualShelly.{EmStatus, em_get_status, emdata_status, handle_poll}
use shelly_multiplexer.VirtualShelly.Methods.{
  Response, em, shelly_status, components, failed, device_methods, with_status, dispatch_method,
  answer_poll,
}
use shelly_multiplexer.VirtualShelly.Pulses.{polls, train, popped, polls-train}

-- What a client sees of a response: the total power and that of the three phases, an error, an answer
-- without a power, or nothing at all.
pub data Shown (W : Type 0) : Type 0 where
  power : Option W → Option W → Option W → Option W → Shown W
  error : Shown W
  other : Shown W
  silence : Shown W

-- The times of the requests of one peer, each with its method.
abbrev pub times : List (ℕ × String) → List ℕ
times [] = []
times ((t, method) ∷ rs) = t ∷ times rs

abbrev pub ask : ℕ → ℕ × String
ask t = (t, "em.getstatus")

-- The methods whose answers have the status of the power in them.
abbrev pub carries_power : String → Bool
carries_power method =
    method == "em.getstatus" || method == "shelly.getstatus" || method == "shelly.getcomponents"

module _ {W : Type 0} where
  abbrev pub shown_status : EmStatus W → Shown W
  shown_status st = power st.total_act_power st.a_act_power st.b_act_power st.c_act_power

  abbrev pub shown : Option (Response W) → Shown W
  shown none = silence
  shown (some (em st)) = shown_status st
  shown (some (shelly_status st data_0)) = shown_status st
  shown (some (components st data_0)) = shown_status st
  shown (some (failed e)) = error
  shown (some _) = other

module _ {W : Type 0} ⦃d : Double W⦄ where
  open d use {nat, mul, div, round}

  -- A power in thousandths of a watt.
  abbrev pub milliwatts : W → W
  milliwatts v = div (round (mul v (nat 1000))) (nat 1000)

  -- All of the power on phase A.
  abbrev pub on_phase_a : W → Shown W
  on_phase_a v = power (some v) (some v) (some (nat 0)) (some (nat 0))

  -- There is a snapshot, and it is not older than the stale time.
  abbrev pub is_fresh : Option ℕ → W → ℕ → Bool
  is_fresh none stale now = false
  is_fresh (some t) stale now = le (as_secs_f64 (now - t)) stale

  -- The specification of one answer: `v` is the pulse that is due, or nothing where the poll is dropped.
  abbrev pub expected : Option ℕ → W → ℕ × String → Option W → Shown W
  expected age stale (now, method) none = silence
  expected age stale (now, method) (some v) =
      if carries_power method
      then if is_fresh age stale now then on_phase_a (milliwatts v) else error
      else if method == "emdata.getstatus" || contains device_methods method
      then other
      else error

  abbrev pub expected_all : Option ℕ → W → List (ℕ × String) → List (Option W) → List (Shown W)
  expected_all age stale (r ∷ rs) (v ∷ vs) = expected age stale r v ∷ expected_all age stale rs vs
  expected_all age stale _ _ = []

  -- The requests: the state and the responses.
  abbrev pub requests :
      AppState W → W → IpAddr → List (ℕ × String) → AppState W × List (Option (Response W))
  requests s stale peer [] = (s, [])
  requests s stale peer ((t, method) ∷ rs) =
      let first = answer_poll s stale peer method t in
      let rest = requests first.0 stale peer rs in (rest.0, first.1 ∷ rest.1)

  -- The status, whatever it is wrapped in.
  status_expected :
      (s : AppState W) (v stale : W) (now : ℕ) (f : EmStatus W → Response W)
      → ((st : EmStatus W) → shown (some (f st)) ≡ shown_status st)
      → shown (some (with_status (em_get_status s v stale now) f))
        ≡ (if is_fresh s.snapshot.age stale now then on_phase_a (milliwatts v) else error)
  unfolding em_get_status
  status_expected s v stale now f wraps = elim (Option-cases s.snapshot.age) [
    | inl none_yet ↦ rw none_yet refl
    | inr (t, e) ↦ elim (Bool-cases (lt stale (as_secs_f64 (now - t)))) [
      | inl old ↦
          let not_fresh : le (as_secs_f64 (now - t)) stale ≡ false = ground (arith, old) in
          rw (e, old, not_fresh) refl
      | inr new ↦
          let fresh : le (as_secs_f64 (now - t)) stale ≡ true = ground (arith, new) in
          rw (e, new, fresh) (wraps _)
    ]
  ]

  dispatch_expected :
      (s : AppState W) (v stale : W) (method : String) (now : ℕ)
      → shown (some (dispatch_method s v stale method now))
        ≡ expected s.snapshot.age stale (now, method) (some v)
  unfolding dispatch_method
  dispatch_expected s v stale method now = elim (Bool-cases (method == "em.getstatus")) [
    | inl em_0 ↦ rw em_0 (status_expected s v stale now (λ st. em st) (λ st. refl))
    | inr no_em ↦ elim (Bool-cases (method == "emdata.getstatus")) [
      | inl data_0 ↦ rw ((string_key.beq_iff method "emdata.getstatus").0 data_0) refl
      | inr no_data ↦ elim (Bool-cases (method == "shelly.getstatus")) [
        | inl all ↦
            rw (no_em, no_data, all)
              (status_expected s v stale now (λ st. shelly_status st (emdata_status s))
                (λ st. refl))
        | inr no_all ↦ elim (Bool-cases (method == "shelly.getcomponents")) [
          | inl parts ↦
              rw (no_em, no_data, no_all, parts)
                (status_expected s v stale now (λ st. components st (emdata_status s)) (λ st. refl))
          | inr no_parts ↦ elim (Bool-cases (contains device_methods method)) [
            | inl known ↦ rw (no_em, no_data, no_all, no_parts, known) refl
            | inr unknown ↦ rw (no_em, no_data, no_all, no_parts, unknown) refl
          ]
        ]
      ]
    ]
  ]

  handle_poll-snapshot :
      (s : AppState W) (peer : IpAddr) (now : ℕ) → (handle_poll s peer now).0.snapshot ≡ s.snapshot
  unfolding handle_poll
  handle_poll-snapshot s peer now = ground arith

  -- One request.
  pub answer_expected :
      (s : AppState W) (stale : W) (peer : IpAddr) (method : String) (now : ℕ)
      → shown (answer_poll s stale peer method now).1
        ≡ expected s.snapshot.age stale (now, method) (handle_poll s peer now).1
  unfolding answer_poll
  answer_expected s stale peer method now =
      shown_value (handle_poll s peer now).0 (handle_poll-snapshot s peer now)
        (handle_poll s peer now).1
    where
      shown_value :
          (s' : AppState W)
          → s'.snapshot ≡ s.snapshot
          → (due : Option W)
          → shown (elim due [ none ↦ none | some v ↦ some (dispatch_method s' v stale method now) ])
            ≡ expected s.snapshot.age stale (now, method) due
      shown_value s' same none = refl
      shown_value s' same (some v) =
          dispatch_expected s' v stale method now
          ∙ ap (λ (x : EmSnapshot W). expected x.age stale (now, method) (some v)) same

  -- The requests of a peer are answered as specified, by what its polls take from the pulse.
  requests_expected :
      (s : AppState W) (stale : W) (peer : IpAddr) (rs : List (ℕ × String))
      → (map shown (requests s stale peer rs).1
          ≡ expected_all s.snapshot.age stale rs (polls s peer (times rs)).1)
        × ((requests s stale peer rs).0 ≡ (polls s peer (times rs)).0)
  unfolding answer_poll
  requests_expected s stale peer [] = (refl, refl)
  requests_expected s stale peer ((t, method) ∷ rs) =
      let next = (handle_poll s peer t).0 in
      let (answers, after) = requests_expected next stale peer rs in
      (
        ap (λ x. x ∷ map shown (requests next stale peer rs).1)
              (answer_expected s stale peer method t)
            ∙ ap (λ xs. expected s.snapshot.age stale (t, method) (handle_poll s peer t).1 ∷ xs)
                (answers
                  ∙ ap
                      (λ (x : EmSnapshot W).
                        expected_all x.age stale rs (polls next peer (times rs)).1)
                      (handle_poll-snapshot s peer t)),
        after,
      )

  -- The requests of a battery whose circuit is not muted, of whatever methods, are answered as the
  -- specification says: each takes one repetition of the pulse, as long as there is one, and 0 after
  -- that, also where the answer does not hold it. A method that tells the power is answered with the
  -- pulse, to thousandths of a watt and on phase A, where the snapshot of the grid is fresh, and with an
  -- error where it is missing or stale; every other method that is known has an answer without a power,
  -- and an unknown one an error.
  pub answers-train :
      (s : AppState W) (stale : W) (peer : IpAddr) (id : String) (b : BatteryState W)
      (rs : List (ℕ × String))
      → lookup peer s.by_addr ≡ some id
      → lookup id s.batteries ≡ some b
      → All (λ t. is_muted s.circuits b.circuit t ≡ false) (times rs)
      → let after = requests s stale peer rs in
        (map shown after.1
          ≡ expected_all s.snapshot.age stale rs
              (train b.pulse_remaining b.pending_pulse_w (length (times rs))))
        × (lookup id after.0.batteries ≡ some (popped (times rs) b))
  answers-train s stale peer id b rs known here loud =
      let (answers, state) = requests_expected s stale peer rs in
      let (values, battery) = polls-train s peer id b (times rs) known here loud in
      (
        answers ∙ ap (λ vs. expected_all s.snapshot.age stale rs vs) values,
        ap (λ (x : AppState W). lookup id x.batteries) state ∙ battery,
      )

  pub fresh_power :
      (age : Option ℕ) (stale v : W) (t : ℕ)
      → is_fresh age stale t ≡ true
      → expected age stale (ask t) (some v) ≡ on_phase_a (milliwatts v)
  fresh_power age stale v t fresh = rw fresh refl

  pub stale_error :
      (age : Option ℕ) (stale v : W) (t : ℕ)
      → is_fresh age stale t ≡ false
      → expected age stale (ask t) (some v) ≡ error
  stale_error age stale v t old = rw old refl
