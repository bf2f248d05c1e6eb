-- ===== src/Writer/Reads/Refresh/Merged.antt =====
-- What a refresh of src/modbus.rs does to the cache, and to the state of charge.
use shelly_multiplexer.Prelude.{
  ℕ, ◌≡◌, ◌⊎◌, inl, refl, sym, ◌∙◌, Bool, false, none, some, List, [], ◌∷◌, String, arith, on_each,
  lookup, insert, lookup-insert, lookup-modify_same, contains, nat_key, ◌==◌, ap, subst, string_key,
  is_nil,
}
use shelly_multiplexer.Double.{Double, ◌≼◌}
use shelly_multiplexer.Config.Registers.{MarstekModel}
use shelly_multiplexer.Config.Types.{BatteryConfig}
use shelly_multiplexer.State.{BatteryState}
use shelly_multiplexer.Writer.{
  Bus, BatteryWriter, Session, Tier, fast, slow, Answer, values, exception, broken, ensure_conn,
  drop_ctx, count, with_battery, read_holding_on,
}
use shelly_multiplexer.Writer.Frames.{refreshed_at-keeps}
use shelly_multiplexer.Writer.Reads.{store_readings}
use shelly_multiplexer.Writer.Reads.Refresh.{
  Sweep, collect, tier_registers, read_register, sweep, merge, store_tier, derived_soc,
  refreshed_at, tier_refresh,
}

-- A register that was not collected keeps its value.
merge-others :
    (r : ℕ) (collected cache : List (ℕ × ℕ))
    → lookup r collected ≡ none
    → lookup r (merge collected cache) ≡ lookup r cache
unfolding merge lookup
merge-others r [] cache e = refl
merge-others r ((reg, v) ∷ collected) cache e =
    ground (arith, e, merge-others r collected (insert reg v cache), lookup-insert reg r v cache)

collect-others :
    (reg r : ℕ) (vs : List ℕ) (collected : List (ℕ × ℕ))
    → (reg == r) ≡ false
    → lookup r (collect reg vs collected) ≡ lookup r collected
collect-others reg r [] collected other = refl
collect-others reg r (v ∷ vs) collected other =
    ground (arith, other, lookup-insert reg r v collected)

on_answer {ℓ κ} :
    {A : Type ℓ} (P : A → Type κ) (answer : Answer) {f : List ℕ → A} {x y : A}
    → ((vs : List ℕ) → P (f vs))
    → P x
    → P y
    → P (elim answer [ values vs ↦ f vs | exception ↦ x | broken ↦ y ])
on_answer P (values vs) p q r = p vs
on_answer P exception p q r = q
on_answer P broken p q r = r

module _ {W : Type 0} where
  ensure_conn-batteries :
      (bus : Bus) (s : Session W)
      → ((ensure_conn bus s).1.app.batteries ≡ s.app.batteries)
        × ((ensure_conn bus s).1.writer ≡ s.writer)
  unfolding ensure_conn
  ensure_conn-batteries bus s = ground arith

  -- The part of a sweep that the registers do not concern.
  record Spares (r : ℕ) (w w' : Sweep W) : Type 0 where
    collected : lookup r w'.collected ≡ lookup r w.collected
    batteries : w'.session.app.batteries ≡ w.session.app.batteries
    writer : w'.session.writer ≡ w.session.writer

  Spares-trans : {r : ℕ} {w w' w'' : Sweep W} → Spares r w w' → Spares r w' w'' → Spares r w w''
  Spares-trans p q = record {
    collected = q.collected ∙ p.collected;
    batteries = q.batteries ∙ p.batteries;
    writer = q.writer ∙ p.writer;
  }

  read_register-Spares :
      (bus : Bus) (reg r : ℕ) (w : Sweep W)
      → (reg == r) ≡ false
      → Spares r w (read_register bus reg w)
  unfolding read_register count read_holding_on drop_ctx
  read_register-Spares bus reg r w other = record {
    collected =
        on_answer (λ (x : Sweep W). lookup r x.collected ≡ lookup r w.collected)
          (bus.answer w.session.line.sent) (λ vs. collect-others reg r vs w.collected other) refl
          (ground arith);
    batteries = ground arith;
    writer = ground arith;
  }

  sweep-Spares :
      (bus : Bus) (r : ℕ) (regs : List ℕ) (w : Sweep W)
      → contains regs r ≡ false
      → Spares r w (sweep bus regs w)
  unfolding sweep contains
  sweep-Spares bus r [] w absent = record { collected = refl; batteries = refl; writer = refl }
  sweep-Spares bus r (reg ∷ regs) w absent =
      let conn = ensure_conn bus w.session in
      let start : Sweep W = record w { session = conn.1 } in
      let next = read_register bus reg start in
      let (batteries, writer) = ensure_conn-batteries bus w.session in
      let opened : Spares r w start = record {
        collected = refl;
        batteries = batteries;
        writer = writer;
      } in
      let read =
        Spares-trans opened (read_register-Spares bus reg r start (ground (arith, absent))) in
      on_each (Spares r w) conn.0
        (λ o.
          on_each (Spares r w) next.connection_dead (λ dead. read)
            (λ alive. Spares-trans read (sweep-Spares bus r regs next (ground (arith, absent)))))
        (λ c. record { collected = refl; batteries = batteries; writer = writer })

module _ {W : Type 0} ⦃d : Double W⦄ where
  open d use {nat}

  -- A battery after a refresh, against the battery before it.
  pub record IsRefreshed (r : ℕ) (b b' : BatteryState W) : Type 0 where
    pub kept : lookup r b'.cached_holding_regs ≡ lookup r b.cached_holding_regs
    pub soc :
        (b'.soc_pct ≡ b.soc_pct)
        ⊎ (soc : W) × (b'.soc_pct ≡ some soc) × (nat 0 ≼ soc) × (soc ≼ nat 100)

  store_tier-IsRefreshed :
      (tier : Tier) (model : MarstekModel) (now : ℕ) (collected : List (ℕ × ℕ)) (r : ℕ)
      (b : BatteryState W)
      → lookup r collected ≡ none
      → IsRefreshed r b (store_tier tier model now collected b)
  unfolding store_tier store_readings derived_soc
  store_tier-IsRefreshed fast model now collected r b e = record {
    kept = merge-others r collected b.cached_holding_regs e;
    soc = ground arith;
  }
  store_tier-IsRefreshed slow model now collected r b e = record {
    kept = merge-others r collected b.cached_holding_regs e;
    soc = inl refl;
  }

  stored :
      (f : BatteryState W → BatteryState W) (k : Session W) (id : String)
      (bats : List (String × BatteryState W)) (b' : BatteryState W)
      → k.writer.battery.id ≡ id
      → k.app.batteries ≡ bats
      → lookup id (with_battery f k).app.batteries ≡ some b'
      → (b : BatteryState W) × (lookup id bats ≡ some b) × (b' ≡ f b)
  unfolding with_battery
  stored f k id bats b' same_id same_bats here =
      let (b, found, changed) =
        lookup-modify_same k.writer.battery.id f k.app.batteries b' (rw (sym same_id) at here) in
      (b, rw (same_id, same_bats) at found, changed)

  abbrev Good : Bus → Session W → ℕ → BatteryState W → Session W → Type 0
  Good bus s r b' s' =
      lookup s.writer.battery.id s'.app.batteries ≡ some b'
      → (b : BatteryState W) × (lookup s.writer.battery.id s.app.batteries ≡ some b)
        × IsRefreshed r b b'

  -- A refresh keeps the cached value of every register outside its tier, so that the fast refreshes
  -- between two slow ones do not lose what the slow one has read, and leaves the battery's state of
  -- charge as it was or sets it to a value from 0 to 100; also where it fails.
  pub tier_refresh-IsRefreshed :
      (bus : Bus) (tier : Tier) (s : Session W) (r : ℕ) (b' : BatteryState W)
      → contains (tier_registers tier s.writer.battery.marstek_model) r ≡ false
      → let s' = (tier_refresh bus tier s).1 in
        lookup s.writer.battery.id s'.app.batteries ≡ some b'
        → (b : BatteryState W) × (lookup s.writer.battery.id s.app.batteries ≡ some b)
          × IsRefreshed r b b'
  unfolding tier_refresh lookup
  tier_refresh-IsRefreshed bus tier s r b' absent =
      let model = s.writer.battery.marstek_model in
      let start : Sweep W = record {
        session = s;
        collected = [];
        wire_errors = 0;
        connection_dead = false;
      } in
      let w = sweep bus (tier_registers tier model) start in
      let spared = sweep-Spares bus r (tier_registers tier model) start absent in
      let now = bus.clock w.session.line.sent in
      let kept : Session W = record w.session { writer = refreshed_at tier now w.session.writer } in
      let same_battery =
        (refreshed_at-keeps tier now w.session.writer).1
        ∙ ap (λ (x : BatteryWriter W). x.battery) spared.writer in
      let f = store_tier tier model now w.collected in
      let same : Good bus s r b' w.session =
        λ here. (b', rw spared.batteries at here, record { kept = refl; soc = inl refl }) in
      on_each (λ (x : Bool × Session W). Good bus s r b' x.1) (is_nil w.collected)
        (λ nothing. on_each (Good bus s r b') w.connection_dead (λ dead. same) (λ alive. same))
        (λ some_data here.
          let (b, found, changed) =
            stored f kept s.writer.battery.id s.app.batteries b'
              (ap (λ (x : BatteryConfig W). x.id) same_battery) spared.batteries here in
          (
            b,
            found,
            subst (IsRefreshed r b) (sym changed)
                (store_tier-IsRefreshed tier model now w.collected r b spared.collected),
          ))
