-- ===== src/Runtime/Tables.antt =====
-- The table of the batteries under the ways in which the program changes it.
use shelly_multiplexer.Prelude.{
  ◌≡◌, refl, sym, subst, ◌∙◌, ap, inl, inr, Option, none, some, List, [], ◌∷◌, String, arith, All,
  lookup, modify, insert, map_values, values, lookup-modify, lookup-insert, string_key, ◌==◌,
  Bool-cases, on_each, beq_refl,
}
use shelly_multiplexer.Double.{Double}
use shelly_multiplexer.State.{BatteryState}
use shelly_multiplexer.Dispatcher.Bounds.{IsRated}
use shelly_multiplexer.Dispatcher.Cycle.Commands.{IsCapable}
use shelly_multiplexer.Dispatcher.Shares.Bounded.{IsKeyed}

-- What no part of the program changes in a battery once it is stored.
pub record Fixed (W : Type 0) : Type 0 where
  pub id : String
  pub charge : W
  pub discharge : W
  pub charge_taper : Option W
  pub discharge_taper : Option W

module _ {W : Type 0} where
  abbrev pub fixed_of : BatteryState W → Fixed W
  fixed_of b = record {
    id = b.id;
    charge = b.max_charge_w;
    discharge = b.max_discharge_w;
    charge_taper = b.charge_taper_w;
    discharge_taper = b.discharge_taper_w;
  }

  abbrev pub Steady : BatteryState W → BatteryState W → Type 0
  Steady b b' = fixed_of b' ≡ fixed_of b

  pub Steady-id : (b b' : BatteryState W) → Steady b b' → b'.id ≡ b.id
  Steady-id b b' same = ap (λ (x : Fixed W). x.id) same

module _ {W : Type 0} ⦃d : Double W⦄ where
  -- A battery with sensible limits of 50 W or more.
  pub record IsFit (b : BatteryState W) : Type 0 where
    pub rated : IsRated b
    pub capable : IsCapable b

  pub Steady-IsFit : (b b' : BatteryState W) → Steady b b' → IsFit b → IsFit b'
  Steady-IsFit b b' steady fit = record {
    rated = record {
      charge_ge = ground (arith, steady, fit.rated);
      discharge_ge = ground (arith, steady, fit.rated);
      charge_taper = ground (arith, steady, fit.rated);
      discharge_taper = ground (arith, steady, fit.rated);
    };
    capable = ground (arith, steady, fit.capable);
  }

  -- Every battery is stored under its id, no id twice, and every battery is fit.
  abbrev pub IsTable : List (String × BatteryState W) → Type 0
  IsTable [] = Unit
  IsTable ((k, b) ∷ bats) = (b.id ≡ k) × IsFit b × (lookup k bats ≡ none) × IsTable bats

  lookup-modify-none :
      (key asked : String) (f : BatteryState W → BatteryState W)
      (bats : List (String × BatteryState W))
      → lookup asked bats ≡ none
      → lookup asked (modify key f bats) ≡ none
  lookup-modify-none key asked f bats absent =
      ground (arith, absent, lookup-modify key asked f bats)

  pub modify-IsTable :
      (key : String) (f : BatteryState W → BatteryState W) (bats : List (String × BatteryState W))
      → ((b : BatteryState W) → Steady b (f b))
      → IsTable bats
      → IsTable (modify key f bats)
  unfolding modify
  modify-IsTable key f [] steady h = tt
  modify-IsTable key f ((k, b) ∷ bats) steady (id, fit, fresh, rest) =
      on_each IsTable (k == key)
        (λ here.
          (Steady-id b (f b) (steady b) ∙ id, Steady-IsFit b (f b) (steady b) fit, fresh, rest))
        (λ other.
          (id, fit, lookup-modify-none key k f bats fresh, modify-IsTable key f bats steady rest))

  lookup-map_values :
      (f : BatteryState W → BatteryState W) (k : String) (bats : List (String × BatteryState W))
      → lookup k bats ≡ none
      → lookup k (map_values f bats) ≡ none
  unfolding lookup
  lookup-map_values f k [] e = refl
  lookup-map_values f k ((key, b) ∷ bats) e = ground (arith, e, lookup-map_values f k bats)

  pub map_values-IsTable :
      (f : BatteryState W → BatteryState W) (bats : List (String × BatteryState W))
      → ((b : BatteryState W) → Steady b (f b))
      → IsTable bats
      → IsTable (map_values f bats)
  map_values-IsTable f [] steady h = tt
  map_values-IsTable f ((k, b) ∷ bats) steady (id, fit, fresh, rest) = (
    Steady-id b (f b) (steady b) ∙ id,
    Steady-IsFit b (f b) (steady b) fit,
    lookup-map_values f k bats fresh,
    map_values-IsTable f bats steady rest,
  )

  pub insert-IsTable :
      (key : String) (b : BatteryState W) (bats : List (String × BatteryState W))
      → b.id ≡ key
      → IsFit b
      → IsTable bats
      → IsTable (insert key b bats)
  unfolding insert lookup
  insert-IsTable key b [] same fit h = (same, fit, refl, tt)
  insert-IsTable key b ((k, old) ∷ bats) same fit (id, old_fit, fresh, rest) =
      on_each IsTable (k == key)
        (λ here. (same ∙ sym ((string_key.beq_iff k key).0 here), fit, fresh, rest))
        (λ other. (
          id,
          old_fit,
          ground (
            arith,
            fresh,
            other,
            lookup-insert key k b bats,
            string_key.beq_iff k key,
            string_key.beq_iff key k,
          ),
          insert-IsTable key b bats same fit rest,
        ))

  lookup-later :
      (k : String) (b : BatteryState W) (rest : List (String × BatteryState W)) (k' : String)
      (b' : BatteryState W)
      → lookup k rest ≡ none
      → lookup k' rest ≡ some b'
      → lookup k' ((k, b) ∷ rest) ≡ some b'
  unfolding lookup
  lookup-later k b rest k' b' fresh found = ground (arith, fresh, found, string_key.beq_iff k k')

  lookup-first :
      (k : String) (b : BatteryState W) (rest : List (String × BatteryState W))
      → lookup k ((k, b) ∷ rest) ≡ some b
  unfolding lookup
  lookup-first k b rest = ground (arith, beq_refl k)

  -- The entries of a part of a table.
  keyed_part :
      (es bats : List (String × BatteryState W))
      → IsTable es
      → ((k : String) (b : BatteryState W) → lookup k es ≡ some b → lookup k bats ≡ some b)
      → All (λ (e : String × BatteryState W). (e.1.id ≡ e.0) × (lookup e.0 bats ≡ some e.1)) es
  keyed_part [] bats h inside = tt
  keyed_part ((k, b) ∷ es) bats (same, fit, fresh, rest) inside = (
    (same, inside k b (lookup-first k b es)),
    keyed_part es bats rest (λ k' b' e. inside k' b' (lookup-later k b es k' b' fresh e)),
  )

  -- What the cycle of the dispatcher asks of a table.
  pub IsTable-IsKeyed : (bats : List (String × BatteryState W)) → IsTable bats → IsKeyed bats
  IsTable-IsKeyed bats h = keyed_part bats bats h (λ k b e. e)

  pub IsTable-IsRated :
      (bats : List (String × BatteryState W)) (id : String) (b : BatteryState W)
      → IsTable bats
      → lookup id bats ≡ some b
      → IsRated b
  unfolding lookup
  IsTable-IsRated [] id b h e = ground (arith, e)
  IsTable-IsRated ((k, v) ∷ bats) id b (same, fit, fresh, rest) e = elim (Bool-cases (k == id)) [
    | inl here ↦
        let found : v ≡ b = ground (arith, e, here) in subst (λ x. IsRated x) found fit.rated
    | inr other ↦ IsTable-IsRated bats id b rest (ground (arith, e, other))
  ]

  pub IsTable-IsCapable :
      (bats : List (String × BatteryState W)) → IsTable bats → All IsCapable (values bats)
  IsTable-IsCapable [] h = tt
  IsTable-IsCapable ((k, b) ∷ bats) (same, fit, fresh, rest) =
      (fit.capable, IsTable-IsCapable bats rest)
