-- ===== src/Prelude/Dict.antt =====
-- `HashMap` and `HashSet` as association lists: a lookup takes the first entry of a key, an insert
-- replaces the value of a key that is there, and the order of the entries stands for the order in
-- which the program happens to iterate.
use mathlib.Core.Path.{◌≡◌, refl}
use mathlib.Core.Bool.{Bool, false, ◌||◌}
use mathlib.Core.List.{List, [], ◌∷◌}
use mathlib.Core.Option
use mathlib.Core.Option.{Option, none, some}
use native.Mathlib.Omega.{arith}
use shelly_multiplexer.Prelude.Tests.{if◌then◌else◌}
use shelly_multiplexer.Prelude.Keys.{Key, ◌==◌}

module _ {ℓ κ} {K : Type ℓ} {V : Type κ} where
  abbrev pub keys : List (K × V) → List K
  keys [] = []
  keys ((k, v) ∷ m) = k ∷ keys m

  abbrev pub values : List (K × V) → List V
  values [] = []
  values ((k, v) ∷ m) = v ∷ values m

  -- A loop over `values_mut()`.
  abbrev pub map_values : (V → V) → List (K × V) → List (K × V)
  map_values f [] = []
  map_values f ((k, v) ∷ m) = (k, f v) ∷ map_values f m

module _ {ℓ κ} {K : Type ℓ} {V : Type κ} ⦃e : Key K⦄ where
  unfoldable pub lookup : K → List (K × V) → Option V
  lookup key [] = none
  lookup key ((key', found) ∷ rest) = if key' == key then some found else lookup key rest

  -- `if let Some(v) = m.get_mut(k) { *v = f(v) }`
  unfoldable pub modify : K → (V → V) → List (K × V) → List (K × V)
  modify key f [] = []
  modify key f ((key', old) ∷ rest) =
      if key' == key then (key', f old) ∷ rest else (key', old) ∷ modify key f rest

  unfoldable pub insert : K → V → List (K × V) → List (K × V)
  insert key new [] = (key, new) ∷ []
  insert key new ((key', old) ∷ rest) =
      if key' == key then (key', new) ∷ rest else (key', old) ∷ insert key new rest

  pub lookup-modify :
      (key asked : K) (f : V → V) (entries : List (K × V))
      → lookup asked (modify key f entries)
        ≡ (if key == asked then Option.map f (lookup asked entries) else lookup asked entries)
  unfolding lookup modify
  lookup-modify key asked f [] = ground arith
  lookup-modify key asked f ((key', old) ∷ rest) = ground (
    arith,
    lookup-modify key asked f rest,
    e.beq_iff key' asked,
    e.beq_iff key' key,
    e.beq_iff key asked,
  )

  -- The entry of the modified key is the old one with the change.
  pub lookup-modify_same :
      (key : K) (f : V → V) (entries : List (K × V)) (found : V)
      → lookup key (modify key f entries) ≡ some found
      → (old : V) × (lookup key entries ≡ some old) × (found ≡ f old)
  lookup-modify_same key f entries found is_found =
      ground (arith, is_found, lookup-modify key key f entries, e.beq_iff key key)

  pub lookup-insert :
      (key asked : K) (new : V) (entries : List (K × V))
      → lookup asked (insert key new entries)
        ≡ (if key == asked then some new else lookup asked entries)
  unfolding lookup insert
  lookup-insert key asked new [] = refl
  lookup-insert key asked new ((key', old) ∷ rest) = ground (
    arith,
    lookup-insert key asked new rest,
    e.beq_iff key' asked,
    e.beq_iff key' key,
    e.beq_iff key asked,
  )

module _ {ℓ} {K : Type ℓ} ⦃e : Key K⦄ where
  -- `HashSet::contains`, and `Vec::contains`.
  unfoldable pub contains : List K → K → Bool
  contains [] a = false
  contains (x ∷ xs) a = x == a || contains xs a
