-- ===== src/Prelude/Lists.antt =====
-- Lists measured by native numbers, filters by a Boolean test, and predicates on every item.
use Prim.Native.Nat.{ℕ, zero, suc, ◌+◌}
use mathlib.Core.Path.{◌≡◌, refl, ap, subst}
use mathlib.Core.Bool.{Bool, true, false, ◌||◌}
use mathlib.Core.Logic.{inl, inr}
use mathlib.Core.List.{List, [], ◌∷◌, ◌++◌, map}
use mathlib.Core.Option.{Option, none, some, some-injective}
use native.Mathlib.Omega.{arith}
use shelly_multiplexer.Prelude.Tests.{if◌then◌else◌, Bool-cases}

module _ {ℓ} {A : Type ℓ} where
  abbrev pub length : List A → ℕ
  length [] = 0
  length (x ∷ xs) = suc (length xs)

  abbrev pub get_elem? : List A → ℕ → Option A
  get_elem? [] i = none
  get_elem? (x ∷ xs) zero = some x
  get_elem? (x ∷ xs) (suc i) = get_elem? xs i

  -- `iter().filter`, `iter().any`, `iter().all` and `iter().filter_map`.
  abbrev pub keep_if : (A → Bool) → List A → List A
  keep_if p [] = []
  keep_if p (x ∷ xs) = if p x then x ∷ keep_if p xs else keep_if p xs

  abbrev pub any : (A → Bool) → List A → Bool
  any p [] = false
  any p (x ∷ xs) = p x || any p xs

  -- `iter().max_by`: the last of the greatest; `greater a b` says that `a` is above `b`.
  abbrev pub max_by : (A → A → Bool) → Option A → List A → Option A
  max_by greater best [] = best
  max_by greater none (x ∷ xs) = max_by greater (some x) xs
  max_by greater (some a) (x ∷ xs) = max_by greater (some (if greater a x then a else x)) xs

  abbrev pub is_nil : List A → Bool
  is_nil [] = true
  is_nil (x ∷ xs) = false

  abbrev pub All {κ} : (A → Type κ) → List A → Type κ
  All P [] = Unit
  All P (x ∷ xs) = P x × All P xs

  pub keep_if-All {κ} :
      (P : A → Type κ) (p : A → Bool) (xs : List A)
      → All P xs
      → All (λ x. P x × (p x ≡ true)) (keep_if p xs)
  keep_if-All P p [] h = tt
  keep_if-All P p (x ∷ xs) (h, hs) = elim (Bool-cases (p x)) [
    | inl e ↦ rw (e, keep_if) ((h, e), keep_if-All P p xs hs)
    | inr e ↦ rw (e, keep_if) (keep_if-All P p xs hs)
  ]

  pub max_by-All {κ} :
      (P : A → Type κ) (greater : A → A → Bool) (best : Option A) (xs : List A) (m : A)
      → All P xs
      → ((b : A) → best ≡ some b → P b)
      → max_by greater best xs ≡ some m
      → P m
  max_by-All P greater best [] m s h e = h m e
  max_by-All P greater none (x ∷ xs) m (s, ss) h e =
      max_by-All P greater (some x) xs m ss (λ b q. subst P (some-injective _ _ q) s) e
  max_by-All P greater (some a) (x ∷ xs) m (s, ss) h e =
      max_by-All P greater (some (if greater a x then a else x)) xs m ss
        (λ b q. subst P (some-injective _ _ q) (choose (greater a x))) e
    where
      choose : (c : Bool) → P (if c then a else x)
      choose true = h a refl
      choose false = s

  pub length-append : (xs ys : List A) → length (xs ++ ys) ≡ length xs + length ys
  length-append [] ys = omega arith
  length-append (x ∷ xs) ys = omega (arith, length-append xs ys)

module _ {ℓ κ} {A : Type ℓ} {B : Type κ} where
  abbrev pub filter_map : (A → Option B) → List A → List B
  filter_map f [] = []
  filter_map f (x ∷ xs) = elim (f x) [ none ↦ filter_map f xs | some y ↦ y ∷ filter_map f xs ]

  pub length-map : (f : A → B) (xs : List A) → length (map f xs) ≡ length xs
  length-map f [] = refl
  length-map f (x ∷ xs) = ap suc (length-map f xs)
