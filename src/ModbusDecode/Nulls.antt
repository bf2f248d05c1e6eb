-- ===== src/ModbusDecode/Nulls.antt =====
-- When src/modbus_decode.rs shows a register as null.
use shelly_multiplexer.Prelude.{
  ℕ, zero, suc, ◌^◌, ◌<◌, ◌≡◌, refl, ◌↔◌, ◌⊎◌, inl, inr, List, none, lookup, nat_key, arith,
}
use shelly_multiplexer.Double.{Double}
use shelly_multiplexer.ModbusDecode.{
  RegisterDef, RegisterKind, uint16, int16, uint32, int32, char, labels, null, read_pair,
  address_at, decode_value, decode_one,
}

address_at_zero : (address : ℕ) → address < 2 ^ 16 → address_at address 0 ≡ address
address_at_zero address fits = omega (arith, fits)

read_pair-none :
    (address : ℕ) (cache : List (ℕ × ℕ))
    → (read_pair address cache ≡ none)
      ↔ ((lookup address cache ≡ none) ⊎ (lookup (address_at address 1) cache ≡ none))
unfolding read_pair
read_pair-none address cache = ground arith

module _ {W : Type 0} ⦃d : Double W⦄ where
  -- How many registers a value needs before anything is shown.
  abbrev pub words_needed : RegisterKind W → ℕ
  words_needed (uint32 scale) = 2
  words_needed (int32 scale) = 2
  words_needed _ = 1

  -- The registers that a value takes up.
  abbrev pub words_of : RegisterKind W → ℕ
  words_of (uint32 scale) = 2
  words_of (int32 scale) = 2
  words_of (char n) = n
  words_of _ = 1

  abbrev IsMissing : RegisterKind W → ℕ → List (ℕ × ℕ) → Type 0
  IsMissing kind address cache =
      (i : ℕ) × (i < words_needed kind) × (lookup (address_at address i) cache ≡ none)

  -- One word is missing.
  IsMissing-one :
      (kind : RegisterKind W) (address : ℕ) (cache : List (ℕ × ℕ))
      → address < 2 ^ 16
      → words_needed kind ≡ 1
      → (lookup address cache ≡ none) ↔ IsMissing kind address cache
  IsMissing-one kind address cache fits one = (
    (λ e. (0, omega (arith, one), rw (address_at_zero address fits) e)),
    (λ (i, lo, e).
        let zero_word : i ≡ 0 = omega (arith, lo, one) in
        rw (zero_word, address_at_zero address fits) at e),
  )

  -- One of two words is missing.
  IsMissing-two :
      (kind : RegisterKind W) (address : ℕ) (cache : List (ℕ × ℕ))
      → address < 2 ^ 16
      → words_needed kind ≡ 2
      → (read_pair address cache ≡ none) ↔ IsMissing kind address cache
  IsMissing-two kind address cache fits two = (
    (λ e. elim ((read_pair-none address cache).0 e) [
      | inl first ↦ (0, omega (arith, two), rw (address_at_zero address fits) first)
      | inr second ↦ (1, omega (arith, two), second)
    ]),
    (λ m. (read_pair-none address cache).1 (either m)),
  )
    where
      either :
          IsMissing kind address cache
          → (lookup address cache ≡ none) ⊎ (lookup (address_at address 1) cache ≡ none)
      either (zero, lo, e) = inl (rw (address_at_zero address fits) at e)
      either (suc zero, lo, e) = inr e
      either (suc (suc i), lo, e) = absurd (omega (arith, lo, two))

  decode_value_null :
      (kind : RegisterKind W) (address : ℕ) (cache : List (ℕ × ℕ))
      → address < 2 ^ 16
      → 0 < words_of kind
      → (decode_value kind address cache ≡ null) ↔ IsMissing kind address cache
  unfolding decode_value read_pair
  decode_value_null (uint16 scale) address cache fits some_words =
      ground (arith, IsMissing-one (uint16 scale) address cache fits refl)
  decode_value_null (int16 scale) address cache fits some_words =
      ground (arith, IsMissing-one (int16 scale) address cache fits refl)
  decode_value_null (uint32 scale) address cache fits some_words =
      ground (arith, IsMissing-two (uint32 scale) address cache fits refl)
  decode_value_null (int32 scale) address cache fits some_words =
      ground (arith, IsMissing-two (int32 scale) address cache fits refl)
  decode_value_null (char zero) address cache fits some_words = ground arith
  decode_value_null (char (suc n)) address cache fits some_words =
      ground
        (arith, address_at_zero address fits, IsMissing-one (char (suc n)) address cache fits refl)
  decode_value_null (labels table) address cache fits some_words =
      ground (arith, IsMissing-one (labels table) address cache fits refl)

  -- A register that takes up at least one word is shown as null exactly where the cache lacks one of
  -- the words it needs: both words of a 32-bit value, and the first word of every other one.
  pub decode_one_null :
      (cache : List (ℕ × ℕ)) (def : RegisterDef W)
      → def.address < 2 ^ 16
      → 0 < words_of def.kind
      → ((decode_one cache def).value ≡ null)
        ↔ ((i : ℕ) × (i < words_needed def.kind) × (lookup (address_at def.address i) cache ≡ none))
  unfolding decode_one
  decode_one_null cache def fits some_words =
      decode_value_null def.kind def.address cache fits some_words
