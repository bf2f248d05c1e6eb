-- ===== src/ModbusDecode/Words.antt =====
-- Two's complement in src/modbus_decode.rs: what a signed register of the inverter means.
use shelly_multiplexer.Prelude.{
  ℕ, ◌/◌, ◌%◌, ◌^◌, ◌-◌, ◌≤◌, ◌<◌, ◌≡◌, List, some, lookup, nat_key, ℤ, pos, negsuc, pos_part,
  neg_part, arith,
}
use shelly_multiplexer.Double.{Double, of_ℤ}
use shelly_multiplexer.ModbusDecode.{
  int16, int32, number, as_i16, as_i32, combined, read_pair, address_at, scale_num, decode_value,
}

-- What an inverter puts into its registers for `z`: z modulo 2 ^ 16, and modulo 2 ^ 32.
abbrev pub encode_i16 : ℤ → ℕ
encode_i16 (pos n) = n
encode_i16 (negsuc n) = 2 ^ 16 - 1 - n

abbrev pub encode_i32 : ℤ → ℕ
encode_i32 (pos n) = n
encode_i32 (negsuc n) = 2 ^ 32 - 1 - n

-- The numbers of `w` bits and a sign.
abbrev pub FitsIn : ℕ → ℤ → Type 0
FitsIn w z = (pos_part z < 2 ^ w) × (neg_part z ≤ 2 ^ w)

pub as_i16-encode : (z : ℤ) → FitsIn 15 z → as_i16 (encode_i16 z) ≡ z
unfolding as_i16
as_i16-encode z h = ground arith

pub as_i32-encode : (z : ℤ) → FitsIn 31 z → as_i32 (encode_i32 z) ≡ z
unfolding as_i32
as_i32-encode z h = ground arith

pub combined-halves : (r : ℕ) → combined (r / 2 ^ 16) (r % 2 ^ 16) ≡ r
unfolding combined
combined-halves r = omega arith

module _ {W : Type 0} ⦃d : Double W⦄ (cache : List (ℕ × ℕ)) (address : ℕ) (scale : W) (z : ℤ) where
  -- The same for one register.
  pub decode_value-encode_i16 :
      FitsIn 15 z
      → lookup address cache ≡ some (encode_i16 z)
      → decode_value (int16 scale) address cache ≡ number (scale_num (of_ℤ z) scale)
  unfolding decode_value
  decode_value-encode_i16 fits e = ground (arith, e, as_i16-encode z fits)

  -- A signed number of 32 bits that an inverter writes into two registers, high half first, is
  -- decoded as that number times the register's scale, also below zero.
  pub decode_value-encode :
      FitsIn 31 z
      → lookup address cache ≡ some (encode_i32 z / 2 ^ 16)
      → lookup (address_at address 1) cache ≡ some (encode_i32 z % 2 ^ 16)
      → decode_value (int32 scale) address cache ≡ number (scale_num (of_ℤ z) scale)
  unfolding decode_value read_pair
  decode_value-encode fits hi lo =
      ground (arith, hi, lo, as_i32-encode z fits, combined-halves (encode_i32 z))
