-- ===== src/ModbusDecode.antt =====
-- src/modbus_decode.rs: the raw cache of holding registers as named, scaled values. A register is a
-- number below 2 ^ 16. The JSON value is given by its form: a number, a text by its bytes, a label
-- with the raw number behind it, or null.
pub mod Labels
pub mod Tables
pub mod Words
pub mod Nulls
pub mod Agreement
use shelly_multiplexer.Prelude.{
  ℕ, zero, suc, ◌+◌, ◌*◌, ◌/◌, ◌%◌, ◌^◌, ◌-◌, Bool, true, false, not, ◌&&◌, ◌||◌, Option, none,
  some, List, [], ◌∷◌, ◌++◌, map, String, ltb, nat_beq, if◌then◌else◌, lookup, is_nil, nat_key, ℤ,
  pos, negsuc,
}
use shelly_multiplexer.Prelude.Text.{is_whitespace}
use shelly_multiplexer.Double.{Double, of_ℤ}
use shelly_multiplexer.Config.Registers.{MarstekModel}

pub data RegisterKind (W : Type 0) : Type 0 where
  uint16 : W → RegisterKind W
  int16 : W → RegisterKind W
  uint32 : W → RegisterKind W
  int32 : W → RegisterKind W
  char : ℕ → RegisterKind W
  labels : List (ℕ × String) → RegisterKind W

pub record RegisterDef (W : Type 0) : Type 0 where
  pub address : ℕ
  pub name : String
  pub section : String
  pub unit : Option String
  pub kind : RegisterKind W

pub data Value (W : Type 0) : Type 0 where
  null : Value W
  number : W → Value W
  raw_number : ℕ → Value W
  text : List ℕ → Value W
  labelled : String → ℕ → Value W

pub record DecodedRegister (W : Type 0) : Type 0 where
  pub address : ℕ
  pub name : String
  pub section : String
  pub value : Value W
  pub unit : Option String
  pub raw : Option ℕ

-- `r as i16`, and `combined as i32`: the signed reading of a bit pattern.
unfoldable pub as_i16 : ℕ → ℤ
as_i16 r = if ltb r (2 ^ 15) then pos r else negsuc (2 ^ 16 - r - 1)

unfoldable pub as_i32 : ℕ → ℤ
as_i32 r = if ltb r (2 ^ 31) then pos r else negsuc (2 ^ 32 - r - 1)

-- `(u32::from(hi) << 16) | u32::from(lo)`
unfoldable pub combined : ℕ → ℕ → ℕ
combined hi lo = hi * 2 ^ 16 + lo

-- `def.address + i` on a `u16`.
abbrev pub address_at : ℕ → ℕ → ℕ
address_at address i = (address + i) % 2 ^ 16

-- Both halves of a 32-bit value, or none.
unfoldable pub read_pair : ℕ → List (ℕ × ℕ) → Option ℕ
unfolding combined
read_pair address cache = elim (lookup address cache) [
  | none ↦ none
  | some hi ↦ elim (lookup (address_at address 1) cache) [
    | none ↦ none
    | some lo ↦ some (combined hi lo)
  ]
]

unfoldable pub push_ascii : ℕ → List ℕ → List ℕ
push_ascii byte rest = if not (nat_beq byte 0) && ltb byte 128 then byte ∷ rest else rest

-- The bytes of `left` registers from the `i`-th on, up to the first that is not there.
unfoldable pub read_chars : ℕ → List (ℕ × ℕ) → ℕ → ℕ → List ℕ
unfolding push_ascii
read_chars address cache i zero = []
read_chars address cache i (suc left) = elim (lookup (address_at address i) cache) [
  | none ↦ []
  | some w ↦
      push_ascii ((w / 2 ^ 8) % 2 ^ 8)
        (push_ascii (w % 2 ^ 8) (read_chars address cache (suc i) left))
]

-- `trim_end_matches(|c| c == '\0' || c.is_whitespace())`
unfoldable pub trim_padding : List ℕ → List ℕ
trim_padding [] = []
trim_padding (c ∷ cs) =
    let rest = trim_padding cs in
    if is_nil rest && (nat_beq c 0 || is_whitespace c) then [] else c ∷ rest

unfoldable pub label_of : ℕ → List (ℕ × String) → Option String
label_of r [] = none
label_of r ((v, label) ∷ table) = if nat_beq v r then some label else label_of r table

module _ {W : Type 0} ⦃d : Double W⦄ where
  open d use {nat, mul, div, round}

  unfoldable pub scale_num : W → W → W
  scale_num raw scale = div (round (mul (mul raw scale) (nat 10000))) (nat 10000)

  unfoldable pub decode_value : RegisterKind W → ℕ → List (ℕ × ℕ) → Value W
  unfolding scale_num as_i16 as_i32 read_pair read_chars trim_padding label_of
  decode_value (uint16 scale) address cache = elim (lookup address cache) [
    | none ↦ null
    | some r ↦ number (scale_num (nat r) scale)
  ]
  decode_value (int16 scale) address cache = elim (lookup address cache) [
    | none ↦ null
    | some r ↦ number (scale_num (of_ℤ (as_i16 r)) scale)
  ]
  decode_value (uint32 scale) address cache = elim (read_pair address cache) [
    | none ↦ null
    | some r ↦ number (scale_num (nat r) scale)
  ]
  decode_value (int32 scale) address cache = elim (read_pair address cache) [
    | none ↦ null
    | some r ↦ number (scale_num (of_ℤ (as_i32 r)) scale)
  ]
  decode_value (char zero) address cache = null
  decode_value (char (suc n)) address cache = elim (lookup (address_at address 0) cache) [
    | none ↦ null
    | some w ↦ text (trim_padding (read_chars address cache 0 (suc n)))
  ]
  decode_value (labels table) address cache = elim (lookup address cache) [
    | none ↦ null
    | some r ↦ elim (label_of r table) [ none ↦ raw_number r | some label ↦ labelled label r ]
  ]

  unfoldable pub decode_one : List (ℕ × ℕ) → RegisterDef W → DecodedRegister W
  unfolding decode_value
  decode_one cache def = record {
    address = def.address;
    name = def.name;
    section = def.section;
    value = decode_value def.kind def.address cache;
    unit = def.unit;
    raw = lookup def.address cache;
  }

  -- `register_table` is an argument here: it stands in a module of its own.
  unfoldable pub decode_table : List (RegisterDef W) → List (ℕ × ℕ) → List (DecodedRegister W)
  unfolding decode_one
  decode_table table cache = map (decode_one cache) table
