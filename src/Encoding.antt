-- ===== src/Encoding.antt =====
-- The encodings of encoding/mod.rs and its children. `Value` is the argument of the trait
-- `Encoder`'s methods, one constructor for each `encode_*`; `Kind` is the choice of a `read_*`
-- of the trait `Decoder`.
pub mod Rle
pub mod Zigzag
pub mod Simple8b
pub mod DeltaOfDelta
pub mod Places
pub mod BitStream
pub mod Gorilla
pub mod Chimp128
pub mod Plain
pub mod DictionaryRle
pub mod Dictionary
use timbre_tsf.Prelude.{ℕ, Bool, List}

-- A float is the bit pattern that `to_bits` gives; a string is its UTF-8 bytes.
pub data Value : Type 0 where
  bool : Bool → Value
  i32 i64 f32 f64 : ℕ → Value
  string : List ℕ → Value

pub data Kind : Type 0 where
  bool i32 i64 f32 f64 string : Kind

-- The read that goes with a value.
abbrev pub kind_of : Value → Kind
kind_of (Value.bool b) = Kind.bool
kind_of (Value.i32 v) = Kind.i32
kind_of (Value.i64 v) = Kind.i64
kind_of (Value.f32 v) = Kind.f32
kind_of (Value.f64 v) = Kind.f64
kind_of (Value.string s) = Kind.string
