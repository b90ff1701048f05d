-- ===== src/Encoding/Simple8b.antt =====
-- encoding/simple8b.rs: integers packed into 64-bit words, a selector of four bits and a payload
-- of 60. `Select` chooses a selector and `Pack` packs.
pub mod Select
pub mod Pack
pub mod Unpack
pub mod Contents
pub mod Finish
pub mod RoundTrip
mod Tests
use timbre_tsf.Prelude.{
  ℕ, zero, suc, ◌+◌, ◌-◌, ◌*◌, ◌^◌, Bool, true, false, not, ◌&&◌, ◌||◌, Option, none, some, List,
  [], ◌∷◌, ◌++◌, length, take, drop, ltb, leb, ◌==◌, min, replicate, bit_and, bit_or, if◌then◌else◌,
}
use timbre_tsf.Words.{shl, shr, sign_extend, u32}
use timbre_tsf.Words.Zigzag.{zigzag32, zigzag64, signed_unzigzag32, signed_unzigzag64}
use timbre_tsf.Exec.{
  Exec, TimbreError, ok, err, pure, throw, modify, ensure, gets, encoding_error, decoding_error,
  ◌>>=◌, ◌>>◌,
}
use timbre_tsf.Bytes.{LittleEndian, from_le_bytes}
use timbre_tsf.Common.Types.{TsDataType, data_type_to_u8, same_type}
use timbre_tsf.Encoding.{Value, Kind}
use timbre_tsf.Encoding.Simple8b.Select.{find_selector, best_selector, bits_of, selectors, count_of}
use timbre_tsf.Encoding.Simple8b.Pack.{pack_values, value_at}

pub record Simple8bEncoder : Type 0 where
  pub data_type : TsDataType
  pub pending : List ℕ
  pub output : List ℕ

pub record Simple8bDecoder : Type 0 where
  pub data_type : TsDataType
  pub current_word : ℕ
  pub current_pos : ℕ
  pub current_selector : ℕ

abbrev pub new_encoder : TsDataType → Simple8bEncoder
new_encoder t = record { data_type = t; pending = []; output = [] }

abbrev pub new_decoder : TsDataType → Simple8bDecoder
new_decoder t = record { data_type = t; current_word = 0; current_pos = 0; current_selector = 0 }

-- Where no selector fits: from 240 values on, the first is cut to 60 bits.
force_first : List ℕ → Simple8bEncoder → Simple8bEncoder
force_first [] e = e
force_first (value ∷ rest) e =
    if leb 240 (length e.pending)
    then record e {
      pending = rest;
      output = e.output ++ bit_or (shl 64 15 60) (bit_and value 0x0fff_ffff_ffff_ffff) ∷ [];
    }
    else e

abbrev is_empty : List ℕ → Bool
is_empty [] = true
is_empty (v ∷ vs) = false

pub try_pack : Simple8bEncoder → Simple8bEncoder
unfolding force_first
try_pack e = if is_empty e.pending then e else (elim (find_selector e.pending selectors 0) [
  | some (selector, count, bits) ↦ record e {
    pending = drop count e.pending;
    output = e.output ++ pack_values (take count e.pending) selector bits ∷ [];
  }
  | none ↦ force_first e.pending e
])

-- `pending.push(zigzag)`, and packing from 60 values on.
pub push : ℕ → Simple8bEncoder → Simple8bEncoder
push zigzag e =
    let pushed = record e { pending = e.pending ++ zigzag ∷ [] } in
    if leb 60 (length pushed.pending) then try_pack pushed else pushed

-- `as u64` of an i32 extends the sign.
pub encode_i32_internal : ℕ → Simple8bEncoder → Simple8bEncoder
unfolding push
encode_i32_internal value e = push (sign_extend (zigzag32 value)) e

unfoldable pub encode_i64_internal : ℕ → Simple8bEncoder → Simple8bEncoder
unfolding push
encode_i64_internal value e = push (zigzag64 value) e

-- One round of `finish`: the best selector for what is pending, padded with zeros.
pub finish_round : Simple8bEncoder → Simple8bEncoder
finish_round e =
    let (selector, count) = best_selector e.pending selectors 0 in
    let taken = min (length e.pending) count in
    let values = take taken e.pending ++ replicate (count - taken) 0 in
    record e {
      pending = drop taken e.pending;
      output = e.output ++ pack_values values selector (bits_of selector) ∷ [];
    }

-- Each round takes a value at least, so as many rounds as values are enough.
pub finish_loop : ℕ → Simple8bEncoder → Simple8bEncoder
finish_loop zero e = e
finish_loop (suc fuel) e =
    let rest = finish_loop fuel (finish_round e) in if is_empty e.pending then e else rest

pub finish : Simple8bEncoder → Simple8bEncoder
unfolding finish_loop
finish e = finish_loop (length e.pending) e

abbrev pub takes_i32 : TsDataType → Bool
takes_i32 t = same_type t TsDataType.int32 || same_type t TsDataType.date

abbrev pub takes_i64 : TsDataType → Bool
takes_i64 t = same_type t TsDataType.int64 || same_type t TsDataType.timestamp

pub encode : Value → Exec (Simple8bEncoder × List ℕ) (Unit {0})
encode (Value.bool b) = throw (encoding_error "Simple8b does not support boolean")
encode (Value.i32 v) = do
  t ← gets (λ (e, out). e.data_type)
  ensure (takes_i32 t) (encoding_error "Simple8b: wrong data type for i32")
  modify (λ (e, out). (encode_i32_internal v e, out))
encode (Value.i64 v) = do
  t ← gets (λ (e, out). e.data_type)
  ensure (takes_i64 t) (encoding_error "Simple8b: wrong data type for i64")
  modify (λ (e, out). (encode_i64_internal v e, out))
encode (Value.f32 v) = throw (encoding_error "Simple8b does not support f32")
encode (Value.f64 v) = throw (encoding_error "Simple8b does not support f64")
encode (Value.string s) = throw (encoding_error "Simple8b does not support string")

module _ (bo : LittleEndian) where
  -- The words in the output of the crate.
  unfoldable pub write_words : List ℕ → List ℕ
  write_words [] = []
  write_words (word ∷ words) = bo.write 8 word ++ write_words words

  -- `finish` gives back the words and keeps them, too.
  unfoldable pub flush : Exec (Simple8bEncoder × List ℕ) (Unit {0})
  flush (e, out) = let done = finish e in (ok tt, (done, out ++ write_words done.output))

pub has_pending_values : Simple8bDecoder → Bool
has_pending_values d = ltb 0 d.current_pos

abbrev pub end_of_data : TimbreError
end_of_data = decoding_error "Simple8b: unexpected end of data"

-- `u64::from_le_bytes(data[*pos..*pos + 8])`
abbrev pub word_at : List ℕ → ℕ → ℕ
word_at input pos = from_le_bytes (take 8 (drop pos input))

pub ensure_word : List ℕ → Exec (Simple8bDecoder × ℕ) (Unit {0})
ensure_word input (d, pos) =
    if d.current_pos == 0
    then (if ltb (length input) (pos + 8)
        then (err end_of_data, (d, pos))
        else (let word = word_at input pos in
            let selector = bit_and (shr word 60) 0xf in
            (
              ok tt,
              (
                record d {
                  current_word = word;
                  current_pos = count_of selector;
                  current_selector = selector;
                },
                pos + 8,
              ),
            )))
    else (ok tt, (d, pos))

-- The value that the position names, and the position one further.
pub next_value : Exec (Simple8bDecoder × ℕ) ℕ
next_value (d, pos) =
    let index = count_of d.current_selector - d.current_pos in
    (
      ok (value_at d.current_word d.current_selector index),
      (record d { current_pos = d.current_pos - 1 }, pos),
    )

-- `value as i32` keeps the low 32 bits.
pub decode_i32_internal : List ℕ → Exec (Simple8bDecoder × ℕ) ℕ
unfolding ensure_word next_value
decode_i32_internal input = do
  ensure_word input
  value ← next_value
  pure (signed_unzigzag32 (u32 value))

pub decode_i64_internal : List ℕ → Exec (Simple8bDecoder × ℕ) ℕ
unfolding ensure_word next_value
decode_i64_internal input = do ensure_word input; value ← next_value; pure (signed_unzigzag64 value)

abbrev pub wrong_type_i64 : TimbreError
wrong_type_i64 = decoding_error "Simple8b: wrong data type for i64"

unfoldable pub read : Kind → List ℕ → Exec (Simple8bDecoder × ℕ) Value
unfolding decode_i32_internal decode_i64_internal
read Kind.bool input = throw (decoding_error "Simple8b does not support boolean")
read Kind.i32 input = do
  t ← gets (λ (d, pos). d.data_type)
  ensure (takes_i32 t) (decoding_error "Simple8b: wrong data type for i32")
  v ← decode_i32_internal input
  pure (Value.i32 v)
read Kind.i64 input = do
  t ← gets (λ (d, pos). d.data_type)
  ensure (takes_i64 t) wrong_type_i64
  v ← decode_i64_internal input
  pure (Value.i64 v)
read Kind.f32 input = throw (decoding_error "Simple8b does not support f32")
read Kind.f64 input = throw (decoding_error "Simple8b does not support f64")
read Kind.string input = throw (decoding_error "Simple8b does not support string")

pub has_remaining : Simple8bDecoder → List ℕ → ℕ → Bool
has_remaining d input pos = ltb pos (length input) || ltb 0 d.current_pos
