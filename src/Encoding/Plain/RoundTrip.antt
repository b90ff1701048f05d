-- ===== src/Encoding/Plain/RoundTrip.antt =====
-- `read` of plain.rs gives back what `encode` wrote, and what a negative length does.
use timbre_tsf.Prelude.{
  ℕ, ◌+◌, ◌-◌, ◌^◌, ◌≤◌, ◌<◌, ◌≡◌, ◌∙◌, arith, true, false, List, [], ◌∷◌, ◌++◌, map, All, length,
  ltb, leb, length-append, append-nil, append_assoc, lt→ltb, if◌then◌else◌, Bool-cases, inl, inr,
}
use timbre_tsf.Words.{u32, IsU32, IsU64, wrapping_add, sign_extend}
use timbre_tsf.Exec.{
  ok, err, panic, unexpected_eof, decoding_error, for_each, traverse, traverse-step,
}
use timbre_tsf.Bytes.{LittleEndian, At, At-byte, At-skip, At-write, read-write, length-write}
use timbre_tsf.Bytes.Slice.{slice-At, slice_disordered}
use timbre_tsf.Bytes.Utf8.{is_utf8}
use timbre_tsf.Bytes.Strings.{take_string, fits_input, take_string-At}
use timbre_tsf.Encoding.{Value, kind_of}
use timbre_tsf.Encoding.Plain.{read_bool, write_value, encode, read_fixed, read_string, read}

-- What Rust's types say of a value, and a string's length fits an i32.
abbrev pub Fits : Value → Type 0
Fits (Value.bool b) = Unit
Fits (Value.i32 v) = IsU32 v
Fits (Value.i64 v) = IsU64 v
Fits (Value.f32 v) = IsU32 v
Fits (Value.f64 v) = IsU64 v
Fits (Value.string s) = (length s < 2 ^ 31) × (is_utf8 s ≡ true)

module _ (bo : LittleEndian) where
  read_fixed-write :
      (w v : ℕ) (input : List ℕ) (pos : ℕ) (rest : List ℕ)
      → v < 256 ^ w
      → length input < 2 ^ 63
      → At input pos (bo.write w v ++ rest)
      → read_fixed bo w input pos ≡ (ok v, pos + w)
  unfolding read_fixed
  read_fixed-write w v input pos rest h short a =
      let behind = At-write bo w v input pos rest a in
      let (wraps, inside) = fits_input input pos w behind.inside short in
      let cursor = rw (length-write bo w v) at (slice-At input pos (bo.write w v) rest a) in
      let value = rw append-nil at (read-write bo w v [] h) in
      rw (wraps, inside, cursor, value, wraps)

  read_string-write :
      (s input : List ℕ) (pos : ℕ) (rest : List ℕ)
      → length s < 2 ^ 31
      → length input < 2 ^ 63
      → is_utf8 s ≡ true
      → At input pos (write_value bo (Value.string s) ++ rest)
      → read_string bo input pos ≡ (ok s, pos + (4 + length s))
  unfolding read_string write_value
  read_string-write s input pos rest h short valid a =
      let same : u32 (length s) ≡ length s = omega arith in
      let positive : sign_extend (length s) ≡ length s = ground arith in
      let from_length = rw (append_assoc, same) at a in
      let from_bytes = At-write bo 4 (length s) input pos (s ++ rest) from_length in
      let total : pos + 4 + length s ≡ pos + (4 + length s) = omega arith in
      let found =
        take_string-At unexpected_eof (decoding_error "utf8") s input (pos + 4) rest short valid
          from_bytes in
      rw (
        read_fixed-write 4 (length s) input pos (s ++ rest) (omega arith) short from_length,
        positive,
        found,
        total,
      )

  read-write_value :
      (v : Value) (input : List ℕ) (pos : ℕ) (rest : List ℕ)
      → Fits v
      → length input < 2 ^ 63
      → At input pos (write_value bo v ++ rest)
      → read bo (kind_of v) input pos ≡ (ok v, pos + length (write_value bo v))
  unfolding read read_bool write_value
  read-write_value (Value.bool true) input pos rest h short a =
      let (found, inside, behind) = At-byte input pos 1 rest a in
      let test = lt→ltb pos (length input) inside in rw (test, found)
  read-write_value (Value.bool false) input pos rest h short a =
      let (found, inside, behind) = At-byte input pos 0 rest a in
      let test = lt→ltb pos (length input) inside in rw (test, found)
  read-write_value (Value.i32 v) input pos rest h short a =
      rw (read_fixed-write 4 v input pos rest (omega arith) short a, length-write bo 4 v)
  read-write_value (Value.i64 v) input pos rest h short a =
      rw (read_fixed-write 8 v input pos rest (omega arith) short a, length-write bo 8 v)
  read-write_value (Value.f32 v) input pos rest h short a =
      rw (read_fixed-write 4 v input pos rest (omega arith) short a, length-write bo 4 v)
  read-write_value (Value.f64 v) input pos rest h short a =
      rw (read_fixed-write 8 v input pos rest (omega arith) short a, length-write bo 8 v)
  read-write_value (Value.string s) input pos rest (h, valid) short a = rw (
    read_string-write s input pos rest h short valid a,
    length-append (bo.write 4 (u32 (length s))) s,
    length-write bo 4 (u32 (length s)),
  )

  -- The bytes of several values.
  unfoldable pub encoded : List Value → List ℕ
  encoded [] = []
  encoded (v ∷ vs) = write_value bo v ++ encoded vs

  encode_all :
      (vs : List Value) (out : List ℕ) → for_each (encode bo) vs out ≡ (ok tt, out ++ encoded vs)
  unfolding for_each encode encoded
  encode_all [] out = rw append-nil
  encode_all (v ∷ vs) out =
      encode_all vs (out ++ write_value bo v)
      ∙ rw (append_assoc out (write_value bo v) (encoded vs))

  read_values :
      (vs : List Value) (input : List ℕ) (pos : ℕ) (rest : List ℕ)
      → All Fits vs
      → length input < 2 ^ 63
      → At input pos (encoded vs ++ rest)
      → traverse (λ k. read bo k input) (map kind_of vs) pos ≡ (ok vs, pos + length (encoded vs))
  unfolding encoded
  read_values [] input pos rest hs short a =
      let same : pos + 0 ≡ pos = omega arith in unfold traverse in rw same
  read_values (v ∷ vs) input pos rest (h, hs) short a =
      let from_value = rw append_assoc at a in
      let later =
        read_values vs input (pos + length (write_value bo v)) rest hs short
          (At-skip input pos (write_value bo v) (encoded vs ++ rest) from_value) in
      let total : pos + length (encoded (v ∷ vs))
          ≡ pos + length (write_value bo v) + length (encoded vs) =
        omega (arith, length-append (write_value bo v) (encoded vs)) in
      rw total (
        traverse-step (λ k. read bo k input) (kind_of v) (map kind_of vs)
          (read-write_value v input pos (encoded vs ++ rest) h short from_value) later)

  -- Encoding values of any kinds one after another appends `encoded vs` to the output. Wherever
  -- these bytes stand in an input of at most 2 ^ 63 - 1 bytes, whatever follows them, the reads of
  -- the same kinds give the values back, in order, and end exactly behind the bytes. The strings
  -- are UTF-8 and shorter than 2 ^ 31.
  pub plain_round_trip :
      (vs : List Value) (out input : List ℕ) (pos : ℕ) (rest : List ℕ)
      → All Fits vs
      → length input < 2 ^ 63
      → At input pos (encoded vs ++ rest)
      → (for_each (encode bo) vs out ≡ (ok tt, out ++ encoded vs))
        × (traverse (λ k. read bo k input) (map kind_of vs) pos
            ≡ (ok vs, pos + length (encoded vs)))
  plain_round_trip vs out input pos rest hs short a =
      (encode_all vs out, read_values vs input pos rest hs short a)

  -- A length that is not below 2 ^ 31, and so negative as an i32, is not refused as such: where it
  -- takes the position in front of where it is, `read_string` panics, else it reports the end.
  pub read_string_negative :
      (len : ℕ) (input : List ℕ) (pos : ℕ) (rest : List ℕ)
      → 2 ^ 31 ≤ len
      → len < 2 ^ 32
      → length input < 2 ^ 63
      → At input pos (bo.write 4 len ++ rest)
      → read_string bo input pos
        ≡ (if leb (2 ^ 32 - len) (pos + 4) then (panic, pos + 4) else (err unexpected_eof, pos + 4))
  unfolding read_string take_string
  read_string_negative len input pos rest lo hi short a =
      elim (Bool-cases (leb (2 ^ 32 - len) (pos + 4))) [
        | inl back ↦
            let wraps : wrapping_add 64 (pos + 4) (sign_extend len) ≡ pos + 4 - (2 ^ 32 - len) =
              ground arith in
            let inside : ltb (length input) (pos + 4 - (2 ^ 32 - len)) ≡ false =
              ground (arith, behind.inside) in
            rw (
              first,
              wraps,
              inside,
              slice_disordered input (pos + 4) (pos + 4 - (2 ^ 32 - len)) (ground arith),
              back,
            )
        | inr ahead ↦
            let outside : ltb (length input) (wrapping_add 64 (pos + 4) (sign_extend len)) ≡ true =
              ground (arith, behind.inside) in
            rw (first, outside, ahead)
      ]
    where
      first : read_fixed bo 4 input pos ≡ (ok len, pos + 4)
      first = read_fixed-write 4 len input pos rest (omega arith) short a

      behind : At input (pos + 4) rest
      behind = At-write bo 4 len input pos rest a
