-- ===== src/Bytes/Reader.antt =====
-- `std::io::Read` on bytes in memory, as the `deserialize` functions use it: the state is what is
-- still to be read. No caller reads on after an error, so an error leaves the state as it was.
use timbre_tsf.Prelude.{
  ℕ, ◌^◌, ◌<◌, ◌≡◌, arith, List, ◌++◌, length, take, drop, leb, none, some, length-append,
  drop-length_append, take-length_append, le→leb, if◌then◌else◌,
}
use timbre_tsf.Exec.{Exec, ok, err, io}
use timbre_tsf.Bytes.{LittleEndian, read-write, length-write}

-- `reader.read_exact` into a buffer of `n` bytes.
unfoldable pub read_exact : ℕ → Exec (List ℕ) (List ℕ)
read_exact n bytes =
    if leb n (length bytes) then (ok (take n bytes), drop n bytes) else (err io, bytes)

pub read_exact_lem : (xs rest : List ℕ) → read_exact (length xs) (xs ++ rest) ≡ (ok xs, rest)
unfolding read_exact
read_exact_lem xs rest =
    let enough = le→leb (length xs) (length (xs ++ rest)) (omega (arith, length-append xs rest)) in
    rw (enough, take-length_append xs rest, drop-length_append xs rest)

module _ (bo : LittleEndian) where
  -- `reader.read_x::<LittleEndian>()?` of `w` bytes.
  unfoldable pub read_int : ℕ → Exec (List ℕ) ℕ
  read_int w bytes = elim (bo.read w bytes) [
    | none ↦ (err io, bytes)
    | some v ↦ (ok v, drop w bytes)
  ]

  pub read_int-write :
      (w v : ℕ) (rest : List ℕ) → v < 256 ^ w → read_int w (bo.write w v ++ rest) ≡ (ok v, rest)
  unfolding read_int
  read_int-write w v rest h =
      let at_rest = rw (length-write bo w v) at (drop-length_append (bo.write w v) rest) in
      rw (read-write bo w v rest h, read_int, at_rest)
