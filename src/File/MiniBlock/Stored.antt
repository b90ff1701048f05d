-- ===== src/File/MiniBlock/Stored.antt =====
-- The bytes of a mini-block of miniblock.rs: what is written, its size, and that it is read back.
use timbre_tsf.Prelude.{
  ℕ, ◌≡◌, ap, arith, List, ◌++◌, length, replicate, append_assoc, length-append,
}
use timbre_tsf.Words.{IsU32, IsU64}
use timbre_tsf.Exec.{ok}
use timbre_tsf.Bytes.{LittleEndian, length-write}
use timbre_tsf.Bytes.Reader.{read_int-write, read_exact_lem}
use timbre_tsf.File.MiniBlock.{
  MiniBlockHeader, MiniBlock, serialize_header, deserialize_header, serialize, deserialize, size,
}

-- Each field fits its type.
pub record IsHeader (h : MiniBlockHeader) : Type 0 where
  pub point_count : IsU32 h.point_count
  pub min_timestamp : IsU64 h.min_timestamp
  pub max_timestamp : IsU64 h.max_timestamp
  pub timestamp_compressed_size : IsU32 h.timestamp_compressed_size
  pub timestamp_uncompressed_size : IsU32 h.timestamp_uncompressed_size
  pub value_compressed_size : IsU32 h.value_compressed_size
  pub value_uncompressed_size : IsU32 h.value_uncompressed_size
  pub checksum : IsU64 h.checksum

-- The header names the sizes of the data.
pub record IsMiniBlock (b : MiniBlock) : Type 0 where
  pub fields : IsHeader b.header
  pub timestamps : b.header.timestamp_compressed_size ≡ length b.timestamp_data
  pub values : b.header.value_compressed_size ≡ length b.value_data

module _ (bo : LittleEndian) where
  unfoldable pub header_bytes : MiniBlockHeader → List ℕ
  header_bytes h =
      bo.write 4 h.point_count
      ++ (bo.write 8 h.min_timestamp
          ++ (bo.write 8 h.max_timestamp
              ++ (bo.write 4 h.timestamp_compressed_size
                  ++ (bo.write 4 h.timestamp_uncompressed_size
                      ++ (bo.write 4 h.value_compressed_size
                          ++ (bo.write 4 h.value_uncompressed_size
                              ++ (bo.write 8 h.checksum ++ replicate 20 0)))))))

  unfoldable pub block_bytes : MiniBlock → List ℕ
  block_bytes b = header_bytes b.header ++ (b.timestamp_data ++ b.value_data)

  serialize_header_lem :
      (h : MiniBlockHeader) (out : List ℕ)
      → serialize_header bo h out ≡ (ok tt, out ++ header_bytes h)
  unfolding serialize_header header_bytes
  serialize_header_lem h out = ap (λ (l : List ℕ). (ok tt, l)) (simp append_assoc)

  length-header_bytes : (h : MiniBlockHeader) → length (header_bytes h) ≡ 64
  unfolding header_bytes
  length-header_bytes h = simp (length-append, length-write bo)

  deserialize_header_lem :
      (h : MiniBlockHeader) (rest : List ℕ)
      → IsHeader h
      → deserialize_header bo (header_bytes h ++ rest) ≡ (ok h, rest)
  unfolding deserialize_header header_bytes
  deserialize_header_lem h rest is = simp (
    append_assoc,
    read_int-write bo 4 h.point_count _ (omega arith),
    read_int-write bo 8 h.min_timestamp _ (omega arith),
    read_int-write bo 8 h.max_timestamp _ (omega arith),
    read_int-write bo 4 h.timestamp_compressed_size _ (omega arith),
    read_int-write bo 4 h.timestamp_uncompressed_size _ (omega arith),
    read_int-write bo 4 h.value_compressed_size _ (omega arith),
    read_int-write bo 4 h.value_uncompressed_size _ (omega arith),
    read_int-write bo 8 h.checksum _ (omega arith),
    read_exact_lem (replicate 20 0) rest,
  )

  -- A mini-block whose fields fit their types and whose header names the sizes of its data:
  -- `serialize` appends `block_bytes` to the output and answers their number, which is `size`,
  -- and `deserialize` gives the block back from these bytes, whatever follows them, and leaves
  -- what follows.
  pub miniblock_round_trip :
      (b : MiniBlock) (out rest : List ℕ)
      → IsMiniBlock b
      → (serialize bo b out ≡ (ok (size b), out ++ block_bytes b))
        × (length (block_bytes b) ≡ size b)
        × (deserialize bo (block_bytes b ++ rest) ≡ (ok b, rest))
  unfolding serialize deserialize block_bytes size
  miniblock_round_trip b out rest is = (
    rw (serialize_header_lem b.header out)
        (ap (λ (l : List ℕ). (ok (size b), l)) (simp append_assoc)),
    omega (
      arith,
      length-append (header_bytes b.header) (b.timestamp_data ++ b.value_data),
      length-append b.timestamp_data b.value_data,
      length-header_bytes b.header,
    ),
    rw (
      append_assoc (header_bytes b.header),
      append_assoc b.timestamp_data,
      deserialize_header_lem b.header (b.timestamp_data ++ (b.value_data ++ rest)) is.fields,
      is.timestamps,
      read_exact_lem b.timestamp_data (b.value_data ++ rest),
      is.values,
      read_exact_lem b.value_data rest,
    ),
  )
