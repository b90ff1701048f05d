-- ===== src/File/MiniBlock.antt =====
-- file/miniblock.rs: the mini-blocks of a page, their bytes, and how a page is split.
pub mod Stored
pub mod Ranges
mod Tests
use timbre_tsf.Prelude.{
  ℕ, zero, suc, ◌+◌, ◌/◌, ◌%◌, Bool, List, [], ◌∷◌, ◌++◌, length, ltb, ◌==◌, min, max, replicate,
  if◌then◌else◌,
}
use timbre_tsf.Exec.{Exec, Result, ok, panic, pure, modify, ◌>>=◌, ◌>>◌}
use timbre_tsf.Bytes.{LittleEndian}
use timbre_tsf.Bytes.Reader.{read_int, read_exact}

pub record MiniBlockHeader : Type 0 where
  pub point_count : ℕ
  pub min_timestamp : ℕ
  pub max_timestamp : ℕ
  pub timestamp_compressed_size : ℕ
  pub timestamp_uncompressed_size : ℕ
  pub value_compressed_size : ℕ
  pub value_uncompressed_size : ℕ
  pub checksum : ℕ

pub record MiniBlock : Type 0 where
  pub header : MiniBlockHeader
  pub timestamp_data : List ℕ
  pub value_data : List ℕ

pub record MiniBlockConfig : Type 0 where
  pub miniblocks_per_page : ℕ
  pub min_points_per_miniblock : ℕ

abbrev pub default_config : MiniBlockConfig
default_config = record { miniblocks_per_page = 8; min_points_per_miniblock = 250 }

abbrev pub serialized_size : ℕ
serialized_size = 64

module _ (bo : LittleEndian) where
  pub serialize_header : MiniBlockHeader → Exec (List ℕ) (Unit {0})
  serialize_header h = do
    modify (λ out. out ++ bo.write 4 h.point_count)
    modify (λ out. out ++ bo.write 8 h.min_timestamp)
    modify (λ out. out ++ bo.write 8 h.max_timestamp)
    modify (λ out. out ++ bo.write 4 h.timestamp_compressed_size)
    modify (λ out. out ++ bo.write 4 h.timestamp_uncompressed_size)
    modify (λ out. out ++ bo.write 4 h.value_compressed_size)
    modify (λ out. out ++ bo.write 4 h.value_uncompressed_size)
    modify (λ out. out ++ bo.write 8 h.checksum)
    modify (λ out. out ++ replicate 20 0)

  pub deserialize_header : Exec (List ℕ) MiniBlockHeader
  deserialize_header = do
    point_count ← read_int bo 4
    min_timestamp ← read_int bo 8
    max_timestamp ← read_int bo 8
    timestamp_compressed_size ← read_int bo 4
    timestamp_uncompressed_size ← read_int bo 4
    value_compressed_size ← read_int bo 4
    value_uncompressed_size ← read_int bo 4
    checksum ← read_int bo 8
    read_exact 20
    pure (record {
      point_count = point_count;
      min_timestamp = min_timestamp;
      max_timestamp = max_timestamp;
      timestamp_compressed_size = timestamp_compressed_size;
      timestamp_uncompressed_size = timestamp_uncompressed_size;
      value_compressed_size = value_compressed_size;
      value_uncompressed_size = value_uncompressed_size;
      checksum = checksum;
    })

  -- The answer counts the bytes written.
  pub serialize : MiniBlock → Exec (List ℕ) ℕ
  serialize b = do
    serialize_header b.header
    modify (λ out. out ++ b.timestamp_data)
    modify (λ out. out ++ b.value_data)
    pure (serialized_size + length b.timestamp_data + length b.value_data)

  pub deserialize : Exec (List ℕ) MiniBlock
  deserialize = do
    header ← deserialize_header
    timestamp_data ← read_exact header.timestamp_compressed_size
    value_data ← read_exact header.value_compressed_size
    pure (record { header = header; timestamp_data = timestamp_data; value_data = value_data })

pub size : MiniBlock → ℕ
size b = serialized_size + length b.timestamp_data + length b.value_data

-- A page of no mini-blocks makes the division by zero panic.
pub calculate_miniblock_count : MiniBlockConfig → ℕ → Result ℕ
calculate_miniblock_count c total_points =
    if ltb total_points c.min_points_per_miniblock
    then ok 1
    else if c.miniblocks_per_page == 0
    then panic
    else if ltb (total_points / c.miniblocks_per_page) c.min_points_per_miniblock
    then ok (min (max (total_points / c.min_points_per_miniblock) 1) c.miniblocks_per_page)
    else ok c.miniblocks_per_page

-- The loop of `split_into_ranges`: the blocks to come, the index of the next and its start.
pub split_loop : ℕ → ℕ → ℕ → ℕ → ℕ → List (ℕ × ℕ)
split_loop points_per_block remainder zero i start = []
split_loop points_per_block remainder (suc n) i start =
    let end = start + (points_per_block + (if ltb i remainder then 1 else 0)) in
    (start, end) ∷ split_loop points_per_block remainder n (i + 1) end

pub split_into_ranges : MiniBlockConfig → ℕ → Result (List (ℕ × ℕ))
split_into_ranges c total_points = elim (calculate_miniblock_count c total_points) [
  | Result.ok num_blocks ↦
      if num_blocks == 0
      then panic
      else ok (split_loop (total_points / num_blocks) (total_points % num_blocks) num_blocks 0 0)
  | Result.err e ↦ Result.err e
  | Result.panic ↦ panic
]
