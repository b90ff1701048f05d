-- ===== src/File/MiniBlock/Tests.antt =====
-- Concrete mini-blocks and splits, and the theorems at them.
use timbre_tsf.Prelude.{ℕ, ◌<◌, ◌≤◌, ◌≡◌, ◌⊎◌, refl, arith, List, [], ◌∷◌, ◌++◌, length}
use timbre_tsf.Exec.{ok, panic}
use timbre_tsf.Bytes.{le_std}
use timbre_tsf.File.MiniBlock.{
  MiniBlock, default_config, serialize, deserialize, size, calculate_miniblock_count,
  split_into_ranges, split_loop,
}
use timbre_tsf.File.MiniBlock.Stored.{IsMiniBlock, block_bytes, miniblock_round_trip}
use timbre_tsf.File.MiniBlock.Ranges.{IsPartition, split_into_ranges_lem}

abbrev block : MiniBlock
block = record {
  header = record {
    point_count = 2;
    min_timestamp = 18446744073709551615;
    max_timestamp = 5;
    timestamp_compressed_size = 3;
    timestamp_uncompressed_size = 16;
    value_compressed_size = 1;
    value_uncompressed_size = 8;
    checksum = 77;
  };
  timestamp_data = 1 ∷ 2 ∷ 3 ∷ [];
  value_data = 9 ∷ [];
}

block-IsMiniBlock : IsMiniBlock block
block-IsMiniBlock = record {
  fields = record {
    point_count = omega arith;
    min_timestamp = omega arith;
    max_timestamp = omega arith;
    timestamp_compressed_size = omega arith;
    timestamp_uncompressed_size = omega arith;
    value_compressed_size = omega arith;
    value_uncompressed_size = omega arith;
    checksum = omega arith;
  };
  timestamps = refl;
  values = refl;
}

miniblock_round_trip_example :
    (serialize le_std block [] ≡ (ok (size block), [] ++ block_bytes le_std block))
    × (length (block_bytes le_std block) ≡ size block)
    × (deserialize le_std (block_bytes le_std block ++ 4 ∷ []) ≡ (ok block, 4 ∷ []))
miniblock_round_trip_example = miniblock_round_trip le_std block [] (4 ∷ []) block-IsMiniBlock

six_blocks : calculate_miniblock_count default_config 1500 ≡ ok 6
unfolding calculate_miniblock_count
six_blocks = refl

three_ranges : split_into_ranges default_config 800 ≡ ok ((0, 267) ∷ (267, 534) ∷ (534, 800) ∷ [])
unfolding split_into_ranges calculate_miniblock_count split_loop
three_ranges = refl

no_blocks :
    split_into_ranges (record { miniblocks_per_page = 0; min_points_per_miniblock = 1 }) 5 ≡ panic
unfolding split_into_ranges calculate_miniblock_count
no_blocks = refl

split_into_ranges_lem_example :
    (ranges : List (ℕ × ℕ)) × (split_into_ranges default_config 800 ≡ ok ranges)
    × (0 < length ranges)
    × ((least : ℕ) × IsPartition least 0 800 ranges × ((length ranges ≡ 1) ⊎ (250 ≤ least)))
split_into_ranges_lem_example = split_into_ranges_lem default_config 800 (omega arith)
