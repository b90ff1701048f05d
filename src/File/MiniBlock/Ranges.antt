-- ===== src/File/MiniBlock/Ranges.antt =====
-- How `split_into_ranges` of miniblock.rs shares out the points of a page.
use timbre_tsf.Prelude.{
  ℕ, zero, suc, ◌+◌, ◌-◌, ◌*◌, ◌/◌, ◌%◌, ◌≤◌, ◌<◌, ◌≡◌, refl, ap, ◌∙◌, arith, false, List, [], ◌∷◌,
  length, ltb, ◌==◌, min, max, Bool-cases, ◌⊎◌, inl, inr,
}
use timbre_tsf.Exec.{ok}
use timbre_tsf.File.MiniBlock.{
  MiniBlockConfig, calculate_miniblock_count, split_loop, split_into_ranges,
}
use native.Mathlib.Nat.{le-div_iff_mul-le, div-mul-le_self, div-add-mod', mul-le-mul_right, mod-lt}

-- The ranges go from `start` to `stop` without a gap, each with `least` or `least + 1` points.
unfoldable pub IsPartition : ℕ → ℕ → ℕ → List (ℕ × ℕ) → Type 0
IsPartition least start stop [] = start ≡ stop
IsPartition least start stop (r ∷ ranges) =
    (r.0 ≡ start)
    × (r.0 + least ≤ r.1)
    × (r.1 ≤ r.0 + least + 1)
    × IsPartition least r.1 stop ranges

-- The points that the blocks from the i-th on take.
split_loop_lem :
    (least remainder n i start : ℕ)
    → let stop = start + n * least + (min remainder (i + n) - min remainder i) in
      IsPartition least start stop (split_loop least remainder n i start)
      × (length (split_loop least remainder n i start) ≡ n)
unfolding split_loop IsPartition
split_loop_lem least remainder zero i start = (ground arith, refl)
split_loop_lem least remainder (suc n) i start = elim (Bool-cases (ltb i remainder)) [
  | inl more ↦
      let (parts, count) = split_loop_lem least remainder n (i + 1) (start + (least + 1)) in
      let stop : start
            + (least + 1)
            + n * least
            + (min remainder (i + 1 + n) - min remainder (i + 1))
          ≡ start + suc n * least + (min remainder (i + suc n) - min remainder i) =
        ground arith in
      rw more ((refl, omega arith, omega arith, rw stop at parts), ap suc count)
  | inr plain ↦
      let (parts, count) = split_loop_lem least remainder n (i + 1) (start + (least + 0)) in
      let stop : start
            + (least + 0)
            + n * least
            + (min remainder (i + 1 + n) - min remainder (i + 1))
          ≡ start + suc n * least + (min remainder (i + suc n) - min remainder i) =
        ground arith in
      rw plain ((refl, omega arith, omega arith, rw stop at parts), ap suc count)
]

-- Fewer blocks of the least size fit, too.
fewer_fit : (n m k total : ℕ) → n ≤ m → m * k ≤ total → n * k ≤ total
fewer_fit n m k total h fit = omega (arith, mul-le-mul_right k h, fit)

-- How many blocks there are: one, or so many that each has the least number of points.
count_lem :
    (c : MiniBlockConfig) (total : ℕ)
    → 0 < c.miniblocks_per_page
    → (n : ℕ) × (calculate_miniblock_count c total ≡ ok n)
      × (0 < n)
      × ((n ≡ 1) ⊎ (n * c.min_points_per_miniblock ≤ total))
unfolding calculate_miniblock_count
count_lem c total pages = elim (Bool-cases (ltb total c.min_points_per_miniblock)) [
  | inl few ↦ (1, rw few, omega arith, inl refl)
  | inr enough ↦
      elim (Bool-cases (ltb (total / c.miniblocks_per_page) c.min_points_per_miniblock)) [
        | inl reduced ↦
            let fit = div-mul-le_self total c.min_points_per_miniblock in
            let bound : 1 ≤ total / c.min_points_per_miniblock =
              (le-div_iff_mul-le (ground arith)).1 (ground arith) in
            let below : min (max (total / c.min_points_per_miniblock) 1) c.miniblocks_per_page
                ≤ total / c.min_points_per_miniblock =
              ground arith in
            (
              min (max (total / c.min_points_per_miniblock) 1) c.miniblocks_per_page,
              rw (enough, some_pages, reduced),
              ground arith,
              inr (
                  fewer_fit _ (total / c.min_points_per_miniblock) c.min_points_per_miniblock total
                    below fit),
            )
        | inr ideal ↦
            let fit =
              (le-div_iff_mul-le {x = c.min_points_per_miniblock} {y = total} pages).0
                (ground arith) in
            (c.miniblocks_per_page, rw (enough, some_pages, ideal), pages, inr (omega (arith, fit)))
      ]
]
  where
    some_pages : (c.miniblocks_per_page == 0) ≡ false
    some_pages = ground arith

-- Where pages have mini-blocks, `split_into_ranges` succeeds. Its ranges, at least one, go from 0
-- to the number of points without a gap, and their sizes differ by one point at most. Either there
-- is a single range, or each has the configured least number of points.
pub split_into_ranges_lem :
    (c : MiniBlockConfig) (total : ℕ)
    → 0 < c.miniblocks_per_page
    → (ranges : List (ℕ × ℕ)) × (split_into_ranges c total ≡ ok ranges)
      × (0 < length ranges)
      × ((least : ℕ) × IsPartition least 0 total ranges
          × ((length ranges ≡ 1) ⊎ (c.min_points_per_miniblock ≤ least)))
unfolding split_into_ranges
split_into_ranges_lem c total pages =
    let (n, count, pos, fits) = count_lem c total pages in
    let (parts, blocks) = split_loop_lem (total / n) (total % n) n 0 0 in
    let some_blocks : (n == 0) ≡ false = ground arith in
    let stop : 0 + n * (total / n) + (min (total % n) (0 + n) - min (total % n) 0) ≡ total =
      ground (arith, div-add-mod' total n, mod-lt total pos) in
    (
      split_loop (total / n) (total % n) n 0 0,
      rw (count, split_into_ranges, some_blocks),
      omega (arith, blocks),
      (
        total / n,
        rw stop at parts,
        (elim fits [
          | inl one ↦ inl (blocks ∙ one)
          | inr enough ↦ inr ((le-div_iff_mul-le pos).1 (omega (arith, enough)))
        ]),
      ),
    )
