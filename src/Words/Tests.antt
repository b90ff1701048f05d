-- ===== src/Words/Tests.antt =====
-- The zigzag map at concrete numbers.
use timbre_tsf.Prelude.{◌≡◌, refl}
use timbre_tsf.Words.Zigzag.{zigzag32}

minus_two : zigzag32 4294967294 ≡ 3
unfolding zigzag32
minus_two = refl
