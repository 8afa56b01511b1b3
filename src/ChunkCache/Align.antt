-- ===== src/ChunkCache/Align.antt =====
-- Rounding a size up to whole cache lines.
use rustyhdf.Prelude.{ℕ, ◌+◌, ◌-◌, ◌%◌, ◌<◌, ◌≤◌, ◌≡◌, arith}
use rustyhdf.Outcome.{usize_mod}
use rustyhdf.Outcome.Ensures.{Post, NoError, returns, bind, add_usize-Ensures}
use rustyhdf.ChunkCache.{cache_line_size, align_to_cache_line}

-- For every size that leaves room for a cache line below 2^64, the aligned size is the least
-- multiple of the cache line that is not below it.
pub align_to_cache_line-Ensures :
    (size : ℕ)
    → size + (cache_line_size - 1) < usize_mod
    → Post NoError
        (λ r. (r % cache_line_size ≡ 0) × (size ≤ r) × (r < size + cache_line_size))
        (align_to_cache_line size)
unfolding align_to_cache_line
align_to_cache_line-Ensures size h =
    bind (add_usize-Ensures size (cache_line_size - 1) h)
      λ s e. returns (omega arith, omega arith, omega arith)
