-- ===== src/Filters/Tests.antt =====
-- Runs of the filters, and their theorems at concrete data.
use rustyhdf.Prelude.{ℕ, ◌≡◌, refl, arith, List, [], ◌∷◌, length, leb, ◌==◌, ◌||◌}
use rustyhdf.Prelude.{if◌then◌else◌, ◌%◌}
use rustyhdf.Outcome.{ok, err, ◌>>=◌, filter_error}
use rustyhdf.Outcome.Loop.{for_range}
use rustyhdf.Bytes.{IsSlice, index}
use rustyhdf.Filters.Shuffle.{store, move_bytes, shuffle_compress, shuffle_decompress}
use rustyhdf.Filters.ShuffleInverse.{shuffle_decompress-shuffle_compress}
use rustyhdf.Filters.Fletcher.{
  add_u32, word_at, add_words, add_blocks, last_word_at, add_rest, fletcher32_compute,
  fletcher32_verify,
}
use rustyhdf.Filters.FletcherInverse.{
  fletcher32, fletcher32_compute-fletcher32, fletcher32_verify_lem, verified,
}

abbrev shorts : List ℕ
shorts = 1 ∷ 2 ∷ 3 ∷ 4 ∷ 5 ∷ 6 ∷ []

shuffle_shorts : shuffle_compress shorts 2 ≡ ok (1 ∷ 3 ∷ 5 ∷ 2 ∷ 4 ∷ 6 ∷ [])
unfolding shuffle_compress move_bytes for_range index store
shuffle_shorts = refl

shuffle_ragged :
    shuffle_decompress shorts 4
    ≡ err (filter_error "shuffle: data length not a multiple of element size")
unfolding shuffle_decompress
shuffle_ragged = refl

fletcher_shorts : fletcher32_compute (1 ∷ 2 ∷ 3 ∷ []) ≡ ok 84_149_250
unfolding fletcher32_compute add_blocks add_words add_rest last_word_at word_at add_u32 index
fletcher_shorts = refl

shorts-IsSlice : IsSlice shorts
shorts-IsSlice = record { bytes = omega arith; sized = omega arith }

shuffle_decompress-shuffle_compress_example :
    (shuffle_compress shorts 3 >>= λ c. shuffle_decompress c 3) ≡ (
      if leb 3 1 || (length shorts % 3 == 0)
      then ok shorts
      else err (filter_error "shuffle: data length not a multiple of element size"))
shuffle_decompress-shuffle_compress_example = shuffle_decompress-shuffle_compress shorts 3

fletcher32_compute-fletcher32_example : fletcher32_compute shorts ≡ ok (fletcher32 shorts)
fletcher32_compute-fletcher32_example = fletcher32_compute-fletcher32 shorts shorts-IsSlice.bytes

fletcher32_verify_lem_example : fletcher32_verify shorts ≡ verified shorts
fletcher32_verify_lem_example = fletcher32_verify_lem shorts shorts-IsSlice
