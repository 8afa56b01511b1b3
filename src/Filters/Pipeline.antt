-- ===== src/Filters/Pipeline.antt =====
-- `compress_chunk` and `decompress_chunk`: the filters of a pipeline, one after the other. The
-- zlib coder of the flate2 crate is a parameter; the build has the `deflate` feature.
use rustyhdf.Prelude.{ℕ, List, [], ◌∷◌, ◌++◌, String, ◌==◌, if◌then◌else◌, ◌⊎◌, inl, inr}
use rustyhdf.Outcome.{Outcome, ok, err, ◌>>=◌, unsupported_filter}
use rustyhdf.Outcome.{compression_error, decompression_error}
use rustyhdf.FilterPipeline.{FilterDescription, FilterPipeline, filter_deflate, filter_shuffle}
use rustyhdf.FilterPipeline.{filter_fletcher32}
use rustyhdf.Filters.Shuffle.{shuffle_compress, shuffle_decompress}
use rustyhdf.Filters.Fletcher.{fletcher32_append, fletcher32_verify}

-- The zlib streams of flate2: all of the output, or the text of the I/O error.
pub record Zlib : Type 0 where
  pub encode : ℕ → List ℕ → List ℕ ⊎ String
  pub decode : List ℕ → List ℕ ⊎ String

unfoldable pub deflate_decompress : Zlib → List ℕ → Outcome (List ℕ)
deflate_decompress z d = elim (z.decode d) [ inl r ↦ ok r | inr e ↦ err (decompression_error e) ]

unfoldable pub deflate_compress : Zlib → List ℕ → ℕ → Outcome (List ℕ)
deflate_compress z d level = elim (z.encode level d) [
  | inl r ↦ ok r
  | inr e ↦ err (compression_error e)
]

-- `client_data.first().copied().unwrap_or(6)`
unfoldable pub deflate_level : List ℕ → ℕ
deflate_level [] = 6
deflate_level (level ∷ vs) = level

-- The `match filter_id` of each direction.
unfoldable pub compress_one : Zlib → FilterDescription → List ℕ → ℕ → Outcome (List ℕ)
compress_one z f d element_size =
    if f.filter_id == filter_shuffle
    then shuffle_compress d element_size
    else if f.filter_id == filter_deflate
    then deflate_compress z d (deflate_level f.client_data)
    else if f.filter_id == filter_fletcher32
    then fletcher32_append d
    else err (unsupported_filter f.filter_id)

unfoldable pub decompress_one : Zlib → FilterDescription → List ℕ → ℕ → Outcome (List ℕ)
decompress_one z f d element_size =
    if f.filter_id == filter_shuffle
    then shuffle_decompress d element_size
    else if f.filter_id == filter_deflate
    then deflate_decompress z d
    else if f.filter_id == filter_fletcher32
    then fletcher32_verify d
    else err (unsupported_filter f.filter_id)

unfoldable pub compress_each : Zlib → List FilterDescription → List ℕ → ℕ → Outcome (List ℕ)
compress_each z [] d element_size = ok d
compress_each z (f ∷ fs) d element_size = do
  r ← compress_one z f d element_size
  compress_each z fs r element_size

unfoldable pub compress_chunk : Zlib → List ℕ → FilterPipeline → ℕ → Outcome (List ℕ)
compress_chunk z d pipeline element_size = compress_each z pipeline.filters d element_size

unfoldable pub decompress_each : Zlib → List FilterDescription → List ℕ → ℕ → Outcome (List ℕ)
decompress_each z [] d element_size = ok d
decompress_each z (f ∷ fs) d element_size = do
  r ← decompress_one z f d element_size
  decompress_each z fs r element_size

-- `iter().rev()`
abbrev pub backwards : List FilterDescription → List FilterDescription
backwards [] = []
backwards (f ∷ fs) = backwards fs ++ (f ∷ [])

unfoldable pub decompress_chunk : Zlib → List ℕ → FilterPipeline → ℕ → Outcome (List ℕ)
decompress_chunk z d pipeline element_size =
    decompress_each z (backwards pipeline.filters) d element_size
