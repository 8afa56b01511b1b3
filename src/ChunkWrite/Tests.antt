-- ===== src/ChunkWrite/Tests.antt =====
-- The theorems on what is written for a chunked dataset at concrete options.
use rustyhdf.Prelude.{ℕ, ◌≡◌, refl, arith, List, [], ◌∷◌, ◌++◌, String}
use rustyhdf.Prelude.{some, none, true, ◌⊎◌, inl, inr}
use mathlib.Core.Path.{subst}
use rustyhdf.Outcome.{ok}
use rustyhdf.Outcome.Ensures.{Ensures}
use rustyhdf.FilterPipeline.{FilterPipeline, filter_shuffle, filter_deflate, filter_fletcher32}
use rustyhdf.Bytes.{IsBytes}
use rustyhdf.FilterPipeline.{parse, serialize}
use rustyhdf.Filters.Pipeline.{Zlib, compress_chunk, decompress_chunk}
use rustyhdf.Filters.PipelineInverse.{IsLossless, decompress_chunk-compress_chunk}
use rustyhdf.DataLayout
use rustyhdf.DataLayout.{chunked}
use rustyhdf.ChunkWrite.{ChunkOptions, build_pipeline, pushed_filters, pipeline_of}
use rustyhdf.ChunkWrite.Layouts.{filtered, write_layout, chunking_of}
use rustyhdf.ChunkWrite.RoundTrip.{layout_parse-write_layout}
use rustyhdf.ChunkWrite.Options.{IsReliable, decompress_chunk-build_pipeline}

stored : List ℕ → List ℕ ⊎ String
stored [] = inr "unexpected end of file"
stored (x ∷ d) = inl d

-- A coder that stores the data behind one byte.
abbrev storing : Zlib
storing = record { encode = λ level d. inl (0x78 ∷ d); decode = stored }

storing-IsLossless : IsLossless storing
unfolding stored
storing-IsLossless = record {
  bytes = λ level d c s e. let same : 0x78 ∷ d ≡ c = cc in subst IsBytes same (omega arith, s);
  back = λ level d c s e. let same : 0x78 ∷ d ≡ c = cc in subst (λ c. stored c ≡ inl d) same refl;
}

storing-IsReliable : IsReliable storing
unfolding IsReliable
storing-IsReliable = λ level d h. (0x78 ∷ d, refl)

abbrev all_filters : ChunkOptions
all_filters = record {
  chunk_dims = some (2 ∷ []);
  deflate_level = some 6;
  shuffle = true;
  fletcher32 = true;
}

abbrev pipeline : FilterPipeline
pipeline = record {
  version = 2;
  filters =
      record { filter_id = filter_shuffle; name = none; flags = 0; client_data = 2 ∷ [] }
      ∷ record { filter_id = filter_deflate; name = none; flags = 0; client_data = 6 ∷ [] }
      ∷ record { filter_id = filter_fletcher32; name = none; flags = 0; client_data = [] }
      ∷ [];
}

built : build_pipeline all_filters 2 ≡ some pipeline
unfolding build_pipeline pushed_filters pipeline_of
built = refl

abbrev chunk : List ℕ
chunk = 1 ∷ 2 ∷ 3 ∷ 4 ∷ []

decompress_chunk-compress_chunk_example :
    Ensures
      (λ c. IsBytes c × (decompress_chunk storing c pipeline 2 ≡ ok chunk))
      (compress_chunk storing chunk pipeline 2)
decompress_chunk-compress_chunk_example =
    decompress_chunk-compress_chunk storing storing-IsLossless 2 pipeline chunk
      (omega arith, (omega arith, (omega arith, (omega arith, tt))))

decompress_chunk-build_pipeline_example :
    (parse (serialize pipeline ++ (9 ∷ [])) ≡ ok pipeline)
    × ((c : List ℕ) × (compress_chunk storing chunk pipeline 2 ≡ ok c)
        × (decompress_chunk storing c pipeline 2 ≡ ok chunk))
decompress_chunk-build_pipeline_example =
    decompress_chunk-build_pipeline storing all_filters 2 pipeline chunk (9 ∷ []) storing-IsLossless
      storing-IsReliable built (omega arith) (omega arith) refl
      (omega arith, (omega arith, (omega arith, (omega arith, tt)))) (omega arith)

layout_parse-write_layout_example :
    (buf : List ℕ) × (write_layout (filtered 60 0) (10 ∷ []) 100 8 4 ≡ ok buf)
    × (DataLayout.parse (buf ++ (9 ∷ [])) 8 8
        ≡ ok (chunked (chunking_of (filtered 60 0) (10 ∷ 4 ∷ []) 100)))
layout_parse-write_layout_example =
    layout_parse-write_layout (filtered 60 0) (10 ∷ []) 100 8 4 (9 ∷ []) (omega arith)
      (omega arith, tt) (omega arith) (inr refl) (omega arith) (omega arith, omega arith)
      (omega arith)
