-- ===== src/FixedArray/Tests.antt =====
-- The theorems on fixed arrays at concrete arrays.
use rustyhdf.Prelude.{ℕ, ◌*◌, ◌≡◌, refl, arith, List, [], ◌∷◌, ◌++◌, length, replicate, true, false}
use rustyhdf.Prelude.{inr}
use rustyhdf.Outcome.{ok, err, chunked_read_error}
use rustyhdf.ChunkCache.{ChunkInfo}
use rustyhdf.ChunkGrid.Coordinates.{product}
use rustyhdf.ChunkGrid.Implicit.{ceilings}
use rustyhdf.FixedArray.{FixedArrayHeader, parse, read_fixed_array_chunks}
use rustyhdf.FixedArray.Build.{WrittenChunk, build_fixed_array_at, size_bytes, log2, max_raw}
use rustyhdf.FixedArray.Build.{max_raw_from}
use rustyhdf.FixedArray.RoundTrip.{AreRead}
use rustyhdf.FixedArray.InFile.{read_fixed_array_chunks-build, many_chunks_refused}

abbrev chunk_of : ℕ → ℕ → WrittenChunk
chunk_of address size = record {
  address = address;
  compressed_size = size;
  raw_size = 80;
  filter_mask = 0;
}

abbrev chunks : List WrittenChunk
chunks = chunk_of 100 60 ∷ chunk_of 160 70 ∷ []

width : size_bytes chunks true ≡ 2
unfolding size_bytes log2 max_raw max_raw_from
width = refl

abbrev front : List ℕ
front = 137 ∷ 72 ∷ 68 ∷ 70 ∷ []

-- Two filtered chunks of 10 elements of 8 bytes, of a dataset of 15.
read_fixed_array_chunks-build_example :
    (buf : List ℕ) × (h : FixedArrayHeader) × (infos : List ChunkInfo) × (build_fixed_array_at
        chunks 8 8 true
        (length front)
      ≡ ok buf)
    × (parse (front ++ (buf ++ [])) (length front) 8 8 ≡ ok h)
    × (read_fixed_array_chunks (front ++ (buf ++ [])) h (15 ∷ []) (10 ∷ []) 8 8 ≡ ok infos)
    × AreRead true (product (10 ∷ []) * 8) (ceilings (15 ∷ []) (10 ∷ [])) (10 ∷ []) 0 chunks infos
read_fixed_array_chunks-build_example =
    read_fixed_array_chunks-build chunks true 8 8 (inr refl) (inr refl) front [] (omega arith)
      (omega arith) (omega arith) (15 ∷ []) (10 ∷ []) 8 (omega arith)
      (omega arith, omega arith, omega arith, tt) (omega arith) (omega arith, tt) (omega arith)
      (omega arith)
      (
        record {
          address = omega arith;
          size = rw width (omega arith);
          narrow = omega arith;
          mask = omega arith;
        },
        (
          record {
            address = omega arith;
            size = rw width (omega arith);
            narrow = omega arith;
            mask = omega arith;
          },
          tt,
        ),
      )

-- One chunk more than a page has elements.
abbrev many : List WrittenChunk
many = replicate 1025 (chunk_of 100 80)

length-many : length many ≡ 1025
length-many = refl

many_chunks_refused_example :
    (buf : List ℕ) × (h : FixedArrayHeader) × (build_fixed_array_at many 8 8 false (length front)
      ≡ ok buf)
    × (parse (front ++ (buf ++ [])) (length front) 8 8 ≡ ok h)
    × (read_fixed_array_chunks (front ++ (buf ++ [])) h (10250 ∷ []) (10 ∷ []) 8 8
        ≡ err (chunked_read_error "paged Fixed Array data blocks not yet supported"))
many_chunks_refused_example =
    many_chunks_refused many false 8 8 (inr refl) (inr refl) front [] (omega (arith, length-many))
      (omega arith) (omega arith) (10250 ∷ []) (10 ∷ []) 8 (omega (arith, length-many))
