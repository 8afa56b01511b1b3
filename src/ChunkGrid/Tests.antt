-- ===== src/ChunkGrid/Tests.antt =====
-- Runs on the grid of chunks, and its theorems at concrete grids.
use rustyhdf.Prelude.{ℕ, ◌*◌, ◌<◌, ◌≡◌, refl, arith, List, [], ◌∷◌, length, some, get_elem?}
use rustyhdf.Outcome.{ok, mul_usize}
use rustyhdf.Outcome.Ensures.{Post, NoError}
use rustyhdf.ChunkGrid.{index_to_chunk_offsets, offsets_from, rem_u64, div_u64}
use rustyhdf.ChunkGrid.{generate_implicit_chunks}
use rustyhdf.ChunkGrid.Coordinates.{
  product, flat, scaled, IsCoordinate, index_to_chunk_offsets-flat,
}
use rustyhdf.ChunkGrid.Implicit.{ceilings, chunk_at, generate_implicit_chunks-IsCoordinate}

-- The last chunk of a grid of 2 by 3.
last_chunk : index_to_chunk_offsets 5 (2 ∷ 3 ∷ []) (10 ∷ 20 ∷ []) ≡ ok (10 ∷ 40 ∷ [])
unfolding index_to_chunk_offsets offsets_from rem_u64 div_u64 mul_usize
last_chunk = refl

index_to_chunk_offsets-flat_example :
    (flat (2 ∷ 3 ∷ []) (1 ∷ 2 ∷ []) < product (2 ∷ 3 ∷ []))
    × (index_to_chunk_offsets (flat (2 ∷ 3 ∷ []) (1 ∷ 2 ∷ [])) (2 ∷ 3 ∷ []) (10 ∷ 20 ∷ [])
        ≡ ok (scaled (1 ∷ 2 ∷ []) (10 ∷ 20 ∷ [])))
index_to_chunk_offsets-flat_example =
    index_to_chunk_offsets-flat (2 ∷ 3 ∷ []) (10 ∷ 20 ∷ []) (1 ∷ 2 ∷ [])
      (omega arith, omega arith, (omega arith, omega arith, tt)) (omega arith, (omega arith, tt))

-- 5 by 4 elements of 8 bytes in chunks of 2 by 4.
abbrev grid : List ℕ
grid = ceilings (5 ∷ 4 ∷ []) (2 ∷ 4 ∷ [])

generate_implicit_chunks-IsCoordinate_example :
    Post NoError
      (λ r.
        (length r ≡ product grid)
        × ((ks : List ℕ)
            → IsCoordinate grid ks
            → get_elem? r (flat grid ks)
              ≡ some (chunk_at 100 (product (2 ∷ 4 ∷ []) * 8) grid (2 ∷ 4 ∷ []) ks)))
      (generate_implicit_chunks 100 (5 ∷ 4 ∷ []) (2 ∷ 4 ∷ []) 8)
generate_implicit_chunks-IsCoordinate_example =
    generate_implicit_chunks-IsCoordinate 100 (5 ∷ 4 ∷ []) (2 ∷ 4 ∷ []) 8
      (omega arith, omega arith, omega arith, (omega arith, omega arith, omega arith, tt))
      (omega arith, (omega arith, tt)) (omega arith) (omega arith) (omega arith)
