-- ===== src/ChunkGrid.antt =====
-- The grid of a dataset's chunks: `index_to_chunk_offsets` of
-- crates/rustyhdf5-format/src/fixed_array.rs, which both array indexes use, and
-- `collect_single_chunk_info` and `generate_implicit_chunks` of chunked_read.rs, the two indexes
-- that store nothing.
pub mod Coordinates
pub mod Implicit
mod Tests
use rustyhdf.Prelude.{ℕ, zero, suc, ◌+◌, ◌*◌, ◌/◌, ◌%◌, ◌^◌, List, [], ◌∷◌, length, Option, none}
use rustyhdf.Prelude.{some, replicate, ◌==◌, if◌then◌else◌}
use rustyhdf.Outcome.{Outcome, ok, panic, ◌>>=◌, ◌>>◌, add_usize, mul_usize, reserve}
use rustyhdf.Dataspace.{product_u64}
use rustyhdf.ChunkCache.{ChunkInfo}

-- `a / b`, `a % b` and `a.div_ceil(b)`, which panic when `b` is 0.
unfoldable pub div_u64 : ℕ → ℕ → Outcome ℕ
div_u64 a b = if b == 0 then panic else ok (a / b)

unfoldable pub rem_u64 : ℕ → ℕ → Outcome ℕ
rem_u64 a b = if b == 0 then panic else ok (a % b)

unfoldable pub div_ceil : ℕ → ℕ → Outcome ℕ
div_ceil a b = if b == 0 then panic else ok (a / b + (if a % b == 0 then 0 else 1))

-- The loop over the dimensions from the last to the first: what remains of the index comes back
-- with the offsets. `chunk_dimensions[d]` is out of range when there are too few.
unfoldable pub offsets_from : ℕ → List ℕ → List ℕ → Outcome (List ℕ × ℕ)
offsets_from index [] dims = ok ([], index)
offsets_from index (n ∷ ns) [] = panic
offsets_from index (n ∷ ns) (c ∷ cs) = do
  (offsets, remaining) ← offsets_from index ns cs
  chunk_idx ← rem_u64 remaining n
  left ← div_u64 remaining n
  offset ← mul_usize chunk_idx c
  ok (offset ∷ offsets, left)

unfoldable pub index_to_chunk_offsets : ℕ → List ℕ → List ℕ → Outcome (List ℕ)
index_to_chunk_offsets index num_chunks_per_dim chunk_dimensions = do
  (offsets, remaining) ← offsets_from index num_chunks_per_dim chunk_dimensions
  ok offsets

-- The loop over `0..rank`, the number of the chunk's dimensions.
unfoldable pub chunks_per_dim : List ℕ → List ℕ → Outcome (List ℕ)
chunks_per_dim dataset_dims [] = ok []
chunks_per_dim [] (c ∷ cs) = panic
chunks_per_dim (d ∷ ds) (c ∷ cs) = do n ← div_ceil d c; ns ← chunks_per_dim ds cs; ok (n ∷ ns)

-- `iter().product() * element_size`
unfoldable pub chunk_byte_size : List ℕ → ℕ → Outcome ℕ
chunk_byte_size chunk_dimensions element_size = do
  elements ← product_u64 1 chunk_dimensions
  mul_usize elements element_size

-- `unwrap_or(0)` of the mask; the sizes are cut to `u32`.
unfoldable pub collect_single_chunk_info :
    List ℕ → ℕ → ℕ → ℕ → Option ℕ → Option ℕ → Outcome (List ChunkInfo)
collect_single_chunk_info chunk_dims btree_addr elem_size rank filtered_size filter_mask = do
  size ← chunk_byte_size chunk_dims elem_size
  reserve rank 8
  ok (
      record {
        chunk_size = elim filtered_size [ some fs ↦ fs % 2 ^ 32 | none ↦ size % 2 ^ 32 ];
        filter_mask = elim filtered_size [
          | some fs ↦ elim filter_mask [ some m ↦ m | none ↦ 0 ]
          | none ↦ 0
        ];
        offsets = replicate rank 0;
        address = btree_addr;
      }
      ∷ [])

-- The chunk at `linear_idx`.
unfoldable pub implicit_chunk : ℕ → List ℕ → List ℕ → ℕ → ℕ → Outcome ChunkInfo
implicit_chunk base_address num_chunks_per_dim chunk_dimensions size linear_idx = do
  offsets ← index_to_chunk_offsets linear_idx num_chunks_per_dim chunk_dimensions
  before ← mul_usize linear_idx size
  address ← add_usize base_address before
  ok (record { chunk_size = size % 2 ^ 32; filter_mask = 0; offsets = offsets; address = address })

-- The loop over `linear_idx..linear_idx + count`
unfoldable pub implicit_from : ℕ → ℕ → ℕ → List ℕ → List ℕ → ℕ → Outcome (List ChunkInfo)
implicit_from zero linear_idx base_address num_chunks_per_dim chunk_dimensions size = ok []
implicit_from (suc count) linear_idx base_address num_chunks_per_dim chunk_dimensions size = do
  c ← implicit_chunk base_address num_chunks_per_dim chunk_dimensions size linear_idx
  cs ← implicit_from count (linear_idx + 1) base_address num_chunks_per_dim chunk_dimensions size
  ok (c ∷ cs)

-- A `ChunkInfo` takes 40 bytes.
unfoldable pub generate_implicit_chunks : ℕ → List ℕ → List ℕ → ℕ → Outcome (List ChunkInfo)
generate_implicit_chunks base_address dataset_dims chunk_dimensions element_size = do
  size ← chunk_byte_size chunk_dimensions element_size
  num_chunks_per_dim ← chunks_per_dim dataset_dims chunk_dimensions
  total_chunks ← product_u64 1 num_chunks_per_dim
  reserve total_chunks 40
  implicit_from total_chunks 0 base_address num_chunks_per_dim chunk_dimensions size
