-- ===== src/ChunkTree/Tests.antt =====
-- A run of the walk over the B-tree of chunks, and its theorem at a concrete file.
use rustyhdf.Prelude.{ℕ, ◌≡◌, refl, arith, List, [], ◌∷◌, length, true, All}
use rustyhdf.Outcome.{ok, add_usize, mul_usize}
use rustyhdf.Outcome.Ensures.{Ensures}
use rustyhdf.Bytes.{index, slice, from_le_bytes}
use rustyhdf.Bytes.{IsSlice}
use rustyhdf.Utils.{ensure_len, read_offset, read_u64_info}
use rustyhdf.ChunkTree.{read_offsets, read_entry, read_entries, read_children, read_node}
use rustyhdf.ChunkTree.{extend_chunks, visit, collect_chunk_info}
use rustyhdf.ChunkTree.Safety.{IsChunk, forward_at, forward_below, forward_below-IsForward}
use rustyhdf.ChunkTree.Safety.{collect_chunk_info-Ensures}

-- An inner node, and behind it the leaf that it points to, which has one chunk.
abbrev file : List ℕ
file =
    84 ∷ 82 ∷ 69 ∷ 69 ∷ 1 ∷ 1 ∷ 1 ∷ 0 ∷ 255 ∷ 255 ∷ 255 ∷ 255 ∷ 255 ∷ 255 ∷ 255 ∷ 255 ∷ 64 ∷ 0 ∷ 0
    ∷ 0 ∷ 0 ∷ 0 ∷ 0 ∷ 0 ∷ 0 ∷ 0 ∷ 0 ∷ 0 ∷ 44 ∷ 0 ∷ 0 ∷ 0 ∷ 0 ∷ 0 ∷ 0 ∷ 0 ∷ 0 ∷ 0 ∷ 0 ∷ 0 ∷ 9 ∷ 0 ∷ 0
    ∷ 0 ∷ 84 ∷ 82 ∷ 69 ∷ 69 ∷ 1 ∷ 0 ∷ 1 ∷ 0 ∷ 255 ∷ 255 ∷ 255 ∷ 255 ∷ 255 ∷ 255 ∷ 255 ∷ 255 ∷ 64 ∷ 0
    ∷ 0 ∷ 0 ∷ 0 ∷ 0 ∷ 0 ∷ 0 ∷ 0 ∷ 0 ∷ 0 ∷ 0 ∷ 100 ∷ 0 ∷ 0 ∷ 0 ∷ 0 ∷ 0 ∷ 0 ∷ 0 ∷ 0 ∷ 0 ∷ 0 ∷ 0 ∷ 9
    ∷ 0 ∷ 0 ∷ 0 ∷ []

file-IsSlice : IsSlice file
file-IsSlice = record { bytes = omega arith; sized = omega arith }

the_chunk :
    collect_chunk_info 2 file 1 4 0
    ≡ ok (record { chunk_size = 64; filter_mask = 0; offsets = 0 ∷ []; address = 100 } ∷ [])
unfolding collect_chunk_info visit extend_chunks read_node read_children read_entries read_entry
    read_offsets index slice from_le_bytes ensure_len read_offset read_u64_info add_usize mul_usize
the_chunk = refl

file_forward : forward_below (length file) file 1 4 ≡ true
unfolding forward_below forward_at read_node read_children read_entries read_entry read_offsets
    index slice from_le_bytes ensure_len read_offset read_u64_info add_usize mul_usize
file_forward = refl

collect_chunk_info-Ensures_example : Ensures (All (IsChunk 1 4)) (collect_chunk_info 100 file 1 4 0)
collect_chunk_info-Ensures_example =
    collect_chunk_info-Ensures {d = file} file-IsSlice 1 4 (omega arith) (omega arith)
      (forward_below-IsForward file-IsSlice 1 4 (omega arith) (omega arith) file_forward) 100 0
      (omega arith) (omega arith)
