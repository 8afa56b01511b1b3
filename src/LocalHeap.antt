-- ===== src/LocalHeap.antt =====
-- crates/rustyhdf5-format/src/local_heap.rs: the heap that holds the names of a group's members.
pub mod Utf8
pub mod Safety
mod Tests
use rustyhdf.Prelude.{ℕ, zero, suc, ◌+◌, ◌-◌, ◌*◌, min, List, [], ◌∷◌, length, leb, ltb, ◌==◌, not}
use rustyhdf.Prelude.{Bool, ◌||◌, if◌then◌else◌}
use rustyhdf.Outcome.{Outcome, ok, err, stuck, ◌>>=◌, ◌>>◌, guard, add_usize, unexpected_eof}
use rustyhdf.Outcome.{invalid_local_heap_signature, invalid_local_heap_version}
use rustyhdf.Bytes.{index, slice, bytes_eq}
use rustyhdf.Utils.{ensure_len, read_offset}
use rustyhdf.LocalHeap.Utf8.{is_utf8}

pub record LocalHeap : Type 0 where
  pub data_segment_size : ℕ
  pub free_list_head_offset : ℕ
  pub data_segment_address : ℕ

unfoldable pub parse : List ℕ → ℕ → ℕ → ℕ → Outcome LocalHeap
parse d offset offset_size length_size = do
  ensure_len d offset (8 + length_size * 2 + offset_size)
  signature ← slice d offset (offset + 4)
  guard (bytes_eq signature (b'H' ∷ b'E' ∷ b'A' ∷ b'P' ∷ [])) invalid_local_heap_signature
  version ← index d (offset + 4)
  guard (version == 0) (invalid_local_heap_version version)
  data_segment_size ← read_offset d (offset + 8) length_size
  free_list_head_offset ← read_offset d (offset + 8 + length_size) length_size
  data_segment_address ← read_offset d (offset + 8 + length_size + length_size) offset_size
  ok (record {
    data_segment_size = data_segment_size;
    free_list_head_offset = free_list_head_offset;
    data_segment_address = data_segment_address;
  })

-- `while end < search_end && file_data[end] != 0 { end += 1; }`, with fuel.
unfoldable pub find_null : ℕ → List ℕ → ℕ → ℕ → Outcome ℕ
find_null zero d search_end end = stuck
find_null (suc fuel) d search_end end =
    let next = find_null fuel d search_end (end + 1) in
    if ltb end search_end then (do b ← index d end; if b == 0 then ok end else next) else ok end

-- `if test { return Err(UnexpectedEof { expected: last + 1, available }); }`
unfoldable pub guard_eof : Bool → ℕ → ℕ → Outcome (Unit {0})
guard_eof inside last available =
    if inside
    then ok tt
    else (do expected ← add_usize last 1; err (unexpected_eof expected available))

-- The loop ends within the file, so one round more than its length is enough.
unfoldable pub read_string : LocalHeap → List ℕ → ℕ → Outcome (List ℕ)
read_string heap d string_offset = do
  str_start ← add_usize heap.data_segment_address string_offset
  seg_end ← add_usize heap.data_segment_address heap.data_segment_size
  guard_eof (not (leb (length d) str_start || leb seg_end str_start)) str_start (length d)
  end ← find_null (suc (length d)) d (min seg_end (length d)) str_start
  guard_eof (not (leb (min seg_end (length d)) end)) end (min seg_end (length d))
  s ← slice d str_start end
  guard (is_utf8 s) invalid_local_heap_signature
  ok s
