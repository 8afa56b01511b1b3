-- ===== src/FixedArray.antt =====
-- crates/rustyhdf5-format/src/fixed_array.rs: the fixed array, the index of a chunked dataset of
-- fixed size. Its header and its one data block are written by `build_fixed_array_at` of
-- chunked_write.rs, in FixedArray/Build.
pub mod Build
pub mod RoundTrip
pub mod Whole
pub mod Elements
pub mod InFile
mod Tests
use rustyhdf.Prelude.{ℕ, zero, suc, ◌+◌, ◌*◌, ◌^◌, ◌%◌, List, [], ◌∷◌, length, leb, ltb, ◌==◌, not}
use rustyhdf.Prelude.{if◌then◌else◌}
use rustyhdf.Outcome.{Outcome, ok, err, panic, ◌>>=◌, ◌>>◌, guard, sub_usize, chunked_read_error}
use rustyhdf.Bytes.{index, slice, slice_from, from_le_bytes, bytes_eq}
use rustyhdf.Utils.{ensure_len, read_offset, is_undefined_bytes, read_variable_length}
use rustyhdf.ChunkCache.{ChunkInfo}
use rustyhdf.ChunkGrid.{index_to_chunk_offsets, chunks_per_dim, chunk_byte_size}

-- `b"FAHD"` and `b"FADB"`
abbrev pub fahd_signature : List ℕ
fahd_signature = 0x46 ∷ 0x41 ∷ 0x48 ∷ 0x44 ∷ []

abbrev pub fadb_signature : List ℕ
fadb_signature = 0x46 ∷ 0x41 ∷ 0x44 ∷ 0x42 ∷ []

pub record FixedArrayHeader : Type 0 where
  pub client_id : ℕ
  pub element_size : ℕ
  pub max_nelmts_bits : ℕ
  pub num_elements : ℕ
  pub data_block_address : ℕ

-- The text of the version error also has the version's number.
unfoldable pub parse : List ℕ → ℕ → ℕ → ℕ → Outcome FixedArrayHeader
parse file_data offset offset_size length_size = do
  ensure_len file_data offset (8 + length_size + offset_size + 4)
  d ← slice_from file_data offset
  signature ← slice d 0 4
  guard (bytes_eq signature fahd_signature)
      (chunked_read_error "invalid Fixed Array header signature")
  version ← index d 4
  guard (version == 0) (chunked_read_error "unsupported Fixed Array header version")
  client_id ← index d 5
  element_size ← index d 6
  max_nelmts_bits ← index d 7
  num_elements ← read_offset d 8 length_size
  data_block_address ← read_offset d (8 + length_size) offset_size
  ok (record {
    client_id = client_id;
    element_size = element_size;
    max_nelmts_bits = max_nelmts_bits;
    num_elements = num_elements;
    data_block_address = data_block_address;
  })

-- `1u64 << bits` with the overflow check.
unfoldable pub shift_left_one : ℕ → Outcome ℕ
shift_left_one bits = if ltb bits 64 then ok (2 ^ bits) else panic

-- What an element holds: its address, its chunk's size and filter mask, and the bytes it takes.
pub record Element : Type 0 where
  pub address : ℕ
  pub chunk_size : ℕ
  pub filter_mask : ℕ
  pub taken : ℕ

-- The element at `at`, of which only the address is stored.
unfoldable pub read_plain : List ℕ → ℕ → ℕ → ℕ → Outcome Element
read_plain file_data at offset_size size = do
  elem_data ← slice_from file_data at
  ensure_len elem_data 0 offset_size
  address ← read_offset elem_data 0 offset_size
  ok (record {
    address = address;
    chunk_size = size % 2 ^ 32;
    filter_mask = 0;
    taken = offset_size;
  })

unfoldable pub read_filtered : List ℕ → ℕ → ℕ → ℕ → Outcome Element
read_filtered file_data at offset_size element_size = do
  elem_data ← slice_from file_data at
  without_address ← sub_usize element_size offset_size
  chunk_size_bytes ← sub_usize without_address 4
  ensure_len elem_data 0 (offset_size + chunk_size_bytes + 4)
  address ← read_offset elem_data 0 offset_size
  behind ← slice_from elem_data offset_size
  chunk_size ← read_variable_length behind chunk_size_bytes
  filter_mask ← from_le_bytes 4 elem_data (offset_size + chunk_size_bytes)
  ok (record {
    address = address;
    chunk_size = chunk_size % 2 ^ 32;
    filter_mask = filter_mask;
    taken = offset_size + chunk_size_bytes + 4;
  })

unfoldable pub read_element : List ℕ → ℕ → FixedArrayHeader → ℕ → ℕ → Outcome Element
read_element file_data at header offset_size size =
    if header.client_id == 0
    then read_plain file_data at offset_size size
    else read_filtered file_data at offset_size header.element_size

-- The loop over `i..i + n`; an element whose address is undefined is left out.
unfoldable pub read_elements :
    ℕ → ℕ → List ℕ → ℕ → FixedArrayHeader → List ℕ → List ℕ → ℕ → ℕ → Outcome (List ChunkInfo)
read_elements zero i file_data at header ns cs offset_size size = ok []
read_elements (suc n) i file_data at header ns cs offset_size size = do
  e ← read_element file_data at header offset_size size
  undefined ← is_undefined_bytes file_data at offset_size
  let rest = read_elements n (i + 1) file_data (at + e.taken) header ns cs offset_size size
  if undefined then rest else (do
    offsets ← index_to_chunk_offsets i ns cs
    infos ← rest
    ok (
        record {
          chunk_size = e.chunk_size;
          filter_mask = e.filter_mask;
          offsets = offsets;
          address = e.address;
        }
        ∷ infos))

unfoldable pub read_fixed_array_chunks :
    List ℕ → FixedArrayHeader → List ℕ → List ℕ → ℕ → ℕ → Outcome (List ChunkInfo)
read_fixed_array_chunks file_data header dataset_dims chunk_dimensions element_size offset_size = do
  let db_offset = header.data_block_address
  ensure_len file_data db_offset (6 + offset_size)
  d ← slice_from file_data db_offset
  signature ← slice d 0 4
  guard (bytes_eq signature fadb_signature)
      (chunked_read_error "invalid Fixed Array data block signature")
  page_size ← shift_left_one header.max_nelmts_bits
  guard (leb header.num_elements page_size)
      (chunked_read_error "paged Fixed Array data blocks not yet supported")
  num_chunks_per_dim ← chunks_per_dim dataset_dims chunk_dimensions
  size ← chunk_byte_size chunk_dimensions element_size
  read_elements header.num_elements 0 file_data (db_offset + (6 + offset_size)) header
      num_chunks_per_dim chunk_dimensions offset_size size
