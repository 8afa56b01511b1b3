-- ===== src/DataLayout.antt =====
-- crates/rustyhdf5-format/src/data_layout.rs: the data layout message, which says where and how
-- a dataset's raw data is stored.
pub mod Safety
mod Tests
use rustyhdf.Prelude.{ℕ, zero, suc, ◌+◌, ◌*◌, List, [], ◌∷◌, length, Option, none, some}
use rustyhdf.Prelude.{◌==◌, if◌then◌else◌}
use rustyhdf.Outcome.{Outcome, ok, err, ◌>>=◌, ◌>>◌, unexpected_eof}
use rustyhdf.Outcome.{invalid_layout_version, invalid_layout_class}
use rustyhdf.Bytes.{index, slice, from_le_bytes}
use rustyhdf.Utils.{bit_set, ensure_len, is_undefined_bytes, read_offset}

-- The fields of a chunked layout.
pub record Chunking : Type 0 where
  pub chunk_dimensions : List ℕ
  pub btree_address : Option ℕ
  pub version : ℕ
  pub chunk_index_type : Option ℕ
  pub single_chunk_filtered_size : Option ℕ
  pub single_chunk_filter_mask : Option ℕ

pub data DataLayout : Type 0 where
  -- data
  compact : List ℕ → DataLayout
  -- address, size
  contiguous : Option ℕ → ℕ → DataLayout
  chunked : Chunking → DataLayout
  -- version
  virtual : ℕ → DataLayout

unfoldable pub read_length : List ℕ → ℕ → ℕ → Outcome ℕ
read_length d pos size = read_offset d pos size

-- An address of which every byte is 0xFF is `None`.
unfoldable pub read_address : List ℕ → ℕ → ℕ → Outcome (Option ℕ)
read_address d pos offset_size = do
  undefined ← is_undefined_bytes d pos offset_size
  if undefined then ok none else (do a ← read_offset d pos offset_size; ok (some a))

unfoldable pub parse_compact : List ℕ → ℕ → Outcome DataLayout
parse_compact d pos = do
  ensure_len d pos 2
  data_size ← from_le_bytes 2 d pos
  ensure_len d (pos + 2) data_size
  raw ← slice d (pos + 2) (pos + 2 + data_size)
  ok (compact raw)

unfoldable pub parse_contiguous : List ℕ → ℕ → ℕ → ℕ → Outcome DataLayout
parse_contiguous d pos offset_size length_size = do
  ensure_len d pos (offset_size + length_size)
  address ← read_address d pos offset_size
  size ← read_length d (pos + offset_size) length_size
  ok (contiguous address size)

-- The `match dim_size_length`; a dimension of 8 bytes is cut to its lower 4.
unfoldable pub read_dim : List ℕ → ℕ → ℕ → Outcome ℕ
read_dim d pos dim_size_length =
    if dim_size_length == 1
    then index d pos
    else if dim_size_length == 2
    then from_le_bytes 2 d pos
    else if dim_size_length == 4
    then from_le_bytes 4 d pos
    else if dim_size_length == 8
    then from_le_bytes 4 d pos
    else err (unexpected_eof (pos + dim_size_length) (length d))

-- The loop over `0..ndims`; the position comes back with the sizes.
unfoldable pub read_dims : ℕ → List ℕ → ℕ → ℕ → Outcome (List ℕ × ℕ)
read_dims zero d pos dim_size_length = ok ([], pos)
read_dims (suc ndims) d pos dim_size_length = do
  dim ← read_dim d pos dim_size_length
  (dims, end) ← read_dims ndims d (pos + dim_size_length) dim_size_length
  ok (dim ∷ dims, end)

unfoldable pub parse_chunk_dims : List ℕ → ℕ → ℕ → ℕ → Outcome (List ℕ × ℕ)
parse_chunk_dims d pos ndims dim_size_length = do
  ensure_len d pos (ndims * dim_size_length)
  read_dims ndims d pos dim_size_length

unfoldable pub parse_btree_address : List ℕ → ℕ → ℕ → ℕ → Outcome (Option ℕ × ℕ)
parse_btree_address d pos offset_size skip = do
  ensure_len d pos (skip + offset_size)
  btree_addr ← read_address d (pos + skip) offset_size
  ok (btree_addr, pos + skip + offset_size)

unfoldable pub parse_chunked_v3 : List ℕ → ℕ → ℕ → Outcome DataLayout
parse_chunked_v3 d pos offset_size = do
  ensure_len d pos 1
  ndims ← index d pos
  (btree_address, p) ← parse_btree_address d (pos + 1) offset_size 0
  (chunk_dimensions, end) ← parse_chunk_dims d p ndims 4
  ok (
      chunked (record {
        chunk_dimensions = chunk_dimensions;
        btree_address = btree_address;
        version = 3;
        chunk_index_type = none;
        single_chunk_filtered_size = none;
        single_chunk_filter_mask = none;
      }))

unfoldable pub parse_v3 : List ℕ → ℕ → ℕ → ℕ → Outcome DataLayout
parse_v3 d layout_class offset_size length_size =
    if layout_class == 0
    then parse_compact d 2
    else if layout_class == 1
    then parse_contiguous d 2 offset_size length_size
    else if layout_class == 2
    then parse_chunked_v3 d 2 offset_size
    else err (invalid_layout_class layout_class)

-- What the index-specific fields hold: the filtered size, the filter mask and the address.
pub record IndexFields : Type 0 where
  pub filtered_size : Option ℕ
  pub filter_mask : Option ℕ
  pub address : Option ℕ

-- An index of which only the address is read, behind `skip` bytes.
unfoldable pub just_address : List ℕ → ℕ → ℕ → ℕ → Outcome IndexFields
just_address d p offset_size skip = do
  (a, end) ← parse_btree_address d p offset_size skip
  ok (record { filtered_size = none; filter_mask = none; address = a })

unfoldable pub single_filtered : List ℕ → ℕ → ℕ → ℕ → Outcome IndexFields
single_filtered d p offset_size length_size = do
  ensure_len d p (length_size + 4 + offset_size)
  size ← read_length d p length_size
  mask ← from_le_bytes 4 d (p + length_size)
  (a, end) ← parse_btree_address d (p + length_size + 4) offset_size 0
  ok (record { filtered_size = some size; filter_mask = some mask; address = a })

-- The `match chunk_index_type`
unfoldable pub parse_index : List ℕ → ℕ → ℕ → ℕ → ℕ → ℕ → Outcome IndexFields
parse_index d p flags chunk_index_type offset_size length_size =
    if chunk_index_type == 1
    then (if bit_set flags 0x02
        then single_filtered d p offset_size length_size
        else just_address d p offset_size 0)
    else if chunk_index_type == 3
    then just_address d p offset_size 1
    else if chunk_index_type == 4
    then just_address d p offset_size 5
    else if chunk_index_type == 5
    then just_address d p offset_size 6
    else just_address d p offset_size 0

unfoldable pub parse_chunked_v4 : List ℕ → ℕ → ℕ → ℕ → Outcome DataLayout
parse_chunked_v4 d pos offset_size length_size = do
  ensure_len d pos 3
  flags ← index d pos
  ndims ← index d (pos + 1)
  dim_size_length ← index d (pos + 2)
  (chunk_dimensions, p) ← parse_chunk_dims d (pos + 3) ndims dim_size_length
  ensure_len d p 1
  chunk_index_type ← index d p
  fields ← parse_index d (p + 1) flags chunk_index_type offset_size length_size
  ok (
      chunked (record {
        chunk_dimensions = chunk_dimensions;
        btree_address = fields.address;
        version = 4;
        chunk_index_type = some chunk_index_type;
        single_chunk_filtered_size = fields.filtered_size;
        single_chunk_filter_mask = fields.filter_mask;
      }))

unfoldable pub parse_v4 : List ℕ → ℕ → ℕ → ℕ → Outcome DataLayout
parse_v4 d layout_class offset_size length_size =
    if layout_class == 0
    then parse_compact d 2
    else if layout_class == 1
    then parse_contiguous d 2 offset_size length_size
    else if layout_class == 2
    then parse_chunked_v4 d 2 offset_size length_size
    else if layout_class == 3
    then ok (virtual 4)
    else err (invalid_layout_class layout_class)

unfoldable pub parse : List ℕ → ℕ → ℕ → Outcome DataLayout
parse d offset_size length_size = do
  ensure_len d 0 2
  version ← index d 0
  layout_class ← index d 1
  if version == 3
      then parse_v3 d layout_class offset_size length_size
      else if version == 4
      then parse_v4 d layout_class offset_size length_size
      else err (invalid_layout_version version)
