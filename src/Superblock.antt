-- ===== src/Superblock.antt =====
-- crates/rustyhdf5-format/src/superblock.rs: the superblock in its versions 0 to 3.
-- `group_leaf_node_k` and the like are `Option`s as in the source. The `checksum` feature is on,
-- which is the crate's default.
pub mod Safety
pub mod RoundTrip
mod Tests
use rustyhdf.Prelude.{
  ℕ, ◌+◌, ◌-◌, ◌*◌, ◌%◌, ◌^◌, List, [], ◌∷◌, ◌++◌, Option, none, some, Bool, ◌||◌,
}
use rustyhdf.Prelude.{◌==◌, if◌then◌else◌}
use rustyhdf.Outcome.{Outcome, ok, err, ◌>>=◌, ◌>>◌, guard, usize_mod}
use rustyhdf.Outcome.{
  signature_not_found, unsupported_version, invalid_offset_size, invalid_length_size,
  checksum_mismatch,
}
use rustyhdf.Bytes.{index, slice, slice_from, from_le_bytes, to_le, bytes_eq}
use rustyhdf.Utils.{ensure_len, read_offset}
use rustyhdf.Checksum.{jenkins_lookup3}
use rustyhdf.Signature.{hdf5_signature}

pub record Superblock : Type 0 where
  pub version : ℕ
  pub offset_size : ℕ
  pub length_size : ℕ
  pub base_address : ℕ
  pub eof_address : ℕ
  pub root_group_address : ℕ
  pub group_leaf_node_k : Option ℕ
  pub group_internal_node_k : Option ℕ
  pub indexed_storage_internal_node_k : Option ℕ
  pub free_space_address : Option ℕ
  pub driver_info_address : Option ℕ
  pub consistency_flags : ℕ
  pub superblock_extension_address : Option ℕ
  pub checksum : Option ℕ

-- `matches!(size, 2 | 4 | 8)`
unfoldable pub is_width : ℕ → Bool
is_width size = size == 2 || size == 4 || size == 8

unfoldable pub validate_sizes : ℕ → ℕ → Outcome (Unit {0})
unfolding is_width
validate_sizes offset_size length_size = do
  guard (is_width offset_size) (invalid_offset_size offset_size)
  guard (is_width length_size) (invalid_length_size length_size)

-- The bytes that `write_offset` appends: none for a size that is no width.
unfoldable pub write_offset : ℕ → ℕ → List ℕ
write_offset val size =
    if size == 2
    then to_le 2 (val % 2 ^ 16)
    else if size == 4
    then to_le 4 (val % 2 ^ 32)
    else if size == 8
    then to_le 8 val
    else []

-- Everything that `serialize` puts in front of the checksum.
unfoldable pub serialize_body : Superblock → List ℕ
unfolding write_offset
serialize_body s =
    let ext_addr : ℕ = elim s.superblock_extension_address [ some a ↦ a | none ↦ usize_mod - 1 ] in
    hdf5_signature
    ++ (s.version
        ∷ s.offset_size
        ∷ s.length_size
        ∷ (s.consistency_flags % 256)
        ∷ (write_offset s.base_address s.offset_size
            ++ (write_offset ext_addr s.offset_size
                ++ (write_offset s.eof_address s.offset_size
                    ++ write_offset s.root_group_address s.offset_size))))

unfoldable pub serialize : Superblock → Outcome (List ℕ)
unfolding serialize_body
serialize s = do
  let buf = serialize_body s
  checksum ← jenkins_lookup3 buf
  ok (buf ++ to_le 4 checksum)

unfoldable pub parse_v0 : List ℕ → Outcome Superblock
parse_v0 d = do
  ensure_len d 0 24
  offset_size ← index d 13
  length_size ← index d 14
  validate_sizes offset_size length_size
  group_leaf_node_k ← from_le_bytes 2 d 16
  group_internal_node_k ← from_le_bytes 2 d 18
  consistency_flags ← from_le_bytes 4 d 20
  let os = offset_size
  let var_start : ℕ = 24
  let sym_entry_size = os + os + 4 + 4 + 16
  ensure_len d 0 (var_start + 4 * os + sym_entry_size)
  base_address ← read_offset d var_start offset_size
  free_space_address ← read_offset d (var_start + os) offset_size
  eof_address ← read_offset d (var_start + os + os) offset_size
  driver_info_address ← read_offset d (var_start + os + os + os) offset_size
  link_name_offset ← read_offset d (var_start + os + os + os + os) offset_size
  object_header_addr ← read_offset d (var_start + os + os + os + os + os) offset_size
  ok (record {
    version = 0;
    offset_size = offset_size;
    length_size = length_size;
    base_address = base_address;
    eof_address = eof_address;
    root_group_address = object_header_addr;
    group_leaf_node_k = some group_leaf_node_k;
    group_internal_node_k = some group_internal_node_k;
    indexed_storage_internal_node_k = none;
    free_space_address = some free_space_address;
    driver_info_address = some driver_info_address;
    consistency_flags = consistency_flags;
    superblock_extension_address = none;
    checksum = none;
  })

unfoldable pub parse_v1 : List ℕ → Outcome Superblock
parse_v1 d = do
  ensure_len d 0 28
  offset_size ← index d 13
  length_size ← index d 14
  validate_sizes offset_size length_size
  group_leaf_node_k ← from_le_bytes 2 d 16
  group_internal_node_k ← from_le_bytes 2 d 18
  indexed_storage_internal_node_k ← from_le_bytes 2 d 20
  consistency_flags ← from_le_bytes 4 d 24
  let os = offset_size
  let var_start : ℕ = 28
  let sym_entry_size = os + os + 4 + 4 + 16
  ensure_len d 0 (var_start + 4 * os + sym_entry_size)
  base_address ← read_offset d var_start offset_size
  free_space_address ← read_offset d (var_start + os) offset_size
  eof_address ← read_offset d (var_start + os + os) offset_size
  driver_info_address ← read_offset d (var_start + os + os + os) offset_size
  link_name_offset ← read_offset d (var_start + os + os + os + os) offset_size
  object_header_addr ← read_offset d (var_start + os + os + os + os + os) offset_size
  ok (record {
    version = 1;
    offset_size = offset_size;
    length_size = length_size;
    base_address = base_address;
    eof_address = eof_address;
    root_group_address = object_header_addr;
    group_leaf_node_k = some group_leaf_node_k;
    group_internal_node_k = some group_internal_node_k;
    indexed_storage_internal_node_k = some indexed_storage_internal_node_k;
    free_space_address = some free_space_address;
    driver_info_address = some driver_info_address;
    consistency_flags = consistency_flags;
    superblock_extension_address = none;
    checksum = none;
  })

unfoldable pub parse_v2v3 : List ℕ → ℕ → Outcome Superblock
parse_v2v3 d version = do
  ensure_len d 0 12
  offset_size ← index d 9
  length_size ← index d 10
  validate_sizes offset_size length_size
  consistency_flags ← index d 11
  let os = offset_size
  ensure_len d 0 (12 + 4 * os + 4)
  base_address ← read_offset d 12 offset_size
  superblock_extension_address ← read_offset d (12 + os) offset_size
  eof_address ← read_offset d (12 + os + os) offset_size
  root_group_address ← read_offset d (12 + os + os + os) offset_size
  let pos = 12 + os + os + os + os
  stored_checksum ← from_le_bytes 4 d pos
  covered ← slice d 0 pos
  computed ← jenkins_lookup3 covered
  guard (computed == stored_checksum) (checksum_mismatch stored_checksum computed)
  ok (record {
    version = version;
    offset_size = offset_size;
    length_size = length_size;
    base_address = base_address;
    eof_address = eof_address;
    root_group_address = root_group_address;
    group_leaf_node_k = none;
    group_internal_node_k = none;
    indexed_storage_internal_node_k = none;
    free_space_address = none;
    driver_info_address = none;
    consistency_flags = consistency_flags;
    superblock_extension_address = some superblock_extension_address;
    checksum = some stored_checksum;
  })

unfoldable pub parse : List ℕ → ℕ → Outcome Superblock
parse file signature_offset = do
  d ← slice_from file signature_offset
  ensure_len d 0 9
  magic ← slice d 0 8
  guard (bytes_eq magic hdf5_signature) signature_not_found
  version ← index d 8
  if version == 0
      then parse_v0 d
      else if version == 1
      then parse_v1 d
      else if version == 2 || version == 3
      then parse_v2v3 d version
      else err (unsupported_version version)
