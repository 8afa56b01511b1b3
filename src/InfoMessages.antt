-- ===== src/InfoMessages.antt =====
-- The link info, group info and attribute info messages: crates/rustyhdf5-format/src/link_info.rs,
-- group_info.rs and attribute_info.rs.
pub mod Safety
mod Tests
use rustyhdf.Prelude.{ℕ, ◌+◌, Bool, List, Option, none, some, ◌==◌, if◌then◌else◌}
use rustyhdf.Outcome.{Outcome, ok, ◌>>=◌, ◌>>◌, guard, invalid_link_info_version}
use rustyhdf.Outcome.{invalid_group_info_version, invalid_attribute_info_version}
use rustyhdf.Bytes.{index, from_le_bytes}
use rustyhdf.Utils.{bit_set, ensure_len, read_offset, is_undefined_offset}

pub record LinkInfoMessage : Type 0 where
  pub max_creation_order : Option ℕ
  pub fractal_heap_address : Option ℕ
  pub btree_name_index_address : Option ℕ
  pub btree_creation_order_address : Option ℕ

-- `parse_addr`, which the attribute info parser writes out three times.
unfoldable pub parse_addr : List ℕ → ℕ → ℕ → Outcome (Option ℕ)
parse_addr d pos offset_size = do
  addr ← read_offset d pos offset_size
  if is_undefined_offset addr offset_size then ok none else ok (some addr)

-- A field of `n` bytes that is there when its flag is set; the position comes back with it.
unfoldable pub optional_number : Bool → ℕ → List ℕ → ℕ → Outcome (Option ℕ × ℕ)
optional_number present n d pos =
    if present
    then (do ensure_len d pos n; v ← from_le_bytes n d pos; ok (some v, pos + n))
    else ok (none, pos)

unfoldable pub optional_addr : Bool → List ℕ → ℕ → ℕ → Outcome (Option ℕ)
optional_addr present d pos offset_size = if present then parse_addr d pos offset_size else ok none

unfoldable pub parse_link_info : List ℕ → ℕ → Outcome LinkInfoMessage
parse_link_info d offset_size = do
  ensure_len d 0 2
  version ← index d 0
  guard (version == 0) (invalid_link_info_version version)
  flags ← index d 1
  (max_creation_order, pos) ← optional_number (bit_set flags 0x01) 8 d 2
  fractal_heap_address ← parse_addr d pos offset_size
  btree_name_index_address ← parse_addr d (pos + offset_size) offset_size
  btree_creation_order_address ←
      optional_addr (bit_set flags 0x02) d (pos + offset_size + offset_size) offset_size
  ok (record {
    max_creation_order = max_creation_order;
    fractal_heap_address = fractal_heap_address;
    btree_name_index_address = btree_name_index_address;
    btree_creation_order_address = btree_creation_order_address;
  })

pub record GroupInfoMessage : Type 0 where
  pub max_compact : Option ℕ
  pub min_dense : Option ℕ
  pub estimated_num_entries : Option ℕ
  pub estimated_name_length : Option ℕ

-- Two 16-bit fields that are there when their flag is set.
unfoldable pub optional_pair : Bool → List ℕ → ℕ → Outcome ((Option ℕ × Option ℕ) × ℕ)
optional_pair present d pos =
    if present
    then (do
      ensure_len d pos 4
      a ← from_le_bytes 2 d pos
      b ← from_le_bytes 2 d (pos + 2)
      ok ((some a, some b), pos + 4))
    else ok ((none, none), pos)

unfoldable pub parse_group_info : List ℕ → Outcome GroupInfoMessage
parse_group_info d = do
  ensure_len d 0 2
  version ← index d 0
  guard (version == 0) (invalid_group_info_version version)
  flags ← index d 1
  (phase, pos) ← optional_pair (bit_set flags 0x01) d 2
  (estimated, end) ← optional_pair (bit_set flags 0x02) d pos
  ok (record {
    max_compact = phase.0;
    min_dense = phase.1;
    estimated_num_entries = estimated.0;
    estimated_name_length = estimated.1;
  })

pub record AttributeInfoMessage : Type 0 where
  pub max_creation_index : Option ℕ
  pub fractal_heap_address : Option ℕ
  pub btree_name_index_address : Option ℕ
  pub btree_creation_order_address : Option ℕ

unfoldable pub parse_attribute_info : List ℕ → ℕ → Outcome AttributeInfoMessage
parse_attribute_info d offset_size = do
  ensure_len d 0 2
  version ← index d 0
  guard (version == 0) (invalid_attribute_info_version version)
  flags ← index d 1
  (max_creation_index, pos) ← optional_number (bit_set flags 0x01) 2 d 2
  fractal_heap_address ← parse_addr d pos offset_size
  btree_name_index_address ← parse_addr d (pos + offset_size) offset_size
  btree_creation_order_address ←
      optional_addr (bit_set flags 0x02) d (pos + offset_size + offset_size) offset_size
  ok (record {
    max_creation_index = max_creation_index;
    fractal_heap_address = fractal_heap_address;
    btree_name_index_address = btree_name_index_address;
    btree_creation_order_address = btree_creation_order_address;
  })
