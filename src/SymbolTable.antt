-- ===== src/SymbolTable.antt =====
-- crates/rustyhdf5-format/src/symbol_table.rs: the message that names a group's B-tree and heap,
-- and the nodes that hold the group's entries.
pub mod Safety
mod Tests
use rustyhdf.Prelude.{ℕ, zero, suc, ◌+◌, ◌*◌, List, [], ◌∷◌, ◌==◌}
use rustyhdf.Outcome.{Outcome, ok, ◌>>=◌, ◌>>◌, guard}
use rustyhdf.Outcome.{invalid_symbol_table_node_signature, invalid_symbol_table_node_version}
use rustyhdf.Bytes.{index, slice, from_le_bytes, bytes_eq}
use rustyhdf.Utils.{ensure_len, read_offset}

pub record SymbolTableMessage : Type 0 where
  pub btree_address : ℕ
  pub local_heap_address : ℕ

unfoldable pub parse_message : List ℕ → ℕ → Outcome SymbolTableMessage
parse_message d offset_size = do
  ensure_len d 0 (offset_size * 2)
  btree_address ← read_offset d 0 offset_size
  local_heap_address ← read_offset d offset_size offset_size
  ok (record { btree_address = btree_address; local_heap_address = local_heap_address })

pub record SymbolTableEntry : Type 0 where
  pub link_name_offset : ℕ
  pub object_header_address : ℕ
  pub cache_type : ℕ
  pub scratch_pad : List ℕ

pub record SymbolTableNode : Type 0 where
  pub entries : List SymbolTableEntry

-- One round of the loop, from `pos`.
unfoldable pub parse_entry : List ℕ → ℕ → ℕ → Outcome SymbolTableEntry
parse_entry d pos offset_size = do
  link_name_offset ← read_offset d pos offset_size
  object_header_address ← read_offset d (pos + offset_size) offset_size
  cache_type ← from_le_bytes 4 d (pos + offset_size + offset_size)
  scratch_pad ← slice d (pos + offset_size + offset_size + 8) (pos + offset_size + offset_size + 24)
  ok (record {
    link_name_offset = link_name_offset;
    object_header_address = object_header_address;
    cache_type = cache_type;
    scratch_pad = scratch_pad;
  })

unfoldable pub parse_entries : ℕ → List ℕ → ℕ → ℕ → Outcome (List SymbolTableEntry)
parse_entries zero d pos offset_size = ok []
parse_entries (suc n) d pos offset_size = do
  entry ← parse_entry d pos offset_size
  entries ← parse_entries n d (pos + offset_size + offset_size + 24) offset_size
  ok (entry ∷ entries)

unfoldable pub parse_node : List ℕ → ℕ → ℕ → Outcome SymbolTableNode
parse_node d offset offset_size = do
  ensure_len d offset 8
  signature ← slice d offset (offset + 4)
  guard (bytes_eq signature (b'S' ∷ b'N' ∷ b'O' ∷ b'D' ∷ [])) invalid_symbol_table_node_signature
  version ← index d (offset + 4)
  guard (version == 1) (invalid_symbol_table_node_version version)
  num_symbols ← from_le_bytes 2 d (offset + 6)
  ensure_len d 0 (offset + 8 + num_symbols * (offset_size + offset_size + 4 + 4 + 16))
  entries ← parse_entries num_symbols d (offset + 8) offset_size
  ok (record { entries = entries })
