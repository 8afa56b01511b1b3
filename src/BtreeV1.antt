-- ===== src/BtreeV1.antt =====
-- crates/rustyhdf5-format/src/btree_v1.rs: a node of the B-tree that indexes a group, and the walk
-- down to the symbol table nodes.
pub mod Safety
pub mod Walk
mod Tests
use rustyhdf.Prelude.{
  ℕ, zero, suc, ◌+◌, ◌*◌, List, [], ◌∷◌, ◌++◌, Option, none, some, Bool, true, false,
}
use rustyhdf.Prelude.{◌==◌, if◌then◌else◌}
use rustyhdf.Outcome.{Outcome, ok, err, stuck, ◌>>=◌, ◌>>◌, guard, invalid_btree_signature}
use rustyhdf.Outcome.{invalid_btree_node_type}
use rustyhdf.Bytes.{index, slice, from_le_bytes, bytes_eq}
use rustyhdf.Utils.{ensure_len, read_offset, is_undefined_bytes}

pub record BTreeV1Node : Type 0 where
  pub node_type : ℕ
  pub node_level : ℕ
  pub entries_used : ℕ
  pub left_sibling : Option ℕ
  pub right_sibling : Option ℕ
  pub keys : List ℕ
  pub children : List ℕ

unfoldable pub parse_sibling : List ℕ → ℕ → ℕ → Outcome (Option ℕ)
parse_sibling d pos offset_size = do
  undefined ← is_undefined_bytes d pos offset_size
  if undefined then ok none else (do address ← read_offset d pos offset_size; ok (some address))

-- The loop over the keys and children, and the last key behind it.
unfoldable pub parse_keys : ℕ → List ℕ → ℕ → ℕ → Outcome (List ℕ × List ℕ)
parse_keys zero d pos offset_size = do key ← read_offset d pos offset_size; ok (key ∷ [], [])
parse_keys (suc n) d pos offset_size = do
  key ← read_offset d pos offset_size
  child ← read_offset d (pos + offset_size) offset_size
  (keys, children) ← parse_keys n d (pos + offset_size + offset_size) offset_size
  ok (key ∷ keys, child ∷ children)

-- The length check in front of the keys counts from `offset`, as the source does.
unfoldable pub parse : List ℕ → ℕ → ℕ → Outcome BTreeV1Node
parse d offset offset_size = do
  ensure_len d offset (8 + offset_size * 2)
  signature ← slice d offset (offset + 4)
  guard (bytes_eq signature (b'T' ∷ b'R' ∷ b'E' ∷ b'E' ∷ [])) invalid_btree_signature
  node_type ← index d (offset + 4)
  node_level ← index d (offset + 5)
  entries_used ← from_le_bytes 2 d (offset + 6)
  left_sibling ← parse_sibling d (offset + 8) offset_size
  right_sibling ← parse_sibling d (offset + 8 + offset_size) offset_size
  ensure_len d offset (entries_used * (offset_size + offset_size) + offset_size)
  (keys, children) ← parse_keys entries_used d (offset + 8 + offset_size + offset_size) offset_size
  ok (record {
    node_type = node_type;
    node_level = node_level;
    entries_used = entries_used;
    left_sibling = left_sibling;
    right_sibling = right_sibling;
    keys = keys;
    children = children;
  })

-- `for &child_addr in &node.children { result.extend(walk(child_addr)?) }`
unfoldable pub extend_each : (ℕ → Outcome (List ℕ)) → List ℕ → Outcome (List ℕ)
extend_each walk [] = ok []
extend_each walk (child ∷ children) = do
  nodes ← walk child
  rest ← extend_each walk children
  ok (nodes ++ rest)

-- The recursion, with fuel for its depth. Nothing in the source bounds the depth.
unfoldable pub collect_symbol_table_nodes : ℕ → List ℕ → ℕ → ℕ → Outcome (List ℕ)
collect_symbol_table_nodes zero d offset_size btree_address = stuck
collect_symbol_table_nodes (suc fuel) d offset_size btree_address = do
  node ← parse d btree_address offset_size
  guard (node.node_type == 0) (invalid_btree_node_type node.node_type)
  if node.node_level == 0
      then ok node.children
      else extend_each (collect_symbol_table_nodes fuel d offset_size) node.children
