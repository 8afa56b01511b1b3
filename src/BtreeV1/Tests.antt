-- ===== src/BtreeV1/Tests.antt =====
-- Runs of the B-tree code, and its theorems at concrete files.
use rustyhdf.Prelude.{ℕ, ◌≡◌, refl, arith, List, [], ◌∷◌, none}
use rustyhdf.Outcome.{ok, stuck, add_usize}
use rustyhdf.Outcome.Ensures.{Ensures}
use rustyhdf.Bytes.{index, slice, from_le_bytes}
use rustyhdf.Utils.{ensure_len, read_u64_info, read_offset, is_undefined_bytes, all_ff}
use rustyhdf.BtreeV1.{BTreeV1Node, parse_sibling, parse_keys, parse, collect_symbol_table_nodes}
use rustyhdf.BtreeV1.Safety.{IsNode, btree_parse-IsNode}
use rustyhdf.BtreeV1.Walk.{
  IsTree, inner, leaf, more_trees, no_trees, collect_symbol_table_nodes-IsTree, cycle_never_ends,
}

program : Unit {0}
unfolding add_usize index slice from_le_bytes ensure_len read_u64_info read_offset
    is_undefined_bytes all_ff parse_sibling parse_keys parse
program = tt

-- An inner node at 0, whose one child is the leaf at 18; its one child is the node at 77.
abbrev tree_bytes : List ℕ
tree_bytes =
    b'T' ∷ b'R' ∷ b'E' ∷ b'E' ∷ 0 ∷ 1 ∷ 1 ∷ 0 ∷ 255 ∷ 255 ∷ 255 ∷ 255 ∷ 0 ∷ 0 ∷ 18 ∷ 0 ∷ 8 ∷ 0
    ∷ b'T' ∷ b'R' ∷ b'E' ∷ b'E' ∷ 0 ∷ 0 ∷ 1 ∷ 0 ∷ 255 ∷ 255 ∷ 255 ∷ 255 ∷ 0 ∷ 0 ∷ 77 ∷ 0 ∷ 8 ∷ 0
    ∷ []

abbrev node : ℕ → ℕ → BTreeV1Node
node level child = record {
  node_type = 0;
  node_level = level;
  entries_used = 1;
  left_sibling = none;
  right_sibling = none;
  keys = 0 ∷ 8 ∷ [];
  children = child ∷ [];
}

parse_root : parse tree_bytes 0 2 ≡ ok (node 1 18)
unfolding program
parse_root = refl

parse_leaf : parse tree_bytes 18 2 ≡ ok (node 0 77)
unfolding program
parse_leaf = refl

tree_bytes-IsTree : IsTree tree_bytes 2 1 0 (77 ∷ [])
tree_bytes-IsTree =
    inner (node 1 18) parse_root refl refl
      (more_trees (leaf (node 0 77) parse_leaf refl refl) no_trees)

-- A node that is its own child.
abbrev cycle_bytes : List ℕ
cycle_bytes =
    b'T' ∷ b'R' ∷ b'E' ∷ b'E' ∷ 0 ∷ 1 ∷ 1 ∷ 0 ∷ 255 ∷ 255 ∷ 255 ∷ 255 ∷ 0 ∷ 0 ∷ 0 ∷ 0 ∷ 8 ∷ 0 ∷ []

parse_cycle : parse cycle_bytes 0 2 ≡ ok (node 1 0)
unfolding program
parse_cycle = refl

btree_parse-IsNode_example : Ensures (IsNode 2) (parse tree_bytes 18 2)
btree_parse-IsNode_example =
    btree_parse-IsNode {d = tree_bytes} (record { bytes = omega arith; sized = omega arith }) 18 2

collect_symbol_table_nodes-IsTree_example :
    collect_symbol_table_nodes 2 tree_bytes 2 0 ≡ ok (77 ∷ [])
collect_symbol_table_nodes-IsTree_example =
    collect_symbol_table_nodes-IsTree 2 tree_bytes-IsTree (omega arith)

cycle_never_ends_example : collect_symbol_table_nodes 300 cycle_bytes 2 0 ≡ stuck
cycle_never_ends_example =
    cycle_never_ends cycle_bytes 2 0 (node 1 0) [] parse_cycle refl (omega arith) refl 300
