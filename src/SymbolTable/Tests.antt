-- ===== src/SymbolTable/Tests.antt =====
-- Runs of the symbol table code, and its theorem at a concrete node.
use rustyhdf.Prelude.{ℕ, ◌+◌, ◌*◌, ◌≤◌, ◌≡◌, refl, arith, List, [], ◌∷◌, length, All}
use rustyhdf.Outcome.{ok}
use rustyhdf.Outcome.Ensures.{Ensures}
use rustyhdf.Bytes.{index, slice, from_le_bytes}
use rustyhdf.Utils.{ensure_len, read_u64_info, read_offset}
use rustyhdf.SymbolTable.{parse_entry, parse_entries, parse_node}
use rustyhdf.SymbolTable.Safety.{IsEntry, parse_node-IsNode}

-- A node with one entry, whose addresses have two bytes.
abbrev node_bytes : List ℕ
node_bytes =
    b'S' ∷ b'N' ∷ b'O' ∷ b'D' ∷ 1 ∷ 0 ∷ 1 ∷ 0 ∷ 8 ∷ 0 ∷ 96 ∷ 1 ∷ 1 ∷ 0 ∷ 0 ∷ 0 ∷ 0 ∷ 0 ∷ 0 ∷ 0 ∷ 1
    ∷ 2 ∷ 3 ∷ 4 ∷ 5 ∷ 6 ∷ 7 ∷ 8 ∷ 9 ∷ 10 ∷ 11 ∷ 12 ∷ 13 ∷ 14 ∷ 15 ∷ 16 ∷ []

parse_one :
    parse_node node_bytes 0 2
    ≡ ok (record {
      entries =
          record {
            link_name_offset = 8;
            object_header_address = 352;
            cache_type = 1;
            scratch_pad = 1 ∷ 2 ∷ 3 ∷ 4 ∷ 5 ∷ 6 ∷ 7 ∷ 8 ∷ 9 ∷ 10 ∷ 11 ∷ 12 ∷ 13 ∷ 14 ∷ 15 ∷ 16 ∷ [];
          }
          ∷ [];
    })
unfolding index slice from_le_bytes ensure_len read_u64_info read_offset parse_entry parse_entries
    parse_node
parse_one = refl

parse_node-IsNode_example :
    Ensures
      (λ n.
        (from_le_bytes 2 node_bytes (0 + 6) ≡ ok (length n.entries))
        × (0 + 8 + length n.entries * (2 + 2 + 24) ≤ length node_bytes)
        × All (IsEntry 2) n.entries)
      (parse_node node_bytes 0 2)
parse_node-IsNode_example =
    parse_node-IsNode {d = node_bytes} (record { bytes = omega arith; sized = omega arith }) 0 2
