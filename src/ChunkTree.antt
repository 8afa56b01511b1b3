-- ===== src/ChunkTree.antt =====
-- `collect_chunk_info` of crates/rustyhdf5-format/src/chunked_read.rs: the walk over the B-tree
-- that indexes the chunks of a dataset of layout version 3.
pub mod Safety
mod Tests
use rustyhdf.Prelude.{ℕ, zero, suc, ◌+◌, ◌*◌, List, [], ◌∷◌, ◌++◌, ◌==◌, if◌then◌else◌}
use rustyhdf.Outcome.{Outcome, ok, stuck, ◌>>=◌, ◌>>◌, guard, add_usize, mul_usize}
use rustyhdf.Outcome.{invalid_btree_signature, invalid_btree_node_type}
use rustyhdf.Bytes.{index, slice, from_le_bytes, bytes_eq}
use rustyhdf.Utils.{ensure_len, read_offset}
use rustyhdf.ChunkCache.{ChunkInfo}

-- `b"TREE"`
abbrev pub tree_signature : List ℕ
tree_signature = 0x54 ∷ 0x52 ∷ 0x45 ∷ 0x45 ∷ []

-- A leaf has chunks, an inner node the addresses of its children.
pub data ChunkNode : Type 0 where
  leaf : List ChunkInfo → ChunkNode
  inner : List ℕ → ChunkNode

-- The loop over `0..ndims` in a key.
unfoldable pub read_offsets : ℕ → List ℕ → ℕ → ℕ → Outcome (List ℕ)
read_offsets zero d kp offset_size = ok []
read_offsets (suc n) d kp offset_size = do
  o ← read_offset d kp offset_size
  os ← read_offsets n d (kp + offset_size) offset_size
  ok (o ∷ os)

-- A key and the address behind it.
unfoldable pub read_entry : List ℕ → ℕ → ℕ → ℕ → ℕ → Outcome ChunkInfo
read_entry d pos ndims key_size offset_size = do
  chunk_size ← from_le_bytes 4 d pos
  filter_mask ← from_le_bytes 4 d (pos + 4)
  offsets ← read_offsets ndims d (pos + 8) offset_size
  address ← read_offset d (pos + key_size) offset_size
  ok (record {
    chunk_size = chunk_size;
    filter_mask = filter_mask;
    offsets = offsets;
    address = address;
  })

-- The two loops over `0..entries_used`.
unfoldable pub read_entries : ℕ → List ℕ → ℕ → ℕ → ℕ → ℕ → Outcome (List ChunkInfo)
read_entries zero d pos ndims key_size offset_size = ok []
read_entries (suc n) d pos ndims key_size offset_size = do
  c ← read_entry d pos ndims key_size offset_size
  cs ← read_entries n d (pos + key_size + offset_size) ndims key_size offset_size
  ok (c ∷ cs)

unfoldable pub read_children : ℕ → List ℕ → ℕ → ℕ → ℕ → Outcome (List ℕ)
read_children zero d pos key_size offset_size = ok []
read_children (suc n) d pos key_size offset_size = do
  a ← read_offset d (pos + key_size) offset_size
  bs ← read_children n d (pos + key_size + offset_size) key_size offset_size
  ok (a ∷ bs)

-- A node of the tree, as both branches read it.
unfoldable pub read_node : List ℕ → ℕ → ℕ → ℕ → Outcome ChunkNode
read_node d offset ndims offset_size = do
  ensure_len d offset (8 + offset_size * 2)
  signature ← slice d offset (offset + 4)
  guard (bytes_eq signature tree_signature) invalid_btree_signature
  node_type ← index d (offset + 4)
  guard (node_type == 1) (invalid_btree_node_type node_type)
  node_level ← index d (offset + 5)
  entries_used ← from_le_bytes 2 d (offset + 6)
  coordinates ← mul_usize ndims offset_size
  key_size ← add_usize 8 coordinates
  entry_size ← add_usize key_size offset_size
  entries_size ← mul_usize entries_used entry_size
  needed ← add_usize entries_size key_size
  let pos = offset + (8 + offset_size * 2)
  ensure_len d pos needed
  if node_level == 0
      then (do
        chunks ← read_entries entries_used d pos ndims key_size offset_size
        ok (leaf chunks))
      else (do addrs ← read_children entries_used d pos key_size offset_size; ok (inner addrs))

-- `for child_addr in child_addrs { all_chunks.extend(walk(child_addr)?) }`
unfoldable pub extend_chunks : (ℕ → Outcome (List ChunkInfo)) → List ℕ → Outcome (List ChunkInfo)
extend_chunks walk [] = ok []
extend_chunks walk (a ∷ bs) = do chunks ← walk a; rest ← extend_chunks walk bs; ok (chunks ++ rest)

-- The `if node_level == 0` of the walk.
unfoldable pub visit : (ℕ → Outcome (List ChunkInfo)) → ChunkNode → Outcome (List ChunkInfo)
visit walk (leaf chunks) = ok chunks
visit walk (inner addrs) = extend_chunks walk addrs

-- The recursion, with fuel for its depth. Nothing in the source bounds the depth.
unfoldable pub collect_chunk_info : ℕ → List ℕ → ℕ → ℕ → ℕ → Outcome (List ChunkInfo)
collect_chunk_info zero d ndims offset_size btree_address = stuck
collect_chunk_info (suc fuel) d ndims offset_size btree_address = do
  node ← read_node d btree_address ndims offset_size
  visit (collect_chunk_info fuel d ndims offset_size) node
