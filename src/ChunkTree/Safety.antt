-- ===== src/ChunkTree/Safety.antt =====
-- The walk over the chunks' B-tree never panics, and it ends in a file whose inner nodes only point
-- further back.
use rustyhdf.Prelude.{ℕ, zero, suc, ◌+◌, ◌*◌, ◌^◌, ◌<◌, ◌≤◌, ◌≡◌, refl, ap, arith, List, [], ◌∷◌}
use rustyhdf.Prelude.{length, All, All-append, ◌==◌, Bool, true, ltb, ◌&&◌, ℕ_discrete, sym}
use mathlib.Core.Path.{subst}
use native.Mathlib.Nat.{mul-le-mul_right}
use rustyhdf.Outcome.{Outcome, ok, err, panic, stuck}
use rustyhdf.Outcome.Ensures.{Ensures, returns, bind, bind_eq, branch}
use rustyhdf.Outcome.Ensures.{ensured, guarded, add_usize-Ensures, mul_usize-Ensures}
use rustyhdf.Bytes.{IsSlice, bytes_eq}
use rustyhdf.Bytes.Reads.{index-Ensures, slice-Ensures, from_le_bytes-Ensures}
use rustyhdf.Utils.Safety.{ensure_len-Ensures, read_offset-Ensures}
use rustyhdf.ChunkCache.{ChunkInfo}
use rustyhdf.ChunkTree.{ChunkNode, leaf, inner, tree_signature, read_offsets, read_entry}
use rustyhdf.ChunkTree.{read_entries, read_children, read_node, extend_chunks, visit}
use rustyhdf.ChunkTree.{collect_chunk_info}

-- A chunk has an offset for each dimension, and every field fits its width.
pub record IsChunk (ndims offset_size : ℕ) (c : ChunkInfo) : Type 0 where
  pub size : c.chunk_size < 2 ^ 32
  pub mask : c.filter_mask < 2 ^ 32
  pub rank : length c.offsets ≡ ndims
  pub place : All (λ o. o < 256 ^ offset_size) c.offsets
  pub at : c.address < 256 ^ offset_size

abbrev pub IsNode : ℕ → ℕ → ChunkNode → Type 0
IsNode ndims n (leaf chunks) = All (IsChunk ndims n) chunks
IsNode ndims n (inner addrs) = All (λ a. a < 256 ^ n) addrs

module _ {d : List ℕ} (s : IsSlice d) (n : ℕ) where
  read_offsets-Ensures :
      (k pos : ℕ)
      → Ensures (λ os. (length os ≡ k) × All (λ o. o < 256 ^ n) os) (read_offsets k d pos n)
  unfolding read_offsets
  read_offsets-Ensures zero pos = returns (refl, tt)
  read_offsets-Ensures (suc k) pos =
      bind (read_offset-Ensures s pos n)
        λ o f. bind (read_offsets-Ensures k (pos + n)) λ os t. returns (ap suc t.0, (f.fits, t.1))

  read_entry-Ensures :
      (pos ndims key : ℕ)
      → pos + 8 ≤ length d
      → Ensures (IsChunk ndims n) (read_entry d pos ndims key n)
  unfolding read_entry
  read_entry-Ensures pos ndims key h = bind (from_le_bytes-Ensures s 4 pos (omega arith)) λ size a.
      bind (from_le_bytes-Ensures s 4 (pos + 4) (omega arith)) λ mask b.
        bind (read_offsets-Ensures ndims (pos + 8)) λ offsets t.
          bind (read_offset-Ensures s (pos + key) n) λ address f.
            returns (record { size = a; mask = b; rank = t.0; place = t.1; at = f.fits })

  read_entries-Ensures :
      (k pos ndims key : ℕ)
      → 8 ≤ key
      → pos + (k * (key + n) + key) ≤ length d
      → Ensures (All (IsChunk ndims n)) (read_entries k d pos ndims key n)
  unfolding read_entries
  read_entries-Ensures zero pos ndims key long h = returns tt
  read_entries-Ensures (suc k) pos ndims key long h =
      bind (read_entry-Ensures pos ndims key (grind arith)) λ c one.
        bind (read_entries-Ensures k (pos + key + n) ndims key long (grind arith))
          λ cs rest. returns (one, rest)

  read_children-Ensures :
      (k pos key : ℕ) → Ensures (All (λ a. a < 256 ^ n)) (read_children k d pos key n)
  unfolding read_children
  read_children-Ensures zero pos key = returns tt
  read_children-Ensures (suc k) pos key =
      bind (read_offset-Ensures s (pos + key) n)
        λ a f. bind (read_children-Ensures k (pos + key + n) key) λ bs rest. returns (f.fits, rest)

  -- A node that is read lies inside the file.
  read_node-Ensures :
      (offset ndims : ℕ)
      → ndims < 256
      → n < 256
      → Ensures (λ node. IsNode ndims n node × (offset < length d)) (read_node d offset ndims n)
  unfolding read_node
  read_node-Ensures offset ndims few byte = bind (ensure_len-Ensures d offset (8 + n * 2)) λ _ h.
      bind (slice-Ensures s offset (offset + 4) (omega arith) (omega arith)) λ signature _.
        bind (guarded (bytes_eq signature tree_signature) _) λ _ _.
          bind (index-Ensures s (offset + 4) (omega arith)) λ node_type _.
            bind (guarded (node_type == 1) _) λ _ _.
              bind (index-Ensures s (offset + 5) (omega arith)) λ level _.
                bind (from_le_bytes-Ensures s 2 (offset + 6) (omega arith)) λ k count.
                  let few' : ndims ≤ 256 = omega arith in
                  let area : ndims * n ≤ 256 * n = mul-le-mul_right n few' in
                  bind (mul_usize-Ensures ndims n (omega arith)) λ coordinates e.
                    bind (add_usize-Ensures 8 coordinates (omega arith)) λ key e'.
                      bind (add_usize-Ensures key n (omega arith)) λ entry e''.
                        let count' : k ≤ 2 ^ 16 = omega arith in
                        let all : k * entry ≤ 2 ^ 16 * entry = mul-le-mul_right entry count' in
                        bind (mul_usize-Ensures k entry (omega arith)) λ entries f.
                          bind (add_usize-Ensures entries key (omega arith)) λ needed f'.
                            bind (ensure_len-Ensures d (offset + (8 + n * 2)) needed) λ _ room.
                              let whole : k * (key + n) ≡ entries = rw (← e'', ← f) refl in
                              branch (level == 0)
                                (λ _.
                                  bind
                                    (read_entries-Ensures k (offset + (8 + n * 2)) ndims key
                                      (omega arith) (omega (arith, whole)))
                                    λ chunks a. returns (a, omega arith))
                                (λ _.
                                  bind (read_children-Ensures k (offset + (8 + n * 2)) key)
                                    λ addrs a. returns (a, omega arith))

-- Every inner node of the file points only further back.
unfoldable pub IsForward : List ℕ → ℕ → ℕ → Type 0
IsForward d ndims n =
    (address : ℕ) (addrs : List ℕ)
    → read_node d address ndims n ≡ ok (inner addrs)
    → All (λ a. address < a) addrs

-- Whether all addresses are above this one.
abbrev pub above : ℕ → List ℕ → Bool
above address [] = true
above address (a ∷ bs) = ltb address a && above address bs

-- A test of this for a node that is read, and for the addresses below `k`.
unfoldable pub forward_at : ℕ → Outcome ChunkNode → Bool
forward_at address (ok (leaf chunks)) = true
forward_at address (ok (inner addrs)) = above address addrs
forward_at address (err e) = true
forward_at address panic = true
forward_at address stuck = true

unfoldable pub forward_below : ℕ → List ℕ → ℕ → ℕ → Bool
forward_below zero d ndims n = true
forward_below (suc k) d ndims n = forward_at k (read_node d k ndims n) && forward_below k d ndims n

above-All :
    (address : ℕ) (addrs : List ℕ) → above address addrs ≡ true → All (λ a. address < a) addrs
above-All address [] h = tt
above-All address (a ∷ bs) h = (ground (arith, h), above-All address bs (ground (arith, h)))

forward_below-lt :
    (k : ℕ) (d : List ℕ) (ndims n address : ℕ)
    → forward_below k d ndims n ≡ true
    → address < k
    → forward_at address (read_node d address ndims n) ≡ true
unfolding forward_below
forward_below-lt zero d ndims n address h below = absurd (omega arith)
forward_below-lt (suc k) d ndims n address h below = elim (ℕ_discrete address k) [
  | yes e ↦
      let here : forward_at k (read_node d k ndims n) ≡ true = ground (arith, h) in
      subst (λ a. forward_at a (read_node d a ndims n) ≡ true) (sym e) here
  | no ne ↦ forward_below-lt k d ndims n address (ground (arith, h)) (omega arith)
]

pub forward_below-IsForward :
    {d : List ℕ} (s : IsSlice d) (ndims n : ℕ)
    → ndims < 256
    → n < 256
    → forward_below (length d) d ndims n ≡ true
    → IsForward d ndims n
unfolding IsForward forward_at
forward_below-IsForward {d} s ndims n few byte h address addrs e =
    let inside = (ensured (read_node-Ensures s n address ndims few byte) e).1 in
    let test = forward_below-lt (length d) d ndims n address h inside in
    above-All address addrs (rw e at test)

module _ {d : List ℕ} (s : IsSlice d) (ndims n : ℕ) (few : ndims < 256) (byte : n < 256)
    (forward : IsForward d ndims n) where
  extend_chunks-Ensures :
      (walk : ℕ → Outcome (List ChunkInfo)) (lo : ℕ) (addrs : List ℕ)
      → ((a : ℕ) → lo < a → Ensures (All (IsChunk ndims n)) (walk a))
      → All (λ a. lo < a) addrs
      → Ensures (All (IsChunk ndims n)) (extend_chunks walk addrs)
  unfolding extend_chunks
  extend_chunks-Ensures walk lo [] h k = returns tt
  extend_chunks-Ensures walk lo (a ∷ bs) h k = bind (h a k.0) λ chunks c.
      bind (extend_chunks-Ensures walk lo bs h k.1)
        λ rest r. returns (All-append (IsChunk ndims n) chunks rest c r)

  visit-Ensures :
      (fuel address : ℕ) (node : ChunkNode)
      → length d ≤ address + fuel
      → 0 < fuel
      → read_node d address ndims n ≡ ok node
      → IsNode ndims n node
      → ((a : ℕ)
          → address < a
          → Ensures (All (IsChunk ndims n)) (collect_chunk_info fuel d ndims n a))
      → Ensures (All (IsChunk ndims n)) (visit (collect_chunk_info fuel d ndims n) node)
  unfolding visit IsForward
  visit-Ensures fuel address (leaf chunks) deep some_fuel e h k = returns h
  visit-Ensures fuel address (inner addrs) deep some_fuel e h k =
      extend_chunks-Ensures (collect_chunk_info fuel d ndims n) address addrs k
        (forward address addrs e)

  -- The walk ends in a file whose inner nodes only point further back. From any address,
  -- `collect_chunk_info` then returns `Ok` or `Err` and never panics when the recursion may go as
  -- deep as the file has bytes behind the address; each chunk that it returns has an offset for
  -- each dimension and fields that fit their widths. There are fewer than 256 dimensions and an
  -- address has fewer than 256 bytes.
  pub collect_chunk_info-Ensures :
      (fuel address : ℕ)
      → length d < address + fuel
      → 0 < fuel
      → Ensures (All (IsChunk ndims n)) (collect_chunk_info fuel d ndims n address)
  unfolding collect_chunk_info
  collect_chunk_info-Ensures zero address deep some_fuel = absurd (omega arith)
  collect_chunk_info-Ensures (suc fuel) address deep some_fuel =
      bind_eq (read_node d address ndims n) (read_node-Ensures s n address ndims few byte)
        λ node e h.
          visit-Ensures fuel address node (omega arith) (omega arith) e h.0
            (λ a later. collect_chunk_info-Ensures fuel a (omega arith) (omega arith))
