-- ===== src/BtreeV1/Safety.antt =====
-- Parsing a B-tree node always returns, and the node has one key more than it has children.
use rustyhdf.Prelude.{
  ℕ, zero, suc, ◌+◌, ◌*◌, ◌^◌, ◌<◌, ◌≤◌, ◌≡◌, refl, ap, arith, List, [], ◌∷◌, length, All,
}
use rustyhdf.Prelude.{Option, none, some}
use rustyhdf.Outcome.Ensures.{Ensures, returns, bind, branch, guarded}
use rustyhdf.Outcome.{invalid_btree_signature}
use rustyhdf.Bytes.{IsSlice, bytes_eq}
use rustyhdf.Bytes.Reads.{index-Ensures, slice-Ensures, from_le_bytes-Ensures}
use rustyhdf.Utils.Safety.{ensure_len-Ensures, read_offset-Ensures, is_undefined_bytes-Ensures}
use rustyhdf.BtreeV1.{BTreeV1Node, parse_sibling, parse_keys, parse}

-- An address of `size` bytes, if there is one.
abbrev pub IsSibling : ℕ → Option ℕ → Type 0
IsSibling size none = Unit {0}
IsSibling size (some a) = a < 256 ^ size

-- `entries_used` children, and a key on either side of each; all have `size` bytes.
pub record IsNode (size : ℕ) (n : BTreeV1Node) : Type 0 where
  pub used : n.entries_used < 2 ^ 16
  pub children_count : length n.children ≡ n.entries_used
  pub keys_count : length n.keys ≡ n.entries_used + 1
  pub children_fit : All (λ a. a < 256 ^ size) n.children
  pub keys_fit : All (λ a. a < 256 ^ size) n.keys
  pub left : IsSibling size n.left_sibling
  pub right : IsSibling size n.right_sibling

module _ {d : List ℕ} (s : IsSlice d) where
  parse_sibling-Ensures :
      (pos size : ℕ) → pos + size ≤ length d → Ensures (IsSibling size) (parse_sibling d pos size)
  unfolding parse_sibling
  parse_sibling-Ensures pos size h =
      bind (is_undefined_bytes-Ensures s pos size (omega (arith, s.sized))) λ undefined _.
        branch undefined (λ _. returns tt)
          λ _. bind (read_offset-Ensures s pos size) λ address q. returns q.fits

  parse_keys-Ensures :
      (n pos size : ℕ)
      → Ensures
          (λ r.
            ((length r.0 ≡ n + 1) × All (λ a. a < 256 ^ size) r.0)
            × ((length r.1 ≡ n) × All (λ a. a < 256 ^ size) r.1))
          (parse_keys n d pos size)
  unfolding parse_keys
  parse_keys-Ensures zero pos size =
      bind (read_offset-Ensures s pos size) λ key q. returns ((refl, (q.fits, tt)), (refl, tt))
  parse_keys-Ensures (suc n) pos size = bind (read_offset-Ensures s pos size) λ key q.
      bind (read_offset-Ensures s (pos + size) size) λ child q'.
        bind (parse_keys-Ensures n (pos + size + size) size)
          λ r t. returns ((omega (arith, t.0.0), (q.fits, t.0.1)), (ap suc t.1.0, (q'.fits, t.1.1)))

  -- For every file and every offset, parsing a B-tree node returns `Ok` or `Err` and never panics.
  -- A node that it returns has `entries_used` children and one key more, and its keys, children
  -- and siblings fit `size` bytes.
  pub btree_parse-IsNode : (offset size : ℕ) → Ensures (IsNode size) (parse d offset size)
  unfolding parse
  btree_parse-IsNode offset size = bind (ensure_len-Ensures d offset (8 + size * 2)) λ _ h.
      bind (slice-Ensures s offset (offset + 4) (omega arith) (omega arith)) λ signature _.
        bind (guarded (bytes_eq signature (b'T' ∷ b'R' ∷ b'E' ∷ b'E' ∷ [])) invalid_btree_signature)
          λ _ _. bind (index-Ensures s (offset + 4) (omega arith)) λ node_type _.
            bind (index-Ensures s (offset + 5) (omega arith)) λ node_level _.
              bind (from_le_bytes-Ensures s 2 (offset + 6) (omega arith)) λ used small.
                bind (parse_sibling-Ensures (offset + 8) size (omega arith)) λ left l.
                  bind (parse_sibling-Ensures (offset + 8 + size) size (omega arith)) λ right r.
                    bind (ensure_len-Ensures d offset (used * (size + size) + size)) λ _ _.
                      bind (parse_keys-Ensures used (offset + 8 + size + size) size) λ k t.
                        returns (record {
                          used = small;
                          children_count = t.1.0;
                          keys_count = t.0.0;
                          children_fit = t.1.1;
                          keys_fit = t.0.1;
                          left = l;
                          right = r;
                        })
