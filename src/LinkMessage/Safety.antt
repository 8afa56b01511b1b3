-- ===== src/LinkMessage/Safety.antt =====
-- Parsing a link message always returns.
use rustyhdf.Prelude.{ℕ, ◌+◌, ◌^◌, ◌<◌, ◌≤◌, arith, Bool, List, [], ◌∷◌}
use rustyhdf.Prelude.{length, ltb, ◌==◌, if◌then◌else◌}
use rustyhdf.Outcome.Ensures.{Ensures, Returns, returns, fails, bind, branch, guarded}
use rustyhdf.Bytes.{IsSlice}
use rustyhdf.Bytes.Reads.{index-Ensures, slice-Ensures, slice_from-Ensures, from_le_bytes-Ensures}
use rustyhdf.Utils.{bit_set}
use rustyhdf.Utils.Safety.{ensure_len-Ensures, read_offset-Ensures}
use rustyhdf.DataLayout.Safety.{IsBelow}
use rustyhdf.LinkMessage.{LinkTarget, hard, soft, external, name_field_width}
use rustyhdf.LinkMessage.{parse_type, parse_order, parse_charset, null_at, parse_external}
use rustyhdf.LinkMessage.{parse_target, parse}

null_at-le : (bs : List ℕ) → null_at bs ≤ length bs
unfolding null_at
null_at-le [] = omega arith
null_at-le (b ∷ bs) = ground (arith, null_at-le bs)

-- The address of a hard link fits the address size.
abbrev pub IsReached : ℕ → LinkTarget → Type 0
IsReached n (hard a) = a < 256 ^ n
IsReached n (soft path) = Unit {0}
IsReached n (external file path) = Unit {0}

parse_external-Ensures :
    {d : List ℕ} (s : IsSlice d) (n : ℕ) → Ensures (IsReached n) (parse_external d)
unfolding parse_external
parse_external-Ensures {d} s n =
    bind (slice_from-Ensures s (if length d == 0 then 0 else 1) (ground arith)) λ rest q.
      bind (slice-Ensures q.0 0 (null_at rest) (omega arith) (null_at-le rest)) λ filename _.
        bind
          (slice_from-Ensures q.0
            (if ltb (null_at rest + 1) (length rest) then null_at rest + 1 else length rest)
            (ground arith))
          λ rest2 q'.
            bind (slice-Ensures q'.0 0 (null_at rest2) (omega arith) (null_at-le rest2))
              λ object_path _. returns tt

module _ {d : List ℕ} (s : IsSlice d) where
  parse_type-Ensures : (b : Bool) (pos : ℕ) → Returns (parse_type b d pos)
  unfolding parse_type
  parse_type-Ensures b pos =
      branch b
        (λ _.
          bind (ensure_len-Ensures d pos 1)
            λ _ h. bind (index-Ensures s pos (omega arith)) λ v _. returns tt)
        (λ _. returns tt)

  parse_order-Ensures :
      (b : Bool) (pos : ℕ) → Ensures (λ r. IsBelow (2 ^ 64) r.0) (parse_order b d pos)
  unfolding parse_order
  parse_order-Ensures b pos =
      branch b
        (λ _.
          bind (ensure_len-Ensures d pos 8)
            λ _ h. bind (from_le_bytes-Ensures s 8 pos h) λ co small. returns small)
        (λ _. returns tt)

  parse_charset-Ensures : (b : Bool) (pos : ℕ) → Returns (parse_charset b d pos)
  unfolding parse_charset
  parse_charset-Ensures b pos =
      branch b
        (λ _. bind (ensure_len-Ensures d pos 1) λ _ h.
          bind (index-Ensures s pos (omega arith)) λ cs _.
            branch (cs == 0) (λ _. returns tt)
              λ _. branch (cs == 1) (λ _. returns tt) λ _. fails tt)
        (λ _. returns tt)

  parse_target-Ensures : (code pos n : ℕ) → Ensures (IsReached n) (parse_target code d pos n)
  unfolding parse_target
  parse_target-Ensures code pos n =
      branch (code == 0) (λ _. bind (read_offset-Ensures s pos n) λ a f. returns f.fits)
        λ _.
          branch (code == 1)
            (λ _. bind (ensure_len-Ensures d pos 2) λ _ h.
              bind (from_le_bytes-Ensures s 2 pos h) λ k _.
                bind (ensure_len-Ensures d (pos + 2) k) λ _ h'.
                  bind (slice-Ensures s (pos + 2) (pos + 2 + k) (omega arith) h')
                    λ path _. returns tt)
            λ _.
              branch (code == 64)
                (λ _. bind (ensure_len-Ensures d pos 2) λ _ h.
                  bind (from_le_bytes-Ensures s 2 pos h) λ k _.
                    bind (ensure_len-Ensures d (pos + 2) k) λ _ h'.
                      bind (slice-Ensures s (pos + 2) (pos + 2 + k) (omega arith) h')
                        λ ext q. parse_external-Ensures q.0 n)
                λ _. fails tt

  -- For every message and address size, `parse` returns `Ok` or `Err` and never panics; in a link
  -- that it returns the creation order fits 64 bits, and the address of a hard link fits
  -- `offset_size` bytes.
  pub link_parse-Ensures :
      (n : ℕ)
      → Ensures (λ m. IsBelow (2 ^ 64) m.creation_order × IsReached n m.link_target) (parse d n)
  unfolding parse
  link_parse-Ensures n = bind (ensure_len-Ensures d 0 2) λ _ h.
      bind (index-Ensures s 0 (omega arith)) λ version _. bind (guarded (version == 1) _) λ _ _.
        bind (index-Ensures s 1 (omega arith)) λ flags _.
          bind (parse_type-Ensures (bit_set flags 0x08) 2) λ ty _.
            bind (parse_order-Ensures (bit_set flags 0x04) ty.1) λ order small.
              bind (parse_charset-Ensures (bit_set flags 0x10) order.1) λ cs _.
                bind (read_offset-Ensures s cs.1 (name_field_width flags)) λ k _.
                  bind (ensure_len-Ensures d (cs.1 + name_field_width flags) k) λ _ room.
                    bind
                      (slice-Ensures s (cs.1 + name_field_width flags)
                        (cs.1 + name_field_width flags + k) (omega arith) room)
                      λ name _.
                        bind (parse_target-Ensures ty.0 (cs.1 + name_field_width flags + k) n)
                          λ target reached. returns (small, reached)
