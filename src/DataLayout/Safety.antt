-- ===== src/DataLayout/Safety.antt =====
-- Parsing a data layout always returns, and the layout that it returns is bounded by its fields.
use rustyhdf.Prelude.{ℕ, zero, suc, ◌+◌, ◌*◌, ◌^◌, ◌<◌, ◌≤◌, ◌≡◌, refl, ap, arith, List, length}
use rustyhdf.Prelude.{All, Option, none, some, ◌==◌}
use rustyhdf.Outcome.Ensures.{Ensures, returns, fails, bind, branch, weaken}
use rustyhdf.Bytes.{IsSlice}
use rustyhdf.Bytes.Reads.{index-Ensures, slice-Ensures, from_le_bytes-Ensures}
use rustyhdf.Utils.{bit_set}
use rustyhdf.Utils.Safety.{ensure_len-Ensures, read_offset-Ensures, is_undefined_bytes-Ensures}
use rustyhdf.DataLayout.{Chunking, DataLayout, compact, contiguous, chunked, virtual}
use rustyhdf.DataLayout.{IndexFields, read_length, read_address, parse_compact, parse_contiguous}
use rustyhdf.DataLayout.{read_dim, read_dims, parse_chunk_dims, parse_btree_address}
use rustyhdf.DataLayout.{parse_chunked_v3, parse_v3, just_address, single_filtered, parse_index}
use rustyhdf.DataLayout.{parse_chunked_v4, parse_v4, parse}

abbrev pub IsBelow : ℕ → Option ℕ → Type 0
IsBelow n none = Unit {0}
IsBelow n (some v) = v < n

-- At most 255 sizes of 32 bits, an address and a filtered size of their widths, and a mask of 32
-- bits.
pub record IsChunking (offset_size length_size : ℕ) (c : Chunking) : Type 0 where
  pub rank : length c.chunk_dimensions < 256
  pub dimensions : All (λ v. v < 2 ^ 32) c.chunk_dimensions
  pub address : IsBelow (256 ^ offset_size) c.btree_address
  pub filtered : IsBelow (256 ^ length_size) c.single_chunk_filtered_size
  pub mask : IsBelow (2 ^ 32) c.single_chunk_filter_mask

abbrev pub IsLayout : ℕ → ℕ → DataLayout → Type 0
IsLayout offset_size length_size (compact raw) = length raw < 2 ^ 16
IsLayout offset_size length_size (contiguous a size) =
    IsBelow (256 ^ offset_size) a × (size < 256 ^ length_size)
IsLayout offset_size length_size (chunked c) = IsChunking offset_size length_size c
IsLayout offset_size length_size (virtual v) = v ≡ 4

pub record IsIndex (offset_size length_size : ℕ) (f : IndexFields) : Type 0 where
  pub filtered : IsBelow (256 ^ length_size) f.filtered_size
  pub mask : IsBelow (2 ^ 32) f.filter_mask
  pub at : IsBelow (256 ^ offset_size) f.address

module _ {d : List ℕ} (s : IsSlice d) where
  read_address-Ensures :
      (pos size : ℕ)
      → pos + size ≤ length d
      → Ensures (IsBelow (256 ^ size)) (read_address d pos size)
  unfolding read_address
  read_address-Ensures pos size inside =
      bind (is_undefined_bytes-Ensures s pos size (omega (arith, s.sized))) λ undefined _.
        branch undefined (λ _. returns tt)
          λ _. bind (read_offset-Ensures s pos size) λ a f. returns f.fits

  parse_compact-Ensures : (pos n m : ℕ) → Ensures (IsLayout n m) (parse_compact d pos)
  unfolding parse_compact
  parse_compact-Ensures pos n m = bind (ensure_len-Ensures d pos 2) λ _ h.
      bind (from_le_bytes-Ensures s 2 pos h) λ data_size small.
        bind (ensure_len-Ensures d (pos + 2) data_size) λ _ k.
          bind (slice-Ensures s (pos + 2) (pos + 2 + data_size) (omega arith) k)
            λ raw q. returns (omega (arith, q.1))

  parse_contiguous-Ensures : (pos n m : ℕ) → Ensures (IsLayout n m) (parse_contiguous d pos n m)
  unfolding parse_contiguous read_length
  parse_contiguous-Ensures pos n m = bind (ensure_len-Ensures d pos (n + m)) λ _ h.
      bind (read_address-Ensures pos n (omega arith))
        λ address below. bind (read_offset-Ensures s (pos + n) m) λ size f. returns (below, f.fits)

  read_dim-Ensures :
      (pos size : ℕ) → pos + size ≤ length d → Ensures (λ v. v < 2 ^ 32) (read_dim d pos size)
  unfolding read_dim
  read_dim-Ensures pos size h =
      branch (size == 1)
        (λ e.
          let k : size ≡ 1 = ground arith in
          weaken (index-Ensures s pos (omega arith)) (λ v b. omega arith))
        λ _.
          branch (size == 2)
            (λ e.
              let k : size ≡ 2 = ground arith in
              weaken (from_le_bytes-Ensures s 2 pos (omega arith)) (λ v b. omega arith))
            λ _.
              branch (size == 4)
                (λ e.
                  let k : size ≡ 4 = ground arith in
                  weaken (from_le_bytes-Ensures s 4 pos (omega arith)) (λ v b. omega arith))
                λ _.
                  branch (size == 8)
                    (λ e.
                      let k : size ≡ 8 = ground arith in
                      weaken (from_le_bytes-Ensures s 4 pos (omega arith)) (λ v b. omega arith))
                    λ _. fails tt

  -- The loop stays inside what the one check before it covers.
  read_dims-Ensures :
      (ndims pos size : ℕ)
      → pos + ndims * size ≤ length d
      → Ensures
          (λ r. (length r.0 ≡ ndims) × All (λ v. v < 2 ^ 32) r.0 × (r.1 ≡ pos + ndims * size))
          (read_dims ndims d pos size)
  unfolding read_dims
  read_dims-Ensures zero pos size h = returns (refl, tt, omega arith)
  read_dims-Ensures (suc ndims) pos size h =
      bind (read_dim-Ensures pos size (grind arith)) λ v small.
        bind (read_dims-Ensures ndims (pos + size) size (grind arith))
          λ r t. returns (ap suc t.0, (small, t.1), grind arith)

  parse_chunk_dims-Ensures :
      (pos ndims size : ℕ)
      → Ensures
          (λ r. (length r.0 ≡ ndims) × All (λ v. v < 2 ^ 32) r.0 × (r.1 ≡ pos + ndims * size))
          (parse_chunk_dims d pos ndims size)
  unfolding parse_chunk_dims
  parse_chunk_dims-Ensures pos ndims size =
      bind (ensure_len-Ensures d pos (ndims * size)) λ _ h. read_dims-Ensures ndims pos size h

  parse_btree_address-Ensures :
      (pos n skip : ℕ) → Ensures (λ r. IsBelow (256 ^ n) r.0) (parse_btree_address d pos n skip)
  unfolding parse_btree_address
  parse_btree_address-Ensures pos n skip =
      bind (ensure_len-Ensures d pos (skip + n))
        λ _ h. bind (read_address-Ensures (pos + skip) n (omega arith)) λ a below. returns below

  parse_chunked_v3-Ensures : (pos n m : ℕ) → Ensures (IsLayout n m) (parse_chunked_v3 d pos n)
  unfolding parse_chunked_v3
  parse_chunked_v3-Ensures pos n m = bind (ensure_len-Ensures d pos 1) λ _ h.
      bind (index-Ensures s pos (omega arith)) λ ndims byte.
        bind (parse_btree_address-Ensures (pos + 1) n 0) λ a below.
          bind (parse_chunk_dims-Ensures a.1 ndims 4) λ dims h'. returns (record {
            rank = omega (arith, h'.0);
            dimensions = h'.1;
            address = below;
            filtered = tt;
            mask = tt;
          })

  just_address-Ensures : (p n m skip : ℕ) → Ensures (IsIndex n m) (just_address d p n skip)
  unfolding just_address
  just_address-Ensures p n m skip =
      bind (parse_btree_address-Ensures p n skip)
        λ a below. returns (record { filtered = tt; mask = tt; at = below })

  single_filtered-Ensures : (p n m : ℕ) → Ensures (IsIndex n m) (single_filtered d p n m)
  unfolding single_filtered read_length
  single_filtered-Ensures p n m = bind (ensure_len-Ensures d p (m + 4 + n)) λ _ h.
      bind (read_offset-Ensures s p m) λ size f.
        bind (from_le_bytes-Ensures s 4 (p + m) (omega arith)) λ mask small.
          bind (parse_btree_address-Ensures (p + m + 4) n 0)
            λ a below. returns (record { filtered = f.fits; mask = small; at = below })

  parse_index-Ensures :
      (p flags kind n m : ℕ) → Ensures (IsIndex n m) (parse_index d p flags kind n m)
  unfolding parse_index
  parse_index-Ensures p flags kind n m =
      branch (kind == 1)
        (λ _.
          branch (bit_set flags 0x02) (λ _. single_filtered-Ensures p n m)
            λ _. just_address-Ensures p n m 0)
        λ _.
          branch (kind == 3) (λ _. just_address-Ensures p n m 1)
            λ _.
              branch (kind == 4) (λ _. just_address-Ensures p n m 5)
                λ _.
                  branch (kind == 5) (λ _. just_address-Ensures p n m 6)
                    λ _. just_address-Ensures p n m 0

  parse_chunked_v4-Ensures : (pos n m : ℕ) → Ensures (IsLayout n m) (parse_chunked_v4 d pos n m)
  unfolding parse_chunked_v4
  parse_chunked_v4-Ensures pos n m = bind (ensure_len-Ensures d pos 3) λ _ h.
      bind (index-Ensures s pos (omega arith)) λ flags _.
        bind (index-Ensures s (pos + 1) (omega arith)) λ ndims byte.
          bind (index-Ensures s (pos + 2) (omega arith)) λ size _.
            bind (parse_chunk_dims-Ensures (pos + 3) ndims size) λ dims k.
              bind (ensure_len-Ensures d dims.1 1) λ _ room.
                bind (index-Ensures s dims.1 (omega arith)) λ kind _.
                  bind (parse_index-Ensures (dims.1 + 1) flags kind n m) λ fields f.
                    returns (record {
                      rank = omega (arith, k.0);
                      dimensions = k.1;
                      address = f.at;
                      filtered = f.filtered;
                      mask = f.mask;
                    })

  parse_v3-Ensures : (class n m : ℕ) → Ensures (IsLayout n m) (parse_v3 d class n m)
  unfolding parse_v3
  parse_v3-Ensures class n m =
      branch (class == 0) (λ _. parse_compact-Ensures 2 n m)
        λ _.
          branch (class == 1) (λ _. parse_contiguous-Ensures 2 n m)
            λ _. branch (class == 2) (λ _. parse_chunked_v3-Ensures 2 n m) λ _. fails tt

  parse_v4-Ensures : (class n m : ℕ) → Ensures (IsLayout n m) (parse_v4 d class n m)
  unfolding parse_v4
  parse_v4-Ensures class n m =
      branch (class == 0) (λ _. parse_compact-Ensures 2 n m)
        λ _.
          branch (class == 1) (λ _. parse_contiguous-Ensures 2 n m)
            λ _.
              branch (class == 2) (λ _. parse_chunked_v4-Ensures 2 n m)
                λ _. branch (class == 3) (λ _. returns refl) λ _. fails tt

  -- For every message and all address and length sizes, `parse` returns `Ok` or `Err` and never
  -- panics. In a layout that it returns, compact data has fewer than 2^16 bytes, a chunk has at
  -- most 255 dimensions and each fits 32 bits, an address fits `offset_size` bytes, a size fits
  -- `length_size` bytes, a filter mask fits 32 bits, and the version of a virtual layout is 4.
  pub parse-IsLayout : (n m : ℕ) → Ensures (IsLayout n m) (parse d n m)
  unfolding parse
  parse-IsLayout n m = bind (ensure_len-Ensures d 0 2) λ _ h.
      bind (index-Ensures s 0 (omega arith)) λ version _.
        bind (index-Ensures s 1 (omega arith)) λ class _.
          branch (version == 3) (λ _. parse_v3-Ensures class n m)
            λ _. branch (version == 4) (λ _. parse_v4-Ensures class n m) λ _. fails tt
