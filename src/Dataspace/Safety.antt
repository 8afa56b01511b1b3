-- ===== src/Dataspace/Safety.antt =====
-- Parsing a dataspace always returns, and the shape that it returns is consistent.
use rustyhdf.Prelude.{ℕ, zero, suc, ◌+◌, ◌^◌, ◌<◌, ◌≤◌, ◌≡◌, refl, ap, arith, List, length}
use rustyhdf.Prelude.{All, Option, none, some, ◌==◌, ==_iff, ◌∙◌, sym, [], ◌++◌, append-nil}
use rustyhdf.Outcome.Ensures.{Ensures, Returns, returns, fails, bind, bind_eq, branch, weaken}
use rustyhdf.Outcome.{ok}
use rustyhdf.Bytes.{IsSlice, slice, from_le_bytes, le_value}
use rustyhdf.Bytes.Cursor.{Cursor, slice_at}
use rustyhdf.Bytes.Reads.{index-Ensures, slice-Ensures, from_le_bytes-Ensures}
use rustyhdf.Utils.{bit_set}
use rustyhdf.Utils.Safety.{ensure_len-Ensures}
use rustyhdf.Dataspace.{Dataspace, length_value, read_length, parse_dimensions, parse_header, parse}

-- There are `rank` sizes, of `length_size` bytes each, and as many maximal sizes, if any.
abbrev pub IsShape : ℕ → ℕ → List ℕ → Type 0
IsShape rank length_size dims = (length dims ≡ rank) × All (λ v. v < 256 ^ length_size) dims

abbrev pub IsMaxShape : ℕ → ℕ → Option (List ℕ) → Type 0
IsMaxShape rank length_size none = Unit {0}
IsMaxShape rank length_size (some dims) = IsShape rank length_size dims

pub record IsValid (length_size : ℕ) (s : Dataspace) : Type 0 where
  pub byte : s.rank < 256
  pub shape : IsShape s.rank length_size s.dimensions
  pub max_shape : IsMaxShape s.rank length_size s.max_dimensions

whole_value : (n : ℕ) (t : List ℕ) → length t ≡ n → from_le_bytes n t 0 ≡ ok (le_value t)
unfolding from_le_bytes
whole_value n t h =
    let all : Cursor t 0 (t ++ []) = record { rest = sym (append-nil t); inside = omega arith } in
    rw (slice_at t 0 (0 + n) t [] all (omega (arith, h))) refl

value_at :
    (d : List ℕ) (pos size : ℕ) (t : List ℕ)
    → slice d pos (pos + size) ≡ ok t
    → from_le_bytes size d pos ≡ ok (le_value t)
unfolding from_le_bytes
value_at d pos size t e = rw e refl

module _ {d : List ℕ} (s : IsSlice d) where
  pub read_length-Ensures :
      (pos size : ℕ)
      → Ensures (λ v. (v < 256 ^ size) × (pos + size ≤ length d)) (read_length d pos size)
  unfolding read_length
  read_length-Ensures pos size = bind (ensure_len-Ensures d pos size) λ _ inside.
      bind (slice-Ensures s pos (pos + size) (omega arith) inside) λ t q.
        branch (size == 2)
          (λ e.
            let k : size ≡ 2 = ground arith in
            weaken (from_le_bytes-Ensures q.0 2 0 (omega (arith, q.1))) (λ v h. (rw k h, inside)))
          λ _.
            branch (size == 4)
              (λ e.
                let k : size ≡ 4 = ground arith in
                weaken (from_le_bytes-Ensures q.0 4 0 (omega (arith, q.1)))
                  (λ v h. (rw k h, inside)))
              λ _.
                branch (size == 8)
                  (λ e.
                    let k : size ≡ 8 = ground arith in
                    weaken (from_le_bytes-Ensures q.0 8 0 (omega (arith, q.1)))
                      (λ v h. (rw k h, inside)))
                  λ _. fails tt

  -- The number that is read is the one that the bytes at `pos` stand for.
  pub read_length-value :
      (pos size : ℕ) → Ensures (λ v. from_le_bytes size d pos ≡ ok v) (read_length d pos size)
  unfolding read_length length_value
  read_length-value pos size = bind (ensure_len-Ensures d pos size) λ _ inside.
      bind_eq (slice d pos (pos + size)) (slice-Ensures s pos (pos + size) (omega arith) inside)
        λ t at q.
          branch (size == 2) (λ e. value_in 2 t at ((==_iff size 2).0 e) (omega (arith, q.1)))
            λ _.
              branch (size == 4) (λ e. value_in 4 t at ((==_iff size 4).0 e) (omega (arith, q.1)))
                λ _.
                  branch (size == 8)
                    (λ e. value_in 8 t at ((==_iff size 8).0 e) (omega (arith, q.1))) λ _. fails tt
    where
      value_in :
          (n : ℕ) (t : List ℕ)
          → slice d pos (pos + size) ≡ ok t
          → size ≡ n
          → length t ≡ size
          → Ensures (λ v. from_le_bytes size d pos ≡ ok v) (from_le_bytes n t 0)
      value_in n t at e l = rw (whole_value n t (l ∙ e)) (returns (value_at d pos size t at))

  parse_dimensions-Ensures :
      (rank pos size : ℕ) → Ensures (λ r. IsShape rank size r.0) (parse_dimensions rank d pos size)
  unfolding parse_dimensions
  parse_dimensions-Ensures zero pos size = returns (refl, tt)
  parse_dimensions-Ensures (suc rank) pos size = bind (read_length-Ensures pos size) λ v h.
      bind (parse_dimensions-Ensures rank (pos + size) size) λ r t. returns (ap suc t.0, (h.0, t.1))

  parse_header-Ensures : (version rank : ℕ) → 4 ≤ length d → Returns (parse_header d version rank)
  unfolding parse_header
  parse_header-Ensures version rank h =
      branch (version == 1)
        (λ _.
          bind (ensure_len-Ensures d 0 8)
            λ _ _. branch (rank == 0) (λ _. returns tt) (λ _. returns tt))
        λ _.
          branch (version == 2)
            (λ _. bind (index-Ensures s 3 (omega arith)) λ type_byte _.
              branch (type_byte == 0) (λ _. returns tt)
                λ _.
                  branch (type_byte == 1) (λ _. returns tt)
                    λ _. branch (type_byte == 2) (λ _. returns tt) λ _. fails tt)
            λ _. fails tt

  -- For every message, `parse` returns `Ok` or `Err` and never panics; a dataspace that it returns
  -- has exactly `rank` sizes (and as many maximal sizes, if it has any), each of which fits
  -- `length_size` bytes.
  pub dataspace_parse-IsValid :
      (length_size : ℕ) → Ensures (IsValid length_size) (parse d length_size)
  unfolding parse
  dataspace_parse-IsValid length_size = bind (ensure_len-Ensures d 0 4) λ _ h.
      bind (index-Ensures s 0 (omega arith)) λ version _.
        bind (index-Ensures s 1 (omega arith)) λ rank byte.
          bind (index-Ensures s 2 (omega arith)) λ flags _.
            bind (parse_header-Ensures version rank (omega arith)) λ kind _.
              bind (parse_dimensions-Ensures rank kind.1 length_size) λ dims shape.
                branch (bit_set flags 0x01)
                  (λ _.
                    bind (parse_dimensions-Ensures rank dims.1 length_size) λ max_dims max_shape.
                      returns (record { byte = byte; shape = shape; max_shape = max_shape }))
                  (λ _. returns (record { byte = byte; shape = shape; max_shape = tt }))
