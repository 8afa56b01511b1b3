-- ===== src/Utils/Safety.antt =====
-- On a Rust slice the shared reads never panic, and what they return fits its width.
use rustyhdf.Prelude.{ℕ, ◌+◌, ◌-◌, ◌*◌, ◌/◌, ◌^◌, ◌<◌, ◌≤◌, ◌≡◌, arith, List, length}
use rustyhdf.Prelude.{leb, ltb, ◌==◌, ◌&&◌}
use rustyhdf.Outcome.{FormatError, usize_mod, invalid_offset_size}
use rustyhdf.Outcome.Ensures.{Ensures, Returns, returns, fails, bind, branch, weaken, guarded}
use rustyhdf.Outcome.Ensures.{add_usize-Ensures, sub_usize-Ensures}
use rustyhdf.Bytes.{IsSlice}
use rustyhdf.Bytes.Reads.{index-Ensures, slice-Ensures, from_le_bytes-Ensures}
use rustyhdf.Checksum.Total.{jenkins_lookup3-Ensures}
use rustyhdf.Utils.{ensure_len, read_u64_info, read_offset, is_undefined_bytes, pad8}
use rustyhdf.Utils.{check_checksum}

pub ensure_len-Ensures :
    (d : List ℕ) (offset needed : ℕ)
    → Ensures (λ _. offset + needed ≤ length d) (ensure_len d offset needed)
unfolding ensure_len
ensure_len-Ensures d offset needed =
    weaken (guarded (ltb (offset + needed) usize_mod && leb (offset + needed) (length d)) _)
      (λ _ e. ground arith)

-- The value of a field of `size` bytes, which lies inside the slice.
pub record IsField (d : List ℕ) (pos size v : ℕ) : Type 0 where
  pub inside : pos + size ≤ length d
  pub small : v < usize_mod
  pub fits : v < 256 ^ size

module _ {d : List ℕ} (s : IsSlice d) where
  pub read_u64_info-Ensures :
      (pos size : ℕ) (e : FormatError) → Ensures (IsField d pos size) (read_u64_info d pos size e)
  unfolding read_u64_info
  read_u64_info-Ensures pos size e = bind (ensure_len-Ensures d pos size) λ _ inside.
      bind (slice-Ensures s pos (pos + size) (omega arith) inside) λ t q.
        branch (size == 1)
          (λ e₁.
            let k : size ≡ 1 = ground arith in
            weaken (index-Ensures q.0 0 (omega (arith, q.1)))
              (λ v h. record { inside = inside; small = omega arith; fits = rw k (omega arith) }))
          λ _.
            branch (size == 2)
              (λ e₂.
                let k : size ≡ 2 = ground arith in
                weaken (from_le_bytes-Ensures q.0 2 0 (omega (arith, q.1))) (λ v h. record {
                  inside = inside;
                  small = omega arith;
                  fits = rw k (omega arith);
                }))
              λ _.
                branch (size == 4)
                  (λ e₃.
                    let k : size ≡ 4 = ground arith in
                    weaken (from_le_bytes-Ensures q.0 4 0 (omega (arith, q.1))) (λ v h. record {
                      inside = inside;
                      small = omega arith;
                      fits = rw k (omega arith);
                    }))
                  λ _.
                    branch (size == 8)
                      (λ e₄.
                        let k : size ≡ 8 = ground arith in
                        weaken (from_le_bytes-Ensures q.0 8 0 (omega (arith, q.1))) (λ v h. record {
                          inside = inside;
                          small = omega arith;
                          fits = rw k (omega arith);
                        }))
                      λ _. fails tt

  pub read_offset-Ensures : (pos size : ℕ) → Ensures (IsField d pos size) (read_offset d pos size)
  unfolding read_offset
  read_offset-Ensures pos size = read_u64_info-Ensures pos size (invalid_offset_size size)

  pub is_undefined_bytes-Ensures :
      (pos size : ℕ) → pos + size < usize_mod → Returns (is_undefined_bytes d pos size)
  unfolding is_undefined_bytes
  is_undefined_bytes-Ensures pos size h = bind (add_usize-Ensures pos size h) λ end e.
      branch (ltb (length d) end) (λ _. returns tt)
        λ inside. bind (slice-Ensures s pos end (omega (arith, e)) (ground arith)) λ t _. returns tt

  -- The only way to a panic is `end - offset + 4` past `usize::MAX`.
  pub check_checksum-Ensures :
      (offset end : ℕ)
      → offset ≤ end
      → end - offset + 4 < usize_mod
      → Ensures (λ _. end + 4 ≤ length d) (check_checksum d offset end)
  unfolding check_checksum
  check_checksum-Ensures offset end h small = bind (sub_usize-Ensures end offset h) λ size e.
      bind (add_usize-Ensures size 4 (omega (arith, e))) λ needed e'.
        bind (ensure_len-Ensures d offset needed) λ _ inside.
          bind (from_le_bytes-Ensures s 4 end (omega arith)) λ stored _.
            bind (slice-Ensures s offset end h (omega arith)) λ covered q.
              bind (jenkins_lookup3-Ensures q.0)
                λ computed _. weaken (guarded (computed == stored) _) (λ _ _. omega arith)

-- Padding gives the least multiple of 8 that is not below the size.
pub pad8-Ensures :
    (x : ℕ) → x + 7 < usize_mod → Ensures (λ y. (x ≤ y) × (y < x + 8) × (8 * (y / 8) ≡ y)) (pad8 x)
unfolding pad8
pad8-Ensures x h =
    bind (add_usize-Ensures x 7 h) λ y e. returns (omega arith, omega arith, omega arith)
