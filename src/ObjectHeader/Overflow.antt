-- ===== src/ObjectHeader/Overflow.antt =====
-- The header that makes the parser panic: a chunk size close to 2 ^ 64.
use rustyhdf.Prelude.{ℕ, ◌+◌, ◌-◌, ◌^◌, ◌<◌, ◌≤◌, ◌≡◌, refl, arith, List, ◌∷◌, ◌++◌, length}
use rustyhdf.Prelude.{lt→ltb}
use rustyhdf.Outcome.{panic, usize_mod, add_usize, sub_usize}
use rustyhdf.Bytes.{index, to_le}
use rustyhdf.Bytes.Cursor.{Cursor-start, slice_at}
use rustyhdf.Utils.{bit_set, check_checksum}
use rustyhdf.Utils.Values.{eight, ensure_len_lem, read_offset_at}
use rustyhdf.ObjectHeader.{parse}
use rustyhdf.ObjectHeader.Defs.{ohdr_signature}
use rustyhdf.ObjectHeader.V2.{read_times, skip_thresholds, chunk_size_width, parse_v2}

check_checksum_overflow :
    (d : List ℕ) (offset end : ℕ)
    → offset ≤ end
    → usize_mod ≤ end - offset + 4
    → check_checksum d offset end ≡ panic
unfolding check_checksum add_usize sub_usize
check_checksum_overflow d offset end h big = ground arith

module _ (size : ℕ) (t : List ℕ) (small : length t < 2 ^ 63) (lo : 2 ^ 64 - 18 ≤ size)
    (hi : size < 2 ^ 64 - 14) where
  abbrev pub huge : List ℕ
  huge = ohdr_signature ++ (2 ∷ 3 ∷ (to_le 8 size ++ t))

  fits : length huge < usize_mod
  fits = omega arith

  -- A version 2 header at the start of a file whose 8-byte chunk size lies between 2^64 - 18 and
  -- 2^64 - 15 makes `parse` panic: the size passes the check of the end of the chunk, and the
  -- checksum's range then overflows `usize`.
  pub huge_chunk_panics : (os ls : ℕ) → parse huge 0 os ls ≡ panic
  unfolding parse parse_v2 index read_times skip_thresholds chunk_size_width bit_set
  huge_chunk_panics os ls =
      rw
        (
          ensure_len_lem huge 0 4 (omega arith) fits,
          slice_at huge 0 4 ohdr_signature _ (Cursor-start huge) refl,
          ensure_len_lem huge 0 6 (omega arith) fits,
          read_offset_at huge fits 8 6 size t (eight refl) (omega arith)
              (record { rest = refl; inside = omega arith }),
          lt→ltb (14 + size) usize_mod (omega arith),
          check_checksum_overflow huge 0 (14 + size) (omega arith) (omega arith),
        )
        refl
