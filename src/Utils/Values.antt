-- ===== src/Utils/Values.antt =====
-- What the shared reads return on data that holds a field at a known place.
use rustyhdf.Prelude.{ℕ, ◌+◌, ◌^◌, ◌<◌, ◌≤◌, ◌≡◌, arith, List, [], ◌++◌, length, append-nil}
use rustyhdf.Outcome.{FormatError, ok, usize_mod, invalid_offset_size}
use rustyhdf.Bytes.{index, to_le, from_le_bytes}
use rustyhdf.Bytes.Laws.{length-to_le}
use rustyhdf.Bytes.Cursor.{Cursor, Cursor-start, Cursor-room, slice_at, from_le_bytes_at}
use rustyhdf.Checksum.{jenkins_lookup3}
use rustyhdf.Outcome.{add_usize, sub_usize}
use rustyhdf.Prelude.{==_refl, refl}
use rustyhdf.Bytes.Cursor.{Cursor-step}
use rustyhdf.Utils.{check_checksum, ensure_len, read_width, read_u64_info, read_offset}
use mathlib.Core.Path.{subst, sym, ap}
use native.Mathlib.Nat.{mod-eq_of_lt}

-- The widths of addresses and lengths that the format allows.
pub data IsWidth : ℕ → Type 0 where
  two : {n : ℕ} → n ≡ 2 → IsWidth n
  four : {n : ℕ} → n ≡ 4 → IsWidth n
  eight : {n : ℕ} → n ≡ 8 → IsWidth n

-- The widths that `read_u64_info` reads.
pub data IsReadable : ℕ → Type 0 where
  one : {n : ℕ} → n ≡ 1 → IsReadable n
  wide : {n : ℕ} → IsWidth n → IsReadable n

pub ensure_len_lem :
    (d : List ℕ) (offset needed : ℕ)
    → offset + needed ≤ length d
    → length d < usize_mod
    → ensure_len d offset needed ≡ ok tt
unfolding ensure_len
ensure_len_lem d offset needed h k = ground arith

-- The whole of the data is one number.
pub whole : (n v : ℕ) → v < 256 ^ n → from_le_bytes n (to_le n v) 0 ≡ ok v
whole n v fits =
    from_le_bytes_at (to_le n v) n 0 v []
      (subst (Cursor (to_le n v) 0) (sym (append-nil (to_le n v))) (Cursor-start (to_le n v))) fits

read_width_whole :
    (n v : ℕ) (e : FormatError) → IsReadable n → v < 256 ^ n → read_width (to_le n v) n e ≡ ok v
unfolding read_width index
read_width_whole n v e (one w) fits =
    let h : v < 256 ^ 1 = subst (λ k. v < 256 ^ k) w fits in
    rw w (ap ok (mod-eq_of_lt (omega arith)))
read_width_whole n v e (wide (two w)) fits = rw w (rw w at (whole n v fits))
read_width_whole n v e (wide (four w)) fits = rw w (rw w at (whole n v fits))
read_width_whole n v e (wide (eight w)) fits = rw w (rw w at (whole n v fits))

module _ (d : List ℕ) (small : length d < usize_mod) (n a v : ℕ) (t : List ℕ) where
  -- The field that was written is the field that is read.
  pub read_u64_info_at :
      (e : FormatError)
      → IsReadable n
      → v < 256 ^ n
      → Cursor d a (to_le n v ++ t)
      → read_u64_info d a n e ≡ ok v
  unfolding read_u64_info
  read_u64_info_at e w fits c =
      rw
        (
          ensure_len_lem d a n (Cursor-room d a n (to_le n v) t c (length-to_le n v)) small,
          slice_at d a (a + n) (to_le n v) t c (omega (arith, length-to_le n v)),
        )
        (read_width_whole n v e w fits)

  pub read_offset_at :
      IsWidth n → v < 256 ^ n → Cursor d a (to_le n v ++ t) → read_offset d a n ≡ ok v
  unfolding read_offset
  read_offset_at w fits c = read_u64_info_at (invalid_offset_size n) (wide w) fits c

  pub read_offset_at_any :
      IsReadable n → v < 256 ^ n → Cursor d a (to_le n v ++ t) → read_offset d a n ≡ ok v
  unfolding read_offset
  read_offset_at_any w fits c = read_u64_info_at (invalid_offset_size n) w fits c

pub sub_usize_lem : (a b c : ℕ) → a + b ≡ c → sub_usize c a ≡ ok b
unfolding sub_usize
sub_usize_lem a b c h = ground arith

pub add_usize_lem : (a b : ℕ) → a + b < usize_mod → add_usize a b ≡ ok (a + b)
unfolding add_usize
add_usize_lem a b h = ground arith

-- The checksum that was written behind some bytes is accepted.
pub check_checksum_at :
    (d : List ℕ) (a b : ℕ) (x : List ℕ) (c : ℕ) (t : List ℕ)
    → length d < usize_mod
    → Cursor d a (x ++ (to_le 4 c ++ t))
    → a + length x ≡ b
    → jenkins_lookup3 x ≡ ok c
    → c < 256 ^ 4
    → check_checksum d a b ≡ ok tt
unfolding check_checksum
check_checksum_at d a b x c t small at e hash hc =
    let behind : Cursor d b (to_le 4 c ++ t) = Cursor-step d a b x (to_le 4 c ++ t) at e in
    let room : b + 4 ≤ length d = Cursor-room d b 4 (to_le 4 c) t behind refl in
    rw
      (
        sub_usize_lem a (length x) b e,
        add_usize_lem (length x) 4 (omega arith),
        ensure_len_lem d a (length x + 4) (omega arith) small,
        from_le_bytes_at d 4 b c t behind hc,
        slice_at d a b x (to_le 4 c ++ t) at e,
        hash,
        ==_refl c,
      )
      refl
