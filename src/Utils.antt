-- ===== src/Utils.antt =====
-- crates/rustyhdf5-format/src/utils.rs: bounds checks and the reads that every parser shares.
pub mod Safety
pub mod Values
use rustyhdf.Prelude.{ℕ, zero, suc, ◌+◌, ◌-◌, ◌*◌, ◌/◌, ◌^◌, Bool, true, false, List, [], ◌∷◌}
use rustyhdf.Prelude.{length, take, min, leb, ltb, ◌==◌, ◌&&◌, ◌||◌, not, if◌then◌else◌, bit_and}
use rustyhdf.Outcome.{FormatError, Outcome, ok, err, panic, ◌>>=◌, ◌>>◌, guard}
use rustyhdf.Outcome.{usize_mod, add_usize, sub_usize}
use rustyhdf.Outcome.{unexpected_eof, invalid_offset_size, chunked_read_error, checksum_mismatch}
use rustyhdf.Bytes.{index, slice, le_value, from_le_bytes}
use rustyhdf.Checksum.{jenkins_lookup3}

-- `flags & mask != 0`
unfoldable pub bit_set : ℕ → ℕ → Bool
bit_set flags mask = not (bit_and flags mask == 0)

-- `checked_add` gives `None` on overflow; `saturating_add` stops at `usize::MAX`.
unfoldable pub ensure_len : List ℕ → ℕ → ℕ → Outcome (Unit {0})
ensure_len d offset needed =
    let end = offset + needed in
    guard (ltb end usize_mod && leb end (length d))
      (unexpected_eof (min end (usize_mod - 1)) (length d))

-- The `match size` of `read_u64_info`.
unfoldable pub read_width : List ℕ → ℕ → FormatError → Outcome ℕ
read_width t size e =
    if size == 1
    then index t 0
    else if size == 2
    then from_le_bytes 2 t 0
    else if size == 4
    then from_le_bytes 4 t 0
    else if size == 8
    then from_le_bytes 8 t 0
    else err e

unfoldable pub read_u64_info : List ℕ → ℕ → ℕ → FormatError → Outcome ℕ
unfolding read_width
read_u64_info d pos size e = do
  ensure_len d pos size
  t ← slice d pos (pos + size)
  read_width t size e

unfoldable pub read_offset : List ℕ → ℕ → ℕ → Outcome ℕ
read_offset d pos size = read_u64_info d pos size (invalid_offset_size size)

unfoldable pub is_undefined_offset : ℕ → ℕ → Bool
is_undefined_offset val offset_size =
    if offset_size == 2
    then val == 0xffff
    else if offset_size == 4
    then val == 0xffff_ffff
    else if offset_size == 8
    then val == 0xffff_ffff_ffff_ffff
    else false

-- `iter().all(|&b| b == 0xFF)`
unfoldable pub all_ff : List ℕ → Bool
all_ff [] = true
all_ff (b ∷ bs) = b == 0xff && all_ff bs

unfoldable pub is_undefined_bytes : List ℕ → ℕ → ℕ → Outcome Bool
is_undefined_bytes d pos size = do
  end ← add_usize pos size
  if ltb (length d) end then ok false else (do t ← slice d pos end; ok (all_ff t))

-- The loop ors each byte into its own place, which is the sum.
unfoldable pub read_variable_length : List ℕ → ℕ → Outcome ℕ
read_variable_length d size =
    if ltb 8 size || ltb (length d) size
    then err (chunked_read_error "invalid variable-length size")
    else ok (le_value (take size d))

-- `(x + 7) & !7`: the mask clears the lowest three bits.
unfoldable pub pad8 : ℕ → Outcome ℕ
pad8 x = do y ← add_usize x 7; ok (y / 8 * 8)

-- `checksum_mismatch`: an error unless the checksum stored at `end` is that of the bytes before it.
unfoldable pub check_checksum : List ℕ → ℕ → ℕ → Outcome (Unit {0})
check_checksum d offset end = do
  size ← sub_usize end offset
  needed ← add_usize size 4
  ensure_len d offset needed
  stored ← from_le_bytes 4 d end
  covered ← slice d offset end
  computed ← jenkins_lookup3 covered
  guard (computed == stored) (checksum_mismatch stored computed)
