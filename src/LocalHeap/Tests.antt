-- ===== src/LocalHeap/Tests.antt =====
-- Runs of the local heap code, and its theorems at a concrete heap.
use rustyhdf.Prelude.{ℕ, ◌+◌, ◌≡◌, refl, arith, List, [], ◌∷◌, true, false}
use rustyhdf.Outcome.{ok, err, add_usize, unexpected_eof}
use rustyhdf.Outcome.Ensures.{Ensures}
use rustyhdf.Bytes.{index, slice, from_le_bytes}
use rustyhdf.Utils.{ensure_len, read_u64_info, read_offset}
use rustyhdf.LocalHeap.{LocalHeap, parse, find_null, guard_eof, read_string}
use rustyhdf.LocalHeap.Utf8.{is_utf8}
use rustyhdf.LocalHeap.Safety.{IsName, read_string-IsName}

program : Unit {0}
unfolding add_usize index slice from_le_bytes ensure_len read_u64_info read_offset find_null
    read_string parse is_utf8 guard_eof
program = tt

-- A heap whose data segment, of six bytes, starts at 14.
abbrev heap_bytes : List ℕ
heap_bytes =
    b'H' ∷ b'E' ∷ b'A' ∷ b'P' ∷ 0 ∷ 0 ∷ 0 ∷ 0 ∷ 6 ∷ 0 ∷ 1 ∷ 0 ∷ 14 ∷ 0 ∷ 0 ∷ b'a' ∷ b'b' ∷ 0 ∷ b'c'
    ∷ b'd' ∷ []

abbrev heap : LocalHeap
heap = record { data_segment_size = 6; free_list_head_offset = 1; data_segment_address = 14 }

parse-heap : parse heap_bytes 0 2 2 ≡ ok heap
unfolding program
parse-heap = refl

read_ab : read_string heap heap_bytes 1 ≡ ok (b'a' ∷ b'b' ∷ [])
unfolding program
read_ab = refl

read_unterminated : read_string heap heap_bytes 4 ≡ err (unexpected_eof 21 20)
unfolding program
read_unterminated = refl

utf8_euro : is_utf8 (0xe2 ∷ 0x82 ∷ 0xac ∷ 0x20 ∷ []) ≡ true
unfolding program
utf8_euro = refl

utf8_overlong : is_utf8 (0xc0 ∷ 0x80 ∷ []) ≡ false
unfolding program
utf8_overlong = refl

read_string-IsName_example :
    Ensures (IsName heap_bytes (14 + 1) (14 + 6)) (read_string heap heap_bytes 1)
read_string-IsName_example =
    read_string-IsName {d = heap_bytes} (record { bytes = omega arith; sized = omega arith }) heap 1
      (omega arith) (omega arith)
