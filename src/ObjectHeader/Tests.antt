-- ===== src/ObjectHeader/Tests.antt =====
-- Runs of the object header code, and its theorems at concrete headers.
use rustyhdf.Prelude.{ℕ, ◌+◌, ◌%◌, ◌≡◌, ◌≢◌, refl, arith, List, [], ◌∷◌, none, some}
use rustyhdf.Outcome.{ok, panic}
use rustyhdf.Outcome.Ensures.{Ensures}
use rustyhdf.Bytes.{IsSlice, index, slice, from_le_bytes}
use rustyhdf.Utils.{ensure_len, bit_set}
use rustyhdf.MessageType.{from_u16, is_nil, is_continuation, datatype}
use rustyhdf.ObjectHeader.{parse}
use rustyhdf.ObjectHeader.Defs.{check_known}
use rustyhdf.ObjectHeader.V1.{follow, kept, v1_messages, parse_v1_continuation, parse_v1}
use rustyhdf.ObjectHeader.V1Safety.{AreMessages}
use rustyhdf.ObjectHeader.Total.{header_parse-IsMessage}
use rustyhdf.ObjectHeader.Overflow.{huge_chunk_panics}

-- A version 1 header with one datatype message of two bytes and a nil message.
abbrev v1_bytes : List ℕ
v1_bytes =
    1 ∷ 0 ∷ 2 ∷ 0 ∷ 1 ∷ 0 ∷ 0 ∷ 0 ∷ 18 ∷ 0 ∷ 0 ∷ 0 ∷ 0 ∷ 0 ∷ 0 ∷ 0 ∷ 3 ∷ 0 ∷ 2 ∷ 0 ∷ 0 ∷ 0 ∷ 0 ∷ 0
    ∷ 5 ∷ 6 ∷ 0 ∷ 0 ∷ 0 ∷ 0 ∷ 0 ∷ 0 ∷ 0 ∷ 0 ∷ []

parse_v1_bytes :
    parse_v1 v1_bytes 0 8 8
    ≡ ok (record {
      version = 1;
      messages =
          record {
            msg_type = datatype;
            size = 2;
            flags = 0;
            creation_order = none;
            contents = 5 ∷ 6 ∷ [];
          }
          ∷ [];
      reference_count = some 1;
      flags = 0;
      access_time = none;
      modification_time = none;
      change_time = none;
      birth_time = none;
    })
unfolding index slice from_le_bytes ensure_len bit_set from_u16 is_nil is_continuation check_known
    follow kept v1_messages parse_v1_continuation parse_v1
parse_v1_bytes = refl

v1-IsSlice : IsSlice v1_bytes
v1-IsSlice = record { bytes = omega arith; sized = omega arith }

-- A version 2 header with one datatype message of two bytes, cut off behind it.
abbrev v2_bytes : List ℕ
v2_bytes = b'O' ∷ b'H' ∷ b'D' ∷ b'R' ∷ 2 ∷ 0 ∷ 6 ∷ 3 ∷ 2 ∷ 0 ∷ 0 ∷ 5 ∷ 6 ∷ []

v2-IsSlice : IsSlice v2_bytes
v2-IsSlice = record { bytes = omega arith; sized = omega arith }

v2_narrow : (flags : ℕ) → index v2_bytes (0 + 5) ≡ ok flags → flags % 4 ≢ 3
unfolding index
v2_narrow flags e = let same : 0 ≡ flags = cc in omega arith

header_parse-IsMessage_example : Ensures (λ h. AreMessages h.messages) (parse v2_bytes 0 8 8)
header_parse-IsMessage_example =
    header_parse-IsMessage {d = v2_bytes} 0 8 8 v2-IsSlice (λ _. v2_narrow)

huge_chunk_panics_example :
    parse
      (b'O' ∷ b'H' ∷ b'D' ∷ b'R' ∷ 2 ∷ 3 ∷ 0xf0 ∷ 255 ∷ 255 ∷ 255 ∷ 255 ∷ 255 ∷ 255 ∷ 255 ∷ 9 ∷ [])
      0
      8
      8
    ≡ panic
huge_chunk_panics_example =
    huge_chunk_panics 0xffff_ffff_ffff_fff0 (9 ∷ []) (omega arith) (omega arith) (omega arith) 8 8
