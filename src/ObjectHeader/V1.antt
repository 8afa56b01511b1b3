-- ===== src/ObjectHeader/V1.antt =====
-- Version 1: messages one after the other, with the continuation blocks read in place.
use rustyhdf.Prelude.{ℕ, zero, suc, ◌+◌, ◌-◌, List, [], ◌∷◌, ◌++◌, length, none, some, min}
use rustyhdf.Prelude.{leb, ltb, ◌==◌, if◌then◌else◌}
use rustyhdf.Outcome.{Outcome, ok, err, stuck, ◌>>=◌, ◌>>◌, guard, usize_mod}
use rustyhdf.Outcome.{nesting_depth_exceeded, invalid_object_header_version}
use rustyhdf.Bytes.{index, slice, from_le_bytes}
use rustyhdf.Utils.{ensure_len, read_offset}
use rustyhdf.MessageType.{MessageType, from_u16, is_nil, is_continuation}
use rustyhdf.ObjectHeader.Defs.{HeaderMessage, ObjectHeader, check_known}

-- The messages of the block that a continuation message names; any other message names none, and
-- so does one that is too short for an offset and a length.
unfoldable pub follow :
    (ℕ → ℕ → Outcome (List HeaderMessage))
    → ℕ
    → ℕ
    → MessageType
    → List ℕ
    → Outcome (List HeaderMessage)
follow block offset_size length_size msg_type contents =
    if is_continuation msg_type
    then if leb (offset_size + length_size) (length contents)
      then (do
        cont_offset ← read_offset contents 0 offset_size
        cont_length ← read_offset contents offset_size length_size
        block cont_offset cont_length)
      else ok []
    else ok []

-- `messages.push(…)`, unless the message is nil.
unfoldable pub kept : MessageType → ℕ → ℕ → List ℕ → List HeaderMessage
kept msg_type size flags contents =
    if is_nil msg_type
    then []
    else (record {
      msg_type = msg_type;
      size = size;
      flags = flags;
      creation_order = none;
      contents = contents;
    }
        ∷ [])

-- `while pos + 8 <= end`, with fuel; `block` reads a continuation block.
unfoldable pub v1_messages :
    (ℕ → ℕ → Outcome (List HeaderMessage))
    → ℕ
    → List ℕ
    → ℕ
    → ℕ
    → ℕ
    → ℕ
    → Outcome (List HeaderMessage)
v1_messages block zero d pos end offset_size length_size = stuck
v1_messages block (suc fuel) d pos end offset_size length_size =
    if leb (pos + 8) end
    then (do
      msg_type_raw ← from_le_bytes 2 d pos
      msg_data_size ← from_le_bytes 2 d (pos + 2)
      msg_flags ← index d (pos + 4)
      if ltb end (pos + 8 + msg_data_size) then ok [] else (do
        let msg_type = from_u16 msg_type_raw
        check_known msg_type msg_flags
        contents ← slice d (pos + 8) (pos + 8 + msg_data_size)
        cont_msgs ← follow block offset_size length_size msg_type contents
        rest ← v1_messages block fuel d (pos + 8 + msg_data_size) end offset_size length_size
        ok (kept msg_type msg_data_size msg_flags contents ++ (cont_msgs ++ rest))))
    else ok []

-- The source counts the nesting itself. A round takes 8 bytes at least, so the fuel is enough.
unfoldable pub parse_v1_continuation : ℕ → List ℕ → ℕ → ℕ → ℕ → ℕ → Outcome (List HeaderMessage)
parse_v1_continuation zero d offset size offset_size length_size = err nesting_depth_exceeded
parse_v1_continuation (suc depth) d offset size offset_size length_size = do
  ensure_len d offset size
  v1_messages (λ o l. parse_v1_continuation depth d o l offset_size length_size) (suc size) d offset
      (min (offset + size) (usize_mod - 1)) offset_size length_size

unfoldable pub parse_v1 : List ℕ → ℕ → ℕ → ℕ → Outcome ObjectHeader
parse_v1 d offset offset_size length_size = do
  ensure_len d offset 16
  version ← index d offset
  guard (version == 1) (invalid_object_header_version version)
  reference_count ← from_le_bytes 4 d (offset + 4)
  header_data_size ← from_le_bytes 4 d (offset + 8)
  messages ← parse_v1_continuation 33 d (offset + 16) header_data_size offset_size length_size
  ok (record {
    version = 1;
    messages = messages;
    reference_count = some reference_count;
    flags = 0;
    access_time = none;
    modification_time = none;
    change_time = none;
    birth_time = none;
  })
