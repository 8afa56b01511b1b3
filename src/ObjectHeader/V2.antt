-- ===== src/ObjectHeader/V2.antt =====
-- Version 2: checksummed blocks, with the continuation blocks kept on a stack until the block at
-- hand is read.
use rustyhdf.Prelude.{ℕ, zero, suc, ◌+◌, ◌-◌, List, [], ◌∷◌, ◌++◌, length, Option, none, some}
use rustyhdf.Prelude.{leb, ltb, ◌==◌, if◌then◌else◌, bit_and, Bool}
use rustyhdf.Outcome.{Outcome, ok, err, panic, stuck, ◌>>=◌, ◌>>◌, guard, usize_mod}
use rustyhdf.Outcome.{nesting_depth_exceeded, invalid_object_header_version, unexpected_eof}
use rustyhdf.Outcome.{invalid_object_header_signature}
use rustyhdf.Bytes.{index, slice, from_le_bytes, bytes_eq}
use rustyhdf.Utils.{ensure_len, read_offset, bit_set, check_checksum}
use rustyhdf.MessageType.{from_u16, is_nil, is_continuation}
use rustyhdf.ObjectHeader.Defs.{HeaderMessage, ObjectHeader, check_known, ochk_signature}

-- The two vectors that the source passes by `&mut`. The head of `continuations` is the source's
-- last element, which `pop` takes.
pub record Collected : Type 0 where
  pub messages : List HeaderMessage
  pub continuations : List (ℕ × ℕ)

-- `Some(u16)` if the messages carry their creation order.
unfoldable pub read_creation_order : Bool → List ℕ → ℕ → Outcome (Option ℕ)
read_creation_order has_creation_order d pos =
    if has_creation_order then (do co ← from_le_bytes 2 d (pos + 4); ok (some co)) else ok none

-- What one message adds: a continuation goes on the stack, if it is long enough, and any other
-- message that is not nil to the messages.
unfoldable pub collect : Collected → HeaderMessage → ℕ → ℕ → Outcome Collected
collect acc m offset_size length_size =
    if is_continuation m.msg_type
    then if leb (offset_size + length_size) (length m.contents)
      then (do
        cont_off ← read_offset m.contents 0 offset_size
        cont_len ← read_offset m.contents offset_size length_size
        ok (record acc { continuations = (cont_off, cont_len) ∷ acc.continuations }))
      else ok acc
    else if is_nil m.msg_type
    then ok acc
    else ok (record acc { messages = acc.messages ++ (m ∷ []) })

abbrev pub msg_header_size : Bool → ℕ
msg_header_size has_creation_order = if has_creation_order then 6 else 4

-- `while pos + msg_header_size <= end`, with fuel.
unfoldable pub v2_messages : ℕ → List ℕ → ℕ → ℕ → Bool → ℕ → ℕ → Collected → Outcome Collected
v2_messages zero d pos end has_creation_order offset_size length_size acc = stuck
v2_messages (suc fuel) d pos end has_creation_order offset_size length_size acc =
    let start = pos + msg_header_size has_creation_order in
    if leb start end
    then (do
      msg_type_raw ← index d pos
      msg_data_size ← from_le_bytes 2 d (pos + 1)
      msg_flags ← index d (pos + 3)
      creation_order ← read_creation_order has_creation_order d pos
      if ltb end (start + msg_data_size) then ok acc else (do
        let msg_type = from_u16 msg_type_raw
        check_known msg_type msg_flags
        contents ← slice d start (start + msg_data_size)
        acc' ←
            collect acc
              (record {
                msg_type = msg_type;
                size = msg_data_size;
                flags = msg_flags;
                creation_order = creation_order;
                contents = contents;
              })
              offset_size length_size
        v2_messages fuel d (start + msg_data_size) end has_creation_order offset_size length_size
            acc'))
    else ok acc

-- A round takes 4 bytes at least, so the fuel is enough.
unfoldable pub parse_v2_messages : List ℕ → ℕ → ℕ → Bool → ℕ → ℕ → Collected → Outcome Collected
unfolding v2_messages
parse_v2_messages d start end = v2_messages (suc (end - start)) d start end

unfoldable pub parse_v2_continuation : List ℕ → ℕ → ℕ → Bool → ℕ → ℕ → Collected → Outcome Collected
parse_v2_continuation d offset size has_creation_order offset_size length_size acc = do
  ensure_len d offset size
  guard (leb 8 size) (unexpected_eof 8 size)
  ensure_len d offset 4
  magic ← slice d offset (offset + 4)
  guard (bytes_eq magic ochk_signature) invalid_object_header_signature
  check_checksum d offset (offset + size - 4)
  parse_v2_messages d (offset + 4) (offset + size - 4) has_creation_order offset_size length_size
      acc

-- `while let Some(…) = continuations.pop()`; the source's own counter bounds the rounds.
unfoldable pub follow_continuations :
    ℕ → List ℕ → Bool → ℕ → ℕ → List HeaderMessage → List (ℕ × ℕ) → Outcome (List HeaderMessage)
follow_continuations remaining d has_creation_order offset_size length_size messages [] =
    ok messages
follow_continuations zero d has_creation_order offset_size length_size messages (c ∷ cs) =
    err nesting_depth_exceeded
follow_continuations (suc remaining) d has_creation_order offset_size length_size messages
      (c ∷ cs) =
    do
      acc ←
          parse_v2_continuation d c.0 c.1 has_creation_order offset_size length_size
            (record { messages = messages; continuations = cs })
      follow_continuations remaining d has_creation_order offset_size length_size acc.messages
          acc.continuations

-- The four times, if bit 5 of the flags is set, and the position behind them.
pub record Times : Type 0 where
  pub access_time : Option ℕ
  pub modification_time : Option ℕ
  pub change_time : Option ℕ
  pub birth_time : Option ℕ
  pub after : ℕ

unfoldable pub read_times : List ℕ → ℕ → ℕ → Outcome Times
read_times d pos flags =
    if bit_set flags 0x20
    then (do
      ensure_len d pos 16
      at ← from_le_bytes 4 d pos
      mt ← from_le_bytes 4 d (pos + 4)
      ct ← from_le_bytes 4 d (pos + 8)
      bt ← from_le_bytes 4 d (pos + 12)
      ok (record {
        access_time = some at;
        modification_time = some mt;
        change_time = some ct;
        birth_time = some bt;
        after = pos + 16;
      }))
    else ok (record {
      access_time = none;
      modification_time = none;
      change_time = none;
      birth_time = none;
      after = pos;
    })

-- The attribute thresholds, if bit 4 is set, are passed over.
unfoldable pub skip_thresholds : List ℕ → ℕ → ℕ → Outcome ℕ
skip_thresholds d pos flags =
    if bit_set flags 0x10 then (do ensure_len d pos 4; ok (pos + 4)) else ok pos

-- `match flags & 0x03`; the last arm is `unreachable!()`.
unfoldable pub chunk_size_width : ℕ → Outcome ℕ
chunk_size_width flags =
    let k = bit_and flags 0x03 in
    if k == 0
    then ok 1
    else if k == 1
    then ok 2
    else if k == 2
    then ok 4
    else if k == 3
    then ok 8
    else panic

unfoldable pub parse_v2 : List ℕ → ℕ → ℕ → ℕ → Outcome ObjectHeader
parse_v2 d offset offset_size length_size = do
  ensure_len d offset 6
  version ← index d (offset + 4)
  guard (version == 2) (invalid_object_header_version version)
  flags ← index d (offset + 5)
  times ← read_times d (offset + 6) flags
  size_pos ← skip_thresholds d times.after flags
  width ← chunk_size_width flags
  chunk0_size ← read_offset d size_pos width
  let start = size_pos + width
  let end = start + chunk0_size
  guard (ltb end usize_mod) (unexpected_eof (usize_mod - 1) (length d))
  check_checksum d offset end
  let has_creation_order = bit_set flags 0x04
  acc ←
      parse_v2_messages d start end has_creation_order offset_size length_size
        (record { messages = []; continuations = [] })
  messages ←
      follow_continuations 256 d has_creation_order offset_size length_size acc.messages
        acc.continuations
  ok (record {
    version = 2;
    messages = messages;
    reference_count = none;
    flags = flags;
    access_time = times.access_time;
    modification_time = times.modification_time;
    change_time = times.change_time;
    birth_time = times.birth_time;
  })
