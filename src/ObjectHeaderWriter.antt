-- ===== src/ObjectHeaderWriter.antt =====
-- crates/rustyhdf5-format/src/object_header_writer.rs: writing version 2 object headers, singly and
-- in a batch.
pub mod Entries
pub mod SizeField
pub mod RoundTrip
pub mod Batch
mod Tests
use rustyhdf.Prelude.{ℕ, ◌+◌, ◌%◌, ◌^◌, List, [], ◌∷◌, ◌++◌, length, leb, if◌then◌else◌, Bool, ◌==◌}
use rustyhdf.Outcome.{Outcome, ok, ◌>>=◌}
use rustyhdf.Bytes.{to_le}
use rustyhdf.Checksum.{jenkins_lookup3}
use rustyhdf.MessageType.{MessageType, to_u16}
use rustyhdf.ObjectHeader.Defs.{ohdr_signature}

-- An element of `messages`: type, data, flags.
pub record Entry : Type 0 where
  pub msg_type : MessageType
  pub contents : List ℕ
  pub flags : ℕ

pub record ObjectHeaderWriter : Type 0 where
  pub messages : List Entry

abbrev pub new : ObjectHeaderWriter
new = record { messages = [] }

unfoldable pub add_message_with_flags :
    ObjectHeaderWriter → MessageType → List ℕ → ℕ → ObjectHeaderWriter
add_message_with_flags w msg_type contents flags = record w {
  messages =
      w.messages ++ (record { msg_type = msg_type; contents = contents; flags = flags } ∷ []);
}

unfoldable pub add_message : ObjectHeaderWriter → MessageType → List ℕ → ObjectHeaderWriter
unfolding add_message_with_flags
add_message w msg_type contents = add_message_with_flags w msg_type contents 0

-- `iter().map(|(_, data, _)| 4 + data.len()).sum()`
unfoldable pub msg_bytes : List Entry → ℕ
msg_bytes [] = 0
msg_bytes (e ∷ es) = 4 + length e.contents + msg_bytes es

-- The flags byte, which tells the width of the size field, and the size field.
unfoldable pub size_field : ℕ → List ℕ
size_field total =
    if leb total 255
    then 0 ∷ to_le 1 total
    else if leb total 65535
    then 1 ∷ to_le 2 total
    else 2 ∷ to_le 4 total

unfoldable pub entry_bytes : Entry → List ℕ
entry_bytes e = (to_u16 e.msg_type % 256) ∷ (to_le 2 (length e.contents) ++ (e.flags ∷ e.contents))

unfoldable pub entries_bytes : List Entry → List ℕ
unfolding entry_bytes
entries_bytes [] = []
entries_bytes (e ∷ es) = entry_bytes e ++ entries_bytes es

-- Everything in front of the checksum.
unfoldable pub body : ObjectHeaderWriter → List ℕ
body w = ohdr_signature ++ (2 ∷ (size_field (msg_bytes w.messages) ++ entries_bytes w.messages))

unfoldable pub serialize : ObjectHeaderWriter → Outcome (List ℕ)
unfolding body
serialize w = do let buf = body w; checksum ← jenkins_lookup3 buf; ok (buf ++ to_le 4 checksum)

-- `BatchObjectHeaderWriter`; a `DeferredHeader` is its writer.
pub record BatchObjectHeaderWriter : Type 0 where
  pub headers : List ObjectHeaderWriter

abbrev pub new_batch : BatchObjectHeaderWriter
new_batch = record { headers = [] }

unfoldable pub add : BatchObjectHeaderWriter → ObjectHeaderWriter → BatchObjectHeaderWriter
add b w = record b { headers = b.headers ++ (w ∷ []) }

unfoldable pub len : BatchObjectHeaderWriter → ℕ
len b = length b.headers

unfoldable pub is_empty : BatchObjectHeaderWriter → Bool
is_empty b = length b.headers == 0

-- `iter().map(|h| h.writer.serialize()).collect()`
unfoldable pub serialize_each : List ObjectHeaderWriter → Outcome (List (List ℕ))
serialize_each [] = ok []
serialize_each (w ∷ ws) = do s ← serialize w; ss ← serialize_each ws; ok (s ∷ ss)

unfoldable pub sizes : List (List ℕ) → List ℕ
sizes [] = []
sizes (s ∷ ss) = length s ∷ sizes ss

unfoldable pub compute_sizes : BatchObjectHeaderWriter → Outcome (List ℕ)
compute_sizes b = do ss ← serialize_each b.headers; ok (sizes ss)

-- The loop of `serialize_all`: the buffer grows, and its length is the next offset.
unfoldable pub concatenate : List ℕ → List ℕ → List (List ℕ) → List ℕ × List ℕ
concatenate buf offsets [] = (buf, offsets)
concatenate buf offsets (s ∷ ss) = concatenate (buf ++ s) (offsets ++ (length buf ∷ [])) ss

unfoldable pub serialize_all : BatchObjectHeaderWriter → Outcome (List ℕ × List ℕ)
serialize_all b = do ss ← serialize_each b.headers; ok (concatenate [] [] ss)
