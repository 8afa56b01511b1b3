-- ===== src/ObjectHeaderWriter/Tests.antt =====
-- The round trip of the object header at a concrete writer.
use rustyhdf.Prelude.{All, ◌<◌, ◌^◌, length, ap, ℕ, ◌≡◌, refl, arith, List, [], ◌∷◌, ◌++◌}
use rustyhdf.Outcome.{Outcome, ok}
use rustyhdf.Bytes.{index, slice, slice_from, from_le_bytes}
use rustyhdf.Checksum.{
  wrapping_add, wrapping_sub, rot, mix, final_step, final_mix, read_u32_le, hash_block, hash_tail,
  add_byte, add_word, add_bytes, initial, hashlittle, hash_loop, jenkins_lookup3,
}
use rustyhdf.ObjectHeaderWriter.{
  BatchObjectHeaderWriter, serialize_all, serialize_each, concatenate,
}
use rustyhdf.ObjectHeaderWriter.{body, size_field, entries_bytes, entry_bytes}
use rustyhdf.ObjectHeaderWriter.Batch.{IsWriter, AreParsed, serialize_all-AreParsed}
use rustyhdf.MessageType.{to_u16, from_u16, is_nil, is_continuation, datatype, dataspace}
use rustyhdf.ObjectHeader.{parse}
use rustyhdf.ObjectHeader.Defs.{check_known}
use rustyhdf.ObjectHeaderWriter.{
  ObjectHeaderWriter, new, add_message, add_message_with_flags, msg_bytes, serialize,
}
use rustyhdf.ObjectHeaderWriter.Entries.{IsEntry}
use rustyhdf.ObjectHeaderWriter.RoundTrip.{as_parsed, header_parse-serialize}

abbrev two_messages : ObjectHeaderWriter
two_messages = record {
  messages =
      record { msg_type = datatype; contents = 5 ∷ 6 ∷ []; flags = 1 }
      ∷ record { msg_type = dataspace; contents = []; flags = 0 }
      ∷ [];
}

add_two :
    add_message (add_message_with_flags new datatype (5 ∷ 6 ∷ []) 1) dataspace [] ≡ two_messages
unfolding add_message add_message_with_flags
add_two = refl

datatype-IsEntry : IsEntry (record { msg_type = datatype; contents = 5 ∷ 6 ∷ []; flags = 1 })
unfolding to_u16 from_u16 is_nil is_continuation check_known
datatype-IsEntry = record {
  named = refl;
  one_byte = omega arith;
  used = refl;
  plain = refl;
  understood = refl;
  short = omega arith;
  bytes = omega arith;
  flag_byte = omega arith;
}

dataspace-IsEntry : IsEntry (record { msg_type = dataspace; contents = []; flags = 0 })
unfolding to_u16 from_u16 is_nil is_continuation check_known
dataspace-IsEntry = record {
  named = refl;
  one_byte = omega arith;
  used = refl;
  plain = refl;
  understood = refl;
  short = omega arith;
  bytes = tt;
  flag_byte = omega arith;
}

two-bytes : msg_bytes two_messages.messages ≡ 10
unfolding msg_bytes
two-bytes = refl

header_parse-serialize_example :
    (buf : List ℕ) × (f : ℕ) × (serialize two_messages ≡ ok buf)
    × (parse ((7 ∷ []) ++ (buf ++ (8 ∷ []))) 1 8 8 ≡ ok (as_parsed two_messages f))
header_parse-serialize_example =
    header_parse-serialize two_messages (datatype-IsEntry, (dataspace-IsEntry, tt))
      (omega (arith, two-bytes)) 8 8 (7 ∷ []) (8 ∷ []) (omega arith)

abbrev two_headers : BatchObjectHeaderWriter
two_headers = record { headers = two_messages ∷ record { messages = [] } ∷ [] }

no_bytes : msg_bytes [] ≡ 0
unfolding msg_bytes
no_bytes = refl

two_headers-IsWriter : All IsWriter two_headers.headers
two_headers-IsWriter = (
  ((datatype-IsEntry, (dataspace-IsEntry, tt)), omega (arith, two-bytes)),
  ((tt, omega (arith, no_bytes)), tt),
)

size_of : Outcome (List ℕ × List ℕ) → ℕ
size_of (ok r) = length r.0
size_of _ = 0

two_headers_size : size_of (serialize_all two_headers) ≡ 32
unfolding size_of serialize_all serialize_each serialize concatenate body size_field entries_bytes
    entry_bytes msg_bytes to_u16 index slice slice_from from_le_bytes wrapping_add wrapping_sub rot
    mix final_step final_mix read_u32_le hash_block hash_tail add_byte add_word add_bytes initial
    hashlittle hash_loop jenkins_lookup3
two_headers_size = refl

two_headers_short :
    (buf offsets : List ℕ) → serialize_all two_headers ≡ ok (buf, offsets) → length buf < 2 ^ 62
unfolding size_of
two_headers_short buf offsets e =
    let size : size_of (serialize_all two_headers) ≡ length buf = ap size_of e in
    omega (arith, size, two_headers_size)

serialize_all-AreParsed_example :
    (buf : List ℕ) × (offsets : List ℕ) × (serialize_all two_headers ≡ ok (buf, offsets))
    × AreParsed buf 8 8 offsets two_headers.headers
serialize_all-AreParsed_example =
    serialize_all-AreParsed two_headers 8 8 two_headers-IsWriter two_headers_short
