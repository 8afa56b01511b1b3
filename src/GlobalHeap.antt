-- ===== src/GlobalHeap.antt =====
-- crates/rustyhdf5-format/src/global_heap.rs: the collections that hold variable-length data.
pub mod Safety
mod Tests
use rustyhdf.Prelude.{ℕ, zero, suc, ◌+◌, ◌*◌, List, [], ◌∷◌, length, Option, none, some, leb, ◌==◌}
use rustyhdf.Prelude.{if◌then◌else◌}
use rustyhdf.Outcome.{Outcome, ok, err, stuck, ◌>>=◌, ◌>>◌, guard, add_usize}
use rustyhdf.Outcome.{invalid_global_heap_signature, invalid_global_heap_version}
use rustyhdf.Bytes.{index, slice, from_le_bytes, bytes_eq}
use rustyhdf.Utils.{ensure_len, pad8}
use rustyhdf.Dataspace.{read_length}

-- `b"GCOL"`
abbrev pub collection_signature : List ℕ
collection_signature = b'G' ∷ b'C' ∷ b'O' ∷ b'L' ∷ []

pub record GlobalHeapObject : Type 0 where
  pub object_index : ℕ
  pub reference_count : ℕ
  pub content : List ℕ

pub record GlobalHeapCollection : Type 0 where
  pub collection_size : ℕ
  pub objects : List GlobalHeapObject

-- The body of the loop behind its free-space test: the object, and the position after its padding.
unfoldable pub parse_object : List ℕ → ℕ → ℕ → ℕ → Outcome (GlobalHeapObject × ℕ)
parse_object d object_index pos length_size = do
  ensure_len d pos (8 + length_size)
  reference_count ← from_le_bytes 2 d (pos + 2)
  object_size ← read_length d (pos + 8) length_size
  ensure_len d (pos + 8 + length_size) object_size
  content ← slice d (pos + 8 + length_size) (pos + 8 + length_size + object_size)
  padded ← pad8 object_size
  ok (
    record { object_index = object_index; reference_count = reference_count; content = content },
    pos + 8 + length_size + padded,
  )

-- `while pos + 2 <= collection_end`, with fuel.
unfoldable pub parse_objects : ℕ → List ℕ → ℕ → ℕ → ℕ → Outcome (List GlobalHeapObject)
parse_objects zero d collection_end pos length_size = stuck
parse_objects (suc fuel) d collection_end pos length_size =
    let next = parse_objects fuel d collection_end in
    if leb (pos + 2) collection_end
    then (do
      ensure_len d pos 2
      object_index ← from_le_bytes 2 d pos
      if object_index == 0 then ok [] else (do
        (object, end) ← parse_object d object_index pos length_size
        objects ← next end length_size
        ok (object ∷ objects)))
    else ok []

-- Each round moves on by 8 bytes at least, inside the file, so the file's length is fuel enough.
-- `length_size` is read as by `read_length` of the dataspace, whose code is the same.
unfoldable pub parse : List ℕ → ℕ → ℕ → Outcome GlobalHeapCollection
parse d offset length_size = do
  ensure_len d offset (8 + length_size)
  signature ← slice d offset (offset + 4)
  guard (bytes_eq signature collection_signature) invalid_global_heap_signature
  version ← index d (offset + 4)
  guard (version == 1) (invalid_global_heap_version version)
  collection_size ← read_length d (offset + 8) length_size
  collection_end ← add_usize offset collection_size
  objects ← parse_objects (suc (length d)) d collection_end (offset + (8 + length_size)) length_size
  ok (record { collection_size = collection_size; objects = objects })

-- `objects.iter().find(|o| o.index == index)`
unfoldable pub find_object : List GlobalHeapObject → ℕ → Option GlobalHeapObject
find_object [] wanted = none
find_object (o ∷ objects) wanted =
    if o.object_index == wanted then some o else find_object objects wanted

unfoldable pub get_object : GlobalHeapCollection → ℕ → Option GlobalHeapObject
get_object collection wanted = find_object collection.objects wanted
