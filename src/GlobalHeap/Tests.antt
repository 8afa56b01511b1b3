-- ===== src/GlobalHeap/Tests.antt =====
-- Runs of the global heap code, and its theorems at concrete collections.
use rustyhdf.Prelude.{ℕ, ◌+◌, ◌<◌, ◌≡◌, refl, arith, List, [], ◌∷◌, ◌++◌, length, some}
use rustyhdf.Outcome.{ok, panic, add_usize, usize_mod}
use rustyhdf.Outcome.Ensures.{Ensures}
use rustyhdf.Bytes.{to_le, index, slice, from_le_bytes}
use rustyhdf.Utils.{ensure_len, pad8}
use rustyhdf.Dataspace.{read_length, length_value}
use rustyhdf.GlobalHeap.{
  GlobalHeapObject, collection_signature, parse_object, parse_objects, parse, find_object,
  get_object,
}
use rustyhdf.GlobalHeap.Safety.{AreObjects, parse_collection-AreObjects, huge_collection_panics}

program : Unit {0}
unfolding add_usize index slice from_le_bytes ensure_len pad8 read_length length_value parse_object
    parse_objects parse find_object get_object
program = tt

-- A collection of 29 bytes with one object of three bytes, and its free space.
abbrev collection_bytes : List ℕ
collection_bytes =
    b'G' ∷ b'C' ∷ b'O' ∷ b'L' ∷ 1 ∷ 0 ∷ 0 ∷ 0 ∷ 30 ∷ 0 ∷ 1 ∷ 0 ∷ 1 ∷ 0 ∷ 0 ∷ 0 ∷ 0 ∷ 0 ∷ 3 ∷ 0 ∷ 97
    ∷ 98 ∷ 99 ∷ 0 ∷ 0 ∷ 0 ∷ 0 ∷ 0 ∷ 0 ∷ 0 ∷ []

abbrev abc : GlobalHeapObject
abc = record { object_index = 1; reference_count = 1; content = 97 ∷ 98 ∷ 99 ∷ [] }

parse-abc : parse collection_bytes 0 2 ≡ ok (record { collection_size = 30; objects = abc ∷ [] })
unfolding program
parse-abc = refl

get_object-abc : get_object (record { collection_size = 30; objects = abc ∷ [] }) 1 ≡ some abc
unfolding program
get_object-abc = refl

stated_size : (v : ℕ) → read_length collection_bytes (0 + 8) 2 ≡ ok v → 0 + v < usize_mod
unfolding program
stated_size v e = let same : 30 ≡ v = cc in omega arith

parse_collection-AreObjects_example :
    Ensures
      (λ c.
        (from_le_bytes 2 collection_bytes (0 + 8) ≡ ok c.collection_size)
        × AreObjects collection_bytes 2 (0 + c.collection_size) (0 + (8 + 2)) c.objects)
      (parse collection_bytes 0 2)
parse_collection-AreObjects_example =
    parse_collection-AreObjects {d = collection_bytes}
      (record { bytes = omega arith; sized = omega arith }) 0 2 stated_size

abbrev one_byte : List ℕ
one_byte = 0 ∷ []

-- One byte in front, and a size of 2 ^ 64 - 1.
huge_collection_panics_example :
    parse
      (one_byte
        ++ (collection_signature ++ (1 ∷ 0 ∷ 0 ∷ 0 ∷ (to_le 8 0xffff_ffff_ffff_ffff ++ (7 ∷ [])))))
      (length one_byte)
      8
    ≡ panic
huge_collection_panics_example =
    huge_collection_panics one_byte (7 ∷ []) 0 0 0 0xffff_ffff_ffff_ffff (omega arith) (omega arith)
      (omega arith)
