-- ===== src/Superblock/Tests.antt =====
-- Runs of the superblock code, and its theorems at concrete inputs.
use rustyhdf.Prelude.{ℕ, ◌≡◌, refl, arith, List, [], ◌∷◌, ◌++◌, none, some}
use rustyhdf.Outcome.{ok, err, checksum_mismatch}
use rustyhdf.Outcome.Ensures.{Ensures}
use rustyhdf.Bytes.{index, slice, slice_from, from_le_bytes}
use rustyhdf.Utils.{ensure_len, read_u64_info, read_offset}
use rustyhdf.Utils.Values.{two, eight}
use rustyhdf.Checksum.{
  wrapping_add, wrapping_sub, rot, mix, final_step, final_mix, read_u32_le, hash_block, hash_tail,
  add_byte, add_word, add_bytes, initial, hashlittle, jenkins_lookup3,
}
use rustyhdf.Superblock.{
  Superblock, validate_sizes, serialize_body, serialize, parse_v0, parse_v2v3,
}
use rustyhdf.Superblock.{parse}
use rustyhdf.Superblock.Safety.{IsValid}
use rustyhdf.Superblock.RoundTrip.{as_parsed, superblock_parse-serialize}

program : Unit {0}
unfolding index slice slice_from from_le_bytes ensure_len read_u64_info read_offset wrapping_add
    wrapping_sub rot mix final_step final_mix read_u32_le hash_block hash_tail add_byte add_word
    add_bytes initial hashlittle jenkins_lookup3 validate_sizes serialize_body serialize parse_v0
    parse_v2v3 parse
program = tt

abbrev small : Superblock
small = record {
  version = 2;
  offset_size = 2;
  length_size = 8;
  base_address = 0;
  eof_address = 4096;
  root_group_address = 48;
  group_leaf_node_k = none;
  group_internal_node_k = none;
  indexed_storage_internal_node_k = none;
  free_space_address = none;
  driver_info_address = none;
  consistency_flags = 1;
  superblock_extension_address = some 0xffff;
  checksum = none;
}

empty_hash : jenkins_lookup3 [] ≡ ok 0xdead_beef
unfolding program
empty_hash = refl

abbrev small_bytes : List ℕ
small_bytes =
    137 ∷ 72 ∷ 68 ∷ 70 ∷ 13 ∷ 10 ∷ 26 ∷ 10 ∷ 2 ∷ 2 ∷ 8 ∷ 1 ∷ 0 ∷ 0 ∷ 255 ∷ 255 ∷ 0 ∷ 16 ∷ 48 ∷ 0
    ∷ 11 ∷ 163 ∷ 177 ∷ 62 ∷ []

serialize_small : serialize small ≡ ok small_bytes
unfolding program
serialize_small = refl

parse_small : parse (7 ∷ small_bytes) 1 ≡ ok (as_parsed small 0xffff 0x3eb1_a30b)
unfolding program
parse_small = refl

-- A flipped bit is noticed.
parse_damaged :
    parse
      (137 ∷ 72 ∷ 68 ∷ 70 ∷ 13 ∷ 10 ∷ 26 ∷ 10 ∷ 2 ∷ 2 ∷ 8 ∷ 1 ∷ 0 ∷ 0 ∷ 255 ∷ 255 ∷ 0 ∷ 17 ∷ 48 ∷ 0
        ∷ 11 ∷ 163 ∷ 177 ∷ 62 ∷ [])
      0
    ≡ err (checksum_mismatch 0x3eb1_a30b 1_924_043_319)
unfolding program
parse_damaged = refl

small-IsValid : IsValid small
small-IsValid = record {
  known = omega arith;
  offset_width = two refl;
  length_width = eight refl;
  base = omega arith;
  eof = omega arith;
  root = omega arith;
  flags = omega arith;
}

superblock_parse-serialize_example :
    (buf : List ℕ) × (c : ℕ) × (serialize small ≡ ok buf)
    × (parse ((1 ∷ 2 ∷ []) ++ (buf ++ (3 ∷ []))) 2 ≡ ok (as_parsed small 0xffff c))
superblock_parse-serialize_example =
    superblock_parse-serialize small 0xffff small-IsValid (omega arith) (omega arith) refl
      (omega arith) (1 ∷ 2 ∷ []) (3 ∷ []) (omega arith)
