-- ===== src/Checksum/Tests.antt =====
-- The hash of known data, and its theorem at a concrete slice.
use rustyhdf.Prelude.{ℕ, ◌≡◌, refl, List, ◌∷◌, ◌++◌, replicate}
use rustyhdf.Outcome.{ok}
use rustyhdf.Bytes.{index, slice, slice_from, from_le_bytes}
use rustyhdf.Checksum.{
  wrapping_add, wrapping_sub, rot, mix, final_step, final_mix, read_u32_le, hash_block, hash_tail,
  add_byte, add_word, add_bytes, initial, hashlittle, hash_loop, jenkins_lookup3,
}

-- The superblock of a file that the reference library wrote, without its checksum.
abbrev superblock_bytes : List ℕ
superblock_bytes =
    137
    ∷ 72
    ∷ 68
    ∷ 70
    ∷ 13
    ∷ 10
    ∷ 26
    ∷ 10
    ∷ 3
    ∷ 8
    ∷ 8
    ∷ 0
    ∷ (replicate 8 0 ++ (replicate 8 255 ++ (36 ∷ 8 ∷ (replicate 6 0 ++ (48 ∷ replicate 7 0)))))

superblock_hash : jenkins_lookup3 superblock_bytes ≡ ok 2_488_395_001
unfolding index slice slice_from from_le_bytes wrapping_add wrapping_sub rot mix final_step
    final_mix read_u32_le hash_block hash_tail add_byte add_word add_bytes initial hashlittle
    hash_loop jenkins_lookup3
superblock_hash = refl
