-- ===== src/Checksum.antt =====
-- crates/rustyhdf5-format/src/checksum.rs: Jenkins' lookup3 hash.
-- A `u32` is a number below 2 ^ 32, and each wrapping operation is written out.
pub mod Total
mod Tests
use rustyhdf.Prelude.{ℕ, zero, suc, ◌+◌, ◌-◌, ◌*◌, ◌/◌, ◌%◌, ◌^◌, ◌<◌, ◌≡◌, List, [], ◌∷◌, length}
use rustyhdf.Prelude.{
  bit_and, bit_xor, Acc, lt_wf, dite, dec_lt, ltb, ◌&&◌, ◌==◌, if◌then◌else◌, arith,
}
use rustyhdf.Outcome.{Outcome, ok, panic, ◌>>=◌}
use rustyhdf.Bytes.{index, slice_from, from_le_bytes}

abbrev pub u32_mod : ℕ
u32_mod = 2 ^ 32

unfoldable pub wrapping_add : ℕ → ℕ → ℕ
wrapping_add a b = (a + b) % u32_mod

unfoldable pub wrapping_sub : ℕ → ℕ → ℕ
wrapping_sub a b = (a + u32_mod - b) % u32_mod

-- `x.rotate_left(k)`
unfoldable pub rot : ℕ → ℕ → ℕ
rot x k = x * 2 ^ k % u32_mod + x / 2 ^ (32 - k)

pub record Mixed : Type 0 where
  pub a : ℕ
  pub b : ℕ
  pub c : ℕ

-- One third of a round of `mix`: `x -= z; x ^= rot(z, k); z += y`, giving `x` and `z`.
unfoldable pub mix_step : ℕ → ℕ → ℕ → ℕ → ℕ × ℕ
mix_step x y z k = (bit_xor (wrapping_sub x z) (rot z k), wrapping_add z y)

unfoldable pub mix : Mixed → Mixed
unfolding mix_step
mix s =
    let (a₁, c₁) = mix_step s.a s.b s.c 4 in
    let (b₁, a₂) = mix_step s.b c₁ a₁ 6 in
    let (c₂, b₂) = mix_step c₁ a₂ b₁ 8 in
    let (a₃, c₃) = mix_step a₂ b₂ c₂ 16 in
    let (b₃, a₄) = mix_step b₂ c₃ a₃ 19 in
    let (c₄, b₄) = mix_step c₃ a₄ b₃ 4 in record { a = a₄; b = b₄; c = c₄ }

-- One line of `final_mix`: `x ^= y; x -= rot(y, k)`.
unfoldable pub final_step : ℕ → ℕ → ℕ → ℕ
final_step x y k = wrapping_sub (bit_xor x y) (rot y k)

unfoldable pub final_mix : Mixed → Mixed
final_mix s =
    let c₁ = final_step s.c s.b 14 in
    let a₁ = final_step s.a c₁ 11 in
    let b₁ = final_step s.b a₁ 25 in
    let c₂ = final_step c₁ b₁ 16 in
    let a₂ = final_step a₁ c₂ 4 in
    let b₂ = final_step b₁ a₂ 14 in
    let c₃ = final_step c₂ b₂ 24 in record { a = a₂; b = b₂; c = c₃ }

unfoldable pub read_u32_le : List ℕ → ℕ → Outcome ℕ
read_u32_le d offset = from_le_bytes 4 d offset

-- The body of the loop over blocks of 12 bytes.
unfoldable pub hash_block : List ℕ → ℕ → Mixed → Outcome Mixed
hash_block d offset s = do
  x ← read_u32_le d offset
  y ← read_u32_le d (offset + 4)
  z ← read_u32_le d (offset + 8)
  ok (mix (record { a = wrapping_add s.a x; b = wrapping_add s.b y; c = wrapping_add s.c z }))

pub block_shrinks : (remaining : ℕ) → 12 < remaining → remaining - 12 < remaining
block_shrinks remaining h = omega arith

-- `while remaining > 12`; it ends with the offset and the size of what is left.
unfoldable pub hash_loop :
    List ℕ → ℕ → (remaining : ℕ) → Acc ◌<◌ remaining → Mixed → Outcome (Mixed × ℕ × ℕ)
hash_loop d offset remaining (Acc.intro _ smaller) s =
    dite (dec_lt 12 remaining)
      (λ h. do
        s' ← hash_block d offset s
        hash_loop d (offset + 12) (remaining - 12)
            (smaller (remaining - 12) (block_shrinks remaining h)) s')
      (λ _. ok (s, offset, remaining))

-- `x.wrapping_add((tail[i] as u32) << k)`
unfoldable pub add_byte : List ℕ → ℕ → ℕ → ℕ → Outcome ℕ
add_byte tail x i k = do v ← index tail i; ok (wrapping_add x (v * 2 ^ k))

-- `x.wrapping_add(read_u32_le(tail, i))`
unfoldable pub add_word : List ℕ → ℕ → ℕ → Outcome ℕ
add_word tail x i = do v ← read_u32_le tail i; ok (wrapping_add x v)

-- The last three or fewer bytes of a word from place `i` on, the highest first.
unfoldable pub add_bytes : List ℕ → ℕ → ℕ → ℕ → Outcome ℕ
add_bytes tail x i zero = ok x
add_bytes tail x i (suc n) = do y ← add_byte tail x (i + n) (8 * n); add_bytes tail y i n

-- The `match` on the 1 to 12 bytes left. Words are added the highest first.
unfoldable pub hash_tail : List ℕ → ℕ → Mixed → Outcome Mixed
hash_tail tail remaining s =
    if remaining == 12
    then (do
      a ← add_word tail s.a 0
      b ← add_word tail s.b 4
      c ← add_word tail s.c 8
      ok (record { a = a; b = b; c = c }))
    else if ltb 8 remaining && ltb remaining 12
    then (do
      c ← add_bytes tail s.c 8 (remaining - 8)
      b ← add_word tail s.b 4
      a ← add_word tail s.a 0
      ok (record { a = a; b = b; c = c }))
    else if remaining == 8
    then (do
      b ← add_word tail s.b 4
      a ← add_word tail s.a 0
      ok (record { a = a; b = b; c = s.c }))
    else if ltb 4 remaining && ltb remaining 8
    then (do
      b ← add_bytes tail s.b 4 (remaining - 4)
      a ← add_word tail s.a 0
      ok (record { a = a; b = b; c = s.c }))
    else if remaining == 4
    then (do a ← add_word tail s.a 0; ok (record { a = a; b = s.b; c = s.c }))
    else if ltb 0 remaining && ltb remaining 4
    then (do a ← add_bytes tail s.a 0 remaining; ok (record { a = a; b = s.b; c = s.c }))
    else panic

-- The three registers before the first block.
unfoldable pub initial : ℕ → ℕ → Mixed
initial size initval =
    let start = wrapping_add (wrapping_add 0xdead_beef (size % u32_mod)) initval in
    record { a = start; b = start; c = start }

unfoldable pub hashlittle : List ℕ → ℕ → Outcome ℕ
unfolding hash_loop lt_wf dec_lt
hashlittle d initval = do
  (s, offset, remaining) ←
      hash_loop d 0 (length d) (lt_wf.apply (length d)) (initial (length d) initval)
  tail ← slice_from d offset
  if remaining == 0 then ok s.c else do s' ← hash_tail tail remaining s; ok (final_mix s').c

unfoldable pub jenkins_lookup3 : List ℕ → Outcome ℕ
jenkins_lookup3 d = hashlittle d 0
