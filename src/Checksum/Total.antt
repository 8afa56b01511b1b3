-- ===== src/Checksum/Total.antt =====
-- `jenkins_lookup3` returns a `u32` for every slice: no read of it is out of range.
use rustyhdf.Prelude.{ℕ, zero, suc, ◌+◌, ◌-◌, ◌*◌, ◌<◌, ◌≤◌, ◌≡◌, arith}
use rustyhdf.Prelude.{List, length, Acc, lt_wf, ◌==◌, ltb, ◌&&◌, dec_lt}
use rustyhdf.Outcome.{FormatError}
use rustyhdf.Outcome.Ensures.{Post, returns, bind, branch, branch_dec}
use rustyhdf.Bytes.{IsSlice}
use rustyhdf.Bytes.Reads.{index-Ensures, slice_from-Ensures, from_le_bytes-Ensures}
use rustyhdf.Checksum.{Mixed, u32_mod, wrapping_add, wrapping_sub, final_step, final_mix}
use rustyhdf.Checksum.{
  read_u32_le, hash_block, block_shrinks, hash_loop, add_byte, add_word, add_bytes, hash_tail,
}
use rustyhdf.Checksum.{initial, hashlittle, jenkins_lookup3}

abbrev Any : Mixed → Type 0
Any s = Unit {0}

-- Subtraction comes last, so what `final_mix` leaves in `c` is a `u32`.
final_mix-lt : (s : Mixed) → (final_mix s).c < u32_mod
unfolding final_mix final_step wrapping_sub
final_mix-lt s = omega arith

initial-lt : (size initval : ℕ) → (initial size initval).c < u32_mod
unfolding initial wrapping_add
initial-lt size initval = omega arith

module _ {d : List ℕ} (s : IsSlice d) {E : FormatError → Type 0} where
  hash_block-Ensures :
      (offset : ℕ) (m : Mixed) → offset + 12 ≤ length d → Post E Any (hash_block d offset m)
  unfolding hash_block read_u32_le
  hash_block-Ensures offset m h = bind (from_le_bytes-Ensures s 4 offset (omega arith)) λ x _.
      bind (from_le_bytes-Ensures s 4 (offset + 4) (omega arith))
        λ y _. bind (from_le_bytes-Ensures s 4 (offset + 8) (omega arith)) λ z _. returns tt

  -- The loop keeps `offset + remaining` and leaves at most 12 bytes; it leaves none, and an
  -- untouched state, only if there were none.
  hash_loop-Ensures :
      (offset remaining : ℕ) (w : Acc ◌<◌ remaining) (m : Mixed)
      → offset + remaining ≡ length d
      → (remaining ≡ 0 → m.c < u32_mod)
      → Post E
          (λ r. (r.1 + r.2 ≡ length d) × (r.2 ≤ 12) × (r.2 ≡ 0 → r.0.c < u32_mod))
          (hash_loop d offset remaining w m)
  unfolding hash_loop
  hash_loop-Ensures offset remaining (Acc.intro _ smaller) m h c =
      branch_dec (dec_lt 12 remaining)
        (λ more. bind (hash_block-Ensures offset m (omega arith)) λ m' _.
          hash_loop-Ensures (offset + 12) (remaining - 12)
            (smaller (remaining - 12) (block_shrinks remaining more)) m' (omega arith)
            (λ z. absurd (omega arith)))
        (λ less. returns (h, omega arith, c))

module _ {t : List ℕ} (s : IsSlice t) {E : FormatError → Type 0} where
  add_word-Ensures : (x i : ℕ) → i + 4 ≤ length t → Post E (λ _. Unit {0}) (add_word t x i)
  unfolding add_word read_u32_le
  add_word-Ensures x i h = bind (from_le_bytes-Ensures s 4 i h) λ v _. returns tt

  add_byte-Ensures : (x i k : ℕ) → i < length t → Post E (λ _. Unit {0}) (add_byte t x i k)
  unfolding add_byte
  add_byte-Ensures x i k h = bind (index-Ensures s i h) λ v _. returns tt

  add_bytes-Ensures : (x i n : ℕ) → i + n ≤ length t → Post E (λ _. Unit {0}) (add_bytes t x i n)
  unfolding add_bytes
  add_bytes-Ensures x i zero h = returns tt
  add_bytes-Ensures x i (suc n) h =
      bind (add_byte-Ensures x (i + n) (8 * n) (omega arith))
        λ y _. add_bytes-Ensures y i n (omega arith)

  hash_tail-Ensures :
      (m : Mixed) (r : ℕ) → length t ≡ r → 0 < r → r ≤ 12 → Post E (λ _. Unit {0}) (hash_tail t r m)
  unfolding hash_tail
  hash_tail-Ensures m r h lo hi =
      branch (r == 12)
        (λ e.
          let k : r ≡ 12 = ground arith in
          bind (add_word-Ensures m.a 0 (omega arith)) λ a _.
            bind (add_word-Ensures m.b 4 (omega arith))
              λ b _. bind (add_word-Ensures m.c 8 (omega arith)) λ c _. returns tt)
        λ e1.
          branch (ltb 8 r && ltb r 12)
            (λ e.
              let k : 8 < r = ground arith in
              bind (add_bytes-Ensures m.c 8 (r - 8) (omega arith)) λ c _.
                bind (add_word-Ensures m.b 4 (omega arith))
                  λ b _. bind (add_word-Ensures m.a 0 (omega arith)) λ a _. returns tt)
            λ e2.
              branch (r == 8)
                (λ e.
                  let k : r ≡ 8 = ground arith in
                  bind (add_word-Ensures m.b 4 (omega arith))
                    λ b _. bind (add_word-Ensures m.a 0 (omega arith)) λ a _. returns tt)
                λ e3.
                  branch (ltb 4 r && ltb r 8)
                    (λ e.
                      let k : 4 < r = ground arith in
                      bind (add_bytes-Ensures m.b 4 (r - 4) (omega arith))
                        λ b _. bind (add_word-Ensures m.a 0 (omega arith)) λ a _. returns tt)
                    λ e4.
                      branch (r == 4)
                        (λ e.
                          let k : r ≡ 4 = ground arith in
                          bind (add_word-Ensures m.a 0 (omega arith)) λ a _. returns tt)
                        λ e5.
                          branch (ltb 0 r && ltb r 4)
                            (λ e. bind (add_bytes-Ensures m.a 0 r (omega arith)) λ a _. returns tt)
                            λ e6. absurd (ground arith)

-- For every slice the hash is a `u32`; the function neither fails nor reads out of range.
pub jenkins_lookup3-Ensures :
    {d : List ℕ} {E : FormatError → Type 0}
    → IsSlice d
    → Post E (λ h. h < u32_mod) (jenkins_lookup3 d)
unfolding jenkins_lookup3 hashlittle
jenkins_lookup3-Ensures {d} s =
    bind
      (hash_loop-Ensures s 0 (length d) (lt_wf.apply (length d)) (initial (length d) 0)
        (omega arith) (λ _. initial-lt (length d) 0))
      λ r p. bind (slice_from-Ensures s r.1 (omega (arith, p.0))) λ t q.
        branch (r.2 == 0) (λ e. returns (p.2 (ground arith)))
          (λ e.
            bind (hash_tail-Ensures q.0 r.0 r.2 (omega (arith, p.0, q.1)) (ground arith) p.1)
              λ m _. returns (final_mix-lt m))
