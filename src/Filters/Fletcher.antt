-- ===== src/Filters/Fletcher.antt =====
-- `fletcher32_compute`, `fletcher32_verify` and `fletcher32_append`.
use rustyhdf.Prelude.{ℕ, zero, suc, ◌+◌, ◌-◌, ◌*◌, ◌%◌, ◌^◌, List, length, ◌++◌, leb, ltb, ◌==◌}
use rustyhdf.Prelude.{if◌then◌else◌}
use rustyhdf.Outcome.{Outcome, ok, err, panic, stuck, ◌>>=◌, ◌>>◌, guard, filter_error}
use rustyhdf.Outcome.{fletcher32_mismatch}
use rustyhdf.Bytes.{index, slice, from_le_bytes, to_le}

-- `a + b` on `u32` with the overflow check.
unfoldable pub add_u32 : ℕ → ℕ → Outcome ℕ
add_u32 a b = if ltb (a + b) (2 ^ 32) then ok (a + b) else panic

-- `sum1` and `sum2`
pub record Sums : Type 0 where
  pub sum1 : ℕ
  pub sum2 : ℕ

-- The 16-bit word at `i`, high byte first: the bits of the two bytes do not meet, so `|` adds.
unfoldable pub word_at : List ℕ → ℕ → Outcome ℕ
word_at d i = do high ← index d i; low ← index d (i + 1); ok (high * 256 + low)

-- The inner loop over the words of a block, without the modulo.
unfoldable pub add_words : ℕ → List ℕ → ℕ → Sums → Outcome Sums
add_words zero d i s = ok s
add_words (suc n) d i s = do
  val ← word_at d i
  sum1 ← add_u32 s.sum1 val
  sum2 ← add_u32 s.sum2 sum1
  add_words n d (i + 2) (record { sum1 = sum1; sum2 = sum2 })

abbrev pub block_words : ℕ
block_words = 360

-- `while offset + BLOCK_BYTES <= len`, with fuel; the offset comes back with the sums.
unfoldable pub add_blocks : ℕ → List ℕ → ℕ → Sums → Outcome (ℕ × Sums)
add_blocks zero d offset s = stuck
add_blocks (suc fuel) d offset s =
    let next = add_blocks fuel d (offset + block_words * 2) in
    if leb (offset + block_words * 2) (length d)
    then (do
      t ← add_words block_words d offset s
      next (record { sum1 = t.sum1 % 65535; sum2 = t.sum2 % 65535 }))
    else ok (offset, s)

-- The word at `offset`, or the last byte of data of odd length as the high byte of a word.
unfoldable pub last_word_at : List ℕ → ℕ → Outcome ℕ
last_word_at d offset =
    if ltb (offset + 1) (length d)
    then word_at d offset
    else (do high ← index d offset; ok (high * 256))

-- `while offset < len`, with fuel.
unfoldable pub add_rest : ℕ → List ℕ → ℕ → Sums → Outcome Sums
add_rest zero d offset s = stuck
add_rest (suc fuel) d offset s =
    let next = add_rest fuel d (offset + 2) in
    if ltb offset (length d)
    then (do
      val ← last_word_at d offset
      sum1 ← add_u32 s.sum1 val
      sum2 ← add_u32 s.sum2 (sum1 % 65535)
      next (record { sum1 = sum1 % 65535; sum2 = sum2 % 65535 }))
    else ok s

-- Both loops move on in each round, so the data's length is fuel enough. `sum2 << 16` loses no
-- bit of a sum below 65535, and its bits do not meet those of `sum1`.
unfoldable pub fletcher32_compute : List ℕ → Outcome ℕ
fletcher32_compute d = do
  (offset, s) ← add_blocks (suc (length d)) d 0 (record { sum1 = 0; sum2 = 0 })
  t ← add_rest (suc (length d)) d offset s
  ok (t.sum2 * 2 ^ 16 % 2 ^ 32 + t.sum1)

unfoldable pub fletcher32_verify : List ℕ → Outcome (List ℕ)
fletcher32_verify d =
    if ltb (length d) 4 then err (filter_error "fletcher32: data too short for checksum") else (do
      payload ← slice d 0 (length d - 4)
      stored ← from_le_bytes 4 d (length d - 4)
      computed ← fletcher32_compute payload
      guard (stored == computed) (fletcher32_mismatch stored computed)
      ok payload)

unfoldable pub fletcher32_append : List ℕ → Outcome (List ℕ)
fletcher32_append d = do checksum ← fletcher32_compute d; ok (d ++ to_le 4 checksum)
