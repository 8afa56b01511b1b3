-- ===== src/Filters/FletcherSums.antt =====
-- The blocked sums of `fletcher32_compute` against the plain ones.
use rustyhdf.Prelude.{ℕ, zero, suc, ◌+◌, ◌*◌, ◌%◌, ◌^◌, ◌<◌, ◌≤◌, ◌≡◌, refl, ap, ◌∙◌, sym, arith}
use rustyhdf.Prelude.{List, [], ◌∷◌, length, drop, leb, ltb}
use rustyhdf.Outcome.{FormatError, ok}
use rustyhdf.Outcome.Ensures.{Post, NoError, returns, bind, branch, weaken}
use rustyhdf.Bytes.{IsByte, IsBytes, index}
use rustyhdf.Filters.Fletcher.{
  Sums, add_u32, word_at, add_words, block_words, add_blocks, last_word_at,
}
use rustyhdf.Filters.Fletcher.{add_rest}
use mathlib.Core.Path.{subst}
use native.Mathlib.Nat.{mod-add-mod, add-mod-mod, mod-eq_of_lt, mod-lt, mul-le-mul}

-- The data as 16-bit words, high byte first; a last odd byte is the high byte of a word.
unfoldable pub words : List ℕ → List ℕ
words [] = []
words (high ∷ []) = (high * 256) ∷ []
words (high ∷ low ∷ rest) = (high * 256 + low) ∷ words rest

-- Fletcher's two sums modulo 65535, one word at a time.
unfoldable pub fletcher_step : Sums → ℕ → Sums
fletcher_step s w = record {
  sum1 = (s.sum1 + w) % 65535;
  sum2 = (s.sum2 + (s.sum1 + w) % 65535) % 65535;
}

unfoldable pub fletcher_sums : Sums → List ℕ → Sums
fletcher_sums s [] = s
fletcher_sums s (w ∷ ws) = fletcher_sums (fletcher_step s w) ws

unfoldable pub reduce : Sums → Sums
reduce s = record { sum1 = s.sum1 % 65535; sum2 = s.sum2 % 65535 }

reduce-step :
    (s : Sums) (w : ℕ)
    → reduce (record { sum1 = s.sum1 + w; sum2 = s.sum2 + (s.sum1 + w) })
      ≡ fletcher_step (reduce s) w
unfolding reduce fletcher_step
reduce-step s w =
    let first : (s.sum1 % 65535 + w) % 65535 ≡ (s.sum1 + w) % 65535 = mod-add-mod s.sum1 65535 w in
    let second : (s.sum2 % 65535 + (s.sum1 + w) % 65535) % 65535 ≡ (s.sum2 + (s.sum1 + w)) % 65535 =
      add-mod-mod (s.sum2 % 65535) (s.sum1 + w) 65535 ∙ mod-add-mod s.sum2 65535 (s.sum1 + w) in
    rw (first, second) refl

-- Both sums are reduced.
pub record IsSmall (s : Sums) : Type 0 where
  pub small1 : s.sum1 < 65535
  pub small2 : s.sum2 < 65535

reduce-IsSmall : (s : Sums) → IsSmall (reduce s)
unfolding reduce
reduce-IsSmall s = record {
  small1 = mod-lt s.sum1 (omega arith);
  small2 = mod-lt s.sum2 (omega arith);
}

reduce_small : (s : Sums) → IsSmall s → reduce s ≡ s
unfolding reduce
reduce_small s h = rw (mod-eq_of_lt h.small1, mod-eq_of_lt h.small2) refl

-- How large the sums are after `m` words of a block.
record IsBounded (m : ℕ) (s : Sums) : Type 0 where
  bound1 : s.sum1 ≤ 65535 * (m + 1)
  bound2 : 2 * s.sum2 ≤ 65535 * (2 + m * (m + 3))

pub add_u32-Ensures :
    {E : FormatError → Type 0} (a b : ℕ) → a + b < 2 ^ 32 → Post E (λ c. c ≡ a + b) (add_u32 a b)
unfolding add_u32
add_u32-Ensures a b h =
    branch (ltb (a + b) (2 ^ 32)) (λ _. returns refl) (λ e. absurd (ground arith))

-- Two bytes of the data, at `i` and `j`, and what follows from `k` on.
record TwoBytes (d : List ℕ) (i j k : ℕ) : Type 0 where
  high : ℕ
  low : ℕ
  at_high : index d i ≡ ok high
  at_low : index d j ≡ ok low
  rest : drop i d ≡ high ∷ low ∷ drop k d
  high_byte : IsByte high
  low_byte : IsByte low

split_two_suc :
    (d : List ℕ) (i : ℕ) → IsBytes d → suc i < length d → TwoBytes d i (suc i) (suc (suc i))
unfolding index
split_two_suc [] i b h = absurd (omega arith)
split_two_suc (x ∷ []) i b h = absurd (omega arith)
split_two_suc (x ∷ y ∷ d) zero b h = record {
  high = x;
  low = y;
  at_high = refl;
  at_low = refl;
  rest = refl;
  high_byte = b.0;
  low_byte = b.1.0;
}
split_two_suc (x ∷ y ∷ d) (suc i) b h =
    let t = split_two_suc (y ∷ d) i b.1 (omega arith) in
    record {
      high = t.high;
      low = t.low;
      at_high = t.at_high;
      at_low = t.at_low;
      rest = t.rest;
      high_byte = t.high_byte;
      low_byte = t.low_byte;
    }

split_two : (d : List ℕ) (i : ℕ) → IsBytes d → i + 1 < length d → TwoBytes d i (i + 1) (i + 2)
split_two d i b h =
    let one : suc i ≡ i + 1 = omega arith in
    let two : suc (suc i) ≡ i + 2 = omega arith in
    let t = split_two_suc d i b (omega arith) in
    subst (λ k. TwoBytes d i (i + 1) k) two (subst (λ j. TwoBytes d i j (suc (suc i))) one t)

drop_past : (d : List ℕ) (n : ℕ) → length d ≤ n → drop n d ≡ []
drop_past [] zero h = refl
drop_past [] (suc n) h = refl
drop_past (x ∷ d) zero h = absurd (omega arith)
drop_past (x ∷ d) (suc n) h = drop_past d n (omega arith)

-- The last byte of the data.
split_last :
    (d : List ℕ) (i : ℕ)
    → IsBytes d
    → suc i ≡ length d
    → (high : ℕ) × (index d i ≡ ok high) × (drop i d ≡ high ∷ []) × IsByte high
unfolding index
split_last [] i b h = absurd (omega arith)
split_last (x ∷ []) zero b h = (x, refl, refl, b.0)
split_last (x ∷ []) (suc i) b h = absurd (omega arith)
split_last (x ∷ y ∷ d) zero b h = absurd (omega arith)
split_last (x ∷ y ∷ d) (suc i) b h = split_last (y ∷ d) i b.1 (omega arith)

-- What reading a word does to the words that are left.
word_at-Ensures :
    {E : FormatError → Type 0} (d : List ℕ) (i : ℕ)
    → IsBytes d
    → i + 1 < length d
    → Post E (λ w. (w ≤ 65535) × (words (drop i d) ≡ w ∷ words (drop (i + 2) d))) (word_at d i)
unfolding word_at words
word_at-Ensures d i b h =
    let t = split_two d i b h in
    rw (t.at_high, t.at_low, t.rest) (returns (omega (arith, t.high_byte, t.low_byte), refl))

module _ (d : List ℕ) (s : IsBytes d) where
  -- The words of a block overflow neither sum, and give the plain sums modulo 65535.
  add_words-Ensures :
      (n m i : ℕ) (t : Sums)
      → m + n ≡ block_words
      → i + n * 2 ≤ length d
      → IsBounded m t
      → Post NoError
          (λ t'.
            fletcher_sums (reduce t) (words (drop i d))
            ≡ fletcher_sums (reduce t') (words (drop (i + n * 2) d)))
          (add_words n d i t)
  unfolding add_words fletcher_sums
  add_words-Ensures zero m i t e h b =
      let same : i ≡ i + zero * 2 = omega arith in
      returns (ap (λ k. fletcher_sums (reduce t) (words (drop k d))) same)
  add_words-Ensures (suc n) m i t e h b = bind (word_at-Ensures d i s (omega arith)) λ w q.
      let square : (m + 1) * (m + 1 + 3) ≤ 360 * 363 =
        mul-le-mul {n₁ = m + 1} {m₁ = m + 1 + 3} {n₂ = 360} {m₂ = 363} (omega arith)
          (omega arith) in
      let next1 : t.sum1 + w ≤ 65535 * (m + 1 + 1) = omega (arith, b.bound1, q.0) in
      let next2 : 2 * (t.sum2 + (t.sum1 + w)) ≤ 65535 * (2 + (m + 1) * (m + 1 + 3)) =
        let expand : (m + 1) * (m + 1 + 3) ≡ m * (m + 3) + 2 * m + 4 = grind arith in
        omega (arith, b.bound1, b.bound2, q.0, expand) in
      bind (add_u32-Ensures t.sum1 w (omega (arith, next1))) λ a ea.
        bind (add_u32-Ensures t.sum2 a (omega (arith, ea, next2, square))) λ c ec.
          let same : i + 2 + n * 2 ≡ i + suc n * 2 = omega arith in
          let one_more : fletcher_sums (reduce t) (words (drop i d))
              ≡ fletcher_sums (reduce (record { sum1 = a; sum2 = c })) (words (drop (i + 2) d)) =
            rw (q.1, ec, ea, reduce-step t w) refl in
          let rest =
            add_words-Ensures n (m + 1) (i + 2) (record { sum1 = a; sum2 = c }) (omega arith)
              (omega arith)
              (record {
                bound1 = omega (arith, ea, next1);
                bound2 = omega (arith, ea, ec, next2);
              }) in
          weaken rest
            λ t' r. one_more ∙ r ∙ ap (λ k. fletcher_sums (reduce t') (words (drop k d))) same

  -- The loop over whole blocks keeps the sums reduced, and leaves a rest that completes them.
  pub add_blocks-Ensures :
      (fuel offset : ℕ) (t : Sums)
      → length d < fuel + offset
      → 0 < fuel
      → offset ≤ length d
      → IsSmall t
      → Post NoError
          (λ r.
            (r.0 ≤ length d)
            × IsSmall r.1
            × (fletcher_sums t (words (drop offset d)) ≡ fletcher_sums r.1 (words (drop r.0 d))))
          (add_blocks fuel d offset t)
  unfolding add_blocks reduce
  add_blocks-Ensures zero offset t h l o k = absurd (omega arith)
  add_blocks-Ensures (suc fuel) offset t h l o k =
      branch (leb (offset + block_words * 2) (length d))
        (λ e.
          let inside : offset + block_words * 2 ≤ length d = ground arith in
          bind
            (add_words-Ensures block_words 0 offset t (omega arith) inside
              (record { bound1 = omega (arith, k.small1); bound2 = omega (arith, k.small2) }))
            λ t' r.
              weaken
                (add_blocks-Ensures fuel (offset + block_words * 2) (reduce t') (omega arith)
                  (omega arith) inside (reduce-IsSmall t'))
                λ u v.
                  let start : fletcher_sums t (words (drop offset d))
                      ≡ fletcher_sums (reduce t) (words (drop offset d)) =
                    ap (λ x. fletcher_sums x (words (drop offset d))) (sym (reduce_small t k)) in
                  (v.0, v.1, start ∙ r ∙ v.2))
        (λ _. returns (o, k, refl))

  -- The last loop, one word at a time.
  last_word_at-Ensures :
      (offset : ℕ)
      → offset < length d
      → Post NoError
          (λ w. (w ≤ 65535) × (words (drop offset d) ≡ w ∷ words (drop (offset + 2) d)))
          (last_word_at d offset)
  unfolding last_word_at words
  last_word_at-Ensures offset h =
      branch (ltb (offset + 1) (length d)) (λ e. word_at-Ensures d offset s (ground arith))
        (λ e.
          let last : suc offset ≡ length d = ground arith in
          let (high, at, rest, byte) = split_last d offset s last in
          let past = drop_past d (offset + 2) (omega (arith, last)) in
          rw (at, rest, past) (returns (omega (arith, byte), refl)))

  pub add_rest-Ensures :
      (fuel offset : ℕ) (t : Sums)
      → length d < fuel + offset
      → 0 < fuel
      → IsSmall t
      → Post NoError
          (λ r. IsSmall r × (r ≡ fletcher_sums t (words (drop offset d))))
          (add_rest fuel d offset t)
  unfolding add_rest fletcher_sums fletcher_step words
  add_rest-Ensures zero offset t h l k = absurd (omega arith)
  add_rest-Ensures (suc fuel) offset t h l k =
      branch (ltb offset (length d))
        (λ e.
          let inside : offset < length d = ground arith in
          bind (last_word_at-Ensures offset inside) λ w q.
            bind (add_u32-Ensures t.sum1 w (omega (arith, k.small1, q.0))) λ a ea.
              let low = mod-lt a {m = 65535} (omega arith) in
              bind (add_u32-Ensures t.sum2 (a % 65535) (omega (arith, k.small2, low))) λ c ec.
                weaken
                  (add_rest-Ensures fuel (offset + 2)
                    (record { sum1 = a % 65535; sum2 = c % 65535 }) (omega arith) (omega arith)
                    (record { small1 = low; small2 = mod-lt c (omega arith) }))
                  λ r v. (v.0, v.1 ∙ rw (q.1, ec, ea) refl))
        (λ e. let past = drop_past d offset (ground arith) in returns (k, rw (past) refl))
