-- ===== src/Filters/ShuffleInverse.antt =====
-- The shuffle loses nothing: each direction undoes the other.
use rustyhdf.Prelude.{ℕ, ◌+◌, ◌*◌, ◌/◌, ◌%◌, ◌<◌, ◌≤◌, ◌≡◌, refl, ap, ◌∙◌, sym, arith}
use rustyhdf.Prelude.{
  List, length, get_elem?, get_elem?_ext, leb, ◌==◌, ◌||◌, ==_iff, if◌then◌else◌,
}
use rustyhdf.Prelude.{inl, inr, Bool-cases, ℕ_discrete}
use mathlib.Core.Path.{subst}
use rustyhdf.Outcome.{ok, err, ◌>>=◌, filter_error}
use rustyhdf.Outcome.Ensures.{succeeds}
use rustyhdf.Filters.Shuffle.{move_bytes, plain, grouped, shuffle_compress, shuffle_decompress}
use rustyhdf.Filters.Moves.{IsMoved, IsPlacing, move_bytes-Ensures}
use native.Mathlib.Nat.{
  mul-add-div_right, mul-le-mul_right, div-add-mod', mod-lt, div-eq_of_lt, div-lt_iff_lt-mul,
}

-- A row and a place in it are read off the sum.
pub place_unique :
    (n i j i' j' : ℕ) → i < n → i' < n → j * n + i ≡ j' * n + i' → (j ≡ j') × (i ≡ i')
place_unique n i j i' j' h h' e =
    let row : j ≡ j' = omega (
      arith,
      mul-add-div_right {m = n} (omega arith) j i,
      mul-add-div_right {m = n} (omega arith) j' i',
      ap (λ k. k / n) e,
      small i h,
      small i' h',
    ) in
    let column : j * n ≡ j' * n = ap (λ k. k * n) row in (row, omega arith)
  where
    small : (i : ℕ) → i < n → i / n ≡ 0
    small i h = div-eq_of_lt h

place_inside : (n m i j : ℕ) → i < n → j < m → j * n + i < m * n
place_inside n m i j h k =
    let rows : (j + 1) * n ≤ m * n = mul-le-mul_right n (omega arith) in grind arith

-- Every place below `m * n` is byte `i` of row `j`, for some row and byte.
place_reached : (n m k : ℕ) → k < m * n → (i : ℕ) × (j : ℕ) × (i < n) × (j < m) × (j * n + i ≡ k)
place_reached n m k h =
    let some_place : 0 < n = elim (ℕ_discrete n 0) [
      | yes e ↦ absurd (let none_at : m * n ≡ 0 = rw (e) (omega arith) in omega arith)
      | no ne ↦ omega arith
    ] in
    (
      k % n,
      k / n,
      mod-lt k some_place,
      (div-lt_iff_lt-mul {k = n} {x = k} {y = m} some_place).1 h,
      div-add-mod' k n,
    )

-- Every place of the data is the one of some byte of some element.
unfoldable pub IsOnto : List ℕ → ℕ → ℕ → (ℕ → ℕ → ℕ) → Type 0
IsOnto d n es place =
    (k : ℕ) → k < length d → (i : ℕ) × (j : ℕ) × (i < n) × (j < es) × (place i j ≡ k)

module _ (d : List ℕ) (n es : ℕ) (size : n * es ≡ length d) where
  plain_inside : (i j : ℕ) → i < n → j < es → plain es i j < length d
  plain_inside i j hi hj = omega (arith, size, place_inside es n j i hj hi)

  grouped_inside : (i j : ℕ) → i < n → j < es → grouped n i j < length d
  grouped_inside i j hi hj =
      let flipped : es * n ≡ n * es = omega arith in
      omega (arith, size, flipped, place_inside n es i j hi hj)

  plain-IsPlacing : IsPlacing d n es (plain es) (grouped n)
  plain-IsPlacing = record {
    apart = λ i j i' j' hi hj hi' hj' e. place_unique es j i j' i' hj hj' e;
    target_inside = plain_inside;
    source_inside = grouped_inside;
  }

  pub grouped-IsPlacing : IsPlacing d n es (grouped n) (plain es)
  grouped-IsPlacing = record {
    apart = λ i j i' j' hi hj hi' hj' e. let (a, b) = place_unique n i j i' j' hi hi' e in (b, a);
    target_inside = grouped_inside;
    source_inside = plain_inside;
  }

  plain-IsOnto : IsOnto d n es (plain es)
  unfolding IsOnto
  plain-IsOnto k h =
      let (j, i, hj, hi, e) = place_reached es n k (omega (arith, size)) in (i, j, hi, hj, e)

  pub grouped-IsOnto : IsOnto d n es (grouped n)
  unfolding IsOnto
  grouped-IsOnto k h =
      let flipped : es * n ≡ n * es = omega arith in
      let (i, j, hi, hj, e) = place_reached n es k (omega (arith, size, flipped)) in
      (i, j, hi, hj, e)

-- Moving the bytes back gives the data.
module _ (n es : ℕ) (target source : ℕ → ℕ → ℕ) where
  moved_back :
      (d c r : List ℕ)
      → IsOnto d n es source
      → IsMoved d n es target source n 0 c
      → IsMoved c n es source target n 0 r
      → r ≡ d
  unfolding IsOnto
  moved_back d c r onto m m' = get_elem?_ext r d (m'.same_length ∙ m.same_length) λ k h.
      let (i, j, hi, hj, e) = onto k (omega (arith, m'.same_length, m.same_length)) in
      let back = m'.moved i j hj (inl hi) ∙ m.moved i j hj (inl hi) in
      subst (λ p. get_elem? r p ≡ get_elem? d p) e back

  move_bytes_back :
      (d : List ℕ)
      → IsOnto d n es source
      → IsPlacing d n es target source
      → ((c : List ℕ) → length c ≡ length d → IsPlacing c n es source target)
      → (c : List ℕ) × (move_bytes d n es target source ≡ ok c)
        × (length c ≡ length d)
        × (move_bytes c n es source target ≡ ok d)
  move_bytes_back d onto p q =
      let (c, e, m) = succeeds (move_bytes-Ensures d n es target source p) in
      let (r, e', m') = succeeds (move_bytes-Ensures c n es source target (q c m.same_length)) in
      (c, e, m.same_length, e' ∙ ap ok (moved_back d c r onto m m'))

-- `es` of these make up the data.
pub whole_elements : (d : List ℕ) (es : ℕ) → length d % es ≡ 0 → length d / es * es ≡ length d
whole_elements d es h = omega (arith, div-add-mod' (length d) es)

-- Shuffling data and unshuffling the result gives the data back, for every element size that is 0
-- or 1 or divides the data's length; for any other size the call fails with the filter error.
pub shuffle_decompress-shuffle_compress :
    (d : List ℕ) (es : ℕ)
    → (shuffle_compress d es >>= λ c. shuffle_decompress c es) ≡ (
        if leb es 1 || (length d % es == 0)
        then ok d
        else err (filter_error "shuffle: data length not a multiple of element size"))
unfolding shuffle_compress shuffle_decompress
shuffle_decompress-shuffle_compress d es = elim (Bool-cases (leb es 1)) [
  | inl small ↦ rw (small) refl
  | inr large ↦ elim (Bool-cases (length d % es == 0)) [
    | inr ragged ↦ rw (large, ragged) refl
    | inl whole ↦
        let n = length d / es in
        let size = whole_elements d es ((==_iff _ _).0 whole) in
        let (c, e, l, e') =
          move_bytes_back n es (grouped n) (plain es) d (plain-IsOnto d n es size)
            (grouped-IsPlacing d n es size) (λ c l. plain-IsPlacing c n es (size ∙ sym l)) in
        rw (large, whole, e, l, whole, e') refl
  ]
]

-- Unshuffling data and shuffling the result gives the data back, for every element size that is 0
-- or 1 or divides the data's length; for any other size the call fails with the filter error.
pub shuffle_compress-shuffle_decompress :
    (d : List ℕ) (es : ℕ)
    → (shuffle_decompress d es >>= λ c. shuffle_compress c es) ≡ (
        if leb es 1 || (length d % es == 0)
        then ok d
        else err (filter_error "shuffle: data length not a multiple of element size"))
unfolding shuffle_compress shuffle_decompress
shuffle_compress-shuffle_decompress d es = elim (Bool-cases (leb es 1)) [
  | inl small ↦ rw (small) refl
  | inr large ↦ elim (Bool-cases (length d % es == 0)) [
    | inr ragged ↦ rw (large, ragged) refl
    | inl whole ↦
        let n = length d / es in
        let size = whole_elements d es ((==_iff _ _).0 whole) in
        let (c, e, l, e') =
          move_bytes_back n es (plain es) (grouped n) d (grouped-IsOnto d n es size)
            (plain-IsPlacing d n es size) (λ c l. grouped-IsPlacing c n es (size ∙ sym l)) in
        rw (large, whole, e, l, whole, e') refl
  ]
]
