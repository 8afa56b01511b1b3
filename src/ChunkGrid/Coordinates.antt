-- ===== src/ChunkGrid/Coordinates.antt =====
-- The chunk at a linear index lies at the coordinates that the index stands for in row-major order.
use rustyhdf.Prelude.{ℕ, zero, suc, ◌+◌, ◌*◌, ◌/◌, ◌%◌, ◌<◌, ◌≤◌, ◌≡◌, refl, ap, ◌∙◌, arith}
use rustyhdf.Prelude.{List, [], ◌∷◌, ◌==◌}
use native.Mathlib.Nat.{div-add-mod', mod-lt, mul-le-mul_right, add-mul, mul_assoc}
use rustyhdf.Outcome.{FormatError, ok, usize_mod}
use rustyhdf.Outcome.Ensures.{Post, NoError, returns, bind, branch, mul_usize-Ensures, succeeds}
use rustyhdf.Filters.ShuffleInverse.{place_unique}
use rustyhdf.ChunkGrid.{div_u64, rem_u64, offsets_from, index_to_chunk_offsets}

abbrev pub product : List ℕ → ℕ
product [] = 1
product (n ∷ ns) = n * product ns

-- The index of a chunk in row-major order.
abbrev pub flat : List ℕ → List ℕ → ℕ
flat [] ks = 0
flat (n ∷ ns) [] = 0
flat (n ∷ ns) (k ∷ ks) = k * product ns + flat ns ks

-- One coordinate below each number of chunks.
abbrev pub IsCoordinate : List ℕ → List ℕ → Type 0
IsCoordinate [] [] = Unit {0}
IsCoordinate [] (k ∷ ks) = ⊥
IsCoordinate (n ∷ ns) [] = ⊥
IsCoordinate (n ∷ ns) (k ∷ ks) = (k < n) × IsCoordinate ns ks

-- The place in the dataset of a chunk with these coordinates.
abbrev pub scaled : List ℕ → List ℕ → List ℕ
scaled [] cs = []
scaled (k ∷ ks) [] = []
scaled (k ∷ ks) (c ∷ cs) = k * c ∷ scaled ks cs

-- No dimension has 0 chunks, there is a chunk size for each, and the dimensions fit 64 bits.
abbrev pub IsGrid : List ℕ → List ℕ → Type 0
IsGrid [] cs = Unit {0}
IsGrid (n ∷ ns) [] = ⊥
IsGrid (n ∷ ns) (c ∷ cs) = (0 < n) × (n * c < usize_mod) × IsGrid ns cs

module _ {E : FormatError → Type 0} where
  rem_u64-Ensures : (a b : ℕ) → 0 < b → Post E (λ r. r ≡ a % b) (rem_u64 a b)
  unfolding rem_u64
  rem_u64-Ensures a b h = branch (b == 0) (λ e. absurd (ground arith)) (λ _. returns refl)

  div_u64-Ensures : (a b : ℕ) → 0 < b → Post E (λ r. r ≡ a / b) (div_u64 a b)
  unfolding div_u64
  div_u64-Ensures a b h = branch (b == 0) (λ e. absurd (ground arith)) (λ _. returns refl)

  -- What remains counts the whole grids.
  offsets_from-Ensures :
      (index : ℕ) (ns cs : List ℕ)
      → IsGrid ns cs
      → Post E
          (λ r.
            (ks : List ℕ) × IsCoordinate ns ks
            × (r.0 ≡ scaled ks cs)
            × (r.1 * product ns + flat ns ks ≡ index))
          (offsets_from index ns cs)
  unfolding offsets_from
  offsets_from-Ensures index [] cs g = returns ([], tt, refl, omega arith)
  offsets_from-Ensures index (n ∷ ns) [] g = elim g [ ]
  offsets_from-Ensures index (n ∷ ns) (c ∷ cs) (some_chunk, small, g) =
      bind (offsets_from-Ensures index ns cs g) λ r (ks, coord, place, whole).
        bind (rem_u64-Ensures r.1 n some_chunk) λ k e.
          bind (div_u64-Ensures r.1 n some_chunk) λ left e'.
            let below : k < n = omega (arith, e, mod-lt r.1 some_chunk) in
            let fits : k * c < usize_mod =
              omega (arith, small, mul-le-mul_right c (let h : k ≤ n = omega arith in h)) in
            bind (mul_usize-Ensures k c fits) λ offset e''.
              let split : left * n + k ≡ r.1 = rw (e, e') (div-add-mod' r.1 n) in
              returns (
                k ∷ ks,
                (below, coord),
                rw (e'', place) refl,
                regroup left n k (product ns) r.1 (flat ns ks) index split whole,
              )
    where
      regroup :
          (left n k p r f index : ℕ)
          → left * n + k ≡ r
          → r * p + f ≡ index
          → left * (n * p) + (k * p + f) ≡ index
      regroup left n k p r f index split whole =
          omega (arith, whole, ap (λ m. m * p) split, add-mul (left * n) k p, mul_assoc left n p)

product-pos : (ns cs : List ℕ) → IsGrid ns cs → 0 < product ns
product-pos [] cs g = omega arith
product-pos (n ∷ ns) [] g = elim g [ ]
product-pos (n ∷ ns) (c ∷ cs) (some_chunk, small, g) =
    let p : 0 < product ns = product-pos ns cs g in
    let h : 1 * product ns ≤ n * product ns = mul-le-mul_right (product ns) some_chunk in
    omega arith

pub flat-lt : (ns ks : List ℕ) → IsCoordinate ns ks → flat ns ks < product ns
flat-lt [] [] c = omega arith
flat-lt [] (k ∷ ks) c = elim c [ ]
flat-lt (n ∷ ns) [] c = elim c [ ]
flat-lt (n ∷ ns) (k ∷ ks) (below, c) =
    let h : flat ns ks < product ns = flat-lt ns ks c in
    let next : k + 1 ≤ n = omega arith in
    omega (arith, mul-le-mul_right (product ns) next, add-mul k 1 (product ns))

-- Different coordinates have different indices.
pub flat_unique :
    (ns ks ls : List ℕ)
    → IsCoordinate ns ks
    → IsCoordinate ns ls
    → flat ns ks ≡ flat ns ls
    → ks ≡ ls
flat_unique [] [] [] c c' e = refl
flat_unique [] [] (l ∷ ls) c c' e = elim c' [ ]
flat_unique [] (k ∷ ks) ls c c' e = elim c [ ]
flat_unique (n ∷ ns) [] ls c c' e = elim c [ ]
flat_unique (n ∷ ns) (k ∷ ks) [] c c' e = elim c' [ ]
flat_unique (n ∷ ns) (k ∷ ks) (l ∷ ls) (below, c) (below', c') e =
    let (first, rest) =
      place_unique (product ns) (flat ns ks) k (flat ns ls) l (flat-lt ns ks c) (flat-lt ns ls c')
        e in
    let tails : ks ≡ ls = flat_unique ns ks ls c c' rest in cc

-- Every index below the number of chunks is the one of some coordinates.
pub index_to_chunk_offsets-Ensures :
    {E : FormatError → Type 0} (index : ℕ) (ns cs : List ℕ)
    → IsGrid ns cs
    → index < product ns
    → Post E
        (λ offsets.
          (ks : List ℕ) × IsCoordinate ns ks × (flat ns ks ≡ index) × (offsets ≡ scaled ks cs))
        (index_to_chunk_offsets index ns cs)
unfolding index_to_chunk_offsets
index_to_chunk_offsets-Ensures index ns cs g h =
    bind (offsets_from-Ensures index ns cs g) λ r (ks, coord, place, whole).
      returns (ks, coord, none_left r.1 (product ns) (flat ns ks) index whole h, place)
  where
    none_left : (r p f index : ℕ) → r * p + f ≡ index → index < p → f ≡ index
    none_left zero p f index e h = omega arith
    none_left (suc r) p f index e h =
        let row : 1 * p ≤ suc r * p = mul-le-mul_right p (omega arith) in absurd (omega arith)

-- For a grid of chunks with no empty dimension, whose extents fit 64 bits, and for all coordinates
-- in it, the row-major index of the coordinates is below the number of chunks, and
-- `index_to_chunk_offsets` maps that index to the place of the chunk in the dataset: each
-- coordinate times the chunk's dimension.
pub index_to_chunk_offsets-flat :
    (ns cs ks : List ℕ)
    → IsGrid ns cs
    → IsCoordinate ns ks
    → (flat ns ks < product ns) × (index_to_chunk_offsets (flat ns ks) ns cs ≡ ok (scaled ks cs))
index_to_chunk_offsets-flat ns cs ks g c =
    let h = flat-lt ns ks c in
    let (offsets, e, (ls, c', same, place)) =
      succeeds (index_to_chunk_offsets-Ensures {E = NoError} (flat ns ks) ns cs g h) in
    let ks-ls : ls ≡ ks = flat_unique ns ls ks c' c same in
    (h, e ∙ ap ok (place ∙ ap (λ l. scaled l cs) ks-ls))
