-- ===== src/ChunkGrid/Implicit.antt =====
-- The implicit index lists every chunk of the grid once, at its place.
use rustyhdf.Prelude.{
  ℕ, zero, suc, ◌+◌, ◌*◌, ◌/◌, ◌%◌, ◌^◌, ◌<◌, ◌≤◌, ◌≡◌, refl, ap, sym, ◌∙◌, arith,
}
use rustyhdf.Prelude.{
  List, [], ◌∷◌, length, All, some, get_elem?, ◌==◌, ◌-◌, ℕ_discrete, ==_iff, lt→ltb, false,
  if◌then◌else◌, Bool-cases, inl, inr,
}
use native.Mathlib.Nat.{
  div-add-mod', mul-le-mul_right, mul-le-mul_left, add-mul, mul_assoc, add-zero, one-mul,
}
use mathlib.Core.Path.{subst}
use rustyhdf.Outcome.{reserve, ok, mul_usize, add_usize, usize_mod}
use rustyhdf.Outcome.Ensures.{Post, NoError, returns, bind, weaken, succeeds}
use rustyhdf.Dataspace.{product_u64}
use rustyhdf.ChunkCache.{ChunkInfo}
use rustyhdf.ChunkGrid.{div_ceil, chunks_per_dim, chunk_byte_size, implicit_chunk, implicit_from}
use rustyhdf.ChunkGrid.{generate_implicit_chunks}
use rustyhdf.ChunkGrid.Coordinates.{product, flat, IsCoordinate, scaled, IsGrid, flat-lt}
use rustyhdf.ChunkGrid.Coordinates.{
  flat_unique, index_to_chunk_offsets-flat, index_to_chunk_offsets-Ensures,
}

-- How many chunks of `c` cover `d`.
abbrev pub ceiling : ℕ → ℕ → ℕ
ceiling d c = d / c + (if d % c == 0 then 0 else 1)

abbrev pub ceilings : List ℕ → List ℕ → List ℕ
ceilings ds [] = []
ceilings [] (c ∷ cs) = []
ceilings (d ∷ ds) (c ∷ cs) = ceiling d c ∷ ceilings ds cs

-- The dataset has a dimension for each of the chunk's, none is 0, and they fit 64 bits together.
abbrev pub IsTiled : List ℕ → List ℕ → Type 0
IsTiled ds [] = Unit {0}
IsTiled [] (c ∷ cs) = ⊥
IsTiled (d ∷ ds) (c ∷ cs) = (0 < d) × (0 < c) × (d + c ≤ usize_mod) × IsTiled ds cs

product-pos : (ns : List ℕ) → All (λ n. 0 < n) ns → 0 < product ns
product-pos [] h = omega arith
product-pos (n ∷ ns) h =
    let one : 1 ≤ n = h.0 in
    let p : 0 < product ns = product-pos ns h.1 in
    let row : 1 * product ns ≤ n * product ns = mul-le-mul_right (product ns) one in omega arith

-- The chunks cover the dimension, and the last one begins inside it.
ceiling-bounds : (d c : ℕ) → 0 < d → 0 < c → (0 < ceiling d c) × (ceiling d c * c < d + c)
ceiling-bounds d c hd hc = elim (Bool-cases (d % c == 0)) [
  | inl e ↦ rw e (bounds_exact (d / c) (d % c) ((==_iff _ _).0 e) (div-add-mod' d c))
  | inr e ↦ rw e (
    omega arith,
    omega (
      arith,
      div-add-mod' d c,
      add-mul (d / c) 1 c,
      (let h : 0 < d % c = ground (arith, e) in h),
    ),
  )
]
  where
    bounds_exact : (q r : ℕ) → r ≡ 0 → q * c + r ≡ d → (0 < q + 0) × ((q + 0) * c < d + c)
    bounds_exact zero r e h = absurd (omega arith)
    bounds_exact (suc q) r e h = (omega arith, rw (add-zero (suc q)) (omega arith))

pub chunks_per_dim-Ensures :
    (ds cs : List ℕ)
    → IsTiled ds cs
    → (chunks_per_dim ds cs ≡ ok (ceilings ds cs)) × IsGrid (ceilings ds cs) cs
unfolding chunks_per_dim div_ceil
chunks_per_dim-Ensures ds [] t = (refl, tt)
chunks_per_dim-Ensures [] (c ∷ cs) t = elim t [ ]
chunks_per_dim-Ensures (d ∷ ds) (c ∷ cs) (hd, hc, small, t) =
    let (e, g) = chunks_per_dim-Ensures ds cs t in
    let (some_chunk, below) = ceiling-bounds d c hd hc in
    let nonzero : (c == 0) ≡ false = ground arith in
    (rw (nonzero, e) refl, (some_chunk, omega arith, g))

-- No partial product overflows when the whole product fits and no factor is 0.
pub product_u64-Ensures :
    (acc : ℕ) (ns : List ℕ)
    → All (λ n. 0 < n) ns
    → acc * product ns < usize_mod
    → product_u64 acc ns ≡ ok (acc * product ns)
unfolding product_u64 mul_usize
product_u64-Ensures acc [] h small = ap ok (omega arith)
product_u64-Ensures acc (n ∷ ns) h small =
    let p : 0 < product ns = product-pos ns h.1 in
    let assoc : acc * n * product ns ≡ acc * (n * product ns) = mul_assoc acc n (product ns) in
    let part : acc * n * 1 ≤ acc * n * product ns = mul-le-mul_left (acc * n) p in
    rw (lt→ltb (acc * n) usize_mod (omega arith))
      (product_u64-Ensures (acc * n) ns h.1 (omega arith) ∙ ap ok assoc)

ceilings-positive : (ds cs : List ℕ) → IsTiled ds cs → All (λ n. 0 < n) (ceilings ds cs)
ceilings-positive ds [] t = tt
ceilings-positive [] (c ∷ cs) t = elim t [ ]
ceilings-positive (d ∷ ds) (c ∷ cs) (hd, hc, small, t) =
    ((ceiling-bounds d c hd hc).0, ceilings-positive ds cs t)

-- The entry of the chunk with these coordinates.
abbrev pub chunk_at : ℕ → ℕ → List ℕ → List ℕ → List ℕ → ChunkInfo
chunk_at base size ns cs ks = record {
  chunk_size = size % 2 ^ 32;
  filter_mask = 0;
  offsets = scaled ks cs;
  address = base + flat ns ks * size;
}

module _ (ns cs : List ℕ) (base size : ℕ) (g : IsGrid ns cs)
    (room : base + product ns * size < usize_mod) where
  implicit_chunk_lem :
      (ks : List ℕ)
      → IsCoordinate ns ks
      → implicit_chunk base ns cs size (flat ns ks) ≡ ok (chunk_at base size ns cs ks)
  unfolding implicit_chunk mul_usize add_usize
  implicit_chunk_lem ks c =
      let (h, e) = index_to_chunk_offsets-flat ns cs ks g c in
      let below : flat ns ks ≤ product ns = omega arith in
      let row : flat ns ks * size ≤ product ns * size = mul-le-mul_right size below in
      rw
        (
          e,
          lt→ltb (flat ns ks * size) usize_mod (omega arith),
          lt→ltb (base + flat ns ks * size) usize_mod (omega arith),
        )
        refl

  -- The entries from index `i` on.
  implicit_from-Ensures :
      (n i : ℕ)
      → i + n ≡ product ns
      → Post NoError
          (λ r.
            (length r ≡ n)
            × ((ks : List ℕ)
                → IsCoordinate ns ks
                → i ≤ flat ns ks
                → get_elem? r (flat ns ks - i) ≡ some (chunk_at base size ns cs ks)))
          (implicit_from n i base ns cs size)
  unfolding implicit_from
  implicit_from-Ensures zero i e = returns (refl, λ ks c h. absurd (omega (arith, flat-lt ns ks c)))
  implicit_from-Ensures (suc n) i e =
      let (offsets, e', (ls, c', same, place)) =
        succeeds (index_to_chunk_offsets-Ensures {E = NoError} i ns cs g (omega arith)) in
      let first : implicit_chunk base ns cs size i ≡ ok (chunk_at base size ns cs ls) =
        subst (λ k. implicit_chunk base ns cs size k ≡ ok (chunk_at base size ns cs ls)) same
          (implicit_chunk_lem ls c') in
      rw first (
        bind (implicit_from-Ensures n (i + 1) (omega arith)) λ r (count, rest). returns (
          ap suc count,
          λ ks c h. elim (ℕ_discrete (flat ns ks) i) [
            | yes at ↦
                let ls-ks : ls ≡ ks = flat_unique ns ls ks c' c (same ∙ sym at) in
                let none_before : flat ns ks - i ≡ 0 = omega arith in
                rw none_before (ap (λ l. some (chunk_at base size ns cs l)) ls-ks)
            | no past ↦
                let later : flat ns ks - i ≡ suc (flat ns ks - (i + 1)) = omega arith in
                rw later (rest ks c (omega arith))
          ],
        ))

-- The implicit index of a dataset that its chunks tile: `generate_implicit_chunks` succeeds and
-- lists exactly as many chunks as cover the dataset, and for all coordinates in the grid the entry
-- at their row-major index has the chunk's place in the dataset, no filter mask, and the address
-- that many chunk sizes behind the base. No dimension may be 0, the entries, of 40 bytes each,
-- must take fewer than 2^63 bytes, and a chunk's size in bytes, each dimension of the dataset and
-- the chunk together, and the end of the data must fit 64 bits; the size in the entry is cut to 32
-- bits.
pub generate_implicit_chunks-IsCoordinate :
    (base : ℕ) (ds cs : List ℕ) (es : ℕ)
    → IsTiled ds cs
    → All (λ c. 0 < c) cs
    → product (ceilings ds cs) * 40 < 2 ^ 63
    → product cs < usize_mod
    → base + product (ceilings ds cs) * (product cs * es) < usize_mod
    → Post NoError
        (λ r.
          (length r ≡ product (ceilings ds cs))
          × ((ks : List ℕ)
              → IsCoordinate (ceilings ds cs) ks
              → get_elem? r (flat (ceilings ds cs) ks)
                ≡ some (chunk_at base (product cs * es) (ceilings ds cs) cs ks)))
        (generate_implicit_chunks base ds cs es)
unfolding generate_implicit_chunks chunk_byte_size mul_usize reserve
generate_implicit_chunks-IsCoordinate base ds cs es t pos count elements room =
    let ns = ceilings ds cs in
    let (e, g) = chunks_per_dim-Ensures ds cs t in
    let many : 0 < product ns = product-pos ns (ceilings-positive ds cs t) in
    let one : 1 * (product cs * es) ≤ product ns * (product cs * es) =
      mul-le-mul_right (product cs * es) many in
    rw
      (
        product_u64-Ensures 1 cs pos (omega arith),
        one-mul (product cs),
        lt→ltb (product cs * es) usize_mod (omega arith),
        e,
        product_u64-Ensures 1 ns (ceilings-positive ds cs t) (omega arith),
        one-mul (product ns),
        lt→ltb (product ns * 40) (2 ^ 63) count,
      )
      (weaken
        (implicit_from-Ensures ns cs base (product cs * es) g room (product ns) 0 (omega arith))
        (λ r (size, entries). (
          size,
          λ ks c.
              let from_start : flat ns ks - 0 ≡ flat ns ks = omega arith in
              rw from_start at (entries ks c (omega arith)),
        )))
