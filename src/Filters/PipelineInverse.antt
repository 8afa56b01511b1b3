-- ===== src/Filters/PipelineInverse.antt =====
-- Decompressing undoes compressing, for every pipeline.
use rustyhdf.Prelude.{ℕ, suc, ◌/◌, ◌%◌, ◌<◌, ◌≡◌, refl, sym, ◌∙◌, arith}
use rustyhdf.Prelude.{List, [], ◌∷◌, ◌++◌, length, get_elem?, All, All-append, All-get_elem?, some}
use rustyhdf.Prelude.{
  String, leb, true, false, ◌||◌, ◌==◌, ==_iff, Bool-cases, ◌⊎◌, inl, inr, get_elem?_total,
}
use mathlib.Core.Path.{subst}
use rustyhdf.Outcome.{FormatError, Outcome, ok, err, panic, stuck, ◌>>=◌, compression_error}
use rustyhdf.Outcome.{decompression_error}
use rustyhdf.Outcome.Ensures.{Ensures, Post, NoError, returns, fails, bind, branch, succeeds}
use rustyhdf.Outcome.Ensures.{weaken, with_eq}
use rustyhdf.Bytes.{IsByte, IsBytes, to_le}
use rustyhdf.Bytes.Laws.{to_le-IsBytes}
use rustyhdf.FilterPipeline.{FilterDescription, FilterPipeline}
use rustyhdf.FilterPipeline.{filter_deflate, filter_shuffle, filter_fletcher32}
use rustyhdf.Filters.Shuffle.{plain, grouped, shuffle_compress, shuffle_decompress}
use rustyhdf.Filters.Moves.{IsMoved, IsPlacing, move_bytes-Ensures}
use rustyhdf.Filters.ShuffleInverse.{IsOnto, whole_elements, grouped-IsOnto, grouped-IsPlacing}
use rustyhdf.Filters.ShuffleInverse.{shuffle_decompress-shuffle_compress}
use rustyhdf.Filters.Fletcher.{fletcher32_append, fletcher32_verify}
use rustyhdf.Filters.FletcherInverse.{fletcher32, fletcher32_compute-fletcher32}
use rustyhdf.Filters.FletcherInverse.{fletcher32_verify-fletcher32_append}
use rustyhdf.Filters.Pipeline.{Zlib, deflate_compress, deflate_decompress, deflate_level}
use rustyhdf.Filters.Pipeline.{compress_one, decompress_one, compress_each, decompress_each}
use rustyhdf.Filters.Pipeline.{backwards, compress_chunk, decompress_chunk}

-- What zlib promises: its output for bytes is bytes, and decoding what was encoded gives the data back.
pub record IsLossless (z : Zlib) : Type 0 where
  pub bytes : (level : ℕ) (d c : List ℕ) → IsBytes d → z.encode level d ≡ inl c → IsBytes c
  pub back : (level : ℕ) (d c : List ℕ) → IsBytes d → z.encode level d ≡ inl c → z.decode c ≡ inl d

All-from {ℓ} :
    (P : ℕ → Type ℓ) (xs : List ℕ)
    → ((k : ℕ) → k < length xs → (x : ℕ) × (get_elem? xs k ≡ some x) × P x)
    → All P xs
All-from P [] h = tt
All-from P (x ∷ xs) h =
    let (y, e, p) = h 0 (omega arith) in
    (subst P (let q : x ≡ y = cc in sym q) p, All-from P xs (λ k l. h (suc k) (omega arith)))

moved-IsBytes :
    (d c : List ℕ) (n es : ℕ) (target source : ℕ → ℕ → ℕ)
    → IsBytes d
    → IsOnto d n es target
    → IsPlacing d n es target source
    → IsMoved d n es target source n 0 c
    → IsBytes c
unfolding IsOnto
moved-IsBytes d c n es target source s onto p m = All-from IsByte c λ k h.
    let (i, j, hi, hj, e) = onto k (omega (arith, m.same_length)) in
    let (x, at) = get_elem?_total d (source i j) (p.source_inside i j hi hj) in
    let moved : get_elem? c (target i j) ≡ some x = m.moved i j hj (inl hi) ∙ at in
    (x, subst (λ q. get_elem? c q ≡ some x) e moved, All-get_elem? IsByte d (source i j) s at)

pub shuffle_compress-succeeds :
    {E : FormatError → Type 0} (d : List ℕ) (es : ℕ)
    → IsBytes d
    → (leb es 1 || (length d % es == 0)) ≡ true
    → Post E IsBytes (shuffle_compress d es)
unfolding shuffle_compress
shuffle_compress-succeeds d es s fits =
    branch (leb es 1) (λ small. returns s)
      λ large.
        branch (length d % es == 0)
          (λ whole.
            let n : ℕ = length d / es in
            let size = whole_elements d es ((==_iff _ _).0 whole) in
            let p = grouped-IsPlacing d n es size in
            let (c, e, m) = succeeds (move_bytes-Ensures d n es (grouped n) (plain es) p) in
            rw e (
              returns
                (moved-IsBytes d c n es (grouped n) (plain es) s (grouped-IsOnto d n es size) p m)))
          λ ragged. absurd (let never = rw (large, ragged) at fits in cc)

shuffle_compress-ragged {κ} :
    {P : List ℕ → Type κ} (d : List ℕ) (es : ℕ)
    → (leb es 1 || (length d % es == 0)) ≡ false
    → Ensures P (shuffle_compress d es)
unfolding shuffle_compress
shuffle_compress-ragged d es h =
    branch (leb es 1) (λ small. absurd (let never = rw small at h in cc))
      λ large.
        branch (length d % es == 0) (λ whole. absurd (let never = rw (large, whole) at h in cc))
          λ ragged. fails tt

shuffle_compress-Ensures :
    (d : List ℕ) (es : ℕ)
    → IsBytes d
    → Ensures (λ c. IsBytes c × (shuffle_decompress c es ≡ ok d)) (shuffle_compress d es)
shuffle_compress-Ensures d es s = elim (Bool-cases (leb es 1 || (length d % es == 0))) [
  | inl fits ↦
      weaken (with_eq (shuffle_compress d es) (shuffle_compress-succeeds d es s fits)) λ c h.
        let back = rw (h.0, fits) at (shuffle_decompress-shuffle_compress d es) in (h.1, back)
  | inr ragged ↦ shuffle_compress-ragged d es ragged
]

pub append_checksum-Ensures :
    (d : List ℕ)
    → IsBytes d
    → Post NoError (λ c. IsBytes c × (fletcher32_verify c ≡ ok d)) (fletcher32_append d)
unfolding fletcher32_append
append_checksum-Ensures d s =
    let e = fletcher32_compute-fletcher32 d s in
    let back = rw e at (fletcher32_verify-fletcher32_append d s) in
    rw e (
      returns
        (All-append IsByte d (to_le 4 (fletcher32 d)) s (to_le-IsBytes 4 (fletcher32 d)), back))

deflate_compress-Ensures :
    (z : Zlib) (d : List ℕ) (level : ℕ)
    → IsLossless z
    → IsBytes d
    → Ensures (λ c. IsBytes c × (deflate_decompress z c ≡ ok d)) (deflate_compress z d level)
unfolding deflate_compress deflate_decompress
deflate_compress-Ensures z d level lossless s = encoded (z.encode level d) refl
  where
    encoded :
        (r : List ℕ ⊎ String)
        → z.encode level d ≡ r
        → Ensures
            (λ c.
              IsBytes c
              × (elim (z.decode c) [ inl r ↦ ok r | inr e ↦ err (decompression_error e) ] ≡ ok d))
            (elim r [ inl r ↦ ok r | inr e ↦ err (compression_error e) ])
    encoded (inl c) e =
        returns (lossless.bytes level d c s e, rw (lossless.back level d c s e) refl)
    encoded (inr m) e = fails tt

any_error {ℓ κ} : {A : Type ℓ} {P : A → Type κ} {m : Outcome A} → Post NoError P m → Ensures P m
any_error (returns p) = returns p
any_error (fails x) = absurd x

module _ (z : Zlib) (lossless : IsLossless z) (es : ℕ) where
  compress_one-Ensures :
      (f : FilterDescription) (d : List ℕ)
      → IsBytes d
      → Ensures (λ c. IsBytes c × (decompress_one z f c es ≡ ok d)) (compress_one z f d es)
  unfolding compress_one decompress_one
  compress_one-Ensures f d s =
      branch (f.filter_id == filter_shuffle) (λ e. rw e (shuffle_compress-Ensures d es s))
        λ e.
          branch (f.filter_id == filter_deflate)
            (λ e'.
              rw (e, e') (deflate_compress-Ensures z d (deflate_level f.client_data) lossless s))
            λ e'.
              branch (f.filter_id == filter_fletcher32)
                (λ e''. rw (e, e', e'') (any_error (append_checksum-Ensures d s))) λ _. fails tt

  -- Filters are undone from the last to the first.
  decompress_each-append :
      (fs gs : List FilterDescription) (d : List ℕ)
      → decompress_each z (fs ++ gs) d es
        ≡ (decompress_each z fs d es >>= λ r. decompress_each z gs r es)
  unfolding decompress_each
  decompress_each-append [] gs d = refl
  decompress_each-append (f ∷ fs) gs d =
      regroup (decompress_one z f d es) (λ r. decompress_each z (fs ++ gs) r es)
        (λ r. decompress_each z fs r es) (λ r. decompress_each z gs r es)
        (λ r. decompress_each-append fs gs r)
    where
      regroup :
          (m : Outcome (List ℕ)) (k k' g : List ℕ → Outcome (List ℕ))
          → ((r : List ℕ) → k r ≡ (k' r >>= g))
          → (m >>= k) ≡ ((m >>= k') >>= g)
      regroup (ok r) k k' g h = h r
      regroup (err e) k k' g h = refl
      regroup panic k k' g h = refl
      regroup stuck k k' g h = refl

  compress_each-Ensures :
      (fs : List FilterDescription) (d : List ℕ)
      → IsBytes d
      → Ensures
          (λ c. IsBytes c × (decompress_each z (backwards fs) c es ≡ ok d))
          (compress_each z fs d es)
  unfolding compress_each decompress_each
  compress_each-Ensures [] d s = returns (s, refl)
  compress_each-Ensures (f ∷ fs) d s = bind (compress_one-Ensures f d s) λ r h.
      weaken (compress_each-Ensures fs r h.0)
        λ c t. (t.0, decompress_each-append (backwards fs) (f ∷ []) c ∙ rw (t.1, h.1) refl)

  -- For every pipeline, element size and data, `compress_chunk` returns `Ok` or `Err` and never
  -- panics, and `decompress_chunk` gives exactly the data back from what it returned. The filters
  -- may be any, in any order and number. For zlib it is assumed that encoding gives bytes and that
  -- decoding gives back what was encoded.
  pub decompress_chunk-compress_chunk :
      (p : FilterPipeline) (d : List ℕ)
      → IsBytes d
      → Ensures (λ c. IsBytes c × (decompress_chunk z c p es ≡ ok d)) (compress_chunk z d p es)
  unfolding compress_chunk decompress_chunk
  decompress_chunk-compress_chunk p d s = compress_each-Ensures p.filters d s
