-- ===== src/ChunkWrite/Options.antt =====
-- What is written with a dataset's options is read back through the pipeline message.
use rustyhdf.Prelude.{ℕ, ◌%◌, ◌^◌, ◌<◌, ◌≤◌, ◌≡◌, refl, sym, arith}
use rustyhdf.Prelude.{List, [], ◌∷◌, ◌++◌, length, All, Option, none, some}
use rustyhdf.Prelude.{Bool, true, false, leb, ◌==◌, ◌||◌, inl, inr, if◌then◌else◌}
use rustyhdf.Prelude.{length-append}
use mathlib.Core.Path.{subst}
use rustyhdf.Outcome.{ok}
use rustyhdf.Outcome.Ensures.{Post, NoError, returns, bind, succeeds}
use rustyhdf.Outcome.Ensures.{ensured}
use rustyhdf.Bytes.{IsBytes}
use rustyhdf.FilterPipeline.{FilterDescription, FilterPipeline, filter_deflate, filter_shuffle}
use rustyhdf.FilterPipeline.{filter_fletcher32, parse, serialize}
use rustyhdf.FilterPipeline.Safety.{IsFilter}
use rustyhdf.FilterPipeline.Names.{IsNamed, known}
use rustyhdf.FilterPipeline.RoundTrip.{IsWritable, pipeline_parse-serialize}
use rustyhdf.FilterPipeline.RoundTrip.{length-serialize}
use rustyhdf.Filters.Pipeline.{Zlib, deflate_compress, deflate_level, compress_one, compress_each}
use rustyhdf.Filters.Pipeline.{compress_chunk, decompress_chunk}
use rustyhdf.Filters.PipelineInverse.{
  IsLossless, shuffle_compress-succeeds, append_checksum-Ensures,
}
use rustyhdf.Filters.PipelineInverse.{decompress_chunk-compress_chunk}
use rustyhdf.ChunkWrite.{ChunkOptions, plain_filter, pushed_filters, pipeline_of, build_pipeline}

-- zlib writes into memory, which does not fail, at the levels that it has.
unfoldable pub IsReliable : Zlib → Type 0
IsReliable z = (level : ℕ) (d : List ℕ) → level ≤ 9 → (c : List ℕ) × (z.encode level d ≡ inl c)

-- A deflate level is one that zlib has.
abbrev pub IsLevel : Option ℕ → Type 0
IsLevel none = Unit {0}
IsLevel (some level) = level ≤ 9

-- Shuffled data is made of whole elements.
abbrev pub IsWhole : Bool → ℕ → ℕ → Type 0
IsWhole false size es = Unit {0}
IsWhole true size es = (leb es 1 || (size % es == 0)) ≡ true

deflate_compress-succeeds :
    (z : Zlib) (d : List ℕ) (level : ℕ)
    → IsLossless z
    → IsReliable z
    → level ≤ 9
    → IsBytes d
    → Post NoError IsBytes (deflate_compress z d level)
unfolding deflate_compress IsReliable
deflate_compress-succeeds z d level lossless reliable h s =
    let (c, e) = reliable level d h in
    rw (e, deflate_compress) (returns (lossless.bytes level d c s e))

module _ (z : Zlib) (lossless : IsLossless z) (reliable : IsReliable z) (es : ℕ) where
  fletcher_part :
      (b : Bool) (d : List ℕ)
      → IsBytes d
      → Post NoError IsBytes
          (compress_each z (if b then plain_filter filter_fletcher32 [] ∷ [] else []) d es)
  unfolding compress_each compress_one
  fletcher_part false d s = returns s
  fletcher_part true d s = bind (append_checksum-Ensures d s) λ c h. returns h.0

  deflate_part :
      (o : Option ℕ) (fs : List FilterDescription) (d : List ℕ)
      → IsLevel o
      → ((c : List ℕ) → IsBytes c → Post NoError IsBytes (compress_each z fs c es))
      → IsBytes d
      → Post NoError IsBytes (
          compress_each z
            (elim o [ some level ↦ plain_filter filter_deflate (level ∷ []) ∷ [] | none ↦ [] ]
              ++ fs)
            d
            es)
  unfolding compress_each compress_one deflate_level
  deflate_part none fs d h k s = k d s
  deflate_part (some level) fs d h k s =
      bind (deflate_compress-succeeds z d level lossless reliable h s) k

  shuffle_part :
      (b : Bool) (fs : List FilterDescription) (d : List ℕ)
      → IsWhole b (length d) es
      → ((c : List ℕ) → IsBytes c → Post NoError IsBytes (compress_each z fs c es))
      → IsBytes d
      → Post NoError IsBytes (
          compress_each z
            ((if b then plain_filter filter_shuffle (es ∷ []) ∷ [] else []) ++ fs)
            d
            es)
  unfolding compress_each compress_one
  shuffle_part false fs d h k s = k d s
  shuffle_part true fs d h k s = bind (shuffle_compress-succeeds d es s h) k

abbrev options : Option (List ℕ) → Option ℕ → Bool → Bool → ChunkOptions
options dims l b c = record { chunk_dims = dims; deflate_level = l; shuffle = b; fletcher32 = c }

compressed :
    (z : Zlib) (lossless : IsLossless z) (reliable : IsReliable z) (o : ChunkOptions) (es : ℕ)
    (d : List ℕ)
    → IsWhole o.shuffle (length d) es
    → IsLevel o.deflate_level
    → IsBytes d
    → Post NoError IsBytes
        (compress_chunk z d (record { version = 2; filters = pushed_filters o es }) es)
unfolding compress_chunk pushed_filters
compressed z lossless reliable o es d whole level s =
    shuffle_part z lossless reliable es o.shuffle _ d whole
      (λ c.
        deflate_part z lossless reliable es o.deflate_level _ c level
          (λ e. fletcher_part z lossless reliable es o.fletcher32 e))
      s

pipeline_of-some :
    (fs : List FilterDescription) (p : FilterPipeline)
    → pipeline_of fs ≡ some p
    → p ≡ record { version = 2; filters = fs }
unfolding pipeline_of
pipeline_of-some [] p e = cc
pipeline_of-some (f ∷ fs) p e = cc

-- Each filter that is pushed has few values of 32 bits, no flags and no name.
small-IsFilter :
    (id : ℕ) (vals : List ℕ)
    → id < 256
    → length vals < 2
    → All (λ v. v < 2 ^ 32) vals
    → IsFilter (plain_filter id vals) × IsNamed id none
small-IsFilter id vals h few small =
    (record { id = omega arith; flag = omega arith; few = omega arith; values = small }, known h)

module _ (es : ℕ) (small : es < 2 ^ 32) where
  shuffling : IsFilter (plain_filter filter_shuffle (es ∷ [])) × IsNamed filter_shuffle none
  shuffling = small-IsFilter filter_shuffle (es ∷ []) (omega arith) (omega arith) (small, tt)

  deflating :
      (level : ℕ)
      → level ≤ 9
      → IsFilter (plain_filter filter_deflate (level ∷ [])) × IsNamed filter_deflate none
  deflating level k =
      small-IsFilter filter_deflate (level ∷ []) (omega arith) (omega arith) (omega arith, tt)

  summing : IsFilter (plain_filter filter_fletcher32 []) × IsNamed filter_fletcher32 none
  summing = small-IsFilter filter_fletcher32 [] (omega arith) (omega arith) tt

  pushed_filters-IsNamed :
      (dims : Option (List ℕ)) (l : Option ℕ) (b c : Bool)
      → IsLevel l
      → (length (pushed_filters (options dims l b c) es) ≤ 3)
        × All
            (λ f. IsFilter f × IsNamed f.filter_id f.name)
            (pushed_filters (options dims l b c) es)
  unfolding pushed_filters
  pushed_filters-IsNamed dims none false false k = (omega arith, tt)
  pushed_filters-IsNamed dims none false true k = (omega arith, (summing, tt))
  pushed_filters-IsNamed dims (some level) false false k = (omega arith, (deflating level k, tt))
  pushed_filters-IsNamed dims (some level) false true k =
      (omega arith, (deflating level k, (summing, tt)))
  pushed_filters-IsNamed dims none true false k = (omega arith, (shuffling, tt))
  pushed_filters-IsNamed dims none true true k = (omega arith, (shuffling, (summing, tt)))
  pushed_filters-IsNamed dims (some level) true false k =
      (omega arith, (shuffling, (deflating level k, tt)))
  pushed_filters-IsNamed dims (some level) true true k =
      (omega arith, (shuffling, (deflating level k, (summing, tt))))

-- What the options of a dataset make of a chunk is read back. With any combination of shuffle,
-- deflate and Fletcher-32, `build_pipeline` gives a pipeline whose message `serialize` writes and
-- `parse` reads back, `compress_chunk` with it succeeds, and `decompress_chunk` with the pipeline
-- that was read gives the chunk's data back. Deflate's level is at most 9, the element size fits 32
-- bits, and a shuffled chunk has whole elements unless they have at most one byte; fewer than 2^63
-- bytes follow the message. For zlib it is assumed that encoding at these levels succeeds, gives
-- bytes, and is undone by decoding.
pub decompress_chunk-build_pipeline :
    (z : Zlib) (o : ChunkOptions) (es : ℕ) (p : FilterPipeline) (d t : List ℕ)
    → IsLossless z
    → IsReliable z
    → build_pipeline o es ≡ some p
    → IsLevel o.deflate_level
    → es < 2 ^ 32
    → IsWhole o.shuffle (length d) es
    → IsBytes d
    → length t < 2 ^ 63
    → (parse (serialize p ++ t) ≡ ok p)
      × ((c : List ℕ) × (compress_chunk z d p es ≡ ok c) × (decompress_chunk z c p es ≡ ok d))
unfolding build_pipeline
decompress_chunk-build_pipeline z o es p d t lossless reliable built level small whole s room =
    let fs = pushed_filters o es in
    let q : FilterPipeline = record { version = 2; filters = fs } in
    let same : q ≡ p = sym (pipeline_of-some fs p built) in
    let (few, each) =
      pushed_filters-IsNamed es small o.chunk_dims o.deflate_level o.shuffle o.fletcher32 level in
    let writable : IsWritable q = record { few = omega (arith, few); version = inr (refl, each) } in
    let below = length-serialize fs each in
    let (c, e, bytes) = succeeds (compressed z lossless reliable o es d whole level s) in
    let (bytes', back) = ensured (decompress_chunk-compress_chunk z lossless es q d s) e in
    subst
      (λ p.
        (parse (serialize p ++ t) ≡ ok p)
        × ((c : List ℕ) × (compress_chunk z d p es ≡ ok c) × (decompress_chunk z c p es ≡ ok d)))
      same
      (
        pipeline_parse-serialize q t writable
            (omega (arith, length-append (serialize q) t, few, below)),
        (c, e, back),
      )
