-- ===== src/ChunkWrite/RoundTrip.antt =====
-- The layout messages that are written for chunked datasets are read back.
use rustyhdf.Prelude.{ℕ, ◌+◌, ◌*◌, ◌%◌, ◌^◌, ◌<◌, ◌≤◌, ◌≡◌, refl, ◌∙◌, arith}
use rustyhdf.Prelude.{List, [], ◌∷◌, ◌++◌, length, All, All-append, append_assoc}
use rustyhdf.Prelude.{length-append, inl, inr}
use rustyhdf.Prelude.{lt→ltb}
use native.Mathlib.Nat.{mod-eq_of_lt}
use rustyhdf.Outcome.{ok, ◌>>=◌, usize_mod}
use rustyhdf.Bytes.Cursor.{Cursor, Cursor-step}
use rustyhdf.Bytes.Cursor.{index_at}
use rustyhdf.Utils.Values.{ensure_len_lem}
use rustyhdf.DataLayout.{chunked}
use rustyhdf.DataLayout.{parse_chunk_dims}
use rustyhdf.DataLayout.{parse_chunked_v4, parse_v4, parse}
use rustyhdf.ChunkWrite.{dimensionality, max_dim, dim_encoded_len, write_dim, write_dims}
use rustyhdf.ChunkWrite.{write_address, layout_front, single_fields, serialize_v4_single_chunk}
use rustyhdf.ChunkWrite.{serialize_v4_fixed_array, serialize_v4_extensible_array}
use rustyhdf.ChunkWrite.Dimensions.{
  IsLen, dim_encoded_len-IsLen, max_dim-bounds, max_dim-lt, write_dims-append, length-write_dims,
  All-below,
}
use rustyhdf.ChunkWrite.Layouts.{
  Index, filtered, fixed, IsFitting, flags_of, kind_of, tail, chunking_of, write_layout,
  IsAddressWidth, unfiltered, extensible, filtered, fixed,
}
use rustyhdf.ChunkWrite.Fields.{read_dims_at, parse_index_at}

module _ (d : List ℕ) (small : length d < usize_mod) where
  -- The sizes in front, and then the index.
  parse_at :
      (i : Index) (sizes : List ℕ) (len os a : ℕ) (t : List ℕ)
      → IsLen len
      → All (λ v. v < 256 ^ len) sizes
      → length sizes < 256
      → IsAddressWidth os
      → a + 1 < 256 ^ os
      → IsFitting i
      → d
        ≡ 4
          ∷ 2
          ∷ flags_of i
          ∷ length sizes
          ∷ len
          ∷ (write_dims len sizes ++ (kind_of i ∷ (tail i os a ++ t)))
      → parse d os 8 ≡ ok (chunked (chunking_of i sizes a))
  unfolding parse parse_v4 parse_chunked_v4 parse_chunk_dims
  parse_at i sizes len os a t w fit few wa h f e =
      let start : Cursor d 0 (
          4
          ∷ 2
          ∷ flags_of i
          ∷ length sizes
          ∷ len
          ∷ (write_dims len sizes ++ (kind_of i ∷ (tail i os a ++ t)))) =
        record { rest = e; inside = omega arith } in
      let at1 = Cursor-step d 0 1 (4 ∷ []) _ start refl in
      let at2 = Cursor-step d 1 2 (2 ∷ []) _ at1 refl in
      let at3 = Cursor-step d 2 3 (flags_of i ∷ []) _ at2 refl in
      let at4 = Cursor-step d 3 4 (length sizes ∷ []) _ at3 refl in
      let at5 = Cursor-step d 4 5 (len ∷ []) _ at4 refl in
      let (p, dims, at_kind, size) = read_dims_at d small sizes len 5 _ w fit at5 in
      let at_index = Cursor-step d p (p + 1) (kind_of i ∷ []) _ at_kind refl in
      rw
        (
          ensure_len_lem d 0 2 at2.inside small,
          index_at d 0 4 _ start,
          index_at d 1 2 _ at1,
          ensure_len_lem d 2 3 at5.inside small,
          index_at d 2 (flags_of i) _ at2,
          index_at d 3 (length sizes) _ at3,
          index_at d 4 len _ at4,
          ensure_len_lem d 5 (length sizes * len) (omega (arith, size, at_kind.inside)) small,
          dims,
          ensure_len_lem d p 1 at_index.inside small,
          index_at d p (kind_of i) _ at_kind,
          parse_index_at d small i os a (p + 1) t wa h f at_index,
        )
        refl

write_layout-front :
    (i : Index) (dims : List ℕ) (a os es : ℕ)
    → write_layout i dims a os es
      ≡ (layout_front (flags_of i) dims es >>= λ front. ok (front ++ (kind_of i ∷ tail i os a)))
unfolding serialize_v4_single_chunk serialize_v4_fixed_array serialize_v4_extensible_array
    single_fields
write_layout-front unfiltered dims a os es = refl
write_layout-front extensible dims a os es = refl
write_layout-front (filtered fs fm) dims a os es = refl
write_layout-front (fixed max_bits) dims a os es = refl

length-tail : (i : Index) (os a : ℕ) → IsAddressWidth os → length (tail i os a) ≤ 20
unfolding write_address single_fields
length-tail unfiltered os a (inl e) = rw e (omega arith)
length-tail unfiltered os a (inr e) = rw e (omega arith)
length-tail extensible os a (inl e) = rw e (omega arith)
length-tail extensible os a (inr e) = rw e (omega arith)
length-tail (filtered fs fm) os a (inl e) = rw e (omega arith)
length-tail (filtered fs fm) os a (inr e) = rw e (omega arith)
length-tail (fixed max_bits) os a (inl e) = rw e (omega arith)
length-tail (fixed max_bits) os a (inr e) = rw e (omega arith)

-- Each of the three functions that write a chunked layout succeeds, and `DataLayout::parse` reads
-- the chunk's dimensions, followed by the element's size, and the index with its fields and its
-- address back, whatever follows the message. This holds for up to 254 dimensions of 32
-- bits, an element size of 32 bits, addresses of 4 or 8 bytes other than the undefined one, fields
-- that fit their widths, lengths of 8 bytes, and fewer than 2^63 bytes behind the message.
pub layout_parse-write_layout :
    (i : Index) (dims : List ℕ) (a os es : ℕ) (t : List ℕ)
    → length dims < 255
    → All (λ v. v < 2 ^ 32) dims
    → es < 2 ^ 32
    → IsAddressWidth os
    → a + 1 < 256 ^ os
    → IsFitting i
    → length t < 2 ^ 63
    → (buf : List ℕ) × (write_layout i dims a os es ≡ ok buf)
      × (parse (buf ++ t) os 8 ≡ ok (chunked (chunking_of i (dims ++ (es ∷ [])) a)))
unfolding layout_front dimensionality
layout_parse-write_layout i dims a os es t few below small wa h f room =
    let m : ℕ = max_dim dims es in
    let len : ℕ = dim_encoded_len m in
    let (w, fit) = dim_encoded_len-IsLen m (max_dim-lt dims es (2 ^ 32) below small) in
    let (each, last) = max_dim-bounds dims es in
    let sizes : List ℕ = dims ++ (es ∷ []) in
    let count : length sizes ≡ length dims + 1 = length-append dims (es ∷ []) in
    let counted : length dims % 256 ≡ length dims = mod-eq_of_lt (omega arith) in
    let front : List ℕ =
      4 ∷ 2 ∷ flags_of i ∷ (length dims + 1) ∷ len ∷ (write_dims len dims ++ write_dim len es) in
    let buf : List ℕ = front ++ (kind_of i ∷ tail i os a) in
    let d : List ℕ =
      4
      ∷ 2
      ∷ flags_of i
      ∷ length sizes
      ∷ len
      ∷ (write_dims len sizes ++ (kind_of i ∷ (tail i os a ++ t))) in
    let same : buf ++ t ≡ d = rw (count, ← write_dims-append len dims es) (simp (append_assoc)) in
    let size : length d < usize_mod = omega (
      arith,
      length-append (write_dims len sizes) (kind_of i ∷ (tail i os a ++ t)),
      length-append (tail i os a) t,
      length-write_dims len sizes w,
      length-tail i os a wa,
      count,
    ) in
    (
      buf,
      write_layout-front i dims a os es
          ∙ rw (counted, lt→ltb (length dims + 1) 256 (omega arith)) refl,
      rw same (
          parse_at d size i sizes len os a t w
            (All-append (λ v. v < 256 ^ len) dims (es ∷ []) (All-below dims m (256 ^ len) each fit)
              (omega (arith, fit, last), tt))
            (omega (arith, count)) wa h f refl),
    )
