-- ===== src/FixedArray/RoundTrip.antt =====
-- A fixed array that was built is read back.
use rustyhdf.Prelude.{ℕ, zero, suc, ◌+◌, ◌/◌, ◌%◌, ◌^◌, ◌<◌, ◌≤◌, ◌≡◌, refl, ap, ◌∙◌, arith}
use rustyhdf.Prelude.{Bool, true, false, List, [], ◌∷◌, ◌++◌, length, take, All}
use rustyhdf.Prelude.{append_assoc, append-nil, length-append, take-append}
use rustyhdf.Prelude.{not_ltb, inl, inr, if◌then◌else◌}
use mathlib.Core.Path.{subst}
use native.Mathlib.Nat.{mod-eq_of_lt}
use rustyhdf.Outcome.{ok, usize_mod}
use rustyhdf.Outcome.Ensures.{NoError, succeeds}
use rustyhdf.Bytes.{to_le}
use rustyhdf.Bytes.Laws.{length-to_le, le_value-to_le}
use rustyhdf.Bytes.Cursor.{Cursor, Cursor-step, Cursor-start, Cursor-room, Cursor-length}
use rustyhdf.Bytes.Cursor.{slice_from_at, from_le_bytes_at}
use rustyhdf.Utils.{is_undefined_bytes, read_variable_length}
use rustyhdf.Utils.Values.{ensure_len_lem, read_offset_at, sub_usize_lem}
use rustyhdf.ChunkCache.{ChunkInfo}
use rustyhdf.ChunkGrid.{index_to_chunk_offsets}
use rustyhdf.ChunkGrid.Coordinates.{product, IsGrid, index_to_chunk_offsets-Ensures}
use rustyhdf.ChunkWrite.Layouts.{IsAddressWidth, wide}
use rustyhdf.ChunkWrite.Fields.{is_undefined_bytes_at}
use rustyhdf.FixedArray.{FixedArrayHeader, Element, read_plain, read_filtered, read_element}
use rustyhdf.FixedArray.{read_elements}
use rustyhdf.FixedArray.Build.{WrittenChunk, size_bytes, write_int, write_element, write_elements}
use rustyhdf.FixedArray.Build.{client_id}

-- What is stored of a chunk fits its fields, and its address is not the undefined one.
pub record IsStorable (offset_size : ℕ) (has_filters : Bool) (csb : ℕ) (c : WrittenChunk)
    : Type 0 where
  pub address : c.address + 1 < 256 ^ offset_size
  pub size : c.compressed_size < 256 ^ csb
  pub narrow : c.compressed_size < 2 ^ 32
  pub mask : c.filter_mask < 2 ^ 32

-- The chunk infos are those of the written chunks, from index `i` on, each at its place.
abbrev pub AreRead : Bool → ℕ → List ℕ → List ℕ → ℕ → List WrittenChunk → List ChunkInfo → Type 0
AreRead has_filters size ns cs i [] [] = Unit {0}
AreRead has_filters size ns cs i [] (r ∷ rs) = ⊥
AreRead has_filters size ns cs i (w ∷ ws) [] = ⊥
AreRead has_filters size ns cs i (w ∷ ws) (r ∷ rs) =
    (r.address ≡ w.address)
    × (r.chunk_size ≡ (if has_filters then w.compressed_size else size % 2 ^ 32))
    × (r.filter_mask ≡ (if has_filters then w.filter_mask else 0))
    × (index_to_chunk_offsets i ns cs ≡ ok r.offsets)
    × AreRead has_filters size ns cs (i + 1) ws rs

pub write_int-to_le : (w v : ℕ) → IsAddressWidth w → write_int w v ≡ to_le w v
unfolding write_int
write_int-to_le w v (inl e) = rw e refl
write_int-to_le w v (inr e) = rw e refl

pub address-le : (w : ℕ) → IsAddressWidth w → (4 ≤ w) × (w ≤ 8)
address-le w (inl e) = (omega arith, omega arith)
address-le w (inr e) = (omega arith, omega arith)

take-to_le : (k n v : ℕ) → k ≤ n → take k (to_le n v) ≡ to_le k v
take-to_le zero n v h = refl
take-to_le (suc k) zero v h = absurd (omega arith)
take-to_le (suc k) (suc n) v h = ap (λ t. (v % 256) ∷ t) (take-to_le k n (v / 256) (omega arith))

pub size_bytes-le :
    (chunks : List WrittenChunk) (has_filters : Bool) → size_bytes chunks has_filters ≤ 8
unfolding size_bytes
size_bytes-le chunks false = omega arith
size_bytes-le chunks true = omega arith

-- An element as it lies in the block.
abbrev pub element_bytes : ℕ → Bool → ℕ → WrittenChunk → List ℕ
element_bytes os false csb c = to_le os c.address
element_bytes os true csb c =
    to_le os c.address ++ (to_le csb c.compressed_size ++ to_le 4 c.filter_mask)

pub write_element-bytes :
    (os : ℕ) (hf : Bool) (csb : ℕ) (c : WrittenChunk)
    → IsAddressWidth os
    → csb ≤ 8
    → write_element os hf csb c ≡ element_bytes os hf csb c
unfolding write_element
write_element-bytes os false csb c w h =
    append-nil (write_int os c.address) ∙ write_int-to_le os c.address w
write_element-bytes os true csb c w h =
    rw (write_int-to_le os c.address w, take-to_le csb 8 c.compressed_size h) refl

-- The element that is read.
abbrev element_of : ℕ → Bool → ℕ → ℕ → WrittenChunk → Element
element_of os false csb size c = record {
  address = c.address;
  chunk_size = size % 2 ^ 32;
  filter_mask = 0;
  taken = os;
}
element_of os true csb size c = record {
  address = c.address;
  chunk_size = c.compressed_size % 2 ^ 32;
  filter_mask = c.filter_mask;
  taken = os + csb + 4;
}

-- The size of an element that the header states.
abbrev pub elem_size : ℕ → Bool → ℕ → ℕ
elem_size os false csb = os
elem_size os true csb = os + csb + 4

read_variable_length_at :
    (k v : ℕ) (t : List ℕ) → k ≤ 8 → v < 256 ^ k → read_variable_length (to_le k v ++ t) k ≡ ok v
unfolding read_variable_length
read_variable_length_at k v t h fit =
    rw
      (
        not_ltb 8 k h,
        not_ltb (length (to_le k v ++ t)) k
            (omega (arith, length-append (to_le k v) t, length-to_le k v)),
        take-append k (to_le k v) t (length-to_le k v),
        le_value-to_le k v fit,
      )
      refl

module _ (d : List ℕ) (small : length d < usize_mod) (os : ℕ) (w : IsAddressWidth os) (csb : ℕ)
    (narrow : csb ≤ 8) where
  read_element_at :
      (hf : Bool) (h : FixedArrayHeader) (size at : ℕ) (c : WrittenChunk) (t : List ℕ)
      → h.client_id ≡ client_id hf
      → h.element_size ≡ elem_size os hf csb
      → IsStorable os hf csb c
      → Cursor d at (write_element os hf csb c ++ t)
      → (read_element d at h os size ≡ ok (element_of os hf csb size c))
        × (is_undefined_bytes d at os ≡ ok false)
        × Cursor d (at + (element_of os hf csb size c).taken) t
  unfolding read_element read_plain read_filtered
  read_element_at false h size at c t id es fit cur =
      let here : Cursor d at (to_le os c.address ++ t) =
        subst (λ x. Cursor d at (x ++ t)) (write_element-bytes os false csb c w narrow) cur in
      let e : List ℕ = to_le os c.address ++ t in
      let inner : Cursor e 0 e = Cursor-start e in
      let room = Cursor-room e 0 os (to_le os c.address) t inner (length-to_le os c.address) in
      let short : length e < usize_mod = omega (arith, Cursor-length d at e here) in
      (
        rw
            (
              id,
              slice_from_at d at e here,
              ensure_len_lem e 0 os room short,
              read_offset_at e short os 0 c.address t (wide w) (omega (arith, fit.address)) inner,
            )
            refl,
        is_undefined_bytes_at d small os c.address at t fit.address here,
        Cursor-step d at (at + os) (to_le os c.address) t here
            (ap (λ n. at + n) (length-to_le os c.address)),
      )
  read_element_at true h size at c t id es fit cur =
      let rest : List ℕ = to_le csb c.compressed_size ++ (to_le 4 c.filter_mask ++ t) in
      let here : Cursor d at (to_le os c.address ++ rest) = record {
        rest = cur.rest ∙ rw (write_element-bytes os true csb c w narrow) (simp (append_assoc));
        inside = cur.inside;
      } in
      let e : List ℕ = to_le os c.address ++ rest in
      let inner : Cursor e 0 e = Cursor-start e in
      let at_size =
        Cursor-step e 0 os (to_le os c.address) rest inner
          (omega (arith, length-to_le os c.address)) in
      let at_mask =
        Cursor-step e os (os + csb) (to_le csb c.compressed_size) _ at_size
          (ap (λ n. os + n) (length-to_le csb c.compressed_size)) in
      let at_end = Cursor-step e (os + csb) (os + csb + 4) (to_le 4 c.filter_mask) t at_mask refl in
      let short : length e < usize_mod = omega (arith, Cursor-length d at e here) in
      let taken : length
            (to_le os c.address ++ (to_le csb c.compressed_size ++ to_le 4 c.filter_mask))
          ≡ os + csb + 4 =
        omega (
          arith,
          length-append (to_le os c.address) (to_le csb c.compressed_size ++ to_le 4 c.filter_mask),
          length-append (to_le csb c.compressed_size) (to_le 4 c.filter_mask),
          length-to_le os c.address,
          length-to_le csb c.compressed_size,
        ) in
      let filtered : read_filtered d at os (os + csb + 4) ≡ ok (element_of os true csb size c) =
        rw
          (
            slice_from_at d at e here,
            sub_usize_lem os (csb + 4) (os + csb + 4) (omega arith),
            sub_usize_lem 4 csb (csb + 4) (omega arith),
            ensure_len_lem e 0 (os + csb + 4) (omega (arith, at_end.inside)) short,
            read_offset_at e short os 0 c.address rest (wide w) (omega (arith, fit.address)) inner,
            slice_from_at e os rest at_size,
            read_variable_length_at csb c.compressed_size _ narrow fit.size,
            from_le_bytes_at e 4 (os + csb) c.filter_mask t at_mask fit.mask,
          )
          refl in
      (
        rw (id, es) filtered,
        is_undefined_bytes_at d small os c.address at rest fit.address here,
        Cursor-step d at (at + (os + csb + 4)) _ t cur
            (ap (λ n. at + n) (ap length (write_element-bytes os true csb c w narrow) ∙ taken)),
      )

  is_address :
      (hf : Bool) (size : ℕ) (c : WrittenChunk) → (element_of os hf csb size c).address ≡ c.address
  is_address false size c = refl
  is_address true size c = refl

  is_size :
      (hf : Bool) (size : ℕ) (c : WrittenChunk)
      → IsStorable os hf csb c
      → (element_of os hf csb size c).chunk_size ≡ (if hf then c.compressed_size else size % 2 ^ 32)
  is_size false size c fit = refl
  is_size true size c fit = mod-eq_of_lt fit.narrow

  is_mask :
      (hf : Bool) (size : ℕ) (c : WrittenChunk)
      → (element_of os hf csb size c).filter_mask ≡ (if hf then c.filter_mask else 0)
  is_mask false size c = refl
  is_mask true size c = refl

  -- All elements of the block, from index `i` on.
  pub read_elements_at :
      (hf : Bool) (h : FixedArrayHeader) (ns cs : List ℕ) (size : ℕ) (chunks : List WrittenChunk)
      (i at : ℕ) (t : List ℕ)
      → h.client_id ≡ client_id hf
      → h.element_size ≡ elem_size os hf csb
      → IsGrid ns cs
      → i + length chunks ≤ product ns
      → All (IsStorable os hf csb) chunks
      → Cursor d at (write_elements os hf csb chunks ++ t)
      → (infos : List ChunkInfo) × (read_elements (length chunks) i d at h ns cs os size ≡ ok infos)
        × AreRead hf size ns cs i chunks infos
  unfolding read_elements write_elements
  read_elements_at hf h ns cs size [] i at t id es g room fit cur = ([], refl, tt)
  read_elements_at hf h ns cs size (c ∷ chunks) i at t id es g room (one, fit) cur =
      let here : Cursor d at (write_element os hf csb c ++ (write_elements os hf csb chunks ++ t)) =
        record {
          rest =
              cur.rest
              ∙ append_assoc (write_element os hf csb c) (write_elements os hf csb chunks) t;
          inside = cur.inside;
        } in
      let (e, defined, there) = read_element_at hf h size at c _ id es one here in
      let (offsets, e', placed) =
        succeeds (index_to_chunk_offsets-Ensures {E = NoError} i ns cs g (omega arith)) in
      let (infos, e'', rest) =
        read_elements_at hf h ns cs size chunks (i + 1) _ t id es g (omega arith) fit there in
      let info : ChunkInfo = record {
        chunk_size = (element_of os hf csb size c).chunk_size;
        filter_mask = (element_of os hf csb size c).filter_mask;
        offsets = offsets;
        address = (element_of os hf csb size c).address;
      } in
      (
        info ∷ infos,
        rw (e, defined, e', e'') refl,
        (is_address hf size c, is_size hf size c one, is_mask hf size c, e', rest),
      )
