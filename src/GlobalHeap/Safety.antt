-- ===== src/GlobalHeap/Safety.antt =====
-- Parsing a global heap collection, and looking an object up in it.
use rustyhdf.Prelude.{ℕ, zero, suc, ◌+◌, ◌^◌, ◌<◌, ◌≤◌, ◌≡◌, refl, arith, List, [], ◌∷◌, length}
use rustyhdf.Prelude.{leb, not_ltb, ◌==◌}
use rustyhdf.Outcome.{
  usize_mod, ok, panic, add_usize, invalid_global_heap_signature, invalid_global_heap_version,
}
use rustyhdf.Outcome.Ensures.{
  Ensures, returns, bind, bind_eq, branch, guarded, add_usize-Ensures, ensured,
}
use rustyhdf.Bytes.{IsSlice, IsBytes, bytes_eq, slice}
use rustyhdf.Bytes.Reads.{index-Ensures, slice-Ensures, from_le_bytes-Ensures}
use rustyhdf.Utils.Values.{ensure_len_lem, eight}
use rustyhdf.Bytes.{from_le_bytes, to_le}
use rustyhdf.Bytes.Laws.{length-to_le}
use rustyhdf.Bytes.Cursor.{Cursor, Cursor-start, Cursor-step, slice_at, index_at}
use rustyhdf.Dataspace.RoundTrip.{read_length_at}
use rustyhdf.Prelude.{◌++◌, ◌*◌, ◌/◌, ◌∙◌, ap, sym, ◌⊎◌, inl, inr, ==_iff, length-append}
use mathlib.Core.Path.{subst}
use rustyhdf.Utils.Safety.{ensure_len-Ensures, pad8-Ensures}
use rustyhdf.Dataspace.Safety.{read_length-Ensures, read_length-value}
use rustyhdf.GlobalHeap.{GlobalHeapObject}
use rustyhdf.Dataspace.{read_length}
use rustyhdf.GlobalHeap.{collection_signature, parse_object, parse_objects, parse}

-- The object whose header is at `pos`: its fields are read from their places in the file, and its
-- content is the file's bytes behind the header, as many as the header states. Index 0 marks free
-- space and is never an object's.
pub record IsObject (d : List ℕ) (size pos : ℕ) (o : GlobalHeapObject) : Type 0 where
  pub named : 0 < o.object_index
  pub index_fits : o.object_index < 2 ^ 16
  pub count_fits : o.reference_count < 2 ^ 16
  pub content_bytes : IsBytes o.content
  pub index_at : from_le_bytes 2 d pos ≡ ok o.object_index
  pub count_at : from_le_bytes 2 d (pos + 2) ≡ ok o.reference_count
  pub size_at : from_le_bytes size d (pos + 8) ≡ ok (length o.content)
  pub content_at : slice d (pos + 8 + size) (pos + 8 + size + length o.content) ≡ ok o.content

-- Objects one behind the other from `pos` on, each padded to 8 bytes, up to free space or to the end
-- of the collection at `stop`.
abbrev pub AreObjects : List ℕ → ℕ → ℕ → ℕ → List GlobalHeapObject → Type 0
AreObjects d size stop pos [] = (stop < pos + 2) ⊎ (from_le_bytes 2 d pos ≡ ok 0)
AreObjects d size stop pos (o ∷ os) =
    IsObject d size pos o
    × AreObjects d size stop (pos + 8 + size + (length o.content + 7) / 8 * 8) os

module _ {d : List ℕ} (s : IsSlice d) where
  parse_object-Ensures :
      (object_index pos size : ℕ)
      → 0 < object_index
      → object_index < 2 ^ 16
      → from_le_bytes 2 d pos ≡ ok object_index
      → Ensures
          (λ r. IsObject d size pos r.0 × (r.1 ≡ pos + 8 + size + (length r.0.content + 7) / 8 * 8))
          (parse_object d object_index pos size)
  unfolding parse_object
  parse_object-Ensures object_index pos size named small at =
      bind (ensure_len-Ensures d pos (8 + size)) λ _ h.
        bind_eq (from_le_bytes 2 d (pos + 2)) (from_le_bytes-Ensures s 2 (pos + 2) (omega arith))
          λ count count_at c.
            bind_eq (read_length d (pos + 8) size) (read_length-Ensures s (pos + 8) size)
              λ object_size size_at _.
                bind (ensure_len-Ensures d (pos + 8 + size) object_size) λ _ h'.
                  bind_eq (slice d (pos + 8 + size) (pos + 8 + size + object_size))
                    (slice-Ensures s (pos + 8 + size) (pos + 8 + size + object_size) (omega arith)
                      (omega arith))
                    λ content content_at q.
                      let whole : length content ≡ object_size = omega (arith, q.1) in
                      bind (pad8-Ensures object_size (omega (arith, s.sized))) λ padded p. returns (
                        record {
                          named = named;
                          index_fits = small;
                          count_fits = c;
                          content_bytes = q.0.bytes;
                          index_at = at;
                          count_at = count_at;
                          size_at =
                              ensured (read_length-value s (pos + 8) size) size_at
                              ∙ ap ok (sym whole);
                          content_at = rw whole content_at;
                        },
                        omega (arith, p.0, p.1, p.2, whole),
                      )

  parse_objects-Ensures :
      (fuel stop pos size : ℕ)
      → length d < fuel + pos
      → 0 < fuel
      → Ensures (AreObjects d size stop pos) (parse_objects fuel d stop pos size)
  unfolding parse_objects
  parse_objects-Ensures zero stop pos size h k = absurd (omega arith)
  parse_objects-Ensures (suc fuel) stop pos size h k =
      branch (leb (pos + 2) stop)
        (λ _. bind (ensure_len-Ensures d pos 2) λ _ inside.
          bind_eq (from_le_bytes 2 d pos) (from_le_bytes-Ensures s 2 pos (omega arith))
            λ object_index at small.
              branch (object_index == 0)
                (λ free. returns (inr (at ∙ ap ok ((==_iff object_index 0).0 free))))
                λ named.
                  bind (parse_object-Ensures object_index pos size (ground arith) small at) λ r o.
                    bind
                      (parse_objects-Ensures fuel stop r.1 size (omega (arith, o.1)) (omega arith))
                      λ objects t.
                        returns (o.0, subst (λ p. AreObjects d size stop p objects) o.1 t))
        (λ e. returns (inl (ground arith)))

  -- For every file and offset, parsing a global heap collection returns `Ok` or `Err` and never
  -- panics, provided the size that the collection states, if it can be read, does not reach past
  -- `usize::MAX`. The size returned is the one stated in the file. The objects returned are those
  -- that lie behind the collection's header one after the other, each padded to 8 bytes, up to the
  -- first with index 0 or the end of the collection; the fields of each are the file's, and its
  -- content is the bytes of the file behind its header, as many as the header states.
  pub parse_collection-AreObjects :
      (offset size : ℕ)
      → ((v : ℕ) → read_length d (offset + 8) size ≡ ok v → offset + v < usize_mod)
      → Ensures
          (λ c.
            (from_le_bytes size d (offset + 8) ≡ ok c.collection_size)
            × AreObjects d size (offset + c.collection_size) (offset + (8 + size)) c.objects)
          (parse d offset size)
  unfolding parse
  parse_collection-AreObjects offset size bound =
      bind (ensure_len-Ensures d offset (8 + size)) λ _ h.
        bind (slice-Ensures s offset (offset + 4) (omega arith) (omega arith)) λ signature _.
          bind
            (guarded (bytes_eq signature (b'G' ∷ b'C' ∷ b'O' ∷ b'L' ∷ []))
              invalid_global_heap_signature)
            λ _ _. bind (index-Ensures s (offset + 4) (omega arith)) λ version _.
              bind (guarded (version == 1) (invalid_global_heap_version version)) λ _ _.
                bind_eq (read_length d (offset + 8) size) (read_length-Ensures s (offset + 8) size)
                  λ collection_size c _.
                    bind (add_usize-Ensures offset collection_size (bound collection_size c))
                      λ stop e.
                        bind
                          (parse_objects-Ensures (suc (length d)) stop (offset + (8 + size)) size
                            (omega arith) (omega arith))
                          λ objects t. returns (
                            ensured (read_length-value s (offset + 8) size) c,
                            subst (λ p. AreObjects d size p (offset + (8 + size)) objects) e t,
                          )

-- A collection whose stated size reaches past `usize::MAX` makes the parser panic instead of
-- returning an error. Anywhere in a file, it is enough that there are the signature, version 1,
-- three reserved bytes and an 8-byte size `v` with offset + v at least 2^64, whatever follows. There
-- are fewer than 2^62 bytes in front of the collection and behind the size together.
pub huge_collection_panics :
    (front rest : List ℕ) (x y z v : ℕ)
    → v < 2 ^ 64
    → usize_mod ≤ length front + v
    → length front + length rest < 2 ^ 62
    → parse
        (front ++ (collection_signature ++ (1 ∷ x ∷ y ∷ z ∷ (to_le 8 v ++ rest))))
        (length front)
        8
      ≡ panic
unfolding parse add_usize
huge_collection_panics front rest x y z v small huge room =
    let header : List ℕ = 1 ∷ x ∷ y ∷ z ∷ (to_le 8 v ++ rest) in
    let d : List ℕ = front ++ (collection_signature ++ header) in
    let a : ℕ = length front in
    let size : length d ≡ a + 16 + length rest = omega (
      arith,
      length-append front (collection_signature ++ header),
      length-append (to_le 8 v) rest,
      length-to_le 8 v,
    ) in
    let fits : length d < usize_mod = omega (arith, size) in
    let start : Cursor d a (collection_signature ++ header) =
      Cursor-step d 0 a front _ (Cursor-start d) (omega arith) in
    let at_version : Cursor d (a + 4) header =
      Cursor-step d a (a + 4) collection_signature header start refl in
    let at_size : Cursor d (a + 8) (to_le 8 v ++ rest) =
      Cursor-step d (a + 4) (a + 8) (1 ∷ x ∷ y ∷ z ∷ []) _ at_version (omega arith) in
    rw
      (
        ensure_len_lem d a (8 + 8) (omega (arith, size)) fits,
        slice_at d a (a + 4) collection_signature header start refl,
        index_at d (a + 4) 1 _ at_version,
        read_length_at d fits 8 (eight refl) (a + 8) v rest small at_size,
        not_ltb (a + v) usize_mod huge,
      )
      refl
