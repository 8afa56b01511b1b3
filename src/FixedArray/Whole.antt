-- ===== src/FixedArray/Whole.antt =====
-- The whole fixed array, header and data block, inside a file.
use rustyhdf.Prelude.{ℕ, ◌+◌, ◌*◌, ◌%◌, ◌^◌, ◌<◌, ◌≤◌, ◌≡◌, refl, ap, ◌∙◌, arith}
use rustyhdf.Prelude.{Bool, true, false, List, ◌∷◌, ◌++◌, length, append_assoc}
use rustyhdf.Prelude.{le→leb, not_leb}
use rustyhdf.Prelude.{if◌then◌else◌}
use mathlib.Core.Path.{subst}
use native.Mathlib.Nat.{mod-eq_of_lt}
use rustyhdf.Outcome.{ok, err, usize_mod, chunked_read_error}
use rustyhdf.Bytes.{index, to_le}
use rustyhdf.Bytes.Laws.{length-to_le}
use rustyhdf.Bytes.Cursor.{Cursor, Cursor-step, Cursor-start, Cursor-room, Cursor-length}
use rustyhdf.Bytes.Cursor.{slice_at, slice_from_at}
use rustyhdf.Utils.Values.{ensure_len_lem, read_offset_at}
use rustyhdf.ChunkCache.{ChunkInfo}
use rustyhdf.ChunkGrid.{chunks_per_dim, chunk_byte_size}
use rustyhdf.ChunkGrid.Coordinates.{product}
use rustyhdf.ChunkGrid.Implicit.{ceilings}
use rustyhdf.ChunkWrite.Layouts.{IsAddressWidth, wide}
use rustyhdf.FixedArray.{FixedArrayHeader, parse, read_elements, shift_left_one}
use rustyhdf.FixedArray.{read_fixed_array_chunks, fahd_signature, fadb_signature}
use rustyhdf.FixedArray.Build.{WrittenChunk, size_bytes, write_elements}
use rustyhdf.FixedArray.Build.{client_id, fahd_total_size, fahd_body, fadb_body}
use rustyhdf.FixedArray.RoundTrip.{elem_size, write_int-to_le}
use rustyhdf.FixedArray.RoundTrip.{address-le, size_bytes-le}

-- The parts of the array as they lie in the file.
abbrev pub header_bytes : Bool → ℕ → ℕ → ℕ → ℕ → ℕ → List ℕ → List ℕ
header_bytes hf os ls es n fadb t =
    fahd_signature ++ (0 ∷ client_id hf ∷ es ∷ 10 ∷ (to_le ls n ++ (to_le os fadb ++ t)))

abbrev pub block_bytes : Bool → ℕ → ℕ → List ℕ → List ℕ
block_bytes hf os base t = fadb_signature ++ (0 ∷ client_id hf ∷ (to_le os base ++ t))

pub es-le : (os : ℕ) (b : Bool) (c : ℕ) → IsAddressWidth os → c ≤ 8 → elem_size os b c ≤ 20
es-le os false c w h = omega (arith, (address-le os w).1)
es-le os true c w h = omega (arith, (address-le os w).1)

module _ (chunks : List WrittenChunk) (hf : Bool) (os ls base : ℕ) (w : IsAddressWidth os)
    (v : IsAddressWidth ls) where
  abbrev csb : ℕ
  csb = size_bytes chunks hf

  abbrev es : ℕ
  es = elem_size os hf csb

  abbrev fadb : ℕ
  fadb = base + fahd_total_size os ls

  -- What `parse` reads.
  abbrev pub written_header : FixedArrayHeader
  written_header = record {
    client_id = client_id hf;
    element_size = es;
    max_nelmts_bits = 10;
    num_elements = length chunks;
    data_block_address = fadb;
  }

  abbrev elements : List ℕ
  elements = write_elements os hf csb chunks

  same_size : (b : Bool) (c : ℕ) → (if b then os + c + 4 else os) ≡ elem_size os b c
  same_size false c = refl
  same_size true c = refl

  pub fahd_body-bytes :
      (t : List ℕ)
      → fahd_body chunks os ls hf fadb ++ t ≡ header_bytes hf os ls es (length chunks) fadb t
  unfolding fahd_body
  fahd_body-bytes t =
      let e : (if hf then os + csb + 4 else os) % 256 ≡ es =
        ap (λ n. n % 256) (same_size hf csb)
        ∙ mod-eq_of_lt (omega (arith, es-le os hf csb w (size_bytes-le chunks hf))) in
      rw (e, write_int-to_le ls (length chunks) v, write_int-to_le os fadb w)
        (ap (λ x. fahd_signature ++ (0 ∷ client_id hf ∷ es ∷ 10 ∷ x))
          (append_assoc (to_le ls (length chunks)) (to_le os fadb) t))

  pub fadb_body-bytes :
      (t : List ℕ) → fadb_body chunks os hf base ++ t ≡ block_bytes hf os base (elements ++ t)
  unfolding fadb_body
  fadb_body-bytes t =
      rw (write_int-to_le os base w) (
        ap (λ x. fadb_signature ++ (0 ∷ client_id hf ∷ x))
          (append_assoc (to_le os base) elements t))

  module _ (d : List ℕ) (small : length d < usize_mod) where
    pub parse_at :
        (ck : ℕ) (t : List ℕ)
        → length chunks < 256 ^ ls
        → fadb < 256 ^ os
        → Cursor d base (fahd_body chunks os ls hf fadb ++ (to_le 4 ck ++ t))
        → parse d base os ls ≡ ok written_header
    unfolding parse index
    parse_at ck t count fits c =
        let e : List ℕ = header_bytes hf os ls es (length chunks) fadb (to_le 4 ck ++ t) in
        let here : Cursor d base e = subst (Cursor d base) (fahd_body-bytes (to_le 4 ck ++ t)) c in
        let short : length e < usize_mod = omega (arith, Cursor-length d base e here) in
        let at_count : Cursor e 8
            (to_le ls (length chunks) ++ (to_le os fadb ++ (to_le 4 ck ++ t))) =
          record { rest = refl; inside = omega arith } in
        let at_address =
          Cursor-step e 8 (8 + ls) (to_le ls (length chunks)) _ at_count
            (ap (λ n. 8 + n) (length-to_le ls (length chunks))) in
        let at_check =
          Cursor-step e (8 + ls) (8 + ls + os) (to_le os fadb) _ at_address
            (ap (λ n. 8 + ls + n) (length-to_le os fadb)) in
        let room = Cursor-room e (8 + ls + os) 4 (to_le 4 ck) t at_check refl in
        rw
          (
            ensure_len_lem d base (8 + ls + os + 4)
                (omega (arith, Cursor-length d base e here, room)) small,
            slice_from_at d base e here,
            slice_at e 0 4 fahd_signature _ (Cursor-start e) refl,
            read_offset_at e short ls 8 (length chunks) _ (wide v) count at_count,
            read_offset_at e short os (8 + ls) fadb _ (wide w) fits at_address,
          )
          refl

    -- What is read up to the test for pages.
    module _ (t : List ℕ) (c : Cursor d fadb (fadb_body chunks os hf base ++ t)) where
      abbrev block : List ℕ
      block = block_bytes hf os base (elements ++ t)

      here : Cursor d fadb block
      here = subst (Cursor d fadb) (fadb_body-bytes t) c

      pub at_elements : Cursor d (fadb + (6 + os)) (elements ++ t)
      at_elements =
          Cursor-step d fadb (fadb + (6 + os))
            (fadb_signature ++ (0 ∷ client_id hf ∷ to_le os base)) _ here
            (omega (arith, length-to_le os base))

      pub read_at :
          (ds cs : List ℕ) (size : ℕ)
          → length chunks ≤ 1024
          → (infos : List ChunkInfo) → chunks_per_dim ds cs ≡ ok (ceilings ds cs)
          → chunk_byte_size cs size ≡ ok (product cs * size)
          → read_elements
              (length chunks)
              0
              d
              (fadb + (6 + os))
              written_header
              (ceilings ds cs)
              cs
              os
              (product cs * size)
            ≡ ok infos
          → read_fixed_array_chunks d written_header ds cs size os ≡ ok infos
      unfolding read_fixed_array_chunks shift_left_one
      read_at ds cs size few infos e e' e'' =
          rw
            (
              ensure_len_lem d fadb (6 + os) (omega (arith, at_elements.inside)) small,
              slice_from_at d fadb block here,
              slice_at block 0 4 fadb_signature _ (Cursor-start block) refl,
              le→leb (length chunks) 1024 few,
              e,
              e',
              e'',
            )
            refl

      pub refused_at :
          (ds cs : List ℕ) (size : ℕ)
          → 1024 < length chunks
          → read_fixed_array_chunks d written_header ds cs size os
            ≡ err (chunked_read_error "paged Fixed Array data blocks not yet supported")
      unfolding read_fixed_array_chunks shift_left_one
      refused_at ds cs size many =
          rw
            (
              ensure_len_lem d fadb (6 + os) (omega (arith, at_elements.inside)) small,
              slice_from_at d fadb block here,
              slice_at block 0 4 fadb_signature _ (Cursor-start block) refl,
              not_leb (length chunks) 1024 many,
            )
            refl
