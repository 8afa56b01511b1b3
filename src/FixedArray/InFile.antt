-- ===== src/FixedArray/InFile.antt =====
-- Building a fixed array and reading it from the file that it was put into.
use rustyhdf.Prelude.{ℕ, ◌+◌, ◌*◌, ◌^◌, ◌<◌, ◌≤◌, ◌≡◌, refl, ap, sym, ◌∙◌, arith}
use rustyhdf.Prelude.{Bool, true, false, List, [], ◌∷◌, ◌++◌, length, All, All-append, append_assoc}
use rustyhdf.Prelude.{append-nil, length-append, ==_refl, inl, inr}
use mathlib.Core.Path.{subst}
use rustyhdf.Outcome.{ok, err, usize_mod, chunked_read_error}
use rustyhdf.Outcome.Ensures.{NoError, succeeds}
use rustyhdf.Bytes.{IsByte, IsSlice, to_le}
use rustyhdf.Bytes.Laws.{length-to_le, to_le-IsBytes}
use rustyhdf.Bytes.Cursor.{Cursor, Cursor-step, Cursor-start}
use rustyhdf.Utils.Values.{add_usize_lem}
use rustyhdf.Checksum.Total.{jenkins_lookup3-Ensures}
use rustyhdf.ChunkCache.{ChunkInfo}
use rustyhdf.ChunkGrid.Coordinates.{product}
use rustyhdf.ChunkGrid.Implicit.{IsTiled, ceilings, chunks_per_dim-Ensures}
use rustyhdf.ChunkWrite.Layouts.{IsAddressWidth}
use rustyhdf.FixedArray.{
  fahd_signature, fadb_signature, FixedArrayHeader, parse, read_fixed_array_chunks,
}
use rustyhdf.FixedArray.Build.{WrittenChunk, size_bytes, write_elements}
use rustyhdf.FixedArray.Build.{fahd_total_size, fahd_body, fadb_body, assert_eq, client_id}
use rustyhdf.FixedArray.Build.{build_fixed_array_at}
use rustyhdf.FixedArray.RoundTrip.{IsStorable, AreRead, elem_size, address-le}
use rustyhdf.FixedArray.RoundTrip.{size_bytes-le, read_elements_at}
use rustyhdf.FixedArray.Whole.{written_header, fahd_body-bytes, fadb_body-bytes, es-le, parse_at}
use rustyhdf.FixedArray.Whole.{at_elements, read_at, refused_at, header_bytes, block_bytes}
use rustyhdf.FixedArray.Elements.{elements-IsBytes, chunk_byte_size_lem}

module _ (chunks : List WrittenChunk) (hf : Bool) (os ls : ℕ) (w : IsAddressWidth os)
    (v : IsAddressWidth ls) (front rest : List ℕ) (count : length chunks < 2 ^ 32)
    (fits : length front + fahd_total_size os ls < 256 ^ os)
    (room : length front + length rest < 2 ^ 62) where
  abbrev base : ℕ
  base = length front

  abbrev fadb : ℕ
  fadb = base + fahd_total_size os ls

  csb-le : size_bytes chunks hf ≤ 8
  csb-le = size_bytes-le chunks hf

  client-byte : (b : Bool) → client_id b < 256
  client-byte false = omega arith
  client-byte true = omega arith

  fahd-IsSlice :
      IsSlice (fahd_body chunks os ls hf fadb)
      × (length (fahd_body chunks os ls hf fadb) ≡ 8 + ls + os)
  fahd-IsSlice =
      let e =
        sym (append-nil (fahd_body chunks os ls hf fadb))
        ∙ fahd_body-bytes chunks hf os ls base w v [] in
      let csb : ℕ = size_bytes chunks hf in
      let byte : elem_size os hf csb < 256 = omega (arith, es-le os hf csb w csb-le) in
      let tail : List ℕ = to_le ls (length chunks) ++ (to_le os fadb ++ []) in
      let size : length (header_bytes hf os ls (elem_size os hf csb) (length chunks) fadb [])
          ≡ 8 + ls + os =
        omega (
          arith,
          length-append (to_le ls (length chunks)) (to_le os fadb ++ []),
          length-append (to_le os fadb) [],
          length-to_le ls (length chunks),
          length-to_le os fadb,
        ) in
      (
        subst IsSlice (sym e) (record {
          bytes =
              All-append IsByte
                (fahd_signature ++ (0 ∷ client_id hf ∷ elem_size os hf csb ∷ 10 ∷ [])) tail
                (omega (arith, client-byte hf, byte))
                (All-append IsByte (to_le ls (length chunks)) _ (to_le-IsBytes ls (length chunks))
                  (All-append IsByte (to_le os fadb) [] (to_le-IsBytes os fadb) tt));
          sized = omega (arith, size, address-le os w, address-le ls v);
        }),
        ap length e ∙ size,
      )

  fadb-IsSlice :
      IsSlice (fadb_body chunks os hf base)
      × (length (fadb_body chunks os hf base) ≤ 14 + length chunks * 20)
  fadb-IsSlice =
      let csb : ℕ = size_bytes chunks hf in
      let elements : List ℕ = write_elements os hf csb chunks in
      let e =
        sym (append-nil (fadb_body chunks os hf base))
        ∙ fadb_body-bytes chunks hf os ls base w v [] in
      let (bytes, short) = elements-IsBytes os hf csb chunks w csb-le in
      let size : length (block_bytes hf os base (elements ++ [])) ≤ 14 + length chunks * 20 =
        omega (
          arith,
          length-append (to_le os base) (elements ++ []),
          length-append elements [],
          length-to_le os base,
          address-le os w,
          short,
        ) in
      (
        subst IsSlice (sym e) (record {
          bytes =
              All-append IsByte (fadb_signature ++ (0 ∷ client_id hf ∷ [])) _
                (omega (arith, client-byte hf))
                (All-append IsByte (to_le os base) _ (to_le-IsBytes os base)
                  (All-append IsByte elements [] bytes tt));
          sized = omega (arith, size);
        }),
        omega (arith, ap length e, size),
      )

  wide_count : (n : ℕ) → IsAddressWidth n → length chunks < 256 ^ n
  wide_count n (inl e) = rw e count
  wide_count n (inr e) = rw e (omega arith)

  -- What is built, and where its parts lie in the file.
  built :
      (ck : ℕ) × (ck' : ℕ) × (buf : List ℕ) × (build_fixed_array_at chunks os ls hf base ≡ ok buf)
      × (length (front ++ (buf ++ rest)) < usize_mod)
      × Cursor (front ++ (buf ++ rest)) base (
          fahd_body chunks os ls hf fadb
          ++ (to_le 4 ck ++ (fadb_body chunks os hf base ++ (to_le 4 ck' ++ rest))))
      × Cursor (front ++ (buf ++ rest)) fadb (fadb_body chunks os hf base ++ (to_le 4 ck' ++ rest))
  unfolding build_fixed_array_at assert_eq
  built =
      let (slice, size) = fahd-IsSlice in
      let (slice', size') = fadb-IsSlice in
      let (ck, hash, fit) = succeeds (jenkins_lookup3-Ensures {E = NoError} slice) in
      let (ck', hash', fit') = succeeds (jenkins_lookup3-Ensures {E = NoError} slice') in
      let header : List ℕ = fahd_body chunks os ls hf fadb in
      let block : List ℕ = fadb_body chunks os hf base in
      let buf : List ℕ = (header ++ to_le 4 ck) ++ (block ++ to_le 4 ck') in
      let file : List ℕ = front ++ (buf ++ rest) in
      let total : length (header ++ to_le 4 ck) ≡ fahd_total_size os ls =
        omega (arith, length-append header (to_le 4 ck), size) in
      let start : Cursor file base (buf ++ rest) =
        Cursor-step file 0 base front (buf ++ rest) (Cursor-start file) (omega arith) in
      let split : buf ++ rest ≡ (header ++ to_le 4 ck) ++ (block ++ (to_le 4 ck' ++ rest)) =
        simp (append_assoc) in
      let at_header : Cursor file base
          ((header ++ to_le 4 ck) ++ (block ++ (to_le 4 ck' ++ rest))) =
        record { rest = start.rest ∙ split; inside = start.inside } in
      (
        ck,
        ck',
        buf,
        rw
            (
              add_usize_lem base (fahd_total_size os ls)
                  (omega (arith, address-le os w, address-le ls v)),
              hash,
              total,
              ==_refl (fahd_total_size os ls),
              hash',
            )
            refl,
        omega (
          arith,
          length-append front (buf ++ rest),
          length-append buf rest,
          length-append (header ++ to_le 4 ck) (block ++ to_le 4 ck'),
          length-append block (to_le 4 ck'),
          total,
          size',
          address-le os w,
          address-le ls v,
        ),
        record {
          rest = at_header.rest ∙ append_assoc header (to_le 4 ck) (block ++ (to_le 4 ck' ++ rest));
          inside = at_header.inside;
        },
        Cursor-step file base fadb (header ++ to_le 4 ck) _ at_header (ap (λ n. base + n) total),
      )

  -- A fixed array of at most 1024 chunks that `build_fixed_array_at` built, with or without
  -- filters, is read back from the file that it was put into at the address it was built for:
  -- `FixedArrayHeader::parse` and `read_fixed_array_chunks` succeed and list all chunks in their
  -- order, each with its address, its size (its compressed size when it is filtered), its filter
  -- mask, and the place in the dataset of its index in row-major order. Addresses and lengths have
  -- 4 or 8 bytes, the data block's address fits, what is stored of each chunk fits its fields and
  -- no address is the undefined one, the dataset has at least as many chunks in its grid, no
  -- dimension is 0, a chunk's size in bytes fits 64 bits, and the file around the array has fewer
  -- than 2^62 bytes.
  pub read_fixed_array_chunks-build :
      (ds cs : List ℕ) (size : ℕ)
      → length chunks ≤ 1024
      → IsTiled ds cs
      → length chunks ≤ product (ceilings ds cs)
      → All (λ c. 0 < c) cs
      → product cs < usize_mod
      → product cs * size < usize_mod
      → All (IsStorable os hf (size_bytes chunks hf)) chunks
      → (buf : List ℕ) × (h : FixedArrayHeader) × (infos : List ChunkInfo) × (build_fixed_array_at
            chunks os ls hf base
          ≡ ok buf)
        × (parse (front ++ (buf ++ rest)) base os ls ≡ ok h)
        × (read_fixed_array_chunks (front ++ (buf ++ rest)) h ds cs size os ≡ ok infos)
        × AreRead hf (product cs * size) (ceilings ds cs) cs 0 chunks infos
  read_fixed_array_chunks-build ds cs size few tiled enough pos small whole stored =
      let (ck, ck', buf, e, short, at_header, at_block) = built in
      let file : List ℕ = front ++ (buf ++ rest) in
      let (per_dim, grid) = chunks_per_dim-Ensures ds cs tiled in
      let (infos, e', placed) =
        read_elements_at file short os w (size_bytes chunks hf) csb-le hf
          (written_header chunks hf os ls base w v) (ceilings ds cs) cs (product cs * size) chunks 0
          _ (to_le 4 ck' ++ rest) refl refl grid (omega arith) stored
          (at_elements chunks hf os ls base w v file short (to_le 4 ck' ++ rest) at_block) in
      (
        buf,
        written_header chunks hf os ls base w v,
        infos,
        e,
        parse_at chunks hf os ls base w v file short ck _ (wide_count ls v) fits at_header,
        read_at chunks hf os ls base w v file short (to_le 4 ck' ++ rest) at_block ds cs size few
            infos per_dim (chunk_byte_size_lem cs size pos small whole) e',
        placed,
      )

  -- From 1025 chunks on, what `build_fixed_array_at` builds cannot be read: its header says that a
  -- page has 1024 elements but the block has no pages, and `read_fixed_array_chunks`, which supports
  -- no pages, refuses the array with an error. There are fewer than 2^32 chunks, addresses and
  -- lengths have 4 or 8 bytes, the data block's address fits, and the file around the array has
  -- fewer than 2^62 bytes.
  pub many_chunks_refused :
      (ds cs : List ℕ) (size : ℕ)
      → 1024 < length chunks
      → (buf : List ℕ) × (h : FixedArrayHeader) × (build_fixed_array_at chunks os ls hf base
          ≡ ok buf)
        × (parse (front ++ (buf ++ rest)) base os ls ≡ ok h)
        × (read_fixed_array_chunks (front ++ (buf ++ rest)) h ds cs size os
            ≡ err (chunked_read_error "paged Fixed Array data blocks not yet supported"))
  many_chunks_refused ds cs size many =
      let (ck, ck', buf, e, short, at_header, at_block) = built in
      let file : List ℕ = front ++ (buf ++ rest) in
      (
        buf,
        written_header chunks hf os ls base w v,
        e,
        parse_at chunks hf os ls base w v file short ck _ (wide_count ls v) fits at_header,
        refused_at chunks hf os ls base w v file short (to_le 4 ck' ++ rest) at_block ds cs size
            many,
      )
