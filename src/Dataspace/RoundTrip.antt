-- ===== src/Dataspace/RoundTrip.antt =====
-- A dataspace that was written is read back.
use rustyhdf.Prelude.{ℕ, ◌+◌, ◌*◌, ◌^◌, ◌<◌, ◌≤◌, ◌≡◌, refl, ap, ◌∙◌, arith, List, [], ◌∷◌}
use rustyhdf.Prelude.{
  ◌++◌, length, All, Option, none, some, append_assoc, append-nil, length-append,
}
use mathlib.Core.Path.{subst}
use rustyhdf.Outcome.{ok, usize_mod}
use rustyhdf.Bytes.{index, to_le}
use rustyhdf.Bytes.Laws.{length-to_le}
use rustyhdf.Bytes.Cursor.{Cursor, Cursor-step, Cursor-room, slice_at}
use rustyhdf.Utils.{bit_set}
use rustyhdf.Utils.Values.{IsWidth, two, four, eight, ensure_len_lem, whole}
use rustyhdf.Superblock.{write_offset}
use rustyhdf.Superblock.RoundTrip.{write_offset-to_le, width-le}
use rustyhdf.Dataspace.{
  Dataspace, DataspaceType, scalar, simple, null, length_value, read_length, parse_dimensions,
}
use rustyhdf.Dataspace.{parse_header, parse, write_length, write_lengths, type_code, serialize}
use rustyhdf.Dataspace.Safety.{IsShape, IsMaxShape, IsValid}

write_length-to_le : (v n : ℕ) → IsWidth n → v < 256 ^ n → write_length v n ≡ to_le n v
unfolding write_length write_offset
write_length-to_le v n w h = write_offset-to_le v n w h

length_value-to_le : (v n : ℕ) → IsWidth n → v < 256 ^ n → length_value (to_le n v) n ≡ ok v
unfolding length_value
length_value-to_le v n (two e) h = rw e (rw e at (whole n v h))
length_value-to_le v n (four e) h = rw e (rw e at (whole n v h))
length_value-to_le v n (eight e) h = rw e (rw e at (whole n v h))

module _ (d : List ℕ) (small : length d < usize_mod) (n : ℕ) (w : IsWidth n) where
  pub read_length_at :
      (a v : ℕ) (t : List ℕ) → v < 256 ^ n → Cursor d a (to_le n v ++ t) → read_length d a n ≡ ok v
  unfolding read_length
  read_length_at a v t h c =
      rw
        (
          ensure_len_lem d a n (Cursor-room d a n (to_le n v) t c (length-to_le n v)) small,
          slice_at d a (a + n) (to_le n v) t c (omega (arith, length-to_le n v)),
        )
        (length_value-to_le v n w h)

  parse_dimensions_at :
      (vs : List ℕ) (a : ℕ) (t : List ℕ)
      → All (λ v. v < 256 ^ n) vs
      → Cursor d a (write_lengths n vs ++ t)
      → (b : ℕ) × (parse_dimensions (length vs) d a n ≡ ok (vs, b)) × Cursor d b t
  unfolding parse_dimensions write_lengths
  parse_dimensions_at [] a t h c = (a, refl, c)
  parse_dimensions_at (v ∷ vs) a t h c =
      let here : Cursor d a (to_le n v ++ (write_lengths n vs ++ t)) = record {
        rest = c.rest ∙ rw (write_length-to_le v n w h.0, append_assoc);
        inside = c.inside;
      } in
      let (b, rest, there) =
        parse_dimensions_at vs (a + n) t h.1
          (Cursor-step d a (a + n) (to_le n v) _ here (omega (arith, length-to_le n v))) in
      (b, rw (read_length_at a v _ h.0 here, rest), there)

-- The size of a message stays far below the address space.
length-write_lengths :
    (n : ℕ) (vs : List ℕ)
    → IsWidth n
    → All (λ v. v < 256 ^ n) vs
    → length (write_lengths n vs) ≤ 8 * length vs
unfolding write_lengths
length-write_lengths n [] w h = omega arith
length-write_lengths n (v ∷ vs) w h =
    let e : write_length v n ≡ to_le n v = write_length-to_le v n w h.0 in
    omega (
      arith,
      length-append (write_length v n) (write_lengths n vs),
      ap length e,
      length-to_le n v,
      width-le n w,
      length-write_lengths n vs w h.1,
    )

parse_header-type :
    (k : DataspaceType) (rank flags : ℕ) (t : List ℕ)
    → parse_header (2 ∷ rank ∷ flags ∷ type_code k ∷ t) 2 rank ≡ ok (k, 4)
unfolding parse_header index type_code
parse_header-type scalar rank flags t = refl
parse_header-type simple rank flags t = refl
parse_header-type null rank flags t = refl

module _ (n : ℕ) (w : IsWidth n) (k : DataspaceType) (rank : ℕ) (dims t : List ℕ)
    (byte : rank < 256) (shape : IsShape rank n dims) (room : length t < 2 ^ 63) where
  abbrev message : ℕ → List ℕ → List ℕ
  message flags rest = 2 ∷ rank ∷ flags ∷ type_code k ∷ (write_lengths n dims ++ rest)

  message-small :
      (flags : ℕ) (rest : List ℕ)
      → length rest ≤ 8 * rank + length t
      → length (message flags rest) < usize_mod
  message-small flags rest h = omega (
    arith,
    length-append (write_lengths n dims) rest,
    length-write_lengths n dims w shape.1,
    shape.0,
  )

  dimensions_at :
      (flags : ℕ) (rest : List ℕ)
      → length rest ≤ 8 * rank + length t
      → (b : ℕ) × (parse_dimensions rank (message flags rest) 4 n ≡ ok (dims, b))
        × Cursor (message flags rest) b rest
  dimensions_at flags rest h =
      subst
        (λ r.
          (b : ℕ) × (parse_dimensions r (message flags rest) 4 n ≡ ok (dims, b))
          × Cursor (message flags rest) b rest)
        shape.0
        (parse_dimensions_at (message flags rest) (message-small flags rest h) n w dims 4 rest
          shape.1 (record { rest = refl; inside = omega arith }))

  dataspace_parse-serialize_fields :
      (m : Option (List ℕ))
      → IsMaxShape rank n m
      → parse
          (serialize
              (record { space_type = k; rank = rank; dimensions = dims; max_dimensions = m })
              n
            ++ t)
          n
        ≡ ok (record { space_type = k; rank = rank; dimensions = dims; max_dimensions = m })
  unfolding parse serialize index bit_set
  dataspace_parse-serialize_fields none h =
      let (b, read, at) = dimensions_at 0 t (omega arith) in
      rw
        (
          append-nil (write_lengths n dims),
          ensure_len_lem (message 0 t) 0 4 (omega arith) (message-small 0 t (omega arith)),
          parse_header-type k rank 0 (write_lengths n dims ++ t),
          read,
        )
        refl
  dataspace_parse-serialize_fields (some m) (size, fits) =
      let rest : List ℕ = write_lengths n m ++ t in
      let short : length rest ≤ 8 * rank + length t =
        omega (arith, length-append (write_lengths n m) t, length-write_lengths n m w fits) in
      let (b, read, at) = dimensions_at 1 rest short in
      let (e, read_max, end) =
        parse_dimensions_at (message 1 rest) (message-small 1 rest short) n w m b t fits at in
      rw
        (
          append_assoc,
          ensure_len_lem (message 1 rest) 0 4 (omega arith) (message-small 1 rest short),
          parse_header-type k rank 1 (write_lengths n dims ++ rest),
          read,
          subst (λ r. parse_dimensions r (message 1 rest) b n ≡ ok (m, e)) size read_max,
        )
        refl

-- `parse` reads back every well-formed dataspace that `serialize` wrote with lengths of 2, 4
-- or 8 bytes, whatever bytes follow it, if these are fewer than 2^63.
pub dataspace_parse-serialize :
    (n : ℕ) (s : Dataspace) (t : List ℕ)
    → IsWidth n
    → IsValid n s
    → length t < 2 ^ 63
    → parse (serialize s n ++ t) n ≡ ok s
dataspace_parse-serialize n s t w v room =
    dataspace_parse-serialize_fields n w s.space_type s.rank s.dimensions t v.byte v.shape room
      s.max_dimensions v.max_shape
