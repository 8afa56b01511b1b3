-- ===== src/FilterPipeline/Version2.antt =====
-- The filters of a version 2 pipeline are read back.
use rustyhdf.Prelude.{ℕ, ◌+◌, ◌^◌, ◌<◌, ◌≡◌, refl, ◌∙◌, arith}
use rustyhdf.Prelude.{List, [], ◌∷◌, ◌++◌, length, All, Option, none, some, append_assoc}
use rustyhdf.Prelude.{length-append, true, false}
use rustyhdf.Prelude.{leb, lt→ltb, le→leb, not_leb}
use rustyhdf.Outcome.{ok, usize_mod}
use rustyhdf.Bytes.{to_le}
use rustyhdf.Bytes.Cursor.{Cursor, Cursor-step}
use rustyhdf.Bytes.Cursor.{slice_at, from_le_bytes_at}
use rustyhdf.Utils.Values.{ensure_len_lem}
use rustyhdf.FilterPipeline.{FilterDescription}
use rustyhdf.FilterPipeline.{read_name_length, read_name_v2}
use rustyhdf.FilterPipeline.{parse_filter_v2, parse_filters_v2}
use rustyhdf.FilterPipeline.{write_values}
use rustyhdf.FilterPipeline.{name_bytes_v2, serialize_filter_v2}
use rustyhdf.FilterPipeline.{serialize_filters_v2}
use rustyhdf.FilterPipeline.Safety.{IsFilter}
use rustyhdf.FilterPipeline.Names.{name_text_lem, IsNamed, known, custom, filter_of, known, custom}
use rustyhdf.FilterPipeline.Values.{read_client_data_at}

module _ (d : List ℕ) (small : length d < usize_mod) where
  parse_filter_v2_at :
      (id flags : ℕ) (o : Option (List ℕ)) (vals : List ℕ) (a : ℕ) (t : List ℕ)
      → IsFilter (filter_of id flags o vals)
      → IsNamed id o
      → Cursor d a (serialize_filter_v2 (filter_of id flags o vals) ++ t)
      → (b : ℕ) × (parse_filter_v2 d a ≡ ok (filter_of id flags o vals, b)) × Cursor d b t
  unfolding parse_filter_v2 serialize_filter_v2 name_bytes_v2 read_name_length read_name_v2
  parse_filter_v2_at id flags none vals a t h (known few) c =
      let low : leb 256 id ≡ false = not_leb 256 id few in
      let at_id : Cursor d a
          (to_le 2 id ++ (to_le 2 flags ++ (to_le 2 (length vals) ++ (write_values vals ++ t)))) =
        record { rest = c.rest ∙ rw low refl; inside = c.inside } in
      let at_flags = Cursor-step d a (a + 2) (to_le 2 id) _ at_id refl in
      let at_count = Cursor-step d (a + 2) (a + 2 + 2) (to_le 2 flags) _ at_flags (omega arith) in
      let at_values =
        Cursor-step d (a + 2 + 2) (a + 2 + 4) (to_le 2 (length vals)) _ at_count (omega arith) in
      let (b, e, there) = read_client_data_at d small vals (a + 2 + 4) t h.values at_values in
      (
        b,
        rw
            (
              ensure_len_lem d a 2 at_flags.inside small,
              from_le_bytes_at d 2 a id _ at_id h.id,
              low,
              ensure_len_lem d (a + 2) 4 at_values.inside small,
              from_le_bytes_at d 2 (a + 2) flags _ at_flags h.flag,
              from_le_bytes_at d 2 (a + 2 + 2) (length vals) _ at_count h.few,
              e,
            )
            refl,
        there,
      )
  parse_filter_v2_at id flags (some n) vals a t h (custom high text) c =
      let up : leb 256 id ≡ true = le→leb 256 id high in
      let bs : List ℕ = n ++ (0 ∷ []) in
      let size : length bs ≡ length n + 1 = length-append n (0 ∷ []) in
      let room : length n + 1 < 2 ^ 16 = text.short in
      let at_id : Cursor d a (
          to_le 2 id
          ++ (to_le 2 (length bs)
              ++ (to_le 2 flags ++ (to_le 2 (length vals) ++ (bs ++ (write_values vals ++ t)))))) =
        record { rest = c.rest ∙ rw up (simp (append_assoc)); inside = c.inside } in
      let at_length = Cursor-step d a (a + 2) (to_le 2 id) _ at_id refl in
      let at_flags =
        Cursor-step d (a + 2) (a + 2 + 2) (to_le 2 (length bs)) _ at_length (omega arith) in
      let at_count =
        Cursor-step d (a + 2 + 2) (a + 2 + 2 + 2) (to_le 2 flags) _ at_flags (omega arith) in
      let at_name =
        Cursor-step d (a + 2 + 2 + 2) (a + 2 + 2 + 4) (to_le 2 (length vals)) _ at_count
          (omega arith) in
      let at_values = Cursor-step d (a + 2 + 2 + 4) (a + 2 + 2 + 4 + length bs) bs _ at_name refl in
      let (b, e, there) =
        read_client_data_at d small vals (a + 2 + 2 + 4 + length bs) t h.values at_values in
      (
        b,
        rw
            (
              ensure_len_lem d a 2 at_length.inside small,
              from_le_bytes_at d 2 a id _ at_id h.id,
              up,
              ensure_len_lem d (a + 2) 2 at_flags.inside small,
              from_le_bytes_at d 2 (a + 2) (length bs) _ at_length (omega (arith, size)),
              ensure_len_lem d (a + 2 + 2) 4 at_name.inside small,
              from_le_bytes_at d 2 (a + 2 + 2) flags _ at_flags h.flag,
              from_le_bytes_at d 2 (a + 2 + 2 + 2) (length vals) _ at_count h.few,
              lt→ltb 0 (length bs) (omega (arith, size)),
              ensure_len_lem d (a + 2 + 2 + 4) (length bs) at_values.inside small,
              slice_at d (a + 2 + 2 + 4) (a + 2 + 2 + 4 + length bs) bs _ at_name refl,
              name_text_lem n text,
              e,
            )
            refl,
        there,
      )

  pub parse_filters_v2_at :
      (fs : List FilterDescription) (a : ℕ) (t : List ℕ)
      → All (λ f. IsFilter f × IsNamed f.filter_id f.name) fs
      → Cursor d a (serialize_filters_v2 fs ++ t)
      → parse_filters_v2 (length fs) d a ≡ ok fs
  unfolding parse_filters_v2 serialize_filters_v2
  parse_filters_v2_at [] a t h c = refl
  parse_filters_v2_at (f ∷ fs) a t h c =
      let here : Cursor d a (serialize_filter_v2 f ++ (serialize_filters_v2 fs ++ t)) = record {
        rest = c.rest ∙ append_assoc (serialize_filter_v2 f) (serialize_filters_v2 fs) t;
        inside = c.inside;
      } in
      let (b, e, there) =
        parse_filter_v2_at f.filter_id f.flags f.name f.client_data a _ h.0.0 h.0.1 here in
      rw (e, parse_filters_v2_at fs b t h.1 there) refl
