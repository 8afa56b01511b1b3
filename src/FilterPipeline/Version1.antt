-- ===== src/FilterPipeline/Version1.antt =====
-- The filters of a version 1 pipeline are read back.
use rustyhdf.Prelude.{ℕ, ◌+◌, ◌-◌, ◌*◌, ◌/◌, ◌%◌, ◌^◌, ◌<◌, ◌≡◌, refl, ap, ◌∙◌, arith}
use rustyhdf.Prelude.{List, [], ◌∷◌, ◌++◌, length, All, Option, none, some, append_assoc}
use rustyhdf.Prelude.{length-append, Bool-cases, inl, inr}
use rustyhdf.Prelude.{if◌then◌else◌, ◌==◌, lt→ltb}
use rustyhdf.Outcome.{ok, usize_mod}
use rustyhdf.Bytes.{to_le}
use rustyhdf.Bytes.Cursor.{Cursor, Cursor-step, Cursor-room}
use rustyhdf.Bytes.Cursor.{slice_at, from_le_bytes_at}
use rustyhdf.Utils.Values.{ensure_len_lem}
use rustyhdf.FilterPipeline.{FilterDescription}
use rustyhdf.FilterPipeline.{read_name_v1, parse_filter_v1}
use rustyhdf.FilterPipeline.{parse_filters_v1}
use rustyhdf.FilterPipeline.{zeros}
use rustyhdf.FilterPipeline.{write_values, name_bytes_v1, pad_name, serialize_filter_v1}
use rustyhdf.FilterPipeline.{serialize_filters_v1}
use rustyhdf.FilterPipeline.Safety.{IsFilter}
use rustyhdf.FilterPipeline.Names.{IsName, name_text_lem, pad8_lem, length-pad_name, name-short}
use rustyhdf.FilterPipeline.Values.{read_client_data_at}

module _ (d : List ℕ) (small : length d < usize_mod) where
  read_name_v1_at :
      (o : Option (List ℕ)) (a : ℕ) (t : List ℕ)
      → IsName o
      → Cursor d a (pad_name (name_bytes_v1 o) ++ t)
      → (b : ℕ) × (read_name_v1 (length (name_bytes_v1 o)) d a ≡ ok (o, b)) × Cursor d b t
  unfolding read_name_v1 name_bytes_v1 pad_name
  read_name_v1_at none a t h c = (a, refl, c)
  read_name_v1_at (some n) a t h c =
      let bs : List ℕ = n ++ (0 ∷ []) in
      let size : length bs ≡ length n + 1 = length-append n (0 ∷ []) in
      let k : length n + 1 < 2 ^ 16 = h.short in
      let here : Cursor d a (bs ++ (zeros ((length bs + 7) / 8 * 8 - length bs) ++ t)) = record {
        rest = c.rest ∙ append_assoc bs (zeros ((length bs + 7) / 8 * 8 - length bs)) t;
        inside = c.inside;
      } in
      (
        a + (length bs + 7) / 8 * 8,
        rw
            (
              lt→ltb 0 (length bs) (omega (arith, size)),
              ensure_len_lem d a (length bs) (Cursor-room d a (length bs) bs _ here refl) small,
              slice_at d a (a + length bs) bs _ here refl,
              pad8_lem (length bs) (omega (arith, size)),
              name_text_lem n h,
            )
            refl,
        Cursor-step d a _ (pad_name bs) t c (ap (λ m. a + m) (length-pad_name bs)),
      )

  -- The padding behind an odd number of values.
  padded_values :
      (m b : ℕ) (t : List ℕ)
      → Cursor d b ((if m % 2 == 0 then [] else zeros 4) ++ t)
      → Cursor d (if m % 2 == 0 then b else b + 4) t
  padded_values m b t c = elim (Bool-cases (m % 2 == 0)) [
    | inl e ↦ rw e (rw e at c)
    | inr e ↦ rw e (Cursor-step d b (b + 4) (zeros 4) t (rw e at c) refl)
  ]

  parse_filter_v1_at :
      (f : FilterDescription) (a : ℕ) (t : List ℕ)
      → IsFilter f
      → IsName f.name
      → Cursor d a (serialize_filter_v1 f ++ t)
      → (b : ℕ) × (parse_filter_v1 d a ≡ ok (f, b)) × Cursor d b t
  unfolding parse_filter_v1 serialize_filter_v1
  parse_filter_v1_at f a t h named c =
      let name_length : ℕ = length (name_bytes_v1 f.name) in
      let pad : List ℕ = if length f.client_data % 2 == 0 then [] else zeros 4 in
      let values : List ℕ = write_values f.client_data ++ (pad ++ t) in
      let at_id : Cursor d a (
          to_le 2 f.filter_id
          ++ (to_le 2 name_length
              ++ (to_le 2 f.flags
                  ++ (to_le 2 (length f.client_data)
                      ++ (pad_name (name_bytes_v1 f.name) ++ values))))) =
        record { rest = c.rest ∙ simp (append_assoc); inside = c.inside } in
      let at_length = Cursor-step d a (a + 2) (to_le 2 f.filter_id) _ at_id refl in
      let at_flags =
        Cursor-step d (a + 2) (a + 4) (to_le 2 name_length) _ at_length (omega arith) in
      let at_count = Cursor-step d (a + 4) (a + 6) (to_le 2 f.flags) _ at_flags (omega arith) in
      let at_name =
        Cursor-step d (a + 6) (a + 8) (to_le 2 (length f.client_data)) _ at_count (omega arith) in
      let (p, name, at_values) = read_name_v1_at f.name (a + 8) values named at_name in
      let (b, vals, at_pad) =
        read_client_data_at d small f.client_data p (pad ++ t) h.values at_values in
      (
        if length f.client_data % 2 == 0 then b else b + 4,
        rw
            (
              ensure_len_lem d a 8 at_name.inside small,
              from_le_bytes_at d 2 a f.filter_id _ at_id h.id,
              from_le_bytes_at d 2 (a + 2) name_length _ at_length (name-short f.name named),
              from_le_bytes_at d 2 (a + 4) f.flags _ at_flags h.flag,
              from_le_bytes_at d 2 (a + 6) (length f.client_data) _ at_count h.few,
              name,
              vals,
            )
            refl,
        padded_values (length f.client_data) b t at_pad,
      )

  pub parse_filters_v1_at :
      (fs : List FilterDescription) (a : ℕ) (t : List ℕ)
      → All (λ f. IsFilter f × IsName f.name) fs
      → Cursor d a (serialize_filters_v1 fs ++ t)
      → parse_filters_v1 (length fs) d a ≡ ok fs
  unfolding parse_filters_v1 serialize_filters_v1
  parse_filters_v1_at [] a t h c = refl
  parse_filters_v1_at (f ∷ fs) a t h c =
      let here : Cursor d a (serialize_filter_v1 f ++ (serialize_filters_v1 fs ++ t)) = record {
        rest = c.rest ∙ append_assoc (serialize_filter_v1 f) (serialize_filters_v1 fs) t;
        inside = c.inside;
      } in
      let (b, e, there) = parse_filter_v1_at f a _ h.0.0 h.0.1 here in
      rw (e, parse_filters_v1_at fs b t h.1 there) refl
