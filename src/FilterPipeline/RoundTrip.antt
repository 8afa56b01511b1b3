-- ===== src/FilterPipeline/RoundTrip.antt =====
-- A filter pipeline that was written is read back.
use rustyhdf.Prelude.{ℕ, ◌+◌, ◌*◌, ◌%◌, ◌^◌, ◌<◌, ◌≤◌, ◌≡◌, refl, sym, ap, ◌∙◌, arith}
use rustyhdf.Prelude.{List, [], ◌∷◌, ◌++◌, length, All, Option, none, some, append_assoc}
use rustyhdf.Prelude.{length-append, ◌⊎◌, inl, inr}
use rustyhdf.Prelude.{le→leb, not_leb}
use native.Mathlib.Nat.{mod-eq_of_lt}
use rustyhdf.Outcome.{ok, usize_mod}
use rustyhdf.Bytes.{to_le}
use rustyhdf.Bytes.Cursor.{Cursor, Cursor-step}
use rustyhdf.Bytes.Cursor.{index_at}
use rustyhdf.Utils.Values.{ensure_len_lem}
use rustyhdf.FilterPipeline.{FilterDescription, FilterPipeline}
use rustyhdf.FilterPipeline.{parse_v1}
use rustyhdf.FilterPipeline.{parse_v2, parse, zeros}
use rustyhdf.FilterPipeline.{write_values}
use rustyhdf.FilterPipeline.{serialize_filters_v1, name_bytes_v2, serialize_filter_v2}
use rustyhdf.FilterPipeline.{serialize_filters_v2, serialize}
use rustyhdf.FilterPipeline.Safety.{IsFilter}
use rustyhdf.FilterPipeline.Names.{IsName, IsNamed, known, custom, filter_of, known, custom}
use rustyhdf.FilterPipeline.Version1.{parse_filters_v1_at}
use rustyhdf.FilterPipeline.Version2.{parse_filters_v2_at}

-- A pipeline of version 1 or 2 whose fields fit and whose names its version can store.
pub record IsWritable (p : FilterPipeline) : Type 0 where
  pub few : length p.filters < 256
  pub version :
      ((p.version ≡ 1) × All (λ f. IsFilter f × IsName f.name) p.filters)
      ⊎ ((p.version ≡ 2) × All (λ f. IsFilter f × IsNamed f.filter_id f.name) p.filters)

module _ (d : List ℕ) (small : length d < usize_mod) where
  parse_v1_at :
      (fs : List FilterDescription) (t : List ℕ)
      → length fs < 256
      → All (λ f. IsFilter f × IsName f.name) fs
      → d ≡ 1 ∷ length fs ∷ (zeros 6 ++ (serialize_filters_v1 fs ++ t))
      → parse d ≡ ok (record { version = 1; filters = fs })
  unfolding parse parse_v1
  parse_v1_at fs t few h e =
      let start : Cursor d 0 (1 ∷ length fs ∷ (zeros 6 ++ (serialize_filters_v1 fs ++ t))) =
        record { rest = e; inside = omega arith } in
      let second = Cursor-step d 0 1 (1 ∷ []) _ start refl in
      let third = Cursor-step d 1 2 (length fs ∷ []) _ second refl in
      let at_filters = Cursor-step d 2 8 (zeros 6) _ third refl in
      rw
        (
          ensure_len_lem d 0 2 third.inside small,
          index_at d 0 1 _ start,
          index_at d 1 (length fs) _ second,
          ensure_len_lem d 0 8 at_filters.inside small,
          parse_filters_v1_at d small fs 8 t h at_filters,
        )
        refl

  parse_v2_at :
      (fs : List FilterDescription) (t : List ℕ)
      → length fs < 256
      → All (λ f. IsFilter f × IsNamed f.filter_id f.name) fs
      → d ≡ 2 ∷ length fs ∷ (serialize_filters_v2 fs ++ t)
      → parse d ≡ ok (record { version = 2; filters = fs })
  unfolding parse parse_v2
  parse_v2_at fs t few h e =
      let start : Cursor d 0 (2 ∷ length fs ∷ (serialize_filters_v2 fs ++ t)) = record {
        rest = e;
        inside = omega arith;
      } in
      let second = Cursor-step d 0 1 (2 ∷ []) _ start refl in
      let third = Cursor-step d 1 2 (length fs ∷ []) _ second refl in
      rw
        (
          ensure_len_lem d 0 2 third.inside small,
          index_at d 0 2 _ start,
          index_at d 1 (length fs) _ second,
          parse_filters_v2_at d small fs 2 t h third,
        )
        refl

-- `parse` reads back the pipeline that `serialize` wrote, whatever bytes follow it in the message,
-- in both versions, when there are fewer than 256 filters, every field fits its width, and the
-- names are UTF-8 without a null, of fewer than 65,535 bytes. In version 2 exactly the filters from
-- 256 on are named. The message has fewer than 2^64 bytes.
pub pipeline_parse-serialize :
    (p : FilterPipeline) (t : List ℕ)
    → IsWritable p
    → length (serialize p ++ t) < usize_mod
    → parse (serialize p ++ t) ≡ ok p
unfolding serialize
pipeline_parse-serialize p t h small =
    let count : length p.filters % 256 ≡ length p.filters = mod-eq_of_lt h.few in
    elim h.version [
      | inl (v, each) ↦
          parse_v1_at (serialize p ++ t) small p.filters t h.few each
            (rw (v, count) (simp (append_assoc)))
          ∙ ap (λ n. ok (record p { version = n })) (sym v)
      | inr (v, each) ↦
          parse_v2_at (serialize p ++ t) small p.filters t h.few each (rw (v, count) refl)
          ∙ ap (λ n. ok (record p { version = n })) (sym v)
    ]

length-write_values : (vs : List ℕ) → length (write_values vs) ≡ 4 * length vs
unfolding write_values
length-write_values [] = refl
length-write_values (v ∷ vs) =
    omega (arith, length-append (to_le 4 v) (write_values vs), length-write_values vs)

length-serialize_filter_v2 :
    (id flags : ℕ) (o : Option (List ℕ)) (vals : List ℕ)
    → length vals < 2 ^ 16
    → IsNamed id o
    → length (serialize_filter_v2 (filter_of id flags o vals)) ≤ 2 ^ 19
unfolding serialize_filter_v2 name_bytes_v2
length-serialize_filter_v2 id flags none vals few (known h) =
    rw (not_leb 256 id h) (omega (arith, length-write_values vals))
length-serialize_filter_v2 id flags (some n) vals few (custom h text) = rw (le→leb 256 id h) (
    omega (
      arith,
      length-append (n ++ (0 ∷ [])) (write_values vals),
      length-append n (0 ∷ []),
      text.short,
      length-write_values vals,
    ))

-- A message of version 2 stays far below the address space.
length-serialize_v2 :
    (fs : List FilterDescription)
    → All (λ f. IsFilter f × IsNamed f.filter_id f.name) fs
    → length (serialize_filters_v2 fs) ≤ length fs * 2 ^ 19
unfolding serialize_filters_v2
length-serialize_v2 [] h = omega arith
length-serialize_v2 (f ∷ fs) h = omega (
  arith,
  length-append (serialize_filter_v2 f) (serialize_filters_v2 fs),
  length-serialize_filter_v2 f.filter_id f.flags f.name f.client_data h.0.0.few h.0.1,
  length-serialize_v2 fs h.1,
)

pub length-serialize :
    (fs : List FilterDescription)
    → All (λ f. IsFilter f × IsNamed f.filter_id f.name) fs
    → length (serialize (record { version = 2; filters = fs })) ≤ 2 + length fs * 2 ^ 19
unfolding serialize
length-serialize fs h = omega (arith, length-serialize_v2 fs h)
