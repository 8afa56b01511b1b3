-- ===== src/ObjectHeaderWriter/SizeField.antt =====
-- The field of the chunk size, and the flags that state its width.
use rustyhdf.Prelude.{ℕ, ◌^◌, ◌<◌, ◌≤◌, ◌≡◌, refl, arith}
use rustyhdf.Prelude.{◌∷◌, false}
use rustyhdf.Prelude.{leb}
use rustyhdf.Outcome.{ok}
use rustyhdf.Bytes.{to_le}
use rustyhdf.Bytes.Cursor.{}
use rustyhdf.Prelude.{Bool-cases, inl, inr}
use rustyhdf.Utils.{bit_set}
use rustyhdf.Utils.Values.{IsReadable, one, wide, two, four}
use rustyhdf.ObjectHeader.V2.{chunk_size_width}
use rustyhdf.ObjectHeaderWriter.{size_field}

-- What the flags byte `f` says of a header with a size field of `w` bytes and nothing else.
pub record IsSizeField (f w total : ℕ) : Type 0 where
  pub field : size_field total ≡ f ∷ to_le w total
  pub no_times : bit_set f 0x20 ≡ false
  pub no_thresholds : bit_set f 0x10 ≡ false
  pub no_order : bit_set f 0x04 ≡ false
  pub width : chunk_size_width f ≡ ok w
  pub readable : IsReadable w
  pub fits : total < 256 ^ w
  pub byte : f < 256
  pub narrow : w ≤ 4

-- The three widths that the writer chooses between.
pub IsSizeField-cases : (total : ℕ) → total < 2 ^ 32 → (f : ℕ) × (w : ℕ) × IsSizeField f w total
unfolding size_field chunk_size_width bit_set
IsSizeField-cases total h = elim (Bool-cases (leb total 255)) [
  | inl e ↦ (
    0,
    1,
    record {
      field = rw e;
      no_times = refl;
      no_thresholds = refl;
      no_order = refl;
      width = refl;
      readable = one refl;
      fits = ground arith;
      byte = omega arith;
      narrow = omega arith;
    },
  )
  | inr e ↦ elim (Bool-cases (leb total 65535)) [
    | inl e' ↦ (
      1,
      2,
      record {
        field = rw (e, e');
        no_times = refl;
        no_thresholds = refl;
        no_order = refl;
        width = refl;
        readable = wide (two refl);
        fits = ground arith;
        byte = omega arith;
        narrow = omega arith;
      },
    )
    | inr e' ↦ (
      2,
      4,
      record {
        field = rw (e, e');
        no_times = refl;
        no_thresholds = refl;
        no_order = refl;
        width = refl;
        readable = wide (four refl);
        fits = h;
        byte = omega arith;
        narrow = omega arith;
      },
    )
  ]
]
