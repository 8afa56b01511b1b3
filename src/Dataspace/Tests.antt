-- ===== src/Dataspace/Tests.antt =====
-- Runs of the dataspace code, and its theorems at concrete inputs.
use rustyhdf.Prelude.{ℕ, ◌≡◌, refl, arith, List, [], ◌∷◌, ◌++◌, some}
use rustyhdf.Outcome.{ok, mul_usize}
use rustyhdf.Outcome.Ensures.{Ensures}
use rustyhdf.Bytes.{index, slice, from_le_bytes}
use rustyhdf.Utils.{ensure_len, bit_set}
use rustyhdf.Utils.Values.{four}
use rustyhdf.Dataspace.{Dataspace, simple, read_length, parse_dimensions, parse_header, parse}
use rustyhdf.Dataspace.{write_length, type_code, write_lengths, serialize, product_u64, elements}
use rustyhdf.Dataspace.{num_elements}
use rustyhdf.Dataspace.Safety.{IsValid, dataspace_parse-IsValid}
use rustyhdf.Dataspace.RoundTrip.{dataspace_parse-serialize}

abbrev table : Dataspace
table = record {
  space_type = simple;
  rank = 2;
  dimensions = 3 ∷ 300 ∷ [];
  max_dimensions = some (3 ∷ 0xffff_ffff ∷ []);
}

abbrev table_bytes : List ℕ
table_bytes =
    2 ∷ 2 ∷ 1 ∷ 1 ∷ 3 ∷ 0 ∷ 0 ∷ 0 ∷ 44 ∷ 1 ∷ 0 ∷ 0 ∷ 3 ∷ 0 ∷ 0 ∷ 0 ∷ 255 ∷ 255 ∷ 255 ∷ 255 ∷ []

serialize-table : serialize table 4 ≡ table_bytes
unfolding serialize write_lengths write_length type_code
serialize-table = refl

parse-table : parse table_bytes 4 ≡ ok table
unfolding index slice from_le_bytes ensure_len bit_set read_length parse_dimensions parse_header
    parse
parse-table = refl

num_elements-table : num_elements table ≡ ok 900
unfolding num_elements elements product_u64 mul_usize
num_elements-table = refl

table-IsValid : IsValid 4 table
table-IsValid = record {
  byte = omega arith;
  shape = (refl, omega arith);
  max_shape = (refl, omega arith);
}

dataspace_parse-serialize_example : parse (serialize table 4 ++ (9 ∷ [])) 4 ≡ ok table
dataspace_parse-serialize_example =
    dataspace_parse-serialize 4 table (9 ∷ []) (four refl) table-IsValid (omega arith)

dataspace_parse-IsValid_example : Ensures (IsValid 4) (parse table_bytes 4)
dataspace_parse-IsValid_example =
    dataspace_parse-IsValid {d = table_bytes} (record { bytes = omega arith; sized = omega arith })
      4
