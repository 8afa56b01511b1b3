-- ===== src/Dataspace.antt =====
-- crates/rustyhdf5-format/src/dataspace.rs: the dataspace message, which is a dataset's shape.
pub mod Safety
pub mod RoundTrip
mod Tests
use rustyhdf.Prelude.{ℕ, zero, suc, ◌+◌, ◌*◌, ◌%◌, ◌^◌, List, [], ◌∷◌, ◌++◌, Option, none, some}
use rustyhdf.Prelude.{◌==◌, if◌then◌else◌}
use rustyhdf.Outcome.{Outcome, ok, err, ◌>>=◌, ◌>>◌, mul_usize, invalid_length_size}
use rustyhdf.Outcome.{invalid_dataspace_type, invalid_dataspace_version}
use rustyhdf.Bytes.{index, slice, from_le_bytes, to_le}
use rustyhdf.Utils.{ensure_len, bit_set}

pub data DataspaceType : Type 0 where
  scalar simple null : DataspaceType

pub record Dataspace : Type 0 where
  pub space_type : DataspaceType
  pub rank : ℕ
  pub dimensions : List ℕ
  pub max_dimensions : Option (List ℕ)

-- The `match length_size` of `read_length`.
unfoldable pub length_value : List ℕ → ℕ → Outcome ℕ
length_value t length_size =
    if length_size == 2
    then from_le_bytes 2 t 0
    else if length_size == 4
    then from_le_bytes 4 t 0
    else if length_size == 8
    then from_le_bytes 8 t 0
    else err (invalid_length_size length_size)

unfoldable pub read_length : List ℕ → ℕ → ℕ → Outcome ℕ
unfolding length_value
read_length d offset length_size = do
  ensure_len d offset length_size
  t ← slice d offset (offset + length_size)
  length_value t length_size

-- The loop over `0..rank`; the position comes back with the sizes.
unfoldable pub parse_dimensions : ℕ → List ℕ → ℕ → ℕ → Outcome (List ℕ × ℕ)
parse_dimensions zero d pos length_size = ok ([], pos)
parse_dimensions (suc rank) d pos length_size = do
  val ← read_length d pos length_size
  (dims, end) ← parse_dimensions rank d (pos + length_size) length_size
  ok (val ∷ dims, end)

-- The `match version`: the space's type, and the size of the header.
unfoldable pub parse_header : List ℕ → ℕ → ℕ → Outcome (DataspaceType × ℕ)
parse_header d version rank =
    if version == 1
    then (do ensure_len d 0 8; if rank == 0 then ok (scalar, 8) else ok (simple, 8))
    else if version == 2
    then (do
      type_byte ← index d 3
      if type_byte == 0
          then ok (scalar, 4)
          else if type_byte == 1
          then ok (simple, 4)
          else if type_byte == 2
          then ok (null, 4)
          else err (invalid_dataspace_type type_byte))
    else err (invalid_dataspace_version version)

-- Permutation indices, which version 1 may have behind the sizes, are not read.
unfoldable pub parse : List ℕ → ℕ → Outcome Dataspace
parse d length_size = do
  ensure_len d 0 4
  version ← index d 0
  rank ← index d 1
  flags ← index d 2
  (space_type, header_size) ← parse_header d version rank
  (dimensions, pos) ← parse_dimensions rank d header_size length_size
  if bit_set flags 0x01
      then (do
        (max_dims, end) ← parse_dimensions rank d pos length_size
        ok (record {
          space_type = space_type;
          rank = rank;
          dimensions = dimensions;
          max_dimensions = some max_dims;
        }))
      else ok (record {
        space_type = space_type;
        rank = rank;
        dimensions = dimensions;
        max_dimensions = none;
      })

-- The bytes that `write_length` appends.
unfoldable pub write_length : ℕ → ℕ → List ℕ
write_length val size =
    if size == 2
    then to_le 2 (val % 2 ^ 16)
    else if size == 4
    then to_le 4 (val % 2 ^ 32)
    else if size == 8
    then to_le 8 val
    else []

unfoldable pub type_code : DataspaceType → ℕ
type_code scalar = 0
type_code simple = 1
type_code null = 2

unfoldable pub write_lengths : ℕ → List ℕ → List ℕ
write_lengths size [] = []
write_lengths size (v ∷ vs) = write_length v size ++ write_lengths size vs

unfoldable pub serialize : Dataspace → ℕ → List ℕ
serialize s length_size =
    2
    ∷ s.rank
    ∷ elim s.max_dimensions [ some m ↦ 1 | none ↦ 0 ]
    ∷ type_code s.space_type
    ∷ (write_lengths length_size s.dimensions
        ++ elim s.max_dimensions [ some m ↦ write_lengths length_size m | none ↦ [] ])

-- `iter().product()` on `u64`, with the overflow check.
unfoldable pub product_u64 : ℕ → List ℕ → Outcome ℕ
product_u64 acc [] = ok acc
product_u64 acc (v ∷ vs) = do p ← mul_usize acc v; product_u64 p vs

-- The `match` of `num_elements`; `u64` and `usize` have the same width.
unfoldable pub elements : DataspaceType → List ℕ → Outcome ℕ
elements null dims = ok 0
elements scalar dims = ok 1
elements simple [] = ok 0
elements simple (v ∷ vs) = product_u64 1 (v ∷ vs)

unfoldable pub num_elements : Dataspace → Outcome ℕ
num_elements s = elements s.space_type s.dimensions
