-- ===== src/ChunkWrite.antt =====
-- crates/rustyhdf5-format/src/chunked_write.rs: the options of a chunked dataset and the layout
-- messages that are written for it.
pub mod Dimensions
pub mod Layouts
pub mod Fields
pub mod RoundTrip
pub mod Options
mod Tests
use rustyhdf.Prelude.{ℕ, zero, suc, ◌+◌, ◌-◌, ◌*◌, ◌/◌, ◌%◌, ◌^◌, Bool, true, false, List, []}
use rustyhdf.Prelude.{◌∷◌, ◌++◌, length, Option, none, some, max, leb, ltb, ◌==◌, ◌||◌}
use rustyhdf.Prelude.{if◌then◌else◌}
use rustyhdf.Outcome.{Outcome, ok, panic, ◌>>=◌}
use rustyhdf.Bytes.{to_le}
use rustyhdf.FilterPipeline.{FilterDescription, FilterPipeline, filter_deflate, filter_shuffle}
use rustyhdf.FilterPipeline.{filter_fletcher32}

pub record ChunkOptions : Type 0 where
  pub chunk_dims : Option (List ℕ)
  pub deflate_level : Option ℕ
  pub shuffle : Bool
  pub fletcher32 : Bool

abbrev is_some {ℓ} : {A : Type ℓ} → Option A → Bool
is_some none = false
is_some (some a) = true

unfoldable pub is_chunked : ChunkOptions → Bool
is_chunked o = is_some o.chunk_dims || is_some o.deflate_level || o.shuffle || o.fletcher32

abbrev plain_filter : ℕ → List ℕ → FilterDescription
plain_filter id vals = record { filter_id = id; name = none; flags = 0; client_data = vals }

-- The filters that `build_pipeline` pushes, in their order.
unfoldable pub pushed_filters : ChunkOptions → ℕ → List FilterDescription
pushed_filters o element_size =
    (if o.shuffle then plain_filter filter_shuffle (element_size ∷ []) ∷ [] else [])
    ++ (elim o.deflate_level [
      | some level ↦ plain_filter filter_deflate (level ∷ []) ∷ []
      | none ↦ []
    ]
        ++ (if o.fletcher32 then plain_filter filter_fletcher32 [] ∷ [] else []))

unfoldable pub pipeline_of : List FilterDescription → Option FilterPipeline
pipeline_of [] = none
pipeline_of (f ∷ fs) = some (record { version = 2; filters = f ∷ fs })

unfoldable pub build_pipeline : ChunkOptions → ℕ → Option FilterPipeline
build_pipeline o element_size = pipeline_of (pushed_filters o element_size)

unfoldable pub resolve_chunk_dims : ChunkOptions → List ℕ → List ℕ
resolve_chunk_dims o shape = elim o.chunk_dims [ some dims ↦ dims | none ↦ shape ]

-- `chunk_dims.len() as u8 + 1` with the overflow check.
unfoldable pub dimensionality : List ℕ → Outcome ℕ
dimensionality dims = let n = length dims % 256 + 1 in if ltb n 256 then ok n else panic

-- The largest of the chunk's dimensions and the element's size.
unfoldable pub max_dim : List ℕ → ℕ → ℕ
max_dim [] element_size = element_size
max_dim (v ∷ vs) element_size = max v (max_dim vs element_size)

unfoldable pub dim_encoded_len : ℕ → ℕ
dim_encoded_len largest = if leb largest 0xff then 1 else if leb largest 0xffff then 2 else 4

-- The `match dim_encoded_len`
unfoldable pub write_dim : ℕ → ℕ → List ℕ
write_dim len d =
    if len == 1
    then to_le 1 d
    else if len == 2
    then to_le 2 d
    else if len == 4
    then to_le 4 d
    else []

unfoldable pub write_dims : ℕ → List ℕ → List ℕ
write_dims len [] = []
write_dims len (d ∷ ds) = write_dim len d ++ write_dims len ds

-- The `match offset_size` behind the index-specific fields.
unfoldable pub write_address : ℕ → ℕ → List ℕ
write_address offset_size a =
    if offset_size == 4 then to_le 4 a else if offset_size == 8 then to_le 8 a else []

-- What the three layout messages begin with: version, class, flags, and the encoded sizes.
unfoldable pub layout_front : ℕ → List ℕ → ℕ → Outcome (List ℕ)
layout_front flags dims element_size = do
  ndims ← dimensionality dims
  let len = dim_encoded_len (max_dim dims element_size)
  ok (4 ∷ 2 ∷ flags ∷ ndims ∷ len ∷ (write_dims len dims ++ write_dim len element_size))

-- `if let (Some(fs), Some(fm))`
unfoldable pub single_fields : Option ℕ → Option ℕ → List ℕ
single_fields none fm = []
single_fields (some fs) none = []
single_fields (some fs) (some fm) = to_le 8 fs ++ to_le 4 fm

unfoldable pub serialize_v4_single_chunk :
    List ℕ → ℕ → Option ℕ → Option ℕ → ℕ → ℕ → Outcome (List ℕ)
serialize_v4_single_chunk dims chunk_address filtered_size filter_mask offset_size element_size = do
  front ← layout_front (if is_some filtered_size then 0x02 else 0x00) dims element_size
  ok (
      front
      ++ (1 ∷ (single_fields filtered_size filter_mask ++ write_address offset_size chunk_address)))

unfoldable pub serialize_v4_fixed_array : List ℕ → ℕ → ℕ → ℕ → ℕ → Outcome (List ℕ)
serialize_v4_fixed_array dims fixed_array_address offset_size element_size max_bits = do
  front ← layout_front 0x00 dims element_size
  ok (front ++ (3 ∷ max_bits ∷ write_address offset_size fixed_array_address))

unfoldable pub serialize_v4_extensible_array : List ℕ → ℕ → ℕ → ℕ → Outcome (List ℕ)
serialize_v4_extensible_array dims ea_address offset_size element_size = do
  front ← layout_front 0x00 dims element_size
  ok (front ++ (4 ∷ 32 ∷ 4 ∷ 4 ∷ 16 ∷ 10 ∷ write_address offset_size ea_address))
