-- ===== src/ChunkWrite/Layouts.antt =====
-- The three functions that write a chunked layout as one, and what they write.
use rustyhdf.Prelude.{ℕ, ◌^◌, ◌<◌, ◌≡◌}
use rustyhdf.Prelude.{List, ◌∷◌, ◌++◌, Option, none, some}
use rustyhdf.Prelude.{◌⊎◌, inl, inr}
use rustyhdf.Outcome.{Outcome}
use rustyhdf.Utils.Values.{IsWidth, four, eight}
use rustyhdf.DataLayout.{Chunking}
use rustyhdf.DataLayout.{IndexFields}
use rustyhdf.ChunkWrite.{write_address, single_fields, serialize_v4_single_chunk}
use rustyhdf.ChunkWrite.{serialize_v4_fixed_array, serialize_v4_extensible_array}

-- The index that a layout message names, with its own fields.
pub data Index : Type 0 where
  unfiltered extensible : Index
  -- filtered size, filter mask
  filtered : ℕ → ℕ → Index
  -- max_bits
  fixed : ℕ → Index

abbrev pub IsFitting : Index → Type 0
IsFitting unfiltered = Unit {0}
IsFitting extensible = Unit {0}
IsFitting (filtered fs fm) = (fs < 2 ^ 64) × (fm < 2 ^ 32)
IsFitting (fixed max_bits) = max_bits < 256

abbrev pub flags_of : Index → ℕ
flags_of unfiltered = 0
flags_of extensible = 0
flags_of (filtered fs fm) = 2
flags_of (fixed max_bits) = 0

abbrev pub kind_of : Index → ℕ
kind_of unfiltered = 1
kind_of extensible = 4
kind_of (filtered fs fm) = 1
kind_of (fixed max_bits) = 3

-- The index-specific fields and the address.
abbrev pub tail : Index → ℕ → ℕ → List ℕ
tail unfiltered os a = write_address os a
tail extensible os a = 32 ∷ 4 ∷ 4 ∷ 16 ∷ 10 ∷ write_address os a
tail (filtered fs fm) os a = single_fields (some fs) (some fm) ++ write_address os a
tail (fixed max_bits) os a = max_bits ∷ write_address os a

abbrev pub size_of : Index → Option ℕ
size_of unfiltered = none
size_of extensible = none
size_of (filtered fs fm) = some fs
size_of (fixed max_bits) = none

abbrev pub mask_of : Index → Option ℕ
mask_of unfiltered = none
mask_of extensible = none
mask_of (filtered fs fm) = some fm
mask_of (fixed max_bits) = none

abbrev pub fields_of : Index → ℕ → IndexFields
fields_of i a = record { filtered_size = size_of i; filter_mask = mask_of i; address = some a }

-- The layout that is read back.
abbrev pub chunking_of : Index → List ℕ → ℕ → Chunking
chunking_of i sizes a = record {
  chunk_dimensions = sizes;
  btree_address = some a;
  version = 4;
  chunk_index_type = some (kind_of i);
  single_chunk_filtered_size = size_of i;
  single_chunk_filter_mask = mask_of i;
}

-- The function that writes the message of an index.
abbrev pub write_layout : Index → List ℕ → ℕ → ℕ → ℕ → Outcome (List ℕ)
write_layout unfiltered dims a os es = serialize_v4_single_chunk dims a none none os es
write_layout extensible dims a os es = serialize_v4_extensible_array dims a os es
write_layout (filtered fs fm) dims a os es =
    serialize_v4_single_chunk dims a (some fs) (some fm) os es
write_layout (fixed max_bits) dims a os es = serialize_v4_fixed_array dims a os es max_bits

-- The widths of an address that the messages are written with.
abbrev pub IsAddressWidth : ℕ → Type 0
IsAddressWidth os = (os ≡ 4) ⊎ (os ≡ 8)

pub wide : {os : ℕ} → IsAddressWidth os → IsWidth os
wide (inl e) = four e
wide (inr e) = eight e
