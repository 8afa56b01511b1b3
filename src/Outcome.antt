-- ===== src/Outcome.antt =====
-- What a call of the library's fallible functions ends in (crates/rustyhdf5-format/src/error.rs).
--
-- `err` is Rust's `Err`. `panic` is an index or a slice out of range, an overflow of checked
-- arithmetic, or an `unwrap` of `None`. `stuck` is no Rust value: a loop of the model ran out of
-- its fuel.
pub mod Ensures
pub mod Loop
use rustyhdf.Prelude.{
  ℕ, List, Bool, true, false, String, ltb, leb, ◌+◌, ◌-◌, ◌*◌, ◌^◌, if◌then◌else◌,
}

-- `FormatError`. Rust's integer payloads are numbers.
pub data FormatError : Type 0 where
  signature_not_found invalid_object_header_signature no_data_allocated : FormatError
  invalid_local_heap_signature invalid_btree_signature : FormatError
  invalid_symbol_table_node_signature invalid_btree_v2_signature : FormatError
  invalid_fractal_heap_signature invalid_sohm_table_signature : FormatError
  invalid_sohm_list_signature invalid_global_heap_signature : FormatError
  dataset_missing_data dataset_missing_shape nesting_depth_exceeded : FormatError
  unsupported_version invalid_offset_size invalid_length_size : ℕ → FormatError
  invalid_object_header_version unsupported_message invalid_datatype_class : ℕ → FormatError
  invalid_string_padding invalid_character_set invalid_byte_order : ℕ → FormatError
  invalid_reference_type invalid_dataspace_version invalid_dataspace_type : ℕ → FormatError
  invalid_layout_version invalid_layout_class invalid_local_heap_version : ℕ → FormatError
  invalid_btree_node_type invalid_symbol_table_node_version : ℕ → FormatError
  invalid_link_version invalid_link_type invalid_link_info_version : ℕ → FormatError
  invalid_group_info_version invalid_btree_v2_version : ℕ → FormatError
  invalid_fractal_heap_version invalid_heap_id_type invalid_attribute_version : ℕ → FormatError
  invalid_attribute_info_version invalid_shared_message_version : ℕ → FormatError
  invalid_sohm_table_version invalid_global_heap_version : ℕ → FormatError
  invalid_filter_pipeline_version unsupported_filter : ℕ → FormatError
  -- expected, available or actual or computed
  unexpected_eof data_size_mismatch fletcher32_mismatch checksum_mismatch : ℕ → ℕ → FormatError
  -- class, version
  invalid_datatype_version : ℕ → ℕ → FormatError
  -- collection address, index
  global_heap_object_not_found : ℕ → ℕ → FormatError
  type_mismatch : String → String → FormatError
  path_not_found vl_data_error serialization_error filter_error : String → FormatError
  decompression_error compression_error chunked_read_error : String → FormatError
  chunk_assembly_error general_error : String → FormatError
  -- the UTF-8 bytes of the name
  duplicate_dataset_name : List ℕ → FormatError

pub data Outcome {ℓ} (A : Type ℓ) : Type ℓ where
  ok : A → Outcome A
  err : FormatError → Outcome A
  panic : Outcome A
  stuck : Outcome A

-- `?`, and the end of a run by a panic.
infixl 5 ◌>>=◌ ◌>>◌
abbrev pub ◌>>=◌ {ℓ κ} : {A : Type ℓ} {B : Type κ} → Outcome A → (A → Outcome B) → Outcome B
ok a >>= f = f a
err e >>= f = err e
panic >>= f = panic
stuck >>= f = stuck

abbrev pub ◌>>◌ {ℓ} : {B : Type ℓ} → Outcome (Unit {0}) → Outcome B → Outcome B
m >> k = m >>= λ _. k

-- `if test { return Err(e); }`
abbrev pub guard : Bool → FormatError → Outcome (Unit {0})
guard true e = ok tt
guard false e = err e

-- `usize` and `u64` are 64 bits wide.
abbrev pub usize_mod : ℕ
usize_mod = 2 ^ 64

-- `a + b` on `usize` with the overflow check.
unfoldable pub add_usize : ℕ → ℕ → Outcome ℕ
add_usize a b = if ltb (a + b) usize_mod then ok (a + b) else panic

-- `a - b` on `usize` with the overflow check.
unfoldable pub sub_usize : ℕ → ℕ → Outcome ℕ
sub_usize a b = if leb b a then ok (a - b) else panic

-- `a * b` on `usize` with the overflow check.
unfoldable pub mul_usize : ℕ → ℕ → Outcome ℕ
mul_usize a b = if ltb (a * b) usize_mod then ok (a * b) else panic

-- `Vec::with_capacity(count)`, or another way to make room for `count` elements of `size` bytes at
-- once: it panics when they take more than `isize::MAX` bytes.
unfoldable pub reserve : ℕ → ℕ → Outcome (Unit {0})
reserve count size = if ltb (count * size) (2 ^ 63) then ok tt else panic
