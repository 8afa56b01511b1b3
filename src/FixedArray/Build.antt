-- ===== src/FixedArray/Build.antt =====
-- `build_fixed_array_at` of crates/rustyhdf5-format/src/chunked_write.rs.
use rustyhdf.Prelude.{ℕ, zero, suc, ◌+◌, ◌/◌, ◌%◌, Bool, List, [], ◌∷◌, ◌++◌, length}
use rustyhdf.Prelude.{take, max, min, leb, ◌==◌, if◌then◌else◌}
use rustyhdf.Outcome.{Outcome, ok, panic, ◌>>=◌, ◌>>◌, add_usize}
use rustyhdf.Bytes.{to_le}
use rustyhdf.Checksum.{jenkins_lookup3}
use rustyhdf.FixedArray.{fahd_signature, fadb_signature}

pub record WrittenChunk : Type 0 where
  pub address : ℕ
  pub compressed_size : ℕ
  pub raw_size : ℕ
  pub filter_mask : ℕ

-- `63 - n.leading_zeros()`, on fuel: a number of 64 bits is halved 63 times at most.
unfoldable pub log2 : ℕ → ℕ → ℕ
log2 zero n = 0
log2 (suc fuel) n = let half = log2 fuel (n / 2) in if leb n 1 then 0 else half + 1

-- `iter().map(|c| c.raw_size).max()` from `m` on
unfoldable pub max_raw_from : ℕ → List WrittenChunk → ℕ
max_raw_from m [] = m
max_raw_from m (c ∷ cs) = max_raw_from (max m c.raw_size) cs

-- `max().unwrap_or(1)`
unfoldable pub max_raw : List WrittenChunk → ℕ
max_raw [] = 1
max_raw (c ∷ cs) = max_raw_from c.raw_size cs

unfoldable pub size_bytes : List WrittenChunk → Bool → ℕ
size_bytes chunks has_filters =
    if has_filters then min (1 + (log2 64 (max_raw chunks) + 8) / 8) 8 else 0

-- The `match` of a width: 4 bytes, or 8 for any other width.
unfoldable pub write_int : ℕ → ℕ → List ℕ
write_int size v = if size == 4 then to_le 4 v else to_le 8 v

-- An element of the data block.
unfoldable pub write_element : ℕ → Bool → ℕ → WrittenChunk → List ℕ
write_element offset_size has_filters csb c =
    write_int offset_size c.address
    ++ (if has_filters then take csb (to_le 8 c.compressed_size) ++ to_le 4 c.filter_mask else [])

unfoldable pub write_elements : ℕ → Bool → ℕ → List WrittenChunk → List ℕ
write_elements offset_size has_filters csb [] = []
write_elements offset_size has_filters csb (c ∷ cs) =
    write_element offset_size has_filters csb c ++ write_elements offset_size has_filters csb cs

abbrev pub client_id : Bool → ℕ
client_id has_filters = if has_filters then 1 else 0

abbrev pub fahd_total_size : ℕ → ℕ → ℕ
fahd_total_size offset_size length_size = 8 + length_size + offset_size + 4

-- The header without its checksum. `max_bits` is 10.
unfoldable pub fahd_body : List WrittenChunk → ℕ → ℕ → Bool → ℕ → List ℕ
fahd_body chunks offset_size length_size has_filters fadb_address =
    let csb = size_bytes chunks has_filters in
    let elem_size = if has_filters then offset_size + csb + 4 else offset_size in
    fahd_signature
    ++ (0
        ∷ client_id has_filters
        ∷ elem_size % 256
        ∷ 10
        ∷ (write_int length_size (length chunks) ++ write_int offset_size fadb_address))

-- The data block without its checksum.
unfoldable pub fadb_body : List WrittenChunk → ℕ → Bool → ℕ → List ℕ
fadb_body chunks offset_size has_filters base =
    fadb_signature
    ++ (0
        ∷ client_id has_filters
        ∷ (write_int offset_size base
            ++ write_elements offset_size has_filters (size_bytes chunks has_filters) chunks))

-- `assert_eq!`
unfoldable pub assert_eq : ℕ → ℕ → Outcome (Unit {0})
assert_eq a b = if a == b then ok tt else panic

unfoldable pub build_fixed_array_at : List WrittenChunk → ℕ → ℕ → Bool → ℕ → Outcome (List ℕ)
build_fixed_array_at chunks offset_size length_size has_filters base = do
  fadb_address ← add_usize base (fahd_total_size offset_size length_size)
  let header = fahd_body chunks offset_size length_size has_filters fadb_address
  checksum ← jenkins_lookup3 header
  let fahd = header ++ to_le 4 checksum
  assert_eq (length fahd) (fahd_total_size offset_size length_size)
  let block = fadb_body chunks offset_size has_filters base
  fadb_checksum ← jenkins_lookup3 block
  ok (fahd ++ (block ++ to_le 4 fadb_checksum))
