-- ===== src/FilterPipeline.antt =====
-- crates/rustyhdf5-format/src/filter_pipeline.rs: the filter pipeline message, which lists the
-- filters of a chunked dataset in the order in which writing applies them. A name is its UTF-8
-- bytes.
pub mod Safety
pub mod Names
pub mod Values
pub mod Version1
pub mod Version2
pub mod RoundTrip
mod Tests
use rustyhdf.Prelude.{ℕ, zero, suc, ◌+◌, ◌-◌, ◌*◌, ◌/◌, ◌%◌, List, [], ◌∷◌, ◌++◌, length}
use rustyhdf.Prelude.{Option, none, some, ltb, leb, ◌==◌, if◌then◌else◌}
use rustyhdf.Outcome.{Outcome, ok, err, ◌>>=◌, ◌>>◌, invalid_filter_pipeline_version}
use rustyhdf.Bytes.{index, slice, from_le_bytes, to_le}
use rustyhdf.Utils.{ensure_len, pad8}
use rustyhdf.LocalHeap.Utf8.{is_utf8}

abbrev pub filter_deflate : ℕ
filter_deflate = 1

abbrev pub filter_shuffle : ℕ
filter_shuffle = 2

abbrev pub filter_fletcher32 : ℕ
filter_fletcher32 = 3

pub record FilterDescription : Type 0 where
  pub filter_id : ℕ
  pub name : Option (List ℕ)
  pub flags : ℕ
  pub client_data : List ℕ

pub record FilterPipeline : Type 0 where
  pub version : ℕ
  pub filters : List FilterDescription

-- `split(|&b| b == 0).next()`
unfoldable pub until_null : List ℕ → List ℕ
until_null [] = []
until_null (b ∷ bs) = if b == 0 then [] else b ∷ until_null bs

-- `from_utf8(…).unwrap_or("")`
unfoldable pub name_text : List ℕ → List ℕ
name_text bs = let t = until_null bs in if is_utf8 t then t else []

-- The loop over `0..num_client_data`; the position comes back with the values.
unfoldable pub read_values : ℕ → List ℕ → ℕ → Outcome (List ℕ × ℕ)
read_values zero d pos = ok ([], pos)
read_values (suc n) d pos = do
  val ← from_le_bytes 4 d pos
  (vals, end) ← read_values n d (pos + 4)
  ok (val ∷ vals, end)

unfoldable pub read_client_data : ℕ → List ℕ → ℕ → Outcome (List ℕ × ℕ)
read_client_data num_client_data d pos = do
  ensure_len d pos (num_client_data * 4)
  read_values num_client_data d pos

-- The name with the position behind it, padded to 8 bytes.
unfoldable pub read_name_v1 : ℕ → List ℕ → ℕ → Outcome (Option (List ℕ) × ℕ)
read_name_v1 name_length d pos =
    if ltb 0 name_length
    then (do
      ensure_len d pos name_length
      name_bytes ← slice d pos (pos + name_length)
      padded ← pad8 name_length
      ok (some (name_text name_bytes), pos + padded))
    else ok (none, pos)

-- One turn of the loop; the position comes back with the filter.
unfoldable pub parse_filter_v1 : List ℕ → ℕ → Outcome (FilterDescription × ℕ)
parse_filter_v1 d pos = do
  ensure_len d pos 8
  filter_id ← from_le_bytes 2 d pos
  name_length ← from_le_bytes 2 d (pos + 2)
  flags ← from_le_bytes 2 d (pos + 4)
  num_client_data ← from_le_bytes 2 d (pos + 6)
  (name, p) ← read_name_v1 name_length d (pos + 8)
  (client_data, end) ← read_client_data num_client_data d p
  ok (
    record { filter_id = filter_id; name = name; flags = flags; client_data = client_data },
    if num_client_data % 2 == 0 then end else end + 4,
  )

unfoldable pub parse_filters_v1 : ℕ → List ℕ → ℕ → Outcome (List FilterDescription)
parse_filters_v1 zero d pos = ok []
parse_filters_v1 (suc n) d pos = do
  (f, end) ← parse_filter_v1 d pos
  fs ← parse_filters_v1 n d end
  ok (f ∷ fs)

unfoldable pub parse_v1 : List ℕ → ℕ → Outcome FilterPipeline
parse_v1 d number_of_filters = do
  ensure_len d 0 8
  filters ← parse_filters_v1 number_of_filters d 8
  ok (record { version = 1; filters = filters })

-- Only a filter that is not well known has a name; the position comes back with its length.
unfoldable pub read_name_length : ℕ → List ℕ → ℕ → Outcome (ℕ × ℕ)
read_name_length filter_id d pos =
    if leb 256 filter_id
    then (do ensure_len d pos 2; nl ← from_le_bytes 2 d pos; ok (nl, pos + 2))
    else ok (0, pos)

unfoldable pub read_name_v2 : ℕ → List ℕ → ℕ → Outcome (Option (List ℕ) × ℕ)
read_name_v2 name_length d pos =
    if ltb 0 name_length
    then (do
      ensure_len d pos name_length
      name_bytes ← slice d pos (pos + name_length)
      ok (some (name_text name_bytes), pos + name_length))
    else ok (none, pos)

unfoldable pub parse_filter_v2 : List ℕ → ℕ → Outcome (FilterDescription × ℕ)
parse_filter_v2 d pos = do
  ensure_len d pos 2
  filter_id ← from_le_bytes 2 d pos
  (name_length, p) ← read_name_length filter_id d (pos + 2)
  ensure_len d p 4
  flags ← from_le_bytes 2 d p
  num_client_data ← from_le_bytes 2 d (p + 2)
  (name, q) ← read_name_v2 name_length d (p + 4)
  (client_data, end) ← read_client_data num_client_data d q
  ok (record { filter_id = filter_id; name = name; flags = flags; client_data = client_data }, end)

unfoldable pub parse_filters_v2 : ℕ → List ℕ → ℕ → Outcome (List FilterDescription)
parse_filters_v2 zero d pos = ok []
parse_filters_v2 (suc n) d pos = do
  (f, end) ← parse_filter_v2 d pos
  fs ← parse_filters_v2 n d end
  ok (f ∷ fs)

unfoldable pub parse_v2 : List ℕ → ℕ → Outcome FilterPipeline
parse_v2 d number_of_filters = do
  filters ← parse_filters_v2 number_of_filters d 2
  ok (record { version = 2; filters = filters })

unfoldable pub parse : List ℕ → Outcome FilterPipeline
parse d = do
  ensure_len d 0 2
  version ← index d 0
  number_of_filters ← index d 1
  if version == 1
      then parse_v1 d number_of_filters
      else if version == 2
      then parse_v2 d number_of_filters
      else err (invalid_filter_pipeline_version version)

-- `vec![0u8; n]`
abbrev pub zeros : ℕ → List ℕ
zeros zero = []
zeros (suc n) = 0 ∷ zeros n

unfoldable pub write_values : List ℕ → List ℕ
write_values [] = []
write_values (v ∷ vs) = to_le 4 v ++ write_values vs

-- The name's bytes with the null behind them.
unfoldable pub name_bytes_v1 : Option (List ℕ) → List ℕ
name_bytes_v1 none = []
name_bytes_v1 (some name) = name ++ (0 ∷ [])

-- `(len + 7) & !7 - len` zeros; no name is written as nothing.
unfoldable pub pad_name : List ℕ → List ℕ
pad_name bs = bs ++ zeros ((length bs + 7) / 8 * 8 - length bs)

unfoldable pub serialize_filter_v1 : FilterDescription → List ℕ
serialize_filter_v1 f =
    to_le 2 f.filter_id
    ++ (to_le 2 (length (name_bytes_v1 f.name))
        ++ (to_le 2 f.flags
            ++ (to_le 2 (length f.client_data)
                ++ (pad_name (name_bytes_v1 f.name)
                    ++ (write_values f.client_data
                        ++ (if length f.client_data % 2 == 0 then [] else zeros 4))))))

unfoldable pub serialize_filters_v1 : List FilterDescription → List ℕ
serialize_filters_v1 [] = []
serialize_filters_v1 (f ∷ fs) = serialize_filter_v1 f ++ serialize_filters_v1 fs

unfoldable pub name_bytes_v2 : Option (List ℕ) → List ℕ
name_bytes_v2 none = 0 ∷ []
name_bytes_v2 (some name) = name ++ (0 ∷ [])

unfoldable pub serialize_filter_v2 : FilterDescription → List ℕ
serialize_filter_v2 f =
    to_le 2 f.filter_id
    ++ (if leb 256 f.filter_id
        then to_le 2 (length (name_bytes_v2 f.name))
          ++ (to_le 2 f.flags
              ++ (to_le 2 (length f.client_data)
                  ++ (name_bytes_v2 f.name ++ write_values f.client_data)))
        else to_le 2 f.flags ++ (to_le 2 (length f.client_data) ++ write_values f.client_data))

unfoldable pub serialize_filters_v2 : List FilterDescription → List ℕ
serialize_filters_v2 [] = []
serialize_filters_v2 (f ∷ fs) = serialize_filter_v2 f ++ serialize_filters_v2 fs

unfoldable pub serialize : FilterPipeline → List ℕ
serialize p =
    if p.version == 1
    then 1 ∷ length p.filters % 256 ∷ (zeros 6 ++ serialize_filters_v1 p.filters)
    else if p.version == 2
    then 2 ∷ length p.filters % 256 ∷ serialize_filters_v2 p.filters
    else p.version ∷ 0 ∷ []
