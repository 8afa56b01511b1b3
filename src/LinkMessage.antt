-- ===== src/LinkMessage.antt =====
-- crates/rustyhdf5-format/src/link_message.rs: the link message of a version 2 group. Names and
-- paths are UTF-8 bytes.
pub mod Safety
pub mod Flags
pub mod Targets
pub mod RoundTrip
mod Tests
use rustyhdf.Prelude.{ℕ, zero, suc, ◌+◌, ◌%◌, List, [], ◌∷◌, ◌++◌, length, take, Option, none, some}
use rustyhdf.Prelude.{Bool, true, false, not, min, leb, ltb, ◌==◌, bit_and, if◌then◌else◌}
use rustyhdf.Outcome.{Outcome, ok, err, ◌>>=◌, ◌>>◌, guard, invalid_link_version}
use rustyhdf.Outcome.{invalid_link_type, invalid_character_set}
use rustyhdf.Bytes.{index, slice, slice_from, from_le_bytes, to_le}
use rustyhdf.Utils.{bit_set, ensure_len, read_offset}
use rustyhdf.LocalHeap.Utf8.Lossy.{from_utf8_lossy}

-- `CharacterSet` of datatype.rs.
pub data CharacterSet : Type 0 where
  ascii utf8 : CharacterSet

pub data LinkTarget : Type 0 where
  -- object header address
  hard : ℕ → LinkTarget
  -- target path
  soft : List ℕ → LinkTarget
  -- file name, object path
  external : List ℕ → List ℕ → LinkTarget

pub record LinkMessage : Type 0 where
  pub name : List ℕ
  pub link_target : LinkTarget
  pub creation_order : Option ℕ
  pub charset : CharacterSet

-- `name_size_width` and the bits that state it.
unfoldable pub name_size_width : ℕ → ℕ
name_size_width name_len = if leb name_len 0xff then 1 else if leb name_len 0xffff then 2 else 4

unfoldable pub size_bits : ℕ → ℕ
size_bits name_len = if leb name_len 0xff then 0 else if leb name_len 0xffff then 1 else 2

-- The bits of the parts that are there; the bits do not meet, so `|` adds.
unfoldable pub order_bit : Option ℕ → ℕ
order_bit none = 0
order_bit (some co) = 0x04

unfoldable pub type_bit : LinkTarget → ℕ
type_bit (hard a) = 0
type_bit (soft path) = 0x08
type_bit (external file path) = 0x08

unfoldable pub charset_bit : CharacterSet → ℕ
charset_bit ascii = 0
charset_bit utf8 = 0x10

-- The link's type, unless it is a hard link.
unfoldable pub type_bytes : LinkTarget → List ℕ
type_bytes (hard a) = []
type_bytes (soft path) = 1 ∷ []
type_bytes (external file path) = 64 ∷ []

unfoldable pub order_bytes : Option ℕ → List ℕ
order_bytes none = []
order_bytes (some co) = to_le 8 co

unfoldable pub charset_bytes : CharacterSet → List ℕ
charset_bytes ascii = []
charset_bytes utf8 = 1 ∷ []

-- The address of a hard link.
unfoldable pub write_address : ℕ → ℕ → List ℕ
write_address a offset_size =
    if offset_size == 2
    then to_le 2 a
    else if offset_size == 4
    then to_le 4 a
    else if offset_size == 8
    then to_le 8 a
    else []

unfoldable pub target_bytes : LinkTarget → ℕ → List ℕ
target_bytes (hard a) offset_size = write_address a offset_size
target_bytes (soft path) offset_size = to_le 2 (length path) ++ path
target_bytes (external file path) offset_size =
    let ext_data = 0 ∷ (file ++ (0 ∷ (path ++ (0 ∷ [])))) in to_le 2 (length ext_data) ++ ext_data

unfoldable pub serialize : LinkMessage → ℕ → List ℕ
serialize m offset_size =
    1
    ∷ (size_bits (length m.name)
        + order_bit m.creation_order
        + type_bit m.link_target
        + charset_bit m.charset)
    ∷ (type_bytes m.link_target
        ++ (order_bytes m.creation_order
            ++ (charset_bytes m.charset
                ++ (to_le (name_size_width (length m.name)) (length m.name)
                    ++ (m.name ++ target_bytes m.link_target offset_size)))))

-- The `match flags & 0x03`
unfoldable pub name_field_width : ℕ → ℕ
name_field_width flags =
    let bits = bit_and flags 0x03 in
    if bits == 0 then 1 else if bits == 1 then 2 else if bits == 2 then 4 else 8

-- Each optional part comes back with the position behind it.
unfoldable pub parse_type : Bool → List ℕ → ℕ → Outcome (ℕ × ℕ)
parse_type present d pos =
    if present then (do ensure_len d pos 1; v ← index d pos; ok (v, pos + 1)) else ok (0, pos)

unfoldable pub parse_order : Bool → List ℕ → ℕ → Outcome (Option ℕ × ℕ)
parse_order present d pos =
    if present
    then (do ensure_len d pos 8; co ← from_le_bytes 8 d pos; ok (some co, pos + 8))
    else ok (none, pos)

unfoldable pub parse_charset : Bool → List ℕ → ℕ → Outcome (CharacterSet × ℕ)
parse_charset present d pos =
    if present
    then (do
      ensure_len d pos 1
      cs ← index d pos
      if cs == 0
          then ok (ascii, pos + 1)
          else if cs == 1
          then ok (utf8, pos + 1)
          else err (invalid_character_set cs))
    else ok (ascii, pos)

-- `position(|&b| b == 0).unwrap_or(len)`
unfoldable pub null_at : List ℕ → ℕ
null_at [] = 0
null_at (b ∷ bs) = if b == 0 then 0 else suc (null_at bs)

-- The two texts behind the flags byte of an external link.
unfoldable pub parse_external : List ℕ → Outcome LinkTarget
parse_external ext_data = do
  rest ← slice_from ext_data (if length ext_data == 0 then 0 else 1)
  let null1 = null_at rest
  filename ← slice rest 0 null1
  rest2 ← slice_from rest (if ltb (null1 + 1) (length rest) then null1 + 1 else length rest)
  object_path ← slice rest2 0 (null_at rest2)
  ok (external (from_utf8_lossy filename) (from_utf8_lossy object_path))

-- The `match link_type_code`
unfoldable pub parse_target : ℕ → List ℕ → ℕ → ℕ → Outcome LinkTarget
parse_target link_type_code d pos offset_size =
    if link_type_code == 0
    then (do addr ← read_offset d pos offset_size; ok (hard addr))
    else if link_type_code == 1
    then (do
      ensure_len d pos 2
      soft_len ← from_le_bytes 2 d pos
      ensure_len d (pos + 2) soft_len
      path ← slice d (pos + 2) (pos + 2 + soft_len)
      ok (soft (from_utf8_lossy path)))
    else if link_type_code == 64
    then (do
      ensure_len d pos 2
      ext_len ← from_le_bytes 2 d pos
      ensure_len d (pos + 2) ext_len
      ext_data ← slice d (pos + 2) (pos + 2 + ext_len)
      parse_external ext_data)
    else err (invalid_link_type link_type_code)

unfoldable pub parse : List ℕ → ℕ → Outcome LinkMessage
parse d offset_size = do
  ensure_len d 0 2
  version ← index d 0
  guard (version == 1) (invalid_link_version version)
  flags ← index d 1
  let width = name_field_width flags
  (link_type_code, p) ← parse_type (bit_set flags 0x08) d 2
  (creation_order, q) ← parse_order (bit_set flags 0x04) d p
  (charset, r) ← parse_charset (bit_set flags 0x10) d q
  name_len ← read_offset d r width
  ensure_len d (r + width) name_len
  name ← slice d (r + width) (r + width + name_len)
  link_target ← parse_target link_type_code d (r + width + name_len) offset_size
  ok (record {
    name = from_utf8_lossy name;
    link_target = link_target;
    creation_order = creation_order;
    charset = charset;
  })
