-- ===== src/ObjectHeader.antt =====
-- crates/rustyhdf5-format/src/object_header.rs: object headers of versions 1 and 2, with their
-- continuation blocks. The `checksum` feature is on.
pub mod Defs
pub mod V1
pub mod V2
pub mod V1Safety
pub mod V2Safety
pub mod Total
pub mod Overflow
mod Tests
use rustyhdf.Prelude.{ℕ, ◌+◌, List, if◌then◌else◌}
use rustyhdf.Outcome.{Outcome, ◌>>=◌, ◌>>◌}
use rustyhdf.Bytes.{slice, bytes_eq}
use rustyhdf.Utils.{ensure_len}
use Defs.{ObjectHeader, ohdr_signature}
use V1.{parse_v1}
use V2.{parse_v2}

unfoldable pub parse : List ℕ → ℕ → ℕ → ℕ → Outcome ObjectHeader
parse d offset offset_size length_size = do
  ensure_len d offset 4
  magic ← slice d offset (offset + 4)
  if bytes_eq magic ohdr_signature
      then parse_v2 d offset offset_size length_size
      else parse_v1 d offset offset_size length_size
