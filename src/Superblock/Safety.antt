-- ===== src/Superblock/Safety.antt =====
-- Parsing a superblock: it always returns, and what it returns is well formed.
use rustyhdf.Prelude.{◌^◌, ◌<◌}
use rustyhdf.Outcome.Ensures.{Ensures}
use rustyhdf.Utils.Values.{IsWidth}
use rustyhdf.Superblock.{Superblock}

-- The addresses of a superblock fit its offset size, and the sizes are those of the format.
pub record IsValid (s : Superblock) : Type 0 where
  pub known : s.version < 4
  pub offset_width : IsWidth s.offset_size
  pub length_width : IsWidth s.length_size
  pub base : s.base_address < 256 ^ s.offset_size
  pub eof : s.eof_address < 256 ^ s.offset_size
  pub root : s.root_group_address < 256 ^ s.offset_size
  pub flags : s.consistency_flags < 2 ^ 32
