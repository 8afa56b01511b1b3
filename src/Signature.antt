-- ===== src/Signature.antt =====
-- crates/rustyhdf5-format/src/signature.rs: the magic bytes of a file, and the search for them.
pub mod Search
mod Tests
use rustyhdf.Prelude.{ℕ, zero, suc, ◌+◌, ◌*◌, List, [], ◌∷◌, length, leb, Bool, true, false, ◌&&◌}
use rustyhdf.Prelude.{if◌then◌else◌}
use rustyhdf.Outcome.{Outcome, ok, err, stuck, ◌>>=◌, signature_not_found}
use rustyhdf.Bytes.{slice, bytes_eq}

-- `HDF5_SIGNATURE`
abbrev pub hdf5_signature : List ℕ
hdf5_signature = 0x89 ∷ b'H' ∷ b'D' ∷ b'F' ∷ 0x0d ∷ 0x0a ∷ 0x1a ∷ 0x0a ∷ []

-- `while offset + 8 <= data.len()`, with fuel.
unfoldable pub find_from : ℕ → List ℕ → ℕ → Outcome ℕ
find_from zero d offset = stuck
find_from (suc fuel) d offset =
    let next = find_from fuel d (offset * 2) in
    if leb (offset + 8) (length d)
    then (do t ← slice d offset (offset + 8); if bytes_eq t hdf5_signature then ok offset else next)
    else err signature_not_found

-- The offset grows by 512 at least in each round, so `length d` rounds are more than enough.
unfoldable pub find_signature : List ℕ → Outcome ℕ
unfolding find_from
find_signature d =
    let search = find_from (suc (length d)) d 512 in
    if leb 8 (length d)
    then (do t ← slice d 0 8; if bytes_eq t hdf5_signature then ok 0 else search)
    else search
