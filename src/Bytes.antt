-- ===== src/Bytes.antt =====
-- Byte slices (`&[u8]`, `Vec<u8>`) as lists of numbers, indexing and slicing with Rust's bounds
-- checks, and the little-endian codecs of the integer types.
pub mod Laws
pub mod Reads
pub mod Cursor
use rustyhdf.Prelude.{ℕ, zero, suc, ◌+◌, ◌-◌, ◌*◌, ◌/◌, ◌%◌, ◌^◌, ◌≤◌, ◌<◌, ◌≡◌, Bool, true, false}
use rustyhdf.Prelude.{List, [], ◌∷◌, length, take, drop, get_elem?, All, some, none, leb, ◌&&◌}
use rustyhdf.Prelude.{◌==◌, if◌then◌else◌}
use rustyhdf.Outcome.{Outcome, ok, panic, ◌>>=◌}

abbrev pub IsByte : ℕ → Type 0
IsByte b = b < 256

abbrev pub IsBytes : List ℕ → Type 0
IsBytes = All IsByte

-- Rust's guarantee for every slice: its elements are bytes, and its size is at most `isize::MAX`.
pub record IsSlice (d : List ℕ) : Type 0 where
  pub bytes : IsBytes d
  pub sized : length d < 2 ^ 63

-- `d[i]`
unfoldable pub index : List ℕ → ℕ → Outcome ℕ
index d i = elim (get_elem? d i) [ some b ↦ ok b | none ↦ panic ]

-- `&d[a..b]`
unfoldable pub slice : List ℕ → ℕ → ℕ → Outcome (List ℕ)
slice d a b = if leb a b && leb b (length d) then ok (take (b - a) (drop a d)) else panic

-- `&d[a..]`
unfoldable pub slice_from : List ℕ → ℕ → Outcome (List ℕ)
slice_from d a = if leb a (length d) then ok (drop a d) else panic

-- The number that the bytes stand for, lowest first.
abbrev pub le_value : List ℕ → ℕ
le_value [] = 0
le_value (b ∷ bs) = b + 256 * le_value bs

-- `v.to_le_bytes()` at `n` bytes; higher bytes of `v` are cut off, as by `v as u16`.
abbrev pub to_le : ℕ → ℕ → List ℕ
to_le zero v = []
to_le (suc n) v = (v % 256) ∷ to_le n (v / 256)

-- `uN::from_le_bytes([d[p], d[p + 1], …])` over `n` bytes
unfoldable pub from_le_bytes : ℕ → List ℕ → ℕ → Outcome ℕ
from_le_bytes n d p = do bs ← slice d p (p + n); ok (le_value bs)

-- `==` on slices
abbrev pub bytes_eq : List ℕ → List ℕ → Bool
bytes_eq [] [] = true
bytes_eq [] (y ∷ ys) = false
bytes_eq (x ∷ xs) [] = false
bytes_eq (x ∷ xs) (y ∷ ys) = x == y && bytes_eq xs ys
