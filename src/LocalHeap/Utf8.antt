-- ===== src/LocalHeap/Utf8.antt =====
-- `core::str::from_utf8`, as far as it tells valid text from other bytes.
pub mod Lossy
use rustyhdf.Prelude.{ℕ, List, [], ◌∷◌, leb, ltb, ◌==◌, Bool, true, ◌&&◌, ◌||◌}

-- `lo <= b <= hi`
abbrev between : ℕ → ℕ → ℕ → Bool
between lo hi b = leb lo b && leb b hi

abbrev is_continuation : ℕ → Bool
is_continuation = between 0x80 0xbf

-- The first continuation byte of three, after the leading byte: no overlong form, no surrogate.
abbrev second_of_three : ℕ → ℕ → Bool
second_of_three b c =
    (b == 0xe0 && between 0xa0 0xbf c)
    || (b == 0xed && between 0x80 0x9f c)
    || ((between 0xe1 0xec b || between 0xee 0xef b) && is_continuation c)

-- The same of four bytes: no overlong form, nothing above U+10FFFF.
abbrev second_of_four : ℕ → ℕ → Bool
second_of_four b c =
    (b == 0xf0 && between 0x90 0xbf c)
    || (between 0xf1 0xf3 b && is_continuation c)
    || (b == 0xf4 && between 0x80 0x8f c)

unfoldable pub is_utf8 : List ℕ → Bool
is_utf8 [] = true
is_utf8 (a ∷ []) = ltb a 0x80
is_utf8 (a ∷ b ∷ []) =
    (ltb a 0x80 && is_utf8 (b ∷ [])) || (between 0xc2 0xdf a && is_continuation b)
is_utf8 (a ∷ b ∷ c ∷ []) =
    (ltb a 0x80 && is_utf8 (b ∷ c ∷ []))
    || (between 0xc2 0xdf a && is_continuation b && is_utf8 (c ∷ []))
    || (second_of_three a b && is_continuation c)
is_utf8 (a ∷ b ∷ c ∷ e ∷ rest) =
    (ltb a 0x80 && is_utf8 (b ∷ c ∷ e ∷ rest))
    || (between 0xc2 0xdf a && is_continuation b && is_utf8 (c ∷ e ∷ rest))
    || (second_of_three a b && is_continuation c && is_utf8 (e ∷ rest))
    || (second_of_four a b && is_continuation c && is_continuation e && is_utf8 rest)
