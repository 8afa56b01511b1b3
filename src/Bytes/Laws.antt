-- ===== src/Bytes/Laws.antt =====
-- The codecs are inverse to each other, and what they write are bytes.
use rustyhdf.Prelude.{ℕ, zero, suc, ◌+◌, ◌*◌, ◌/◌, ◌%◌, ◌^◌, ◌<◌, ◌≡◌, refl, ap, arith}
use rustyhdf.Prelude.{List, [], ◌∷◌, length, true}
use rustyhdf.Bytes.{IsBytes, le_value, to_le, bytes_eq}
use rustyhdf.Prelude.{◌==◌, ==_iff, ◌&&◌, true, false, inl, inr, Bool-cases}
use native.Mathlib.Nat.{pow-suc}

pub length-to_le : (n v : ℕ) → length (to_le n v) ≡ n
length-to_le zero v = refl
length-to_le (suc n) v = ap suc (length-to_le n (v / 256))

pub to_le-IsBytes : (n v : ℕ) → IsBytes (to_le n v)
to_le-IsBytes zero v = tt
to_le-IsBytes (suc n) v = (omega arith, to_le-IsBytes n (v / 256))

-- Reading back what was written gives the value, if it fits the width.
pub le_value-to_le : (n v : ℕ) → v < 256 ^ n → le_value (to_le n v) ≡ v
le_value-to_le zero v h = omega arith
le_value-to_le (suc n) v h =
    omega (arith, le_value-to_le n (v / 256) (omega (arith, pow-suc 256 n)))

pub le_value-lt : (bs : List ℕ) → IsBytes bs → le_value bs < 256 ^ length bs
le_value-lt [] h = omega arith
le_value-lt (b ∷ bs) h = omega (arith, h.0, le_value-lt bs h.1, pow-suc 256 (length bs))

-- Writing the value of some bytes gives the bytes.
pub to_le-le_value : (bs : List ℕ) → IsBytes bs → to_le (length bs) (le_value bs) ≡ bs
to_le-le_value [] h = refl
to_le-le_value (b ∷ bs) h =
    let low : (b + 256 * le_value bs) % 256 ≡ b = omega (arith, h.0) in
    let high : (b + 256 * le_value bs) / 256 ≡ le_value bs = omega (arith, h.0) in
    rw (low, high, to_le-le_value bs h.1)

pub bytes_eq_refl : (bs : List ℕ) → bytes_eq bs bs ≡ true
bytes_eq_refl [] = refl
bytes_eq_refl (b ∷ bs) = ground (arith, bytes_eq_refl bs)

pub bytes_eq-true : (xs ys : List ℕ) → bytes_eq xs ys ≡ true → xs ≡ ys
bytes_eq-true [] [] e = refl
bytes_eq-true [] (y ∷ ys) e = absurd (cc)
bytes_eq-true (x ∷ xs) [] e = absurd (cc)
bytes_eq-true (x ∷ xs) (y ∷ ys) e = elim (Bool-cases (x == y)) [
  | inl h ↦
      let tail : bytes_eq xs ys ≡ true = ground arith in
      let rest = bytes_eq-true xs ys tail in let first : x ≡ y = (==_iff x y).0 h in cc
  | inr h ↦ absurd (let no : (x == y && bytes_eq xs ys) ≡ false = ground arith in cc)
]
