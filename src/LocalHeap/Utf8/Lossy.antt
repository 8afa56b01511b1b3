-- ===== src/LocalHeap/Utf8/Lossy.antt =====
-- `String::from_utf8_lossy`: each maximal piece of an invalid sequence becomes U+FFFD, and valid
-- text is kept.
use rustyhdf.Prelude.{ℕ, zero, suc, ◌<◌, ◌≤◌, ◌≡◌, refl, arith, Bool, true, false}
use rustyhdf.Prelude.{List, [], ◌∷◌, ◌++◌, length, take, drop, take-append-drop, length-drop}
use rustyhdf.Prelude.{ltb, ltb→lt, ◌==◌, ◌&&◌, ◌||◌, if◌then◌else◌}
use rustyhdf.LocalHeap.Utf8.{is_utf8, between, is_continuation, second_of_three, second_of_four}

-- A byte behind the first, or 0 at the end.
abbrev nth : List ℕ → ℕ → ℕ
nth [] i = 0
nth (b ∷ bs) zero = b
nth (b ∷ bs) (suc i) = nth bs i

-- The length of the character at the front, or 0 when there is none.
unfoldable pub char_len : ℕ → List ℕ → ℕ
char_len a t =
    if ltb a 0x80
    then 1
    else if between 0xc2 0xdf a && is_continuation (nth t 0)
    then 2
    else if second_of_three a (nth t 0) && is_continuation (nth t 1)
    then 3
    else if second_of_four a (nth t 0) && is_continuation (nth t 1) && is_continuation (nth t 2)
    then 4
    else 0

-- The length of the piece that is replaced.
unfoldable pub bad_len : ℕ → List ℕ → ℕ
bad_len a t =
    if second_of_three a (nth t 0)
    then 2
    else if second_of_four a (nth t 0)
    then (if is_continuation (nth t 1) then 3 else 2)
    else 1

-- U+FFFD
abbrev pub replacement : List ℕ
replacement = 0xef ∷ 0xbf ∷ 0xbd ∷ []

-- Each round takes a byte at least, so the length is fuel enough.
unfoldable pub lossy_from : ℕ → List ℕ → List ℕ
lossy_from zero d = []
lossy_from (suc fuel) [] = []
lossy_from (suc fuel) (a ∷ t) =
    let kept = lossy_from fuel (drop (char_len a t) (a ∷ t)) in
    let replaced = lossy_from fuel (drop (bad_len a t) (a ∷ t)) in
    if char_len a t == 0 then replacement ++ replaced else take (char_len a t) (a ∷ t) ++ kept

unfoldable pub from_utf8_lossy : List ℕ → List ℕ
from_utf8_lossy d = lossy_from (length d) d

-- Which of the four tests holds.
abbrev pick : Bool → Bool → Bool → Bool → ℕ
pick p q r s = if p then 1 else if q then 2 else if r then 3 else if s then 4 else 0

-- When at most one test holds, and one does together with its rest, the length is that one's.
pick_valid :
    (p q r s : Bool) (rest : ℕ → Bool)
    → (p && q || p && r || p && s || q && r || q && s || r && s) ≡ false
    → (p && rest 1 || q && rest 2 || r && rest 3 || s && rest 4) ≡ true
    → (0 < pick p q r s) × (rest (pick p q r s) ≡ true)
pick_valid true q r s rest one h = (omega arith, ground (arith, one, h))
pick_valid false true r s rest one h = (omega arith, ground (arith, one, h))
pick_valid false false true s rest one h = (omega arith, ground (arith, one, h))
pick_valid false false false true rest one h = (omega arith, ground (arith, one, h))
pick_valid false false false false rest one h = absurd (cc)

module _ (a b c e : ℕ) where
  abbrev one_byte : Bool
  one_byte = ltb a 0x80

  abbrev two_bytes : Bool
  two_bytes = between 0xc2 0xdf a && is_continuation b

  abbrev three_bytes : Bool
  three_bytes = second_of_three a b && is_continuation c

  abbrev four_bytes : Bool
  four_bytes = second_of_four a b && is_continuation c && is_continuation e

  two_lead : two_bytes ≡ true → (0xc2 ≤ a) × (a ≤ 0xdf)
  two_lead h = ground (arith, h)

  three_lead : three_bytes ≡ true → (0xe0 ≤ a) × (a ≤ 0xef)
  three_lead h = ground (arith, h)

  four_lead : four_bytes ≡ true → (0xf0 ≤ a) × (a ≤ 0xf4)
  four_lead h = ground (arith, h)

  -- The four kinds of character begin with different bytes.
  exclusive :
      (p q r s : Bool)
      → (p ≡ true → a < 0x80)
      → (q ≡ true → (0xc2 ≤ a) × (a ≤ 0xdf))
      → (r ≡ true → (0xe0 ≤ a) × (a ≤ 0xef))
      → (s ≡ true → (0xf0 ≤ a) × (a ≤ 0xf4))
      → (p && q || p && r || p && s || q && r || q && s || r && s) ≡ false
  exclusive true true r s hp hq hr hs = absurd (omega (arith, hp refl, hq refl))
  exclusive true false true s hp hq hr hs = absurd (omega (arith, hp refl, hr refl))
  exclusive true false false true hp hq hr hs = absurd (omega (arith, hp refl, hs refl))
  exclusive true false false false hp hq hr hs = refl
  exclusive false true true s hp hq hr hs = absurd (omega (arith, hq refl, hr refl))
  exclusive false true false true hp hq hr hs = absurd (omega (arith, hq refl, hs refl))
  exclusive false true false false hp hq hr hs = refl
  exclusive false false true true hp hq hr hs = absurd (omega (arith, hr refl, hs refl))
  exclusive false false true false hp hq hr hs = refl
  exclusive false false false s hp hq hr hs = refl

  pick_of :
      (rest : ℕ → Bool)
      → (one_byte && rest 1 || two_bytes && rest 2 || three_bytes && rest 3 || four_bytes && rest 4)
        ≡ true
      → (0 < pick one_byte two_bytes three_bytes four_bytes)
        × (rest (pick one_byte two_bytes three_bytes four_bytes) ≡ true)
  pick_of rest h =
      pick_valid one_byte two_bytes three_bytes four_bytes rest
        (exclusive one_byte two_bytes three_bytes four_bytes (ltb→lt a 0x80) two_lead three_lead
          four_lead)
        h

or_false : (p : Bool) → (p || false) ≡ p
or_false true = refl
or_false false = refl

and_false : (p : Bool) → (p && false) ≡ false
and_false true = refl
and_false false = refl

and_true : (p : Bool) → (p && true) ≡ p
and_true true = refl
and_true false = refl

-- Valid text begins with a character, and goes on with valid text.
char_len-is_utf8 :
    (a : ℕ) (t : List ℕ)
    → is_utf8 (a ∷ t) ≡ true
    → (0 < char_len a t) × (is_utf8 (drop (char_len a t) (a ∷ t)) ≡ true)
unfolding char_len is_utf8
char_len-is_utf8 a [] h = rw h (omega arith, refl)
char_len-is_utf8 a (b ∷ []) h =
    pick_of a b 0 0 (λ k. is_utf8 (drop k (a ∷ b ∷ []))) (simp (and_false, and_true, or_false) h)
char_len-is_utf8 a (b ∷ c ∷ []) h =
    pick_of a b c 0 (λ k. is_utf8 (drop k (a ∷ b ∷ c ∷ [])))
      (simp (and_false, and_true, or_false) h)
char_len-is_utf8 a (b ∷ c ∷ e ∷ rest) h =
    pick_of a b c e (λ k. is_utf8 (drop k (a ∷ b ∷ c ∷ e ∷ rest))) h

lossy_from-is_utf8 :
    (fuel : ℕ) (d : List ℕ) → length d ≤ fuel → is_utf8 d ≡ true → lossy_from fuel d ≡ d
unfolding lossy_from
lossy_from-is_utf8 zero [] h v = refl
lossy_from-is_utf8 zero (a ∷ t) h v = absurd (omega arith)
lossy_from-is_utf8 (suc fuel) [] h v = refl
lossy_from-is_utf8 (suc fuel) (a ∷ t) h v =
    let (some_byte, rest) = char_len-is_utf8 a t v in
    let nonzero : (char_len a t == 0) ≡ false = ground arith in
    let shorter : length (drop (char_len a t) (a ∷ t)) ≤ fuel =
      omega (arith, length-drop (char_len a t) (a ∷ t)) in
    rw (nonzero, lossy_from-is_utf8 fuel (drop (char_len a t) (a ∷ t)) shorter rest)
      (take-append-drop (char_len a t) (a ∷ t))

-- Valid text is kept.
pub from_utf8_lossy_lem : (d : List ℕ) → is_utf8 d ≡ true → from_utf8_lossy d ≡ d
unfolding from_utf8_lossy
from_utf8_lossy_lem d v = lossy_from-is_utf8 (length d) d (omega arith) v
