-- ===== src/FilterPipeline/Names.antt =====
-- The names of filters and their padding.
use rustyhdf.Prelude.{ℕ, zero, suc, ◌+◌, ◌-◌, ◌*◌, ◌/◌, ◌^◌, ◌<◌, ◌≤◌, ◌≡◌, refl, ap, arith}
use rustyhdf.Prelude.{List, [], ◌∷◌, ◌++◌, length, All, Option, none, some}
use rustyhdf.Prelude.{length-append, true, false}
use rustyhdf.Prelude.{◌==◌, lt→ltb}
use rustyhdf.Outcome.{ok, usize_mod, add_usize}
use rustyhdf.Utils.{pad8}
use rustyhdf.LocalHeap.Utf8.{is_utf8}
use rustyhdf.FilterPipeline.{FilterDescription, until_null, name_text}
use rustyhdf.FilterPipeline.{zeros}
use rustyhdf.FilterPipeline.{name_bytes_v1, pad_name}

-- A name is UTF-8 without a null, and its length with the null fits 16 bits.
pub record IsText (n : List ℕ) : Type 0 where
  pub nonzero : All (λ b. 0 < b) n
  pub valid : is_utf8 n ≡ true
  pub short : length n + 1 < 2 ^ 16

abbrev pub IsName : Option (List ℕ) → Type 0
IsName none = Unit {0}
IsName (some n) = IsText n

until_null-append : (n t : List ℕ) → All (λ b. 0 < b) n → until_null (n ++ (0 ∷ t)) ≡ n
unfolding until_null
until_null-append [] t h = refl
until_null-append (b ∷ n) t h =
    let e : (b == 0) ≡ false = (let p : 0 < b = h.0 in ground arith) in
    rw (e, until_null-append n t h.1)

pub name_text_lem : (n : List ℕ) → IsText n → name_text (n ++ (0 ∷ [])) ≡ n
unfolding name_text
name_text_lem n h = rw (until_null-append n [] h.nonzero, h.valid)

pub pad8_lem : (x : ℕ) → x + 7 < usize_mod → pad8 x ≡ ok ((x + 7) / 8 * 8)
unfolding pad8 add_usize
pad8_lem x h = rw (lt→ltb (x + 7) usize_mod h)

length-zeros : (n : ℕ) → length (zeros n) ≡ n
length-zeros zero = refl
length-zeros (suc n) = ap suc (length-zeros n)

pub length-pad_name : (bs : List ℕ) → length (pad_name bs) ≡ (length bs + 7) / 8 * 8
unfolding pad_name
length-pad_name bs = omega (
  arith,
  length-append bs (zeros ((length bs + 7) / 8 * 8 - length bs)),
  length-zeros ((length bs + 7) / 8 * 8 - length bs),
)

-- The name that version 2 stores: a filter below 256 has none, every other has one.
pub data IsNamed : ℕ → Option (List ℕ) → Type 0 where
  known : {id : ℕ} → id < 256 → IsNamed id none
  custom : {id : ℕ} {n : List ℕ} → 256 ≤ id → IsText n → IsNamed id (some n)

abbrev pub filter_of : ℕ → ℕ → Option (List ℕ) → List ℕ → FilterDescription
filter_of id flags o vals = record { filter_id = id; name = o; flags = flags; client_data = vals }

pub name-short : (o : Option (List ℕ)) → IsName o → length (name_bytes_v1 o) < 2 ^ 16
unfolding name_bytes_v1
name-short none h = omega arith
name-short (some n) h = omega (arith, h.short, length-append n (0 ∷ []))
