-- ===== src/LinkMessage/Flags.antt =====
-- The flags of a link message.
use rustyhdf.Prelude.{ℕ, ◌+◌, ◌^◌, ◌<◌, ◌≡◌, refl, arith}
use rustyhdf.Prelude.{Option, none, some}
use rustyhdf.Prelude.{Bool, true, false, Bool-cases, inl, inr, leb}
use rustyhdf.Prelude.{if◌then◌else◌}
use rustyhdf.Utils.{bit_set}
use rustyhdf.Utils.Values.{two, four, IsReadable, one, wide}
use rustyhdf.LinkMessage.{CharacterSet, ascii, utf8, LinkTarget, hard, soft, external}
use rustyhdf.LinkMessage.{name_size_width, size_bits, order_bit, type_bit, charset_bit}
use rustyhdf.LinkMessage.{name_field_width}

-- The flags: the width of the name's length, and whether each optional part is there.
pub data IsSize : ℕ → ℕ → Type 0 where
  byte : {bits width : ℕ} → bits ≡ 0 → width ≡ 1 → IsSize bits width
  short : {bits width : ℕ} → bits ≡ 1 → width ≡ 2 → IsSize bits width
  long : {bits width : ℕ} → bits ≡ 2 → width ≡ 4 → IsSize bits width

abbrev pub has_order : Option ℕ → Bool
has_order none = false
has_order (some co) = true

abbrev pub has_type : LinkTarget → Bool
has_type (hard a) = false
has_type (soft path) = true
has_type (external file path) = true

abbrev pub has_charset : CharacterSet → Bool
has_charset ascii = false
has_charset utf8 = true

abbrev pub code_of : LinkTarget → ℕ
code_of (hard a) = 0
code_of (soft path) = 1
code_of (external file path) = 64

abbrev IsFlags : ℕ → ℕ → Bool → Bool → Bool → Type 0
IsFlags flags width o t c =
    (name_field_width flags ≡ width)
    × (bit_set flags 0x04 ≡ o)
    × (bit_set flags 0x08 ≡ t)
    × (bit_set flags 0x10 ≡ c)

abbrev flag_sum : ℕ → Bool → Bool → Bool → ℕ
flag_sum bits o t c =
    bits + (if o then 0x04 else 0) + (if t then 0x08 else 0) + (if c then 0x10 else 0)

-- The three bits, for each width.
IsFlags-byte : (o t c : Bool) → IsFlags (flag_sum 0 o t c) 1 o t c
unfolding name_field_width bit_set
IsFlags-byte false false false = (refl, refl, refl, refl)
IsFlags-byte false false true = (refl, refl, refl, refl)
IsFlags-byte false true false = (refl, refl, refl, refl)
IsFlags-byte false true true = (refl, refl, refl, refl)
IsFlags-byte true false false = (refl, refl, refl, refl)
IsFlags-byte true false true = (refl, refl, refl, refl)
IsFlags-byte true true false = (refl, refl, refl, refl)
IsFlags-byte true true true = (refl, refl, refl, refl)

IsFlags-short : (o t c : Bool) → IsFlags (flag_sum 1 o t c) 2 o t c
unfolding name_field_width bit_set
IsFlags-short false false false = (refl, refl, refl, refl)
IsFlags-short false false true = (refl, refl, refl, refl)
IsFlags-short false true false = (refl, refl, refl, refl)
IsFlags-short false true true = (refl, refl, refl, refl)
IsFlags-short true false false = (refl, refl, refl, refl)
IsFlags-short true false true = (refl, refl, refl, refl)
IsFlags-short true true false = (refl, refl, refl, refl)
IsFlags-short true true true = (refl, refl, refl, refl)

IsFlags-long : (o t c : Bool) → IsFlags (flag_sum 2 o t c) 4 o t c
unfolding name_field_width bit_set
IsFlags-long false false false = (refl, refl, refl, refl)
IsFlags-long false false true = (refl, refl, refl, refl)
IsFlags-long false true false = (refl, refl, refl, refl)
IsFlags-long false true true = (refl, refl, refl, refl)
IsFlags-long true false false = (refl, refl, refl, refl)
IsFlags-long true false true = (refl, refl, refl, refl)
IsFlags-long true true false = (refl, refl, refl, refl)
IsFlags-long true true true = (refl, refl, refl, refl)

order_bit_lem : (o : Option ℕ) → order_bit o ≡ (if has_order o then 0x04 else 0)
unfolding order_bit
order_bit_lem none = refl
order_bit_lem (some co) = refl

type_bit_lem : (t : LinkTarget) → type_bit t ≡ (if has_type t then 0x08 else 0)
unfolding type_bit
type_bit_lem (hard a) = refl
type_bit_lem (soft path) = refl
type_bit_lem (external file path) = refl

charset_bit_lem : (c : CharacterSet) → charset_bit c ≡ (if has_charset c then 0x10 else 0)
unfolding charset_bit
charset_bit_lem ascii = refl
charset_bit_lem utf8 = refl

pub flags_lem :
    (bits width : ℕ) (o : Option ℕ) (t : LinkTarget) (c : CharacterSet)
    → IsSize bits width
    → IsFlags
        (bits + order_bit o + type_bit t + charset_bit c)
        width
        (has_order o)
        (has_type t)
        (has_charset c)
flags_lem bits width o t c (byte e e') =
    rw (e, e', order_bit_lem o, type_bit_lem t, charset_bit_lem c)
      (IsFlags-byte (has_order o) (has_type t) (has_charset c))
flags_lem bits width o t c (short e e') =
    rw (e, e', order_bit_lem o, type_bit_lem t, charset_bit_lem c)
      (IsFlags-short (has_order o) (has_type t) (has_charset c))
flags_lem bits width o t c (long e e') =
    rw (e, e', order_bit_lem o, type_bit_lem t, charset_bit_lem c)
      (IsFlags-long (has_order o) (has_type t) (has_charset c))

-- The width of a name's length, which fits it.
pub size_bits-IsSize :
    (n : ℕ)
    → n < 2 ^ 32
    → IsSize (size_bits n) (name_size_width n)
      × IsReadable (name_size_width n)
      × (n < 256 ^ name_size_width n)
unfolding size_bits name_size_width
size_bits-IsSize n h = elim (Bool-cases (leb n 0xff)) [
  | inl e ↦ rw e (byte refl refl, one refl, ground arith)
  | inr e ↦ elim (Bool-cases (leb n 0xffff)) [
    | inl e' ↦ rw (e, e') (short refl refl, wide (two refl), ground arith)
    | inr e' ↦ rw (e, e') (long refl refl, wide (four refl), ground arith)
  ]
]
