-- ===== src/LinkMessage/RoundTrip.antt =====
-- A link message that was written is read back.
use rustyhdf.Prelude.{ℕ, ◌+◌, ◌^◌, ◌<◌, ◌≡◌, refl, ap, ◌∙◌}
use rustyhdf.Prelude.{List, [], ◌∷◌, ◌++◌, length, Option, none, some, append_assoc}
use rustyhdf.Prelude.{true}
use rustyhdf.Outcome.{ok, usize_mod}
use rustyhdf.Bytes.{to_le}
use rustyhdf.Bytes.Laws.{length-to_le}
use rustyhdf.Bytes.Cursor.{Cursor, Cursor-step, Cursor-start}
use rustyhdf.Bytes.Cursor.{slice_at, index_at, from_le_bytes_at}
use rustyhdf.Utils.Values.{IsWidth, ensure_len_lem}
use rustyhdf.Utils.Values.{read_offset_at_any}
use rustyhdf.LocalHeap.Utf8.{is_utf8}
use rustyhdf.LocalHeap.Utf8.Lossy.{from_utf8_lossy_lem}
use rustyhdf.LinkMessage.{CharacterSet, ascii, utf8, LinkTarget, hard, soft, external, LinkMessage}
use rustyhdf.LinkMessage.{name_size_width, size_bits, order_bit, type_bit, charset_bit, type_bytes}
use rustyhdf.LinkMessage.{order_bytes, charset_bytes, target_bytes, serialize}
use rustyhdf.LinkMessage.{parse_type, parse_order, parse_charset}
use rustyhdf.LinkMessage.{parse}
use rustyhdf.LinkMessage.Flags.{
  has_order, has_type, has_charset, code_of, flags_lem, size_bits-IsSize,
}
use rustyhdf.LinkMessage.Targets.{IsTarget, parse_target_at}

abbrev pub IsOrder : Option ℕ → Type 0
IsOrder none = Unit {0}
IsOrder (some co) = co < 2 ^ 64

pub record IsLink (n : ℕ) (m : LinkMessage) : Type 0 where
  pub valid : is_utf8 m.name ≡ true
  pub short : length m.name < 2 ^ 32
  pub target : IsTarget n m.link_target
  pub order : IsOrder m.creation_order

module _ (d : List ℕ) (small : length d < usize_mod) where
  parse_type_at :
      (t : LinkTarget) (a : ℕ) (x : List ℕ)
      → Cursor d a (type_bytes t ++ x)
      → (b : ℕ) × (parse_type (has_type t) d a ≡ ok (code_of t, b)) × Cursor d b x
  unfolding parse_type type_bytes
  parse_type_at (hard p) a x c = (a, refl, c)
  parse_type_at (soft path) a x c =
      let next = Cursor-step d a (a + 1) (1 ∷ []) x c refl in
      (a + 1, rw (ensure_len_lem d a 1 next.inside small, index_at d a 1 x c) refl, next)
  parse_type_at (external file path) a x c =
      let next = Cursor-step d a (a + 1) (64 ∷ []) x c refl in
      (a + 1, rw (ensure_len_lem d a 1 next.inside small, index_at d a 64 x c) refl, next)

  parse_order_at :
      (o : Option ℕ) (a : ℕ) (x : List ℕ)
      → IsOrder o
      → Cursor d a (order_bytes o ++ x)
      → (b : ℕ) × (parse_order (has_order o) d a ≡ ok (o, b)) × Cursor d b x
  unfolding parse_order order_bytes
  parse_order_at none a x h c = (a, refl, c)
  parse_order_at (some co) a x h c =
      let next = Cursor-step d a (a + 8) (to_le 8 co) x c refl in
      (
        a + 8,
        rw (ensure_len_lem d a 8 next.inside small, from_le_bytes_at d 8 a co x c h) refl,
        next,
      )

  parse_charset_at :
      (s : CharacterSet) (a : ℕ) (x : List ℕ)
      → Cursor d a (charset_bytes s ++ x)
      → (b : ℕ) × (parse_charset (has_charset s) d a ≡ ok (s, b)) × Cursor d b x
  unfolding parse_charset charset_bytes
  parse_charset_at ascii a x c = (a, refl, c)
  parse_charset_at utf8 a x c =
      let next = Cursor-step d a (a + 1) (1 ∷ []) x c refl in
      (a + 1, rw (ensure_len_lem d a 1 next.inside small, index_at d a 1 x c) refl, next)

  parse_at :
      (m : LinkMessage) (n : ℕ) (t : List ℕ)
      → IsWidth n
      → IsLink n m
      → Cursor d 0 (serialize m n ++ t)
      → parse d n ≡ ok m
  unfolding parse serialize
  parse_at m n t w link c =
      let size : ℕ = name_size_width (length m.name) in
      let flags : ℕ =
        size_bits (length m.name)
        + order_bit m.creation_order
        + type_bit m.link_target
        + charset_bit m.charset in
      let (is_size, readable, fits) = size_bits-IsSize (length m.name) link.short in
      let (width, o, ty, cs) =
        flags_lem (size_bits (length m.name)) size m.creation_order m.link_target m.charset
          is_size in
      let start : Cursor d 0 (
          1
          ∷ flags
          ∷ (type_bytes m.link_target
              ++ (order_bytes m.creation_order
                  ++ (charset_bytes m.charset
                      ++ (to_le size (length m.name)
                          ++ (m.name ++ (target_bytes m.link_target n ++ t))))))) =
        record { rest = c.rest ∙ simp (append_assoc); inside = c.inside } in
      let at_flags = Cursor-step d 0 1 (1 ∷ []) _ start refl in
      let at_type = Cursor-step d 1 2 (flags ∷ []) _ at_flags refl in
      let (p, e, at_order) = parse_type_at m.link_target 2 _ at_type in
      let (q, e', at_charset) = parse_order_at m.creation_order p _ link.order at_order in
      let (r, e'', at_length) = parse_charset_at m.charset q _ at_charset in
      let at_name =
        Cursor-step d r (r + size) (to_le size (length m.name)) _ at_length
          (ap (λ k. r + k) (length-to_le size (length m.name))) in
      let at_target = Cursor-step d (r + size) (r + size + length m.name) m.name _ at_name refl in
      rw
        (
          ensure_len_lem d 0 2 at_type.inside small,
          index_at d 0 1 _ start,
          index_at d 1 flags _ at_flags,
          ty,
          e,
          o,
          e',
          cs,
          e'',
          width,
          read_offset_at_any d small size r (length m.name) _ readable fits at_length,
          ensure_len_lem d (r + size) (length m.name) at_target.inside small,
          slice_at d (r + size) (r + size + length m.name) m.name _ at_name refl,
          parse_target_at d small m.link_target n (r + size + length m.name) t w link.target
              at_target,
          from_utf8_lossy_lem m.name link.valid,
        )
        refl

-- `parse` reads back the link that `serialize` wrote, whatever bytes follow it in the message: hard,
-- soft and external links, with or without a creation order, in both character sets, and names of
-- all lengths below 2^32. Names and paths are UTF-8, the two paths of an external link have no null
-- and fit 16 bits together, a soft link's path has fewer than 2^16 bytes, an address fits the
-- file's width of 2, 4 or 8 bytes, a creation order fits 64 bits, and the message has fewer than
-- 2^64 bytes.
pub link_parse-serialize :
    (m : LinkMessage) (n : ℕ) (t : List ℕ)
    → IsWidth n
    → IsLink n m
    → length (serialize m n ++ t) < usize_mod
    → parse (serialize m n ++ t) n ≡ ok m
link_parse-serialize m n t w link small =
    parse_at (serialize m n ++ t) small m n t w link (Cursor-start (serialize m n ++ t))
