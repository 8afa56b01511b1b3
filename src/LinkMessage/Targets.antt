-- ===== src/LinkMessage/Targets.antt =====
-- What a link points to is read back.
use rustyhdf.Prelude.{ℕ, ◌+◌, ◌^◌, ◌<◌, ◌≡◌, refl, arith}
use rustyhdf.Prelude.{List, [], ◌∷◌, ◌++◌, length, All}
use rustyhdf.Prelude.{length-append, true, false, ◌==◌}
use rustyhdf.Prelude.{lt→ltb}
use mathlib.Core.Path.{subst}
use rustyhdf.Outcome.{ok, usize_mod}
use rustyhdf.Bytes.{to_le}
use rustyhdf.Bytes.Cursor.{Cursor, Cursor-step, Cursor-start, Cursor-room}
use rustyhdf.Bytes.Cursor.{slice_at, slice_from_at, from_le_bytes_at}
use rustyhdf.Utils.Values.{IsWidth, two, four, eight, ensure_len_lem}
use rustyhdf.Utils.Values.{read_offset_at}
use rustyhdf.LocalHeap.Utf8.{is_utf8}
use rustyhdf.LocalHeap.Utf8.Lossy.{from_utf8_lossy_lem}
use rustyhdf.LinkMessage.{LinkTarget, hard, soft, external}
use rustyhdf.LinkMessage.{write_address, target_bytes}
use rustyhdf.LinkMessage.{null_at}
use rustyhdf.LinkMessage.{parse_external, parse_target}
use rustyhdf.LinkMessage.Flags.{code_of}

-- UTF-8 without a null.
pub record IsPath (n : List ℕ) : Type 0 where
  pub nonzero : All (λ b. 0 < b) n
  pub valid : is_utf8 n ≡ true

-- What a link points to can be stored: an address of the file's width, a UTF-8 path of fewer than
-- 2^16 bytes, or two paths that fit so many together.
abbrev pub IsTarget : ℕ → LinkTarget → Type 0
IsTarget n (hard a) = a < 256 ^ n
IsTarget n (soft path) = (is_utf8 path ≡ true) × (length path < 2 ^ 16)
IsTarget n (external file path) =
    IsPath file × IsPath path × (length file + length path + 3 < 2 ^ 16)

null_at-append : (n t : List ℕ) → All (λ b. 0 < b) n → null_at (n ++ (0 ∷ t)) ≡ length n
unfolding null_at
null_at-append [] t h = refl
null_at-append (b ∷ n) t h =
    let e : (b == 0) ≡ false = (let p : 0 < b = h.0 in ground arith) in
    rw (e, null_at-append n t h.1) refl

write_address-to_le : (a n : ℕ) → IsWidth n → write_address a n ≡ to_le n a
unfolding write_address
write_address-to_le a n (two e) = rw e refl
write_address-to_le a n (four e) = rw e refl
write_address-to_le a n (eight e) = rw e refl

-- The two paths of an external link.
parse_external_lem :
    (file path : List ℕ)
    → IsPath file
    → IsPath path
    → parse_external (0 ∷ (file ++ (0 ∷ (path ++ (0 ∷ []))))) ≡ ok (external file path)
unfolding parse_external
parse_external_lem file path f p =
    let rest2 : List ℕ = path ++ (0 ∷ []) in
    let rest : List ℕ = file ++ (0 ∷ rest2) in
    let d : List ℕ = 0 ∷ rest in
    let at_rest : Cursor d 1 rest = Cursor-step d 0 1 (0 ∷ []) rest (Cursor-start d) refl in
    let at_rest2 : Cursor rest (length file + 1) rest2 =
      Cursor-step rest (length file) (length file + 1) (0 ∷ []) rest2
        (Cursor-step rest 0 (length file) file (0 ∷ rest2) (Cursor-start rest) (omega arith))
        refl in
    let inside : length file + 1 < length rest =
      omega (arith, length-append file (0 ∷ rest2), length-append path (0 ∷ [])) in
    let some_byte : (length d == 0) ≡ false = ground arith in
    rw
      (
        some_byte,
        slice_from_at d 1 rest at_rest,
        null_at-append file rest2 f.nonzero,
        slice_at rest 0 (length file) file (0 ∷ rest2) (Cursor-start rest) (omega arith),
        lt→ltb (length file + 1) (length rest) inside,
        slice_from_at rest (length file + 1) rest2 at_rest2,
        null_at-append path [] p.nonzero,
        slice_at rest2 0 (length path) path (0 ∷ []) (Cursor-start rest2) (omega arith),
        from_utf8_lossy_lem file f.valid,
        from_utf8_lossy_lem path p.valid,
      )
      refl

module _ (d : List ℕ) (small : length d < usize_mod) where
  pub parse_target_at :
      (t : LinkTarget) (n a : ℕ) (x : List ℕ)
      → IsWidth n
      → IsTarget n t
      → Cursor d a (target_bytes t n ++ x)
      → parse_target (code_of t) d a n ≡ ok t
  unfolding parse_target target_bytes
  parse_target_at (hard p) n a x w h c =
      let here : Cursor d a (to_le n p ++ x) =
        subst (λ b. Cursor d a (b ++ x)) (write_address-to_le p n w) c in
      rw (read_offset_at d small n a p x w h here) refl
  parse_target_at (soft path) n a x w h c =
      let at_path = Cursor-step d a (a + 2) (to_le 2 (length path)) (path ++ x) c refl in
      let room = Cursor-room d (a + 2) (length path) path x at_path refl in
      rw
        (
          ensure_len_lem d a 2 at_path.inside small,
          from_le_bytes_at d 2 a (length path) (path ++ x) c h.1,
          ensure_len_lem d (a + 2) (length path) room small,
          slice_at d (a + 2) (a + 2 + length path) path x at_path refl,
          from_utf8_lossy_lem path h.0,
        )
        refl
  parse_target_at (external file path) n a x w (f, p, fit) c =
      let ext : List ℕ = 0 ∷ (file ++ (0 ∷ (path ++ (0 ∷ [])))) in
      let size : length ext ≡ length file + length path + 3 =
        omega (arith, length-append file (0 ∷ (path ++ (0 ∷ []))), length-append path (0 ∷ [])) in
      let at_ext = Cursor-step d a (a + 2) (to_le 2 (length ext)) (ext ++ x) c refl in
      let room = Cursor-room d (a + 2) (length ext) ext x at_ext refl in
      rw
        (
          ensure_len_lem d a 2 at_ext.inside small,
          from_le_bytes_at d 2 a (length ext) (ext ++ x) c (omega (arith, size, fit)),
          ensure_len_lem d (a + 2) (length ext) room small,
          slice_at d (a + 2) (a + 2 + length ext) ext x at_ext refl,
        )
        (parse_external_lem file path f p)
