-- ===== src/ChunkWrite/Fields.antt =====
-- The dimensions and the index of a chunked layout are read back.
use rustyhdf.Prelude.{ℕ, ◌+◌, ◌*◌, ◌%◌, ◌^◌, ◌<◌, ◌≤◌, ◌≡◌, refl, ap, ◌∙◌, arith}
use rustyhdf.Prelude.{List, [], ◌∷◌, ◌++◌, length, All, some, append_assoc}
use rustyhdf.Prelude.{true, false, Bool-cases, inl, inr}
use rustyhdf.Prelude.{lt→ltb, not_ltb}
use mathlib.Core.Path.{subst}
use native.Mathlib.Nat.{mod-eq_of_lt}
use rustyhdf.Outcome.{ok, usize_mod, add_usize}
use rustyhdf.Bytes.{to_le, le_value}
use rustyhdf.Bytes.Laws.{length-to_le, le_value-to_le}
use rustyhdf.Bytes.Cursor.{Cursor, Cursor-step, Cursor-room}
use rustyhdf.Bytes.Cursor.{slice_at, index_at, from_le_bytes_at}
use rustyhdf.Utils.{all_ff, is_undefined_bytes, bit_set}
use rustyhdf.Utils.Values.{IsWidth, eight, ensure_len_lem, read_offset_at}
use rustyhdf.DataLayout.{read_length, read_address, read_dim, read_dims}
use rustyhdf.DataLayout.{parse_btree_address, just_address, single_filtered}
use rustyhdf.DataLayout.{parse_index}
use rustyhdf.ChunkWrite.{write_dim, write_dims}
use rustyhdf.ChunkWrite.{write_address, single_fields}
use rustyhdf.ChunkWrite.Dimensions.{
  IsLen, one_byte, two_bytes, four_bytes, length-write_dim, one_byte, two_bytes, four_bytes,
}
use rustyhdf.ChunkWrite.Layouts.{
  Index, filtered, fixed, IsFitting, flags_of, kind_of, tail, fields_of, IsAddressWidth, wide,
  unfiltered, extensible, filtered, fixed,
}

-- Only the largest number of a width is all 0xFF.
all_ff-value : (bs : List ℕ) → all_ff bs ≡ true → le_value bs + 1 ≡ 256 ^ length bs
unfolding all_ff
all_ff-value [] h = refl
all_ff-value (b ∷ bs) h =
    let first : b ≡ 0xff = ground (arith, h) in
    let rest : all_ff bs ≡ true = ground (arith, h) in let ih = all_ff-value bs rest in grind arith

module _ (d : List ℕ) (small : length d < usize_mod) where
  read_dim_at :
      (len a v : ℕ) (t : List ℕ)
      → IsLen len
      → v < 256 ^ len
      → Cursor d a (write_dim len v ++ t)
      → read_dim d a len ≡ ok v
  unfolding read_dim write_dim
  read_dim_at len a v t (one_byte e) h c =
      let h' : v < 256 ^ 1 = subst (λ k. v < 256 ^ k) e h in
      rw e (index_at d a (v % 256) t (rw e at c) ∙ ap ok (mod-eq_of_lt (omega arith)))
  read_dim_at len a v t (two_bytes e) h c =
      rw e (from_le_bytes_at d 2 a v t (rw e at c) (subst (λ k. v < 256 ^ k) e h))
  read_dim_at len a v t (four_bytes e) h c =
      rw e (from_le_bytes_at d 4 a v t (rw e at c) (subst (λ k. v < 256 ^ k) e h))

  pub read_dims_at :
      (vs : List ℕ) (len a : ℕ) (t : List ℕ)
      → IsLen len
      → All (λ v. v < 256 ^ len) vs
      → Cursor d a (write_dims len vs ++ t)
      → (b : ℕ) × (read_dims (length vs) d a len ≡ ok (vs, b))
        × Cursor d b t
        × (b ≡ a + length vs * len)
  unfolding read_dims write_dims
  read_dims_at [] len a t w h c = (a, refl, c, omega arith)
  read_dims_at (v ∷ vs) len a t w h c =
      let here : Cursor d a (write_dim len v ++ (write_dims len vs ++ t)) = record {
        rest = c.rest ∙ append_assoc (write_dim len v) (write_dims len vs) t;
        inside = c.inside;
      } in
      let (b, e, there, size) = read_dims_at vs len (a + len) t w h.1 (
        Cursor-step d a (a + len) (write_dim len v) _ here
          (ap (λ n. a + n) (length-write_dim len v w))) in
      (b, rw (read_dim_at len a v _ w h.0 here, e), there, grind arith)

  -- An address that was written is not the undefined one.
  pub is_undefined_bytes_at :
      (os a p : ℕ) (t : List ℕ)
      → a + 1 < 256 ^ os
      → Cursor d p (to_le os a ++ t)
      → is_undefined_bytes d p os ≡ ok false
  unfolding is_undefined_bytes add_usize
  is_undefined_bytes_at os a p t h c =
      let room : p + os ≤ length d = Cursor-room d p os (to_le os a) t c (length-to_le os a) in
      let defined : all_ff (to_le os a) ≡ false = elim (Bool-cases (all_ff (to_le os a))) [
        | inr e ↦ e
        | inl e ↦
            let v = all_ff-value (to_le os a) e in
            let value : le_value (to_le os a) ≡ a = le_value-to_le os a (omega arith) in
            let size : 256 ^ length (to_le os a) ≡ 256 ^ os =
              ap (λ n. 256 ^ n) (length-to_le os a) in
            absurd (omega arith)
      ] in
      rw
        (
          lt→ltb (p + os) usize_mod (omega arith),
          not_ltb (length d) (p + os) room,
          slice_at d p (p + os) (to_le os a) t c (ap (λ n. p + n) (length-to_le os a)),
          defined,
        )
        refl

  read_address_at :
      (os a p : ℕ) (t : List ℕ)
      → IsWidth os
      → a + 1 < 256 ^ os
      → Cursor d p (to_le os a ++ t)
      → read_address d p os ≡ ok (some a)
  unfolding read_address
  read_address_at os a p t w h c =
      rw (is_undefined_bytes_at os a p t h c, read_offset_at d small os p a t w (omega arith) c)
        refl

  parse_btree_address_at :
      (os a p skip : ℕ) (x t : List ℕ)
      → IsWidth os
      → a + 1 < 256 ^ os
      → length x ≡ skip
      → Cursor d p (x ++ (to_le os a ++ t))
      → (b : ℕ) × (parse_btree_address d p os skip ≡ ok (some a, b))
  unfolding parse_btree_address
  parse_btree_address_at os a p skip x t w h size c =
      let at_address = Cursor-step d p (p + skip) x _ c (ap (λ n. p + n) size) in
      let room = Cursor-room d (p + skip) os (to_le os a) t at_address (length-to_le os a) in
      (
        p + skip + os,
        rw
            (
              ensure_len_lem d p (skip + os) (omega (arith, room)) small,
              read_address_at os a (p + skip) t w h at_address,
            )
            refl,
      )

  write_address-to_le : (os a : ℕ) → IsAddressWidth os → write_address os a ≡ to_le os a
  unfolding write_address
  write_address-to_le os a (inl e) = rw e refl
  write_address-to_le os a (inr e) = rw e refl

  pub parse_index_at :
      (i : Index) (os a p : ℕ) (t : List ℕ)
      → IsAddressWidth os
      → a + 1 < 256 ^ os
      → IsFitting i
      → Cursor d p (tail i os a ++ t)
      → parse_index d p (flags_of i) (kind_of i) os 8 ≡ ok (fields_of i a)
  unfolding parse_index bit_set just_address single_filtered single_fields read_length
  parse_index_at unfiltered os a p t w h f c =
      let c' : Cursor d p ([] ++ (to_le os a ++ t)) =
        subst (λ x. Cursor d p (x ++ t)) (write_address-to_le os a w) c in
      let (b, e) = parse_btree_address_at os a p 0 [] t (wide w) h refl c' in rw e refl
  parse_index_at (filtered fs fm) os a p t w h f c =
      let at_size : Cursor d p (to_le 8 fs ++ (to_le 4 fm ++ (to_le os a ++ t))) = record {
        rest = c.rest ∙ rw (write_address-to_le os a w) refl;
        inside = c.inside;
      } in
      let at_mask = Cursor-step d p (p + 8) (to_le 8 fs) _ at_size refl in
      let at_address = Cursor-step d (p + 8) (p + 8 + 4) (to_le 4 fm) _ at_mask refl in
      let room = Cursor-room d (p + 8 + 4) os (to_le os a) t at_address (length-to_le os a) in
      let (b, e) = parse_btree_address_at os a (p + 8 + 4) 0 [] t (wide w) h refl at_address in
      rw
        (
          ensure_len_lem d p (8 + 4 + os) (omega (arith, room)) small,
          read_offset_at d small 8 p fs _ (eight refl) f.0 at_size,
          from_le_bytes_at d 4 (p + 8) fm _ at_mask f.1,
          e,
        )
        refl
  parse_index_at (fixed max_bits) os a p t w h f c =
      let c' : Cursor d p ((max_bits ∷ []) ++ (to_le os a ++ t)) =
        subst (λ x. Cursor d p ((max_bits ∷ x) ++ t)) (write_address-to_le os a w) c in
      let (b, e) = parse_btree_address_at os a p 1 (max_bits ∷ []) t (wide w) h refl c' in rw e refl
  parse_index_at extensible os a p t w h f c =
      let c' : Cursor d p ((32 ∷ 4 ∷ 4 ∷ 16 ∷ 10 ∷ []) ++ (to_le os a ++ t)) =
        subst (λ x. Cursor d p ((32 ∷ 4 ∷ 4 ∷ 16 ∷ 10 ∷ x) ++ t)) (write_address-to_le os a w) c in
      let (b, e) =
        parse_btree_address_at os a p 5 (32 ∷ 4 ∷ 4 ∷ 16 ∷ 10 ∷ []) t (wide w) h refl c' in
      rw e refl
