-- ===== src/Bytes/Cursor.antt =====
-- Reading data whose content from a position on is known: a cursor that moves over the fields.
use rustyhdf.Prelude.{ℕ, zero, suc, ◌+◌, ◌-◌, ◌^◌, ◌<◌, ◌≤◌, ◌≡◌, refl, sym, ap, ◌∙◌, arith}
use rustyhdf.Prelude.{List, [], ◌∷◌, ◌++◌, length, drop, get_elem?, some}
use rustyhdf.Prelude.{length-append, length-drop, take-append, drop-append, drop-drop}
use rustyhdf.Outcome.{ok}
use rustyhdf.Bytes.{index, slice, slice_from, to_le, from_le_bytes}
use rustyhdf.Bytes.Laws.{length-to_le, le_value-to_le}

-- From `a` on the data holds `t`, and nothing else.
pub record Cursor (d : List ℕ) (a : ℕ) (t : List ℕ) : Type 0 where
  pub rest : drop a d ≡ t
  pub inside : a ≤ length d

module _ (d : List ℕ) where
  pub Cursor-start : Cursor d 0 d
  Cursor-start = record { rest = refl; inside = omega arith }

  -- The data is at least as long as what was read and what is left.
  pub Cursor-length : (a : ℕ) (t : List ℕ) → Cursor d a t → a + length t ≡ length d
  Cursor-length a t c = omega (arith, length-drop a d, c.inside, ap length c.rest)

  pub Cursor-room : (a n : ℕ) (x t : List ℕ) → Cursor d a (x ++ t) → length x ≡ n → a + n ≤ length d
  Cursor-room a n x t c h = omega (arith, Cursor-length a (x ++ t) c, length-append x t)

  pub Cursor-step : (a b : ℕ) (x t : List ℕ) → Cursor d a (x ++ t) → a + length x ≡ b → Cursor d b t
  Cursor-step a b x t c h = record {
    rest =
        sym (drop-drop a (length x) b d h)
        ∙ ap (drop (length x)) c.rest
        ∙ drop-append (length x) x t refl;
    inside = omega (arith, Cursor-length a (x ++ t) c, length-append x t);
  }

  pub slice_at :
      (a b : ℕ) (x t : List ℕ) → Cursor d a (x ++ t) → a + length x ≡ b → slice d a b ≡ ok x
  unfolding slice
  slice_at a b x t c h =
      ground
        (arith, c.rest, Cursor-room a (length x) x t c refl, take-append (b - a) x t (omega arith))

  pub slice_from_at : (a : ℕ) (t : List ℕ) → Cursor d a t → slice_from d a ≡ ok t
  unfolding slice_from
  slice_from_at a t c = ground (arith, c.rest, c.inside)

  get_elem?-drop :
      (e : List ℕ) (a : ℕ) (x : ℕ) (t : List ℕ) → drop a e ≡ x ∷ t → get_elem? e a ≡ some x
  get_elem?-drop [] zero x t h = cc
  get_elem?-drop [] (suc a) x t h = cc
  get_elem?-drop (y ∷ e) zero x t h = cc
  get_elem?-drop (y ∷ e) (suc a) x t h = get_elem?-drop e a x t h

  pub index_at : (a x : ℕ) (t : List ℕ) → Cursor d a (x ∷ t) → index d a ≡ ok x
  unfolding index
  index_at a x t c = rw (get_elem?-drop d a x t c.rest, index)

  pub from_le_bytes_at :
      (n a v : ℕ) (t : List ℕ)
      → Cursor d a (to_le n v ++ t)
      → v < 256 ^ n
      → from_le_bytes n d a ≡ ok v
  unfolding from_le_bytes
  from_le_bytes_at n a v t c h =
      rw
        (slice_at a (a + n) (to_le n v) t c (omega (arith, length-to_le n v)), le_value-to_le n v h)
