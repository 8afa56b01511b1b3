-- ===== src/FilterPipeline/Values.antt =====
-- A filter's client data is read back.
use rustyhdf.Prelude.{ℕ, ◌+◌, ◌*◌, ◌^◌, ◌<◌, ◌≡◌, refl, arith}
use rustyhdf.Prelude.{List, [], ◌∷◌, ◌++◌, length, All}
use rustyhdf.Outcome.{ok, usize_mod}
use rustyhdf.Bytes.{to_le}
use rustyhdf.Bytes.Laws.{length-to_le}
use rustyhdf.Bytes.Cursor.{Cursor, Cursor-step}
use rustyhdf.Bytes.Cursor.{from_le_bytes_at}
use rustyhdf.Utils.Values.{ensure_len_lem}
use rustyhdf.FilterPipeline.{read_values, read_client_data}
use rustyhdf.FilterPipeline.{write_values}

module _ (d : List ℕ) (small : length d < usize_mod) where
  read_values_at :
      (vs : List ℕ) (a : ℕ) (t : List ℕ)
      → All (λ v. v < 2 ^ 32) vs
      → Cursor d a (write_values vs ++ t)
      → (b : ℕ) × (read_values (length vs) d a ≡ ok (vs, b))
        × Cursor d b t
        × (b ≡ a + length vs * 4)
  unfolding read_values write_values
  read_values_at [] a t h c = (a, refl, c, omega arith)
  read_values_at (v ∷ vs) a t h c =
      let here : Cursor d a (to_le 4 v ++ (write_values vs ++ t)) = c in
      let (b, e, there, size) =
        read_values_at vs (a + 4) t h.1
          (Cursor-step d a (a + 4) (to_le 4 v) _ here (omega (arith, length-to_le 4 v))) in
      (b, rw (from_le_bytes_at d 4 a v _ here h.0, e), there, omega (arith, size))

  pub read_client_data_at :
      (vs : List ℕ) (a : ℕ) (t : List ℕ)
      → All (λ v. v < 2 ^ 32) vs
      → Cursor d a (write_values vs ++ t)
      → (b : ℕ) × (read_client_data (length vs) d a ≡ ok (vs, b)) × Cursor d b t
  unfolding read_client_data
  read_client_data_at vs a t h c =
      let (b, e, there, size) = read_values_at vs a t h c in
      (
        b,
        rw (ensure_len_lem d a (length vs * 4) (omega (arith, size, there.inside)) small, e),
        there,
      )
