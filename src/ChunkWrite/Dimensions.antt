-- ===== src/ChunkWrite/Dimensions.antt =====
-- The width in which the dimensions of a chunk are written.
use rustyhdf.Prelude.{ℕ, ◌*◌, ◌^◌, ◌<◌, ◌≤◌, ◌≡◌, refl, ap, sym, ◌∙◌, arith}
use rustyhdf.Prelude.{List, [], ◌∷◌, ◌++◌, length, All, append_assoc, max}
use rustyhdf.Prelude.{append-nil, length-append, Bool-cases, inl, inr, leb}
use rustyhdf.ChunkWrite.{max_dim, dim_encoded_len, write_dim, write_dims}

-- The encoded widths of a dimension.
pub data IsLen : ℕ → Type 0 where
  one_byte : {n : ℕ} → n ≡ 1 → IsLen n
  two_bytes : {n : ℕ} → n ≡ 2 → IsLen n
  four_bytes : {n : ℕ} → n ≡ 4 → IsLen n

pub dim_encoded_len-IsLen :
    (m : ℕ) → m < 2 ^ 32 → IsLen (dim_encoded_len m) × (m < 256 ^ dim_encoded_len m)
unfolding dim_encoded_len
dim_encoded_len-IsLen m h = elim (Bool-cases (leb m 0xff)) [
  | inl e ↦ rw e (one_byte refl, ground arith)
  | inr e ↦ elim (Bool-cases (leb m 0xffff)) [
    | inl e' ↦ rw (e, e') (two_bytes refl, ground arith)
    | inr e' ↦ rw (e, e') (four_bytes refl, ground arith)
  ]
]

-- Every size that is written is at most the largest.
pub max_dim-bounds :
    (dims : List ℕ) (es : ℕ) → All (λ v. v ≤ max_dim dims es) dims × (es ≤ max_dim dims es)
unfolding max_dim
max_dim-bounds [] es = (tt, omega arith)
max_dim-bounds (v ∷ vs) es =
    let (a, b) = max_dim-bounds vs es in
    (
      (omega arith, All_le vs (max_dim vs es) (max v (max_dim vs es)) (omega arith) a),
      omega (arith, b),
    )
  where
    All_le : (xs : List ℕ) (m n : ℕ) → m ≤ n → All (λ x. x ≤ m) xs → All (λ x. x ≤ n) xs
    All_le [] m n h a = tt
    All_le (x ∷ xs) m n h a = (omega (arith, a.0), All_le xs m n h a.1)

pub max_dim-lt : (dims : List ℕ) (es n : ℕ) → All (λ v. v < n) dims → es < n → max_dim dims es < n
unfolding max_dim
max_dim-lt [] es n a h = h
max_dim-lt (v ∷ vs) es n a h = omega (arith, a.0, max_dim-lt vs es n a.1 h)

pub length-write_dim : (len v : ℕ) → IsLen len → length (write_dim len v) ≡ len
unfolding write_dim
length-write_dim len v (one_byte e) = rw e refl
length-write_dim len v (two_bytes e) = rw e refl
length-write_dim len v (four_bytes e) = rw e refl

pub write_dims-append :
    (len : ℕ) (dims : List ℕ) (es : ℕ)
    → write_dims len dims ++ write_dim len es ≡ write_dims len (dims ++ (es ∷ []))
unfolding write_dims
write_dims-append len [] es = sym (append-nil (write_dim len es))
write_dims-append len (v ∷ vs) es =
    append_assoc (write_dim len v) (write_dims len vs) (write_dim len es)
    ∙ ap (λ t. write_dim len v ++ t) (write_dims-append len vs es)

pub length-write_dims :
    (len : ℕ) (vs : List ℕ) → IsLen len → length (write_dims len vs) ≤ length vs * 4
unfolding write_dims
length-write_dims len [] w = omega arith
length-write_dims len (v ∷ vs) w = omega (
  arith,
  length-append (write_dim len v) (write_dims len vs),
  length-write_dim len v w,
  len-le len w,
  length-write_dims len vs w,
)
  where
    len-le : (n : ℕ) → IsLen n → n ≤ 4
    len-le n (one_byte e) = omega arith
    len-le n (two_bytes e) = omega arith
    len-le n (four_bytes e) = omega arith

pub All-below : (dims : List ℕ) (m n : ℕ) → All (λ v. v ≤ m) dims → m < n → All (λ v. v < n) dims
All-below [] m n a h = tt
All-below (v ∷ vs) m n a h = (omega (arith, a.0), All-below vs m n a.1 h)
