-- ===== src/Bytes/Reads.antt =====
-- When an access is in range, and what it returns.
use rustyhdf.Prelude.{ℕ, ◌+◌, ◌-◌, ◌^◌, ◌≤◌, ◌<◌, ◌≡◌, arith}
use rustyhdf.Prelude.{List, length, take, drop, get_elem?_total, leb, ◌&&◌}
use rustyhdf.Prelude.{length-take, length-drop, All-take, All-drop, All-get_elem?}
use rustyhdf.Outcome.{FormatError}
use rustyhdf.Outcome.Ensures.{Post, returns, bind, branch}
use rustyhdf.Bytes.{IsByte, IsBytes, IsSlice, index, slice, slice_from, le_value, from_le_bytes}
use rustyhdf.Bytes.Laws.{le_value-lt}
use mathlib.Core.Path.{subst}

pub index-IsByte :
    {E : FormatError → Type 0} (d : List ℕ)
    → IsBytes d
    → (i : ℕ) → i < length d
    → Post E IsByte (index d i)
unfolding index
index-IsByte d s i h =
    let (b, e) = get_elem?_total d i h in rw (e, index) (returns (All-get_elem? IsByte d i s e))

module _ {d : List ℕ} (s : IsSlice d) {E : FormatError → Type 0} where
  pub index-Ensures : (i : ℕ) → i < length d → Post E IsByte (index d i)
  index-Ensures i h = index-IsByte d s.bytes i h

  pub slice-Ensures :
      (a b : ℕ) → a ≤ b → b ≤ length d → Post E (λ t. IsSlice t × (length t ≡ b - a)) (slice d a b)
  unfolding slice
  slice-Ensures a b h k =
      let size : length (take (b - a) (drop a d)) ≡ b - a =
        omega (arith, length-take (b - a) (drop a d), length-drop a d) in
      branch (leb a b && leb b (length d))
        (λ _. returns (
          record {
            bytes = All-take IsByte _ _ (All-drop IsByte a d s.bytes);
            sized = omega (arith, size, s.sized);
          },
          size,
        ))
        (λ e. absurd (ground arith))

  pub slice_from-Ensures :
      (a : ℕ) → a ≤ length d → Post E (λ t. IsSlice t × (length t ≡ length d - a)) (slice_from d a)
  unfolding slice_from
  slice_from-Ensures a h =
      branch (leb a (length d))
        (λ _. returns (
          record {
            bytes = All-drop IsByte a d s.bytes;
            sized = omega (arith, length-drop a d, s.sized);
          },
          length-drop a d,
        ))
        (λ e. absurd (ground arith))

  pub from_le_bytes-Ensures :
      (n p : ℕ) → p + n ≤ length d → Post E (λ v. v < 256 ^ n) (from_le_bytes n d p)
  unfolding from_le_bytes
  from_le_bytes-Ensures n p h = bind (slice-Ensures p (p + n) (omega arith) h) λ t (ts, size).
      let e : length t ≡ n = omega (arith, size) in
      returns (subst (λ k. le_value t < 256 ^ k) e (le_value-lt t ts.bytes))
