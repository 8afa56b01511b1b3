-- ===== src/Prelude/Bits.antt =====
-- A mask on one byte, checked by evaluation.
use Prim.Native.Nat.{ℕ, zero, suc, ◌<◌, ◌%◌, bit_and}
use mathlib.Core.Path.{◌≡◌, refl}
use mathlib.Core.Bool.{Bool, true, ◌&&◌}
use native.Mathlib.Decide.{ℕ_discrete}
use native.Mathlib.Omega.{arith}
use rustyhdf.Prelude.Tests.{◌==◌}

module _ (f g : ℕ → ℕ) where
  -- The functions agree on every number below the bound.
  agree : ℕ → Bool
  agree zero = true
  agree (suc bound) = agree bound && f bound == g bound

  agree-eq : (bound k : ℕ) → k < bound → agree bound ≡ true → f k ≡ g k
  unfolding agree
  agree-eq zero k below e = absurd (omega arith)
  agree-eq (suc bound) k below e = elim (ℕ_discrete k bound) [
    | yes last ↦ (let here : f bound ≡ g bound = ground arith in rw (last) here)
    | no other ↦ agree-eq bound k (omega (arith, other)) (ground arith)
  ]

masks_agree : agree (λ x. bit_and x 3) (λ x. x % 4) 256 ≡ true
unfolding agree
masks_agree = refl

pub low_two_bits : (x : ℕ) → x < 256 → bit_and x 3 ≡ x % 4
low_two_bits x byte = agree-eq (λ k. bit_and k 3) (λ k. k % 4) 256 x byte masks_agree
