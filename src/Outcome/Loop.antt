-- ===== src/Outcome/Loop.antt =====
-- `for i in 0..n` over a body that may fail, and its invariant rule.
use rustyhdf.Prelude.{ℕ, zero, suc, ◌+◌, ◌<◌, ◌≡◌, arith}
use rustyhdf.Outcome.{FormatError, Outcome, ok, ◌>>=◌}
use rustyhdf.Outcome.Ensures.{Post, returns, bind}
use mathlib.Core.Path.{subst}

unfoldable pub for_range {ℓ} : {S : Type ℓ} → ℕ → ℕ → (ℕ → S → Outcome S) → S → Outcome S
for_range zero i body s = ok s
for_range (suc n) i body s = do s' ← body i s; for_range n (i + 1) body s'

pub for_range_inv {ℓ κ} :
    {S : Type ℓ} {E : FormatError → Type 0} (P : ℕ → S → Type κ) (body : ℕ → S → Outcome S)
    (stop : ℕ)
    → ((i : ℕ) (s : S) → i < stop → P i s → Post E (P (i + 1)) (body i s))
    → (n i : ℕ) (s : S) → i + n ≡ stop
    → P i s
    → Post E (P stop) (for_range n i body s)
unfolding for_range
for_range_inv P body stop keep zero i s e h =
    let e' : i ≡ stop = omega arith in returns (subst (λ k. P k s) e' h)
for_range_inv P body stop keep (suc n) i s e h =
    bind (keep i s (omega arith) h)
      λ s' h'. for_range_inv P body stop keep n (i + 1) s' (omega arith) h'
