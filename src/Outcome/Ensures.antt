-- ===== src/Outcome/Ensures.antt =====
-- Postconditions of outcomes: the call ends in `Ok` with a value that has the property, or in an
-- `Err` that is allowed. A call that has one does not panic, and its loops end.
use rustyhdf.Prelude.{
  ℕ, ◌≡◌, refl, Bool, true, false, ◌+◌, ◌-◌, ◌*◌, ◌^◌, ◌<◌, ◌≤◌, arith, if◌then◌else◌,
}
use rustyhdf.Prelude.{ltb, leb}
use mathlib.Core.Path.{subst}
use rustyhdf.Outcome.{FormatError, Outcome, ok, err, panic, stuck, ◌>>=◌, guard}
use rustyhdf.Outcome.{usize_mod, add_usize, sub_usize, mul_usize, reserve}
use mathlib.Core.Logic.{◌≢◌, dite}

pub data Post {ℓ κ μ} {A : Type ℓ} (E : FormatError → Type μ) (P : A → Type κ)
    : Outcome A → Type (ℓ ⊔ κ ⊔ μ) where
  returns : {a : A} → P a → Post E P (ok a)
  fails : {e : FormatError} → E e → Post E P (err e)

-- Any error will do.
abbrev pub AnyError : FormatError → Type 0
AnyError e = Unit {0}

-- No error: the call succeeds.
abbrev pub NoError : FormatError → Type 0
NoError e = ⊥

abbrev pub Ensures {ℓ κ} : {A : Type ℓ} → (A → Type κ) → Outcome A → Type (ℓ ⊔ κ)
Ensures P m = Post AnyError P m

-- The call ends in `Ok` or in `Err`.
abbrev pub Returns {ℓ} : {A : Type ℓ} → Outcome A → Type ℓ
Returns {A} m = Post {A = A} AnyError (λ _. Unit {0}) m

module _ {μ} {E : FormatError → Type μ} where
  pub bind {ℓ κ ν ξ} :
      {A : Type ℓ} {B : Type κ} {P : A → Type ν} {Q : B → Type ξ} {m : Outcome A}
      {f : A → Outcome B}
      → Post E P m
      → ((a : A) → P a → Post E Q (f a))
      → Post E Q (m >>= f)
  bind (returns p) k = k _ p
  bind (fails x) k = fails x

  -- The rest of the block may use which value the call returned.
  pub bind_eq {ℓ κ ν ξ} :
      {A : Type ℓ} {B : Type κ} {P : A → Type ν} {Q : B → Type ξ} (m : Outcome A)
      {f : A → Outcome B}
      → Post E P m
      → ((a : A) → m ≡ ok a → P a → Post E Q (f a))
      → Post E Q (m >>= f)
  bind_eq (ok a) (returns p) k = k a refl p
  bind_eq (err e) (fails x) k = fails x
  bind_eq panic p k = elim p [ ]
  bind_eq stuck p k = elim p [ ]

  -- The postcondition may speak of the call itself.
  pub with_eq {ℓ κ} :
      {A : Type ℓ} {P : A → Type κ} (m : Outcome A) → Post E P m → Post E (λ a. (m ≡ ok a) × P a) m
  with_eq (ok a) (returns p) = returns (refl, p)
  with_eq (err e) (fails x) = fails x
  with_eq panic p = elim p [ ]
  with_eq stuck p = elim p [ ]

  pub weaken {ℓ κ ν} :
      {A : Type ℓ} {P : A → Type κ} {Q : A → Type ν} {m : Outcome A}
      → Post E P m
      → ((a : A) → P a → Q a)
      → Post E Q m
  weaken (returns p) k = returns (k _ p)
  weaken (fails x) k = fails x

  pub branch {ℓ κ} :
      {A : Type ℓ} {P : A → Type κ} (b : Bool) {m n : Outcome A}
      → (b ≡ true → Post E P m)
      → (b ≡ false → Post E P n)
      → Post E P (if b then m else n)
  branch true f g = f refl
  branch false f g = g refl

  pub branch_dec {ℓ κ ν} :
      {X : Type ℓ} {A : Type κ} {P : A → Type ν} (t : Dec X) {f : X → Outcome A}
      {g : ¬ X → Outcome A}
      → ((x : X) → Post E P (f x))
      → ((n : ¬ X) → Post E P (g n))
      → Post E P (dite t f g)
  branch_dec (yes x) h k = h x
  branch_dec (no n) h k = k n

  pub add_usize-Ensures : (a b : ℕ) → a + b < usize_mod → Post E (λ s. s ≡ a + b) (add_usize a b)
  unfolding add_usize
  add_usize-Ensures a b h =
      branch (ltb (a + b) usize_mod) (λ _. returns refl) (λ e. absurd (ground arith))

  pub sub_usize-Ensures : (a b : ℕ) → b ≤ a → Post E (λ s. s ≡ a - b) (sub_usize a b)
  unfolding sub_usize
  sub_usize-Ensures a b h = branch (leb b a) (λ _. returns refl) (λ e. absurd (ground arith))

  pub mul_usize-Ensures : (a b : ℕ) → a * b < usize_mod → Post E (λ s. s ≡ a * b) (mul_usize a b)
  unfolding mul_usize
  mul_usize-Ensures a b h =
      branch (ltb (a * b) usize_mod) (λ _. returns refl) (λ e. absurd (ground arith))

  pub reserve-Ensures :
      (count size : ℕ) → count * size < 2 ^ 63 → Post E (λ _. Unit {0}) (reserve count size)
  unfolding reserve
  reserve-Ensures count size h =
      branch (ltb (count * size) (2 ^ 63)) (λ _. returns tt) (λ e. absurd (ground arith))

  -- What a call that ensures `P` returned has `P`.
  pub ensured {ℓ κ} :
      {A : Type ℓ} {P : A → Type κ} {m : Outcome A} {a : A} → Post E P m → m ≡ ok a → P a
  ensured {P} {a} (returns {a = b} p) e = let q : b ≡ a = cc in subst P q p
  ensured (fails x) e = absurd (cc)

  pub Post-ne-panic {ℓ κ} : {A : Type ℓ} {P : A → Type κ} {m : Outcome A} → Post E P m → m ≢ panic
  Post-ne-panic (returns p) e = cc
  Post-ne-panic (fails x) e = cc

  pub Post-ne-stuck {ℓ κ} : {A : Type ℓ} {P : A → Type κ} {m : Outcome A} → Post E P m → m ≢ stuck
  Post-ne-stuck (returns p) e = cc
  Post-ne-stuck (fails x) e = cc

pub guarded : (b : Bool) (e : FormatError) → Post AnyError (λ _. b ≡ true) (guard b e)
guarded true e = returns refl
guarded false e = fails tt

-- The value of a call that succeeds.
pub succeeds {ℓ κ} :
    {A : Type ℓ} {P : A → Type κ} {m : Outcome A} → Post NoError P m → (a : A) × (m ≡ ok a) × P a
succeeds (returns {a = a} p) = (a, refl, p)
succeeds (fails x) = absurd x
