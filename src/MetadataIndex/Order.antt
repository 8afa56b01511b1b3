-- ===== src/MetadataIndex/Order.antt =====
-- Names are ordered, and sorting by them keeps every dataset.
use rustyhdf.Prelude.{ℕ, suc, ◌≡◌, refl, ap, sym, ◌∙◌, arith, true, false}
use rustyhdf.Prelude.{List, [], ◌∷◌, length, All, Option, none, some, ◌==◌, Bool-cases}
use rustyhdf.Prelude.{inl, inr, if◌then◌else◌}
use rustyhdf.Bytes.{bytes_eq}
use rustyhdf.Bytes.Laws.{bytes_eq-true}
use rustyhdf.MetadataIndex.{DatasetMetadata, Sourced, name_le, insert, sort_by_name}

pub name_le_refl : (a : List ℕ) → name_le a a ≡ true
name_le_refl [] = refl
name_le_refl (x ∷ xs) = ground (arith, name_le_refl xs)

pub name_le_total : (a b : List ℕ) → name_le a b ≡ false → name_le b a ≡ true
name_le_total [] b h = cc
name_le_total (x ∷ xs) [] h = refl
name_le_total (x ∷ xs) (y ∷ ys) h = ground (arith, h, name_le_total xs ys)

pub name_le_antisym : (a b : List ℕ) → name_le a b ≡ true → name_le b a ≡ true → a ≡ b
name_le_antisym [] [] h k = refl
name_le_antisym [] (y ∷ ys) h k = cc
name_le_antisym (x ∷ xs) [] h k = cc
name_le_antisym (x ∷ xs) (y ∷ ys) h k =
    let first : x ≡ y = ground (arith, h, k) in
    let same : (x == y) ≡ true = ground (arith, first) in
    let rest : xs ≡ ys =
      name_le_antisym xs ys (ground (arith, h, first)) (ground (arith, k, first)) in
    cc

pub name_le_trans : (a b c : List ℕ) → name_le a b ≡ true → name_le b c ≡ true → name_le a c ≡ true
name_le_trans [] b c h k = refl
name_le_trans (x ∷ xs) [] c h k = cc
name_le_trans (x ∷ xs) (y ∷ ys) [] h k = cc
name_le_trans (x ∷ xs) (y ∷ ys) (z ∷ zs) h k = ground (arith, h, k, name_le_trans xs ys zs)

module _ {T V : Type 0} where
  -- The first dataset with a name.
  abbrev pub find_first : List ℕ → List (Sourced T V) → Option (DatasetMetadata T V)
  find_first n [] = none
  find_first n (x ∷ xs) = if bytes_eq x.1.name n then some x.1 else find_first n xs

  -- How many datasets have a name.
  abbrev pub count : List ℕ → List (Sourced T V) → ℕ
  count n [] = 0
  count n (x ∷ xs) = if bytes_eq x.1.name n then suc (count n xs) else count n xs

  abbrev pub AreSorted : List (Sourced T V) → Type 0
  AreSorted [] = Unit {0}
  AreSorted (x ∷ xs) = All (λ y. name_le x.1.name y.1.name ≡ true) xs × AreSorted xs

  find_first-insert :
      (n : List ℕ) (x : Sourced T V) (ys : List (Sourced T V))
      → find_first n (insert x ys) ≡ find_first n (x ∷ ys)
  unfolding insert
  find_first-insert n x [] = refl
  find_first-insert n x (y ∷ ys) = elim (Bool-cases (name_le x.1.name y.1.name)) [
    | inl e ↦ rw e refl
    | inr e ↦ elim (Bool-cases (bytes_eq y.1.name n)) [
      | inr other ↦ rw (e, other, find_first-insert n x ys) refl
      | inl same ↦ elim (Bool-cases (bytes_eq x.1.name n)) [
        | inr other ↦ rw (e, same, other) refl
        | inl also ↦
            let names : y.1.name ≡ x.1.name =
              bytes_eq-true y.1.name n same ∙ sym (bytes_eq-true x.1.name n also) in
            let le : name_le x.1.name y.1.name ≡ true = rw names (name_le_refl x.1.name) in
            absurd (cc)
      ]
    ]
  ]

  pub find_first-sort_by_name :
      (n : List ℕ) (xs : List (Sourced T V)) → find_first n (sort_by_name xs) ≡ find_first n xs
  unfolding sort_by_name
  find_first-sort_by_name n [] = refl
  find_first-sort_by_name n (x ∷ xs) =
      find_first-insert n x (sort_by_name xs)
      ∙ ap (λ o. if bytes_eq x.1.name n then some x.1 else o) (find_first-sort_by_name n xs)

  count-insert :
      (n : List ℕ) (x : Sourced T V) (ys : List (Sourced T V))
      → count n (insert x ys) ≡ count n (x ∷ ys)
  unfolding insert
  count-insert n x [] = refl
  count-insert n x (y ∷ ys) = elim (Bool-cases (name_le x.1.name y.1.name)) [
    | inl e ↦ rw e refl
    | inr e ↦ rw e (ground (arith, count-insert n x ys))
  ]

  pub count-sort_by_name :
      (n : List ℕ) (xs : List (Sourced T V)) → count n (sort_by_name xs) ≡ count n xs
  unfolding sort_by_name
  count-sort_by_name n [] = refl
  count-sort_by_name n (x ∷ xs) =
      count-insert n x (sort_by_name xs)
      ∙ ap (λ m. if bytes_eq x.1.name n then suc m else m) (count-sort_by_name n xs)

  length-insert :
      (x : Sourced T V) (ys : List (Sourced T V)) → length (insert x ys) ≡ suc (length ys)
  unfolding insert
  length-insert x [] = refl
  length-insert x (y ∷ ys) = elim (Bool-cases (name_le x.1.name y.1.name)) [
    | inl e ↦ rw e refl
    | inr e ↦ rw e (ap suc (length-insert x ys))
  ]

  pub length-sort_by_name : (xs : List (Sourced T V)) → length (sort_by_name xs) ≡ length xs
  unfolding sort_by_name
  length-sort_by_name [] = refl
  length-sort_by_name (x ∷ xs) = length-insert x (sort_by_name xs) ∙ ap suc (length-sort_by_name xs)

  All-insert :
      (P : Sourced T V → Type 0) (x : Sourced T V) (ys : List (Sourced T V))
      → P x
      → All P ys
      → All P (insert x ys)
  unfolding insert
  All-insert P x [] p h = (p, tt)
  All-insert P x (y ∷ ys) p h = elim (Bool-cases (name_le x.1.name y.1.name)) [
    | inl e ↦ rw e (p, h)
    | inr e ↦ rw e (h.0, All-insert P x ys p h.1)
  ]

  All-le_trans :
      (a b : List ℕ) (ys : List (Sourced T V))
      → name_le a b ≡ true
      → All (λ y. name_le b y.1.name ≡ true) ys
      → All (λ y. name_le a y.1.name ≡ true) ys
  All-le_trans a b [] h k = tt
  All-le_trans a b (y ∷ ys) h k = (name_le_trans a b y.1.name h k.0, All-le_trans a b ys h k.1)

  insert-AreSorted :
      (x : Sourced T V) (ys : List (Sourced T V)) → AreSorted ys → AreSorted (insert x ys)
  unfolding insert
  insert-AreSorted x [] h = (tt, tt)
  insert-AreSorted x (y ∷ ys) h = elim (Bool-cases (name_le x.1.name y.1.name)) [
    | inl e ↦ rw e ((e, All-le_trans x.1.name y.1.name ys e h.0), h)
    | inr e ↦ rw e (
      All-insert (λ z. name_le y.1.name z.1.name ≡ true) x ys (name_le_total x.1.name y.1.name e)
          h.0,
      insert-AreSorted x ys h.1,
    )
  ]

  pub sort_by_name-AreSorted : (xs : List (Sourced T V)) → AreSorted (sort_by_name xs)
  unfolding sort_by_name
  sort_by_name-AreSorted [] = tt
  sort_by_name-AreSorted (x ∷ xs) = insert-AreSorted x (sort_by_name xs) (sort_by_name-AreSorted xs)
