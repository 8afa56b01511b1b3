-- ===== src/MetadataIndex/Union.antt =====
-- What metadata blocks define together, and that flattening them keeps it.
use rustyhdf.Prelude.{ℕ, ◌+◌, ◌≡◌, refl, ap, ◌∙◌, arith}
use rustyhdf.Prelude.{
  List, [], ◌∷◌, ◌++◌, map, length, Option, none, some, Bool-cases, if◌then◌else◌,
}
use rustyhdf.Prelude.{inl, inr, length-append, length-map}
use rustyhdf.Bytes.{bytes_eq}
use rustyhdf.MetadataIndex.{DatasetMetadata, MetadataBlock, Sourced}
use rustyhdf.MetadataIndex.{flattened}
use rustyhdf.MetadataIndex.Order.{find_first, count}

module _ {T V : Type 0} where
  -- The map from names to datasets that the blocks are together, and how often they define a name.
  abbrev pub find_in : List ℕ → List (DatasetMetadata T V) → Option (DatasetMetadata T V)
  find_in n [] = none
  find_in n (d ∷ ds) = if bytes_eq d.name n then some d else find_in n ds

  abbrev pub or_else :
      Option (DatasetMetadata T V) → Option (DatasetMetadata T V) → Option (DatasetMetadata T V)
  or_else none o = o
  or_else (some d) o = some d

  abbrev pub find_among : List ℕ → List (MetadataBlock T V) → Option (DatasetMetadata T V)
  find_among n [] = none
  find_among n (b ∷ bs) = or_else (find_in n b.datasets) (find_among n bs)

  abbrev pub times_in : List ℕ → List (DatasetMetadata T V) → ℕ
  times_in n [] = 0
  times_in n (d ∷ ds) = (if bytes_eq d.name n then 1 else 0) + times_in n ds

  abbrev pub times_among : List ℕ → List (MetadataBlock T V) → ℕ
  times_among n [] = 0
  times_among n (b ∷ bs) = times_in n b.datasets + times_among n bs

  -- How many datasets the blocks have together.
  abbrev pub total : List (MetadataBlock T V) → ℕ
  total [] = 0
  total (b ∷ bs) = length b.datasets + total bs

  find_first-append :
      (n : List ℕ) (i : ℕ) (ds : List (DatasetMetadata T V)) (ys : List (Sourced T V))
      → find_first n (map (λ d. (i, d)) ds ++ ys) ≡ or_else (find_in n ds) (find_first n ys)
  find_first-append n i [] ys = refl
  find_first-append n i (d ∷ ds) ys = elim (Bool-cases (bytes_eq d.name n)) [
    | inl e ↦ rw e refl
    | inr e ↦ rw e (find_first-append n i ds ys)
  ]

  pub find_first-flattened :
      (n : List ℕ) (bs : List (MetadataBlock T V)) → find_first n (flattened bs) ≡ find_among n bs
  unfolding flattened
  find_first-flattened n [] = refl
  find_first-flattened n (b ∷ bs) =
      find_first-append n b.creator_id b.datasets (flattened bs)
      ∙ ap (or_else (find_in n b.datasets)) (find_first-flattened n bs)

  count-append :
      (n : List ℕ) (i : ℕ) (ds : List (DatasetMetadata T V)) (ys : List (Sourced T V))
      → count n (map (λ d. (i, d)) ds ++ ys) ≡ times_in n ds + count n ys
  count-append n i [] ys = omega arith
  count-append n i (d ∷ ds) ys = elim (Bool-cases (bytes_eq d.name n)) [
    | inl e ↦ rw e (omega (arith, count-append n i ds ys))
    | inr e ↦ rw e (omega (arith, count-append n i ds ys))
  ]

  pub count-flattened :
      (n : List ℕ) (bs : List (MetadataBlock T V)) → count n (flattened bs) ≡ times_among n bs
  unfolding flattened
  count-flattened n [] = refl
  count-flattened n (b ∷ bs) =
      omega (arith, count-append n b.creator_id b.datasets (flattened bs), count-flattened n bs)

  pub length-flattened : (bs : List (MetadataBlock T V)) → length (flattened bs) ≡ total bs
  unfolding flattened
  length-flattened [] = refl
  length-flattened (b ∷ bs) = omega (
    arith,
    length-append (map (λ d. (b.creator_id, d)) b.datasets) (flattened bs),
    length-map {B = Sourced T V} b.datasets (λ d. (b.creator_id, d)),
    length-flattened bs,
  )
