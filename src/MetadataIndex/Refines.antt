-- ===== src/MetadataIndex/Refines.antt =====
-- The merged index is the map from names to datasets that the blocks define together.
use rustyhdf.Prelude.{ℕ, ◌+◌, ◌≤◌, ◌≡◌, refl, ap, sym, ◌∙◌, arith, true, false}
use rustyhdf.Prelude.{List, [], ◌∷◌, ◌++◌, map, length, get_elem?, All, some, Bool-cases}
use rustyhdf.Prelude.{inl, inr, append_assoc, length-append, length-map}
use mathlib.Core.Path.{subst}
use rustyhdf.Outcome.{FormatError, Outcome, ok, duplicate_dataset_name}
use rustyhdf.Outcome.Ensures.{Post, returns, fails, bind}
use rustyhdf.Bytes.{bytes_eq}
use rustyhdf.Bytes.Laws.{bytes_eq_refl, bytes_eq-true}
use rustyhdf.MetadataIndex.{DatasetMetadata, MetadataBlock, MetadataIndex, Sourced}
use rustyhdf.MetadataIndex.{collective}
use rustyhdf.MetadataIndex.{name_le, check_duplicates, entries_from, from_collective, flattened}
use rustyhdf.MetadataIndex.{sort_by_name, merge_blocks, find_entry, dataset_of, find, len}
use rustyhdf.MetadataIndex.Union.{find_among, times_among, total, find_first-flattened}
use rustyhdf.MetadataIndex.Union.{count-flattened, length-flattened}
use rustyhdf.MetadataIndex.Order.{name_le_antisym, find_first, count}
use rustyhdf.MetadataIndex.Order.{AreSorted, find_first-sort_by_name, count-sort_by_name}
use rustyhdf.MetadataIndex.Order.{length-sort_by_name, sort_by_name-AreSorted}

module _ {T V : Type 0} where
  -- No name of `xs` is `n`.
  abbrev AreOther : List ℕ → List (Sourced T V) → Type 0
  AreOther n xs = All (λ x. bytes_eq x.1.name n ≡ false) xs

  count-AreOther : (n : List ℕ) (xs : List (Sourced T V)) → AreOther n xs → count n xs ≡ 0
  count-AreOther n [] h = refl
  count-AreOther n (x ∷ xs) h = rw (h.0) (count-AreOther n xs h.1)

  -- A name that is not the next one in order is none of the later ones.
  strictly :
      (a b : List ℕ) (ys : List (Sourced T V))
      → name_le a b ≡ true
      → bytes_eq b a ≡ false
      → All (λ y. name_le b y.1.name ≡ true) ys
      → AreOther a ys
  strictly a b [] h ne k = tt
  strictly a b (y ∷ ys) h ne k = (
    elim (Bool-cases (bytes_eq y.1.name a)) [
      | inr e ↦ e
      | inl e ↦
          let back : name_le b a ≡ true =
            subst (λ n. name_le b n ≡ true) (bytes_eq-true y.1.name a e) k.0 in
          let same : b ≡ a = sym (name_le_antisym a b h back) in
          absurd (let never = rw same at ne in let yes = bytes_eq_refl a in cc)
    ],
    strictly a b ys h ne k.1,
  )

  -- Which name occurs twice.
  abbrev pub IsDuplicate : List (Sourced T V) → FormatError → Type 0
  IsDuplicate xs e = (n : List ℕ) × (e ≡ duplicate_dataset_name n) × (2 ≤ count n xs)

  twice :
      (x y : Sourced T V) (xs : List (Sourced T V))
      → bytes_eq y.1.name x.1.name ≡ true
      → 2 ≤ count y.1.name (x ∷ y ∷ xs)
  twice x y xs e =
      let names : y.1.name ≡ x.1.name = bytes_eq-true y.1.name x.1.name e in
      let first : bytes_eq x.1.name y.1.name ≡ true = rw names (bytes_eq_refl x.1.name) in
      let second : bytes_eq y.1.name y.1.name ≡ true = bytes_eq_refl y.1.name in
      rw (first, second) (omega arith)

  at_most :
      (x y : Sourced T V) (xs : List (Sourced T V))
      → AreSorted (x ∷ y ∷ xs)
      → bytes_eq y.1.name x.1.name ≡ false
      → ((n : List ℕ) → count n (y ∷ xs) ≤ 1)
      → (n : List ℕ) → count n (x ∷ y ∷ xs) ≤ 1
  at_most x y xs h e k n = elim (Bool-cases (bytes_eq x.1.name n)) [
    | inr other ↦ rw other (k n)
    | inl same ↦
        let none_later : count x.1.name (y ∷ xs) ≡ 0 =
          count-AreOther x.1.name (y ∷ xs) (e, strictly x.1.name y.1.name xs h.0.0 e h.1.0) in
        let zero_n : count n (y ∷ xs) ≡ 0 =
          subst (λ m. count m (y ∷ xs) ≡ 0) (bytes_eq-true x.1.name n same) none_later in
        rw (same, zero_n) (omega arith)
  ]

  count_more :
      (n : List ℕ) (x : Sourced T V) (xs : List (Sourced T V))
      → 2 ≤ count n xs
      → 2 ≤ count n (x ∷ xs)
  count_more n x xs h = elim (Bool-cases (bytes_eq x.1.name n)) [
    | inl e ↦ rw e (omega arith)
    | inr e ↦ rw e h
  ]

  more :
      (x y : Sourced T V) (xs : List (Sourced T V)) {m : Outcome (Unit {0})}
      → AreSorted (x ∷ y ∷ xs)
      → bytes_eq y.1.name x.1.name ≡ false
      → Post (IsDuplicate (y ∷ xs)) (λ _. (n : List ℕ) → count n (y ∷ xs) ≤ 1) m
      → Post (IsDuplicate (x ∷ y ∷ xs)) (λ _. (n : List ℕ) → count n (x ∷ y ∷ xs) ≤ 1) m
  more x y xs h e (returns k) = returns (at_most x y xs h e k)
  more x y xs h e (fails (n, eq, two)) = fails (n, eq, count_more n x (y ∷ xs) two)

  check_duplicates-AreSorted :
      (i : ℕ) (xs : List (Sourced T V))
      → AreSorted xs
      → Post
          (IsDuplicate xs)
          (λ _. (n : List ℕ) → count n xs ≤ 1)
          (check_duplicates (entries_from i xs))
  unfolding check_duplicates entries_from
  check_duplicates-AreSorted i [] h = returns (λ n. omega arith)
  check_duplicates-AreSorted i (x ∷ []) h = returns (λ n. ground arith)
  check_duplicates-AreSorted i (x ∷ y ∷ xs) h = elim (Bool-cases (bytes_eq y.1.name x.1.name)) [
    | inl e ↦ rw e (fails (y.1.name, refl, twice x y xs e))
    | inr e ↦ rw e (more x y xs h e (check_duplicates-AreSorted (i + 1) (y ∷ xs) h.1))
  ]

  get_elem?-append :
      (before : List (DatasetMetadata T V)) (x : DatasetMetadata T V)
      (after : List (DatasetMetadata T V))
      → get_elem? (before ++ (x ∷ after)) (length before) ≡ some x
  get_elem?-append [] x after = refl
  get_elem?-append (y ∷ before) x after = get_elem?-append before x after

  -- The datasets are in the order of their names.
  abbrev pub AreOrdered : List (DatasetMetadata T V) → Type 0
  AreOrdered [] = Unit {0}
  AreOrdered (x ∷ xs) = All (λ y. name_le x.name y.name ≡ true) xs × AreOrdered xs

  ordered : (xs : List (Sourced T V)) → AreSorted xs → AreOrdered (map (λ x. x.1) xs)
  ordered [] h = tt
  ordered (x ∷ xs) h = (below x.1.name xs h.0, ordered xs h.1)
    where
      below :
          (n : List ℕ) (ys : List (Sourced T V))
          → All (λ y. name_le n y.1.name ≡ true) ys
          → All (λ d. name_le n d.name ≡ true) (map (λ y. y.1) ys)
      below n [] h = tt
      below n (y ∷ ys) h = (h.0, below n ys h.1)

  -- Sorting changes no count.
  fewer :
      (xs : List (Sourced T V)) {m : Outcome (Unit {0})}
      → Post (IsDuplicate (sort_by_name xs)) (λ _. (n : List ℕ) → count n (sort_by_name xs) ≤ 1) m
      → Post (IsDuplicate xs) (λ _. (n : List ℕ) → count n xs ≤ 1) m
  fewer xs (returns k) = returns (λ n. omega (arith, k n, count-sort_by_name n xs))
  fewer xs (fails (n, e, two)) = fails (n, e, omega (arith, two, count-sort_by_name n xs))

  -- An entry leads to the dataset that it was made of.
  find-entries_from :
      (before : List (DatasetMetadata T V)) (xs : List (Sourced T V)) (n : List ℕ)
      → dataset_of (before ++ map (λ x. x.1) xs) (find_entry (entries_from (length before) xs) n)
        ≡ ok (find_first n xs)
  unfolding dataset_of find_entry entries_from
  find-entries_from before [] n = refl
  find-entries_from before (x ∷ xs) n = elim (Bool-cases (bytes_eq x.1.name n)) [
    | inl e ↦ rw (e, dataset_of, get_elem?-append before x.1 (map (λ y. y.1) xs)) refl
    | inr e ↦ rw e (
        subst
          (λ i.
            dataset_of (before ++ (x.1 ∷ map (λ y. y.1) xs)) (find_entry (entries_from i xs) n)
            ≡ ok (find_first n xs))
          (length-append before (x.1 ∷ []))
          (subst
            (λ ds.
              dataset_of ds (find_entry (entries_from (length (before ++ (x.1 ∷ []))) xs) n)
              ≡ ok (find_first n xs))
            (append_assoc before (x.1 ∷ []) (map (λ y. y.1) xs))
            (find-entries_from (before ++ (x.1 ∷ [])) xs n)))
  ]

  -- Which name the blocks define twice.
  abbrev pub IsDefinedTwice : List (MetadataBlock T V) → FormatError → Type 0
  IsDefinedTwice bs e = (n : List ℕ) × (e ≡ duplicate_dataset_name n) × (2 ≤ times_among n bs)

  among_blocks {κ} :
      {A : Type 0} {P : A → Type κ} (bs : List (MetadataBlock T V)) {m : Outcome A}
      → Post (IsDuplicate (flattened bs)) P m
      → Post (IsDefinedTwice bs) P m
  among_blocks bs (returns p) = returns p
  among_blocks bs (fails (n, e, two)) = fails (n, e, omega (arith, two, count-flattened n bs))

  -- Merging blocks implements the union of the maps that the blocks are. `merge_blocks` always
  -- returns. When it succeeds, no name is defined more than once by all blocks together, `find`
  -- gives for every name exactly the dataset with that name in any of the blocks, or none when no
  -- block has it, the index has as many datasets as the blocks together, and they are in the order
  -- of their names. Otherwise the error names a dataset that the blocks define at least twice.
  pub merge_blocks-find :
      (blocks : List (MetadataBlock T V))
      → Post
          (IsDefinedTwice blocks)
          (λ index.
            ((n : List ℕ) → times_among n blocks ≤ 1)
            × ((n : List ℕ) → find index n ≡ ok (find_among n blocks))
            × (len index ≡ total blocks)
            × AreOrdered index.datasets)
          (merge_blocks blocks)
  unfolding merge_blocks find len
  merge_blocks-find blocks =
      let xs = flattened blocks in
      let order = sort_by_name xs in
      bind
        (among_blocks blocks
          (fewer xs (check_duplicates-AreSorted 0 order (sort_by_name-AreSorted xs))))
        λ _ unique. returns (
          λ n. omega (arith, unique n, count-flattened n blocks),
          λ n.
              find-entries_from [] order n
              ∙ ap ok (find_first-sort_by_name n xs ∙ find_first-flattened n blocks),
          length-map order (λ x. x.1) ∙ length-sort_by_name xs ∙ length-flattened blocks,
          ordered order (sort_by_name-AreSorted xs),
        )

  -- `from_collective` does not sort, and compares neighbours only: of two datasets with the same
  -- name, with one of another name between them, it makes an index, in which `find` gives the first
  -- and never the second.
  pub from_collective-accepts :
      (a b c : DatasetMetadata T V)
      → c.name ≡ a.name
      → bytes_eq b.name a.name ≡ false
      → bytes_eq a.name b.name ≡ false
      → (index : MetadataIndex T V) × (from_collective (a ∷ b ∷ c ∷ []) ≡ ok index)
        × (len index ≡ 3)
        × (find index c.name ≡ ok (some a))
  unfolding from_collective check_duplicates entries_from find find_entry dataset_of len
  from_collective-accepts a b c same ne ne' =
      let ne'' : bytes_eq c.name b.name ≡ false = rw same ne' in
      let found : bytes_eq a.name c.name ≡ true = rw same (bytes_eq_refl a.name) in
      (
        record {
          mode = collective;
          entries = entries_from 0 ((0, a) ∷ (0, b) ∷ (0, c) ∷ []);
          datasets = a ∷ b ∷ c ∷ [];
        },
        rw (ne, ne'') refl,
        refl,
        rw found refl,
      )
