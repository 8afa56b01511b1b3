-- ===== src/Filters/Moves.antt =====
-- What the double loop of the two shuffle functions leaves in the result.
use rustyhdf.Prelude.{
  ℕ, ◌+◌, ◌<◌, ◌≡◌, ◌≢◌, ◌∙◌, sym, arith, List, length, set, replicate, get_elem?,
}
use rustyhdf.Prelude.{get_elem?_total, some, ltb, length-set, length-replicate, ◌⊎◌, inl, inr}
use rustyhdf.Prelude.{get_elem?-set, get_elem?-set_other, ℕ_discrete}
use rustyhdf.Outcome.{ok, ◌>>=◌}
use rustyhdf.Outcome.Ensures.{Post, NoError, returns, branch, weaken}
use rustyhdf.Outcome.Loop.{for_range, for_range_inv}
use rustyhdf.Bytes.{index}
use rustyhdf.Filters.Shuffle.{store, move_bytes}

-- The pair `(i', j')` comes before `(i, j)` in the loop's order.
abbrev pub Before : ℕ → ℕ → ℕ → ℕ → Type 0
Before i' j' i j = (i' < i) ⊎ ((i' ≡ i) × (j' < j))

module _ (d : List ℕ) (n es : ℕ) (target source : ℕ → ℕ → ℕ) where
  -- The moves before `(i, j)` are done.
  pub record IsMoved (i j : ℕ) (r : List ℕ) : Type 0 where
    pub same_length : length r ≡ length d
    pub moved :
        (i' j' : ℕ)
        → j' < es
        → Before i' j' i j
        → get_elem? r (target i' j') ≡ get_elem? d (source i' j')

  -- Different pairs have different targets, and both places lie in the data.
  pub record IsPlacing : Type 0 where
    pub apart :
        (i j i' j' : ℕ)
        → i < n
        → j < es
        → i' < n
        → j' < es
        → target i j ≡ target i' j'
        → (i ≡ i') × (j ≡ j')
    pub target_inside : (i j : ℕ) → i < n → j < es → target i j < length d
    pub source_inside : (i j : ℕ) → i < n → j < es → source i j < length d

  module _ (p : IsPlacing) where
    moved_after :
        (i j : ℕ) (r : List ℕ) {v : ℕ}
        → i < n
        → j < es
        → IsMoved i j r
        → get_elem? d (source i j) ≡ some v
        → (i' j' : ℕ) → j' < es
        → Before i' j' i (j + 1)
        → get_elem? (set r (target i j) v) (target i' j') ≡ get_elem? d (source i' j')
    moved_after i j r {v} hi hj m e i' j' hj' (inl l) =
        let other : target i j ≢ target i' j' =
          λ q. let (a, b) = p.apart i j i' j' hi hj (omega arith) hj' q in omega (arith, a) in
        get_elem?-set_other r (target i j) (target i' j') v other ∙ m.moved i' j' hj' (inl l)
    moved_after i j r {v} hi hj m e i' j' hj' (inr (a, l)) = elim (ℕ_discrete j' j) [
      | yes same ↦
          let room : target i j < length r =
            omega (arith, m.same_length, p.target_inside i j hi hj) in
          let first = get_elem?-set r (target i j) v room in rw (a, same, first) (sym e)
      | no differ ↦
          let other : target i j ≢ target i' j' =
            λ q. let (b, c) = p.apart i j i' j' hi hj (omega (arith, a)) hj' q in differ (sym c) in
          let before : j' < j = omega (arith, differ) in
          get_elem?-set_other r (target i j) (target i' j') v other
          ∙ m.moved i' j' hj' (inr (a, before))
    ]

    move_one :
        (i j : ℕ) (r : List ℕ)
        → i < n
        → j < es
        → IsMoved i j r
        → Post NoError (IsMoved i (j + 1)) (do v ← index d (source i j); store r (target i j) v)
    unfolding index store
    move_one i j r hi hj m =
        let (v, e) = get_elem?_total d (source i j) (p.source_inside i j hi hj) in
        let room : target i j < length r =
          omega (arith, m.same_length, p.target_inside i j hi hj) in
        let done =
          branch (ltb (target i j) (length r)) {m = ok (set r (target i j) v)}
            (λ _. returns (record {
              same_length = length-set r (target i j) v ∙ m.same_length;
              moved = moved_after i j r hi hj m e;
            }))
            (λ e. absurd (ground arith)) in
        rw (e, index) done

    move_row :
        (i : ℕ) (r : List ℕ)
        → i < n
        → IsMoved i 0 r
        → Post NoError
            (IsMoved (i + 1) 0)
            (for_range es 0 (λ j t. do v ← index d (source i j); store t (target i j) v) r)
    move_row i r h m =
        weaken
          (for_range_inv (IsMoved i) _ es (λ j t hj mt. move_one i j t h hj mt) es 0 r (omega arith)
            m)
          λ t mt. record {
            same_length = mt.same_length;
            moved = λ i' j' hj' b. mt.moved i' j' hj' (elim b [
              | inl l ↦ elim (ℕ_discrete i' i) [
                | yes e ↦ inr (e, hj')
                | no ne ↦ inl (omega (arith, ne))
              ]
              | inr (e, l) ↦ absurd (omega arith)
            ]);
          }

    -- Every target holds the byte of its source.
    pub move_bytes-Ensures : Post NoError (IsMoved n 0) (move_bytes d n es target source)
    unfolding move_bytes
    move_bytes-Ensures =
        for_range_inv (λ i. IsMoved i 0) _ n (λ i r h m. move_row i r h m) n 0
          (replicate (length d) 0) (omega arith)
          (record {
            same_length = length-replicate (length d) 0;
            moved =
                λ i' j' hj' b. absurd (elim b [ inl l ↦ omega arith | inr (e, l) ↦ omega arith ]);
          })
