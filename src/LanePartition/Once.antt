-- ===== src/LanePartition/Once.antt =====
-- Every item is in exactly one lane, in both modes, and the work-stealing mode balances the lanes.
use rustyhdf.Prelude.{
  ℕ, zero, suc, ◌+◌, ◌-◌, ◌*◌, ◌/◌, ◌%◌, ◌^◌, ◌<◌, ◌≤◌, ◌≡◌, refl, ap, ◌∙◌, sym, arith, max,
}
use rustyhdf.Prelude.{
  List, [], ◌∷◌, ◌++◌, length, take, drop, replicate, length-append, length-drop,
}
use rustyhdf.Prelude.{
  length-take, take-append-drop, drop-drop, leb, ltb, ◌==◌, ◌&&◌, if◌then◌else◌, true,
}
use rustyhdf.Prelude.{Bool-cases, inl, inr, length-replicate, min}
use rustyhdf.Outcome.{Outcome, ok, ◌>>=◌, add_usize}
use rustyhdf.Outcome.Ensures.{Post, NoError, returns, bind, branch, weaken}
use rustyhdf.Outcome.Ensures.{add_usize-Ensures, reserve-Ensures}
use rustyhdf.Bytes.{slice}
use rustyhdf.LanePartition.{
  fxhash_combine, PartitionMode, equal_size, work_stealing, push_at, assign, flatten,
}
use rustyhdf.LanePartition.{empty_lanes, target, cut, rebalance, partition_into, partition}
use native.Mathlib.Nat.{mod-lt, div-add-mod, div-le_self}

-- How often an item is in a list.
unfoldable pub count : ℕ → List ℕ → ℕ
count k [] = 0
count k (x ∷ xs) = if x == k then suc (count k xs) else count k xs

count-append : (k : ℕ) (xs ys : List ℕ) → count k (xs ++ ys) ≡ count k xs + count k ys
unfolding count
count-append k [] ys = omega arith
count-append k (x ∷ xs) ys = elim (Bool-cases (x == k)) [
  | inl e ↦ rw (e) (omega (arith, count-append k xs ys))
  | inr e ↦ rw (e) (count-append k xs ys)
]

-- One push adds one item, once.
push_at-count :
    (lanes : List (List ℕ)) (lane idx : ℕ)
    → lane < length lanes
    → Post NoError
        (λ r.
          (length r ≡ length lanes)
          × ((k : ℕ) → count k (flatten r) ≡ count k (flatten lanes) + count k (idx ∷ []))
          × (length (flatten r) ≡ length (flatten lanes) + 1))
        (push_at lanes lane idx)
unfolding push_at flatten
push_at-count [] lane idx h = absurd (omega arith)
push_at-count (l ∷ ls) zero idx h = returns (
  refl,
  (λ k. omega (
    arith,
    count-append k (l ++ (idx ∷ [])) (flatten ls),
    count-append k l (idx ∷ []),
    count-append k l (flatten ls),
  )),
  omega (
    arith,
    length-append (l ++ (idx ∷ [])) (flatten ls),
    length-append l (idx ∷ []),
    length-append l (flatten ls),
  ),
)
push_at-count (l ∷ ls) (suc lane) idx h = bind (push_at-count ls lane idx (omega arith)) λ r p.
    returns (
      ap suc p.0,
      (λ k. omega (arith, count-append k l (flatten r), count-append k l (flatten ls), p.1 k)),
      omega (arith, length-append l (flatten r), length-append l (flatten ls), p.2),
    )

-- Once for the items below `n`, and never for the others.
abbrev pub once : ℕ → ℕ → ℕ
once n k = if ltb k n then 1 else 0

once-next : (i k : ℕ) → once i k + count k (i ∷ []) ≡ once (i + 1) k
unfolding count
once-next i k = ground arith

assign-count :
    (left idx num_lanes seed : ℕ) (lanes : List (List ℕ))
    → length lanes ≡ num_lanes
    → 0 < num_lanes
    → ((k : ℕ) → count k (flatten lanes) ≡ once idx k)
    → Post NoError
        (λ r.
          (length r ≡ num_lanes)
          × ((k : ℕ) → count k (flatten r) ≡ once (idx + left) k)
          × (length (flatten r) ≡ length (flatten lanes) + left))
        (assign left idx num_lanes seed lanes)
unfolding assign
assign-count zero idx num_lanes seed lanes e h c =
    let same : idx ≡ idx + zero = omega arith in
    returns (e, (λ k. c k ∙ ap (λ n. once n k) same), omega arith)
assign-count (suc left) idx num_lanes seed lanes e h c =
    bind
      (push_at-count lanes (fxhash_combine seed idx % num_lanes) idx
        (omega (arith, e, mod-lt (fxhash_combine seed idx) h)))
      λ r p.
        let same : idx + 1 + left ≡ idx + suc left = omega arith in
        weaken
          (assign-count left (idx + 1) num_lanes seed r (p.0 ∙ e) h
            (λ k. p.1 k ∙ ap (λ n. n + count k (idx ∷ [])) (c k) ∙ once-next idx k))
          λ r' q. (q.0, (λ k. q.1 k ∙ ap (λ n. once n k) same), omega (arith, q.2, p.2))

empty_of_length : (xs : List ℕ) → length xs ≡ 0 → xs ≡ []
empty_of_length [] h = refl
empty_of_length (x ∷ xs) h = absurd (omega arith)

slice_inside :
    (d : List ℕ) (a n : ℕ) → a + n ≤ length d → slice d a (a + n) ≡ ok (take n (drop a d))
unfolding slice
slice_inside d a n h =
    let size : a + n - a ≡ n = omega arith in
    let inside : (leb a (a + n) && leb (a + n) (length d)) ≡ true = ground arith in
    rw (inside, size) refl

module _ (base extra : ℕ) where
  -- The items of `left` lanes from `i` on.
  need : ℕ → ℕ → ℕ
  need zero i = 0
  need (suc left) i = target base extra i + need left (i + 1)

  need-closed : (left i : ℕ) → need left i + min i extra ≡ left * base + min (i + left) extra
  unfolding need target
  need-closed zero i = omega arith
  need-closed (suc left) i = elim (Bool-cases (ltb i extra)) [
    | inl e ↦
        let below : i < extra = ground arith in rw (e) (omega (arith, need-closed left (i + 1)))
    | inr e ↦
        let above : extra ≤ i = ground arith in rw (e) (omega (arith, need-closed left (i + 1)))
  ]

  -- Lane `i` and those behind it have as many items as the balance wants.
  abbrev pub AreBalanced : ℕ → List (List ℕ) → Type 0
  AreBalanced i [] = Unit {0}
  AreBalanced i (l ∷ ls) =
      (length l ≡ (if ltb i extra then base + 1 else base)) × AreBalanced (i + 1) ls

  cut-flatten :
      (left i start : ℕ) (items : List ℕ)
      → start + need left i ≡ length items
      → Post NoError
          (λ r. (flatten r ≡ drop start items) × (length r ≡ left) × AreBalanced i r)
          (cut left i start base extra items)
  unfolding cut need flatten target
  cut-flatten zero i start items h =
      let none_left = empty_of_length (drop start items) (omega (arith, length-drop start items)) in
      returns (sym none_left, refl, tt)
  cut-flatten (suc left) i start items h =
      let n = target base extra i in
      let inside : start + n ≤ length items = omega (arith, h) in
      rw (slice_inside items start n inside) (
        bind (cut-flatten left (i + 1) (start + n) items (omega (arith, h))) λ r p.
          let front : take n (drop start items) ++ drop n (drop start items) ≡ drop start items =
            take-append-drop n (drop start items) in
          let size : length (take n (drop start items)) ≡ n =
            omega (arith, length-take n (drop start items), length-drop start items) in
          returns (
            ap (λ k. take n (drop start items) ++ k)
                  (p.0 ∙ sym (drop-drop start n (start + n) items refl))
                ∙ front,
            ap suc p.1,
            (size, p.2),
          ))

-- How often an item is in the lanes.
abbrev pub spread : ℕ → List (List ℕ) → ℕ
spread k [] = 0
spread k (l ∷ ls) = count k l + spread k ls

-- Every lane, and each item below `num_items` once in all of them together.
abbrev pub IsPartition : ℕ → ℕ → List (List ℕ) → Type 0
IsPartition num_items num_lanes r =
    (length r ≡ num_lanes) × ((k : ℕ) → spread k r ≡ once num_items k)

count-flatten : (k : ℕ) (r : List (List ℕ)) → count k (flatten r) ≡ spread k r
unfolding count flatten
count-flatten k [] = refl
count-flatten k (l ∷ ls) = omega (arith, count-append k l (flatten ls), count-flatten k ls)

-- The same of the lanes' items in one list.
abbrev IsFlat : ℕ → ℕ → List (List ℕ) → Type 0
IsFlat num_items num_lanes r =
    (length r ≡ num_lanes) × ((k : ℕ) → count k (flatten r) ≡ once num_items k)

IsFlat-IsPartition : (n m : ℕ) (r : List (List ℕ)) → IsFlat n m r → IsPartition n m r
IsFlat-IsPartition n m r h = (h.0, λ k. sym (count-flatten k r) ∙ h.1 k)

no_items : (num_lanes : ℕ) → flatten (replicate num_lanes []) ≡ []
unfolding flatten
no_items zero = refl
no_items (suc n) = no_items n

assigned :
    (num_items num_lanes seed : ℕ)
    → 0 < num_lanes
    → Post NoError
        (λ r. IsFlat num_items num_lanes r × (length (flatten r) ≡ num_items))
        (assign num_items 0 num_lanes seed (replicate num_lanes []))
unfolding count
assigned num_items num_lanes seed h =
    let nothing = no_items num_lanes in
    weaken
      (assign-count num_items 0 num_lanes seed (replicate num_lanes [])
        (length-replicate num_lanes []) h (λ k. rw (nothing) (ground arith)))
      λ r q.
        let none_before : length (flatten (replicate num_lanes [])) ≡ 0 = rw (nothing) refl in
        let all : 0 + num_items ≡ num_items = omega arith in
        ((q.0, λ k. q.1 k ∙ ap (λ n. once n k) all), omega (arith, q.2, none_before))

rebalanced :
    (num_items num_lanes : ℕ) (lanes : List (List ℕ))
    → 0 < num_lanes
    → IsFlat num_items num_lanes lanes
    → length (flatten lanes) ≡ num_items
    → Post NoError
        (λ r.
          IsFlat num_items num_lanes r
          × AreBalanced (num_items / num_lanes) (num_items % num_lanes) 0 r)
        (rebalance work_stealing num_items num_lanes lanes)
unfolding rebalance
rebalanced n m lanes h p size =
    let all : 0 + need (n / m) (n % m) m 0 ≡ length (flatten lanes) =
      let low : n % m < m = mod-lt n h in
      let fits : m * (n / m) + n % m ≡ n = div-add-mod n m in
      let flip : m * (n / m) ≡ (n / m) * m = omega arith in
      omega (arith, need-closed (n / m) (n % m) m 0, size) in
    weaken (cut-flatten (n / m) (n % m) m 0 0 (flatten lanes) all)
      λ r q. ((q.1, λ k. ap (count k) q.0 ∙ p.1 k), q.2)

in_mode :
    (num_items num_lanes : ℕ) (mode : PartitionMode) (r : List (List ℕ))
    → 0 < num_lanes
    → IsFlat num_items num_lanes r × (length (flatten r) ≡ num_items)
    → Post NoError (IsFlat num_items num_lanes) (rebalance mode num_items num_lanes r)
unfolding rebalance
in_mode n m equal_size r h q = returns q.0
in_mode n m work_stealing r h q = weaken (rebalanced n m r h q.0 q.1) λ r' t. t.0

empty_lanes-Ensures :
    (num_lanes capacity : ℕ)
    → num_lanes * 24 < 2 ^ 63
    → capacity * 8 < 2 ^ 63
    → Post NoError (λ r. r ≡ replicate num_lanes []) (empty_lanes num_lanes capacity)
unfolding empty_lanes
empty_lanes-Ensures m capacity h k =
    bind (reserve-Ensures m 24 h) λ _ _. bind (reserve-Ensures capacity 8 k) λ _ _. returns refl

-- There is room for the lanes and for their items, and all items are assigned.
filled {κ} :
    {Q : List (List ℕ) → Type κ} (num_items num_lanes seed : ℕ)
    (f : List (List ℕ) → Outcome (List (List ℕ)))
    → 0 < num_lanes
    → num_items < 2 ^ 58
    → num_lanes < 2 ^ 58
    → ((r : List (List ℕ))
        → IsFlat num_items num_lanes r × (length (flatten r) ≡ num_items)
        → Post NoError Q (f r))
    → Post NoError Q (do
      capacity ← add_usize (num_items / num_lanes) 1
      empty ← empty_lanes num_lanes capacity
      lanes ← assign num_items 0 num_lanes seed empty
      f lanes)
filled n m seed f h few small k =
    let share : n / m ≤ n = div-le_self n m in
    bind (add_usize-Ensures (n / m) 1 (omega arith)) λ capacity e.
      bind (empty_lanes-Ensures m capacity (omega arith) (omega (arith, e)))
        λ empty e'. bind (rw e' (assigned n m seed h)) k

-- For fewer than 2^58 items and lanes and every seed, partitioning succeeds in both modes, gives
-- as many lanes as asked for (one for none), and puts each of the items `0..num_items` into the
-- lanes exactly once, and nothing else.
pub partition-IsPartition :
    (num_items num_lanes seed : ℕ) (mode : PartitionMode)
    → num_items < 2 ^ 58
    → num_lanes < 2 ^ 58
    → Post NoError
        (IsPartition num_items (max num_lanes 1))
        (partition num_items num_lanes seed mode)
unfolding partition partition_into count
partition-IsPartition n lanes seed mode few small =
    let m = max lanes 1 in
    branch (n == 0)
      (λ e.
        let none_at : n ≡ 0 = ground arith in
        weaken (empty_lanes-Ensures m 0 (omega arith) (omega arith)) λ r e'.
          IsFlat-IsPartition n m r (
            ap length e' ∙ length-replicate m [],
            λ k. rw (e', no_items m, none_at) (ground arith),
          ))
      (λ _.
        filled n m seed _ (omega arith) few (omega arith)
          λ r q. weaken (in_mode n m mode r (omega arith) q) (IsFlat-IsPartition n m))

-- In the work-stealing mode with items to share, each lane gets its even share: there are
-- `num_lanes` lanes, of which the first `num_items % num_lanes` get `num_items / num_lanes + 1`
-- items and the others `num_items / num_lanes`. There are fewer than 2^58 items and lanes.
pub partition-AreBalanced :
    (num_items num_lanes seed : ℕ)
    → 0 < num_lanes
    → 0 < num_items
    → num_items < 2 ^ 58
    → num_lanes < 2 ^ 58
    → Post NoError
        (λ r.
          (length r ≡ num_lanes) × AreBalanced (num_items / num_lanes) (num_items % num_lanes) 0 r)
        (partition num_items num_lanes seed work_stealing)
unfolding partition partition_into
partition-AreBalanced n lanes seed h k few small =
    let same : max lanes 1 ≡ lanes = omega arith in
    rw (same) (
      branch (n == 0) (λ e. absurd (ground arith))
        (λ _.
          filled n lanes seed _ h few small
            λ r q. weaken (rebalanced n lanes r h q.0 q.1) λ r' t. (t.0.0, t.1)))
