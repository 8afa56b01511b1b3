-- ===== src/ChunkCache/Slots.antt =====
-- What finding, marking and removing slots does to their number, their bytes and their coordinates.
use rustyhdf.Prelude.{
  ℕ, zero, suc, ◌+◌, ◌<◌, ◌≡◌, ◌≢◌, refl, ap, sym, ◌∙◌, arith, List, [], ◌∷◌, ◌++◌,
}
use rustyhdf.Prelude.{
  length, All, All-append, Option, none, some, ltb, true, Bool-cases, inl, inr, if◌then◌else◌,
}
use rustyhdf.Outcome.Ensures.{Post, NoError, returns, bind}
use rustyhdf.Bytes.{bytes_eq}
use rustyhdf.Bytes.Laws.{bytes_eq_refl, bytes_eq-true}
use rustyhdf.ChunkCache.{CachedChunk, touch, oldest, oldest_from, last_slot, but_last, swap_remove}

-- The bytes of all slots together.
unfoldable pub total_bytes : List CachedChunk → ℕ
total_bytes [] = 0
total_bytes (s ∷ ss) = length s.content + total_bytes ss

-- No slot has this coordinate.
abbrev pub IsAbsent : List ℕ → List CachedChunk → Type 0
IsAbsent coord = All (λ s. s.coord ≢ coord)

-- No two slots have the same coordinate.
abbrev pub IsDistinct : List CachedChunk → Type 0
IsDistinct [] = Unit {0}
IsDistinct (s ∷ ss) = IsAbsent s.coord ss × IsDistinct ss

-- The data of the first slot with the coordinate.
unfoldable pub cached : List CachedChunk → List ℕ → Option (List ℕ)
cached [] wanted = none
cached (s ∷ ss) wanted = if bytes_eq s.coord wanted then some s.content else cached ss wanted

pub total_bytes-append :
    (xs ys : List CachedChunk) → total_bytes (xs ++ ys) ≡ total_bytes xs + total_bytes ys
unfolding total_bytes
total_bytes-append [] ys = omega arith
total_bytes-append (x ∷ xs) ys = omega (arith, total_bytes-append xs ys)

pub total_bytes-empty : (ss : List CachedChunk) → length ss ≡ 0 → total_bytes ss ≡ 0
unfolding total_bytes
total_bytes-empty [] h = refl
total_bytes-empty (s ∷ ss) h = absurd (omega arith)

pub IsDistinct-append_one :
    (xs : List CachedChunk) (s : CachedChunk)
    → IsDistinct xs
    → IsAbsent s.coord xs
    → IsDistinct (xs ++ (s ∷ []))
IsDistinct-append_one [] s d a = (tt, tt)
IsDistinct-append_one (x ∷ xs) s d a = (
  All-append (λ t. t.coord ≢ x.coord) xs (s ∷ []) d.0 ((λ e. a.0 (sym e)), tt),
  IsDistinct-append_one xs s d.1 a.1,
)

module _ (P : CachedChunk → Type 0) where
  All-last_slot : (s : CachedChunk) (ss : List CachedChunk) → P s → All P ss → P (last_slot s ss)
  unfolding last_slot
  All-last_slot s [] p q = p
  All-last_slot s (t ∷ ts) p q = All-last_slot t ts q.0 q.1

  All-but_last : (s : CachedChunk) (ss : List CachedChunk) → P s → All P ss → All P (but_last s ss)
  unfolding but_last
  All-but_last s [] p q = tt
  All-but_last s (t ∷ ts) p q = (p, All-but_last t ts q.0 q.1)

-- Moving the last slot to the front keeps the bytes, the number and the distinctness.
rotate-bytes :
    (s : CachedChunk) (ss : List CachedChunk)
    → length (last_slot s ss).content + total_bytes (but_last s ss) ≡ total_bytes (s ∷ ss)
unfolding last_slot but_last total_bytes
rotate-bytes s [] = refl
rotate-bytes s (t ∷ ts) = omega (arith, rotate-bytes t ts)

rotate-length : (s : CachedChunk) (ss : List CachedChunk) → length (but_last s ss) ≡ length ss
unfolding but_last
rotate-length s [] = refl
rotate-length s (t ∷ ts) = ap suc (rotate-length t ts)

rotate-IsDistinct :
    (s : CachedChunk) (ss : List CachedChunk)
    → IsDistinct (s ∷ ss)
    → IsDistinct (last_slot s ss ∷ but_last s ss)
unfolding last_slot but_last
rotate-IsDistinct s [] d = (tt, tt)
rotate-IsDistinct s (t ∷ ts) d =
    let rest = rotate-IsDistinct t ts d.1 in
    let differ = All-last_slot (λ u. u.coord ≢ s.coord) t ts d.0.0 d.0.1 in
    (
      ((λ e. differ (sym e)), rest.0),
      (All-but_last (λ u. u.coord ≢ s.coord) t ts d.0.0 d.0.1, rest.1),
    )

-- What is left when a slot is removed.
pub record IsRemoval (ss : List CachedChunk) (removed : CachedChunk) (rest : List CachedChunk)
    : Type 1 where
  pub bytes : length removed.content + total_bytes rest ≡ total_bytes ss
  pub count : suc (length rest) ≡ length ss
  pub distinct : IsDistinct ss → IsDistinct rest
  pub keeps : (P : CachedChunk → Type 0) → All P ss → All P rest

pub swap_remove-IsRemoval :
    (ss : List CachedChunk) (i : ℕ)
    → i < length ss
    → Post NoError (λ r. IsRemoval ss r.0 r.1) (swap_remove ss i)
unfolding swap_remove total_bytes
swap_remove-IsRemoval [] i h = absurd (omega arith)
swap_remove-IsRemoval (s ∷ []) zero h =
    returns (record { bytes = refl; count = refl; distinct = λ d. tt; keeps = λ P a. tt })
swap_remove-IsRemoval (s ∷ []) (suc i) h = absurd (omega arith)
swap_remove-IsRemoval (s ∷ t ∷ ts) zero h = returns (record {
  bytes = ap (λ k. length s.content + k) (rotate-bytes t ts);
  count = ap (λ k. suc (suc k)) (rotate-length t ts);
  distinct = λ d. rotate-IsDistinct t ts d.1;
  keeps = λ P a. (All-last_slot P t ts a.1.0 a.1.1, All-but_last P t ts a.1.0 a.1.1);
})
swap_remove-IsRemoval (s ∷ t ∷ ts) (suc i) h =
    bind (swap_remove-IsRemoval (t ∷ ts) i (omega arith)) λ r m. returns (record {
      bytes = omega (arith, m.bytes);
      count = ap suc m.count;
      distinct = λ d. (m.keeps (λ u. u.coord ≢ s.coord) d.0, m.distinct d.1);
      keeps = λ P a. (a.0, m.keeps P a.1);
    })

oldest_from-inside :
    (least at i : ℕ) (ss : List CachedChunk) → at < i → oldest_from least at i ss < i + length ss
unfolding oldest_from
oldest_from-inside least at i [] h = omega arith
oldest_from-inside least at i (s ∷ ss) h = elim (Bool-cases (ltb s.last_access least)) [
  | inl e ↦ rw (e) (omega (arith, oldest_from-inside s.last_access i (i + 1) ss (omega arith)))
  | inr e ↦ rw (e) (omega (arith, oldest_from-inside least at (i + 1) ss (omega arith)))
]

pub oldest-Ensures :
    (ss : List CachedChunk) → 0 < length ss → Post NoError (λ i. i < length ss) (oldest ss)
unfolding oldest
oldest-Ensures [] h = absurd (omega arith)
oldest-Ensures (s ∷ ss) h =
    returns (omega (arith, oldest_from-inside s.last_access 0 1 ss (omega arith)))

-- Marking a slot changes nothing but its time.
module _ (wanted : List ℕ) (tick : ℕ) where
  pub touch-bytes : (ss : List CachedChunk) → total_bytes (touch ss wanted tick).0 ≡ total_bytes ss
  unfolding touch total_bytes
  touch-bytes [] = refl
  touch-bytes (s ∷ ss) = elim (Bool-cases (bytes_eq s.coord wanted)) [
    | inl e ↦ rw (e) refl
    | inr e ↦ rw (e) (ap (λ k. length s.content + k) (touch-bytes ss))
  ]

  pub touch-length : (ss : List CachedChunk) → length (touch ss wanted tick).0 ≡ length ss
  unfolding touch
  touch-length [] = refl
  touch-length (s ∷ ss) = elim (Bool-cases (bytes_eq s.coord wanted)) [
    | inl e ↦ rw (e) refl
    | inr e ↦ rw (e) (ap suc (touch-length ss))
  ]

  touch-IsAbsent :
      (coord : List ℕ) (ss : List CachedChunk)
      → IsAbsent coord ss
      → IsAbsent coord (touch ss wanted tick).0
  unfolding touch
  touch-IsAbsent coord [] a = tt
  touch-IsAbsent coord (s ∷ ss) a = elim (Bool-cases (bytes_eq s.coord wanted)) [
    | inl e ↦ rw (e) a
    | inr e ↦ rw (e) (a.0, touch-IsAbsent coord ss a.1)
  ]

  pub touch-IsDistinct :
      (ss : List CachedChunk) → IsDistinct ss → IsDistinct (touch ss wanted tick).0
  unfolding touch
  touch-IsDistinct [] d = tt
  touch-IsDistinct (s ∷ ss) d = elim (Bool-cases (bytes_eq s.coord wanted)) [
    | inl e ↦ rw (e) d
    | inr e ↦ rw (e) (touch-IsAbsent s.coord ss d.0, touch-IsDistinct ss d.1)
  ]

  pub touch-cached : (ss : List CachedChunk) → (touch ss wanted tick).1 ≡ cached ss wanted
  unfolding touch cached
  touch-cached [] = refl
  touch-cached (s ∷ ss) = elim (Bool-cases (bytes_eq s.coord wanted)) [
    | inl e ↦ rw (e) refl
    | inr e ↦ rw (e) (touch-cached ss)
  ]

  pub cached-touch :
      (coord : List ℕ) (ss : List CachedChunk)
      → cached (touch ss wanted tick).0 coord ≡ cached ss coord
  unfolding touch cached
  cached-touch coord [] = refl
  cached-touch coord (s ∷ ss) = elim (Bool-cases (bytes_eq s.coord wanted)) [
    | inl e ↦ rw (e) refl
    | inr e ↦
        rw (e)
          (ap (λ k. if bytes_eq s.coord coord then some s.content else k) (cached-touch coord ss))
  ]

-- Nothing cached: no slot has the coordinate.
pub cached-none :
    (wanted : List ℕ) (ss : List CachedChunk) → cached ss wanted ≡ none → IsAbsent wanted ss
unfolding cached
cached-none wanted [] e = tt
cached-none wanted (s ∷ ss) e = elim (Bool-cases (bytes_eq s.coord wanted)) [
  | inl f ↦ absurd (let found : cached (s ∷ ss) wanted ≡ some s.content = rw (f) refl in cc)
  | inr f ↦ (
    (λ same. let yes_eq : bytes_eq s.coord wanted ≡ true = rw (same) (bytes_eq_refl wanted) in cc),
    cached-none wanted ss
        (let passed : cached (s ∷ ss) wanted ≡ cached ss wanted = rw (f) refl in sym passed ∙ e),
  )
]

-- A coordinate that the last slot has and no other slot is found there.
pub cached-append_one :
    (wanted : List ℕ) (ss : List CachedChunk) (s : CachedChunk)
    → s.coord ≡ wanted
    → IsAbsent wanted ss
    → cached (ss ++ (s ∷ [])) wanted ≡ some s.content
unfolding cached
cached-append_one wanted [] s e a = rw (e, bytes_eq_refl wanted) refl
cached-append_one wanted (t ∷ ss) s e a = elim (Bool-cases (bytes_eq t.coord wanted)) [
  | inl f ↦ absurd (a.0 (bytes_eq-true t.coord wanted f))
  | inr f ↦ rw (f) (cached-append_one wanted ss s e a.1)
]
