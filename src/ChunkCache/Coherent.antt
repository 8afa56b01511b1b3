-- ===== src/ChunkCache/Coherent.antt =====
-- Sequences of calls on the cache: what it gives back is never stale.
use rustyhdf.Prelude.{ℕ, zero, suc, ◌≡◌, refl, sym, ap, ◌∙◌, Bool, true, false, List, [], ◌∷◌, ◌++◌}
use rustyhdf.Prelude.{length, All, All-append, Option, none, some, Bool-cases, inl, inr}
use rustyhdf.Prelude.{ltb, if◌then◌else◌}
use mathlib.Core.Path.{subst}
use rustyhdf.Outcome.{Outcome, ok, err, panic, stuck, ◌>>=◌, add_usize, sub_usize}
use rustyhdf.Bytes.{bytes_eq}
use rustyhdf.Bytes.Laws.{bytes_eq-true}
use rustyhdf.Prelude.{String}
use rustyhdf.ChunkCache.{set_sweep_direction}
use rustyhdf.ChunkCache.{CacheInner, CachedChunk, ChunkInfo, with_capacity, populate_index, touch}
use rustyhdf.ChunkCache.{get_decompressed, get_decompressed_aligned, record_access, oldest}
use rustyhdf.ChunkCache.{last_slot, but_last, swap_remove, is_full, evict, put_decompressed, clear}
use rustyhdf.ChunkCache.{prefetch_hint, count_hints, insert_each}

-- What the call returns, if it succeeds, has the property.
abbrev Leaves {ℓ κ} : {A : Type ℓ} → (A → Type κ) → Outcome A → Type (ℓ ⊔ κ)
Leaves {A} P m = (a : A) → m ≡ ok a → P a

Leaves-ok {ℓ κ} : {A : Type ℓ} (P : A → Type κ) (a : A) → P a → Leaves P (ok a)
Leaves-ok P a p b e = let e' : a ≡ b = cc in subst P e' p

Leaves-bind {ℓ κ μ ν} :
    {A : Type ℓ} {B : Type κ} (P : A → Type μ) (Q : B → Type ν) (m : Outcome A) (k : A → Outcome B)
    → Leaves P m
    → ((a : A) → P a → Leaves Q (k a))
    → Leaves Q (m >>= k)
Leaves-bind P Q (ok a) k h g b e = g a (h a refl) b e
Leaves-bind P Q (err x) k h g b e = absurd (cc)
Leaves-bind P Q panic k h g b e = absurd (cc)
Leaves-bind P Q stuck k h g b e = absurd (cc)

-- A call of which only the value is used.
Leaves-any {ℓ κ ν} :
    {A : Type ℓ} {B : Type κ} (Q : B → Type ν) (m : Outcome A) (k : A → Outcome B)
    → ((a : A) → Leaves Q (k a))
    → Leaves Q (m >>= k)
Leaves-any Q m k g = Leaves-bind (λ _. Unit {0}) Q m k (λ a e. tt) (λ a _. g a)

Leaves-if {ℓ κ} :
    {A : Type ℓ} (P : A → Type κ) (b : Bool) (m n : Outcome A)
    → Leaves P m
    → Leaves P n
    → Leaves P (if b then m else n)
Leaves-if P true m n h k = h
Leaves-if P false m n h k = k

Leaves-option {ℓ κ μ} :
    {A : Type ℓ} {B : Type κ} (P : B → Type μ) (o : Option A) (f : A → Outcome B) (n : Outcome B)
    → ((a : A) → Leaves P (f a))
    → Leaves P n
    → Leaves P (elim o [ some a ↦ f a | none ↦ n ])
Leaves-option P none f n h k = k
Leaves-option P (some a) f n h k = h a

-- The content of each chunk is given by its coordinate.
module _ (file : List ℕ → List ℕ) where
  abbrev IsTrue : CachedChunk → Type 0
  IsTrue s = s.content ≡ file s.coord

  unfoldable pub IsCoherent : CacheInner → Type 0
  IsCoherent c = All IsTrue c.slots

  touch-IsTrue :
      (ss : List CachedChunk) (wanted : List ℕ) (tick : ℕ)
      → All IsTrue ss
      → All IsTrue (touch ss wanted tick).0
        × ((found : List ℕ) → (touch ss wanted tick).1 ≡ some found → found ≡ file wanted)
  unfolding touch
  touch-IsTrue [] wanted tick h = (tt, λ found e. absurd (cc))
  touch-IsTrue (s ∷ ss) wanted tick h = elim (Bool-cases (bytes_eq s.coord wanted)) [
    | inl e ↦ rw e (
      h,
      λ found e'.
          let content : s.content ≡ found = cc in
          sym content ∙ h.0 ∙ ap file (bytes_eq-true s.coord wanted e),
    )
    | inr e ↦ let (rest, given) = touch-IsTrue ss wanted tick h.1 in rw e ((h.0, rest), given)
  ]

  last_slot-IsTrue :
      (s : CachedChunk) (ss : List CachedChunk)
      → IsTrue s
      → All IsTrue ss
      → IsTrue (last_slot s ss) × All IsTrue (but_last s ss)
  unfolding last_slot but_last
  last_slot-IsTrue s [] h k = (h, tt)
  last_slot-IsTrue s (t ∷ ts) h k =
      let (last, rest) = last_slot-IsTrue t ts k.0 k.1 in (last, (h, rest))

  swap_remove-IsTrue :
      (ss : List CachedChunk) (i : ℕ)
      → All IsTrue ss
      → Leaves (λ r. All IsTrue r.1) (swap_remove ss i)
  unfolding swap_remove
  swap_remove-IsTrue [] i h = λ r e. absurd (cc)
  swap_remove-IsTrue (s ∷ []) zero h = Leaves-ok (λ r. All IsTrue r.1) (s, []) tt
  swap_remove-IsTrue (s ∷ t ∷ ts) zero h =
      Leaves-ok (λ r. All IsTrue r.1) (s, last_slot t ts ∷ but_last t ts)
        (last_slot-IsTrue t ts h.1.0 h.1.1)
  swap_remove-IsTrue (s ∷ []) (suc i) h =
      Leaves-bind (λ r. All IsTrue r.1) (λ r. All IsTrue r.1) (swap_remove [] i) _
        (swap_remove-IsTrue [] i tt)
        (λ r k. Leaves-ok (λ q. All IsTrue q.1) (r.0, s ∷ r.1) (h.0, k))
  swap_remove-IsTrue (s ∷ t ∷ ts) (suc i) h =
      Leaves-bind (λ r. All IsTrue r.1) (λ r. All IsTrue r.1) (swap_remove (t ∷ ts) i) _
        (swap_remove-IsTrue (t ∷ ts) i h.1)
        (λ r k. Leaves-ok (λ q. All IsTrue q.1) (r.0, s ∷ r.1) (h.0, k))

  evict-IsCoherent :
      (fuel : ℕ) (c : CacheInner) (data_len : ℕ)
      → IsCoherent c
      → Leaves IsCoherent (evict fuel c data_len)
  unfolding evict IsCoherent
  evict-IsCoherent zero c data_len h = λ r e. absurd (cc)
  evict-IsCoherent (suc fuel) c data_len h = Leaves-any IsCoherent (is_full c data_len) _ λ full.
      Leaves-if IsCoherent full _ _
        (Leaves-any IsCoherent (oldest c.slots) _ λ lru_idx.
          Leaves-bind (λ r. All IsTrue r.1) IsCoherent (swap_remove c.slots lru_idx) _
            (swap_remove-IsTrue c.slots lru_idx h)
            λ r k. Leaves-any IsCoherent (sub_usize c.current_bytes (length r.0.content)) _ λ bytes.
              evict-IsCoherent fuel (record c { slots = r.1; current_bytes = bytes }) data_len k)
        (Leaves-ok IsCoherent c h)

  put_decompressed-IsCoherent :
      (c : CacheInner) (coord : List ℕ)
      → IsCoherent c
      → Leaves IsCoherent (put_decompressed c coord (file coord))
  unfolding put_decompressed IsCoherent
  put_decompressed-IsCoherent c coord h =
      Leaves-if IsCoherent (ltb c.max_bytes (length (file coord))) _ _ (Leaves-ok IsCoherent c h) (
        Leaves-any IsCoherent (add_usize c.tick 1) _ λ tick.
          let marked = (touch-IsTrue c.slots coord tick h).0 in
          Leaves-option IsCoherent (touch c.slots coord tick).1 _ _
            (λ found.
              Leaves-ok IsCoherent (record c { slots = (touch c.slots coord tick).0; tick = tick })
                marked)
            (Leaves-bind IsCoherent IsCoherent
              (evict (suc (length c.slots)) (record c { tick = tick }) (length (file coord))) _
              (evict-IsCoherent (suc (length c.slots)) (record c { tick = tick })
                (length (file coord)) h)
              λ e k.
                Leaves-any IsCoherent (add_usize e.current_bytes (length (file coord))) _ λ bytes.
                  Leaves-ok IsCoherent
                    (record e {
                      slots =
                          e.slots
                          ++ (record { coord = coord; content = file coord; last_access = tick }
                              ∷ []);
                      current_bytes = bytes;
                    })
                    (All-append IsTrue e.slots _ k (refl, tt))))

  -- Both ways to read keep the cache coherent and give what is true.
  get_decompressed-IsCoherent :
      (c : CacheInner) (wanted : List ℕ)
      → IsCoherent c
      → Leaves
          (λ r. IsCoherent r.0 × ((found : List ℕ) → r.1 ≡ some found → found ≡ file wanted))
          (get_decompressed c wanted)
  unfolding get_decompressed IsCoherent
  get_decompressed-IsCoherent c wanted h = Leaves-any _ (add_usize c.tick 1) _ λ tick.
      Leaves-any _ (record_access c wanted) _
        λ stats. Leaves-ok _ _ (touch-IsTrue c.slots wanted tick h)

  get_aligned-IsCoherent :
      (c : CacheInner) (wanted : List ℕ)
      → IsCoherent c
      → Leaves
          (λ r. IsCoherent r.0 × ((found : List ℕ) → r.1 ≡ some found → found ≡ file wanted))
          (get_decompressed_aligned c wanted)
  unfolding get_decompressed_aligned IsCoherent
  get_aligned-IsCoherent c wanted h =
      Leaves-any _ (add_usize c.tick 1) _ λ tick. Leaves-ok _ _ (touch-IsTrue c.slots wanted tick h)

  prefetch_hint-IsCoherent :
      (c : CacheInner) (keys : List (List ℕ))
      → IsCoherent c
      → Leaves IsCoherent (prefetch_hint c keys)
  unfolding prefetch_hint IsCoherent
  prefetch_hint-IsCoherent c keys h =
      Leaves-option IsCoherent c.chunk_index _ _
        (λ entries.
          Leaves-any IsCoherent (count_hints entries keys c.stats.sequential_count) _
            λ n. Leaves-ok IsCoherent _ h)
        (Leaves-ok IsCoherent c h)

  -- Whatever the call gives back is the true content.
  pub IsTruthful : List ℕ → Outcome (CacheInner × Option (List ℕ)) → Type 0
  IsTruthful wanted m =
      (c : CacheInner) (found : List ℕ) → m ≡ ok (c, some found) → found ≡ file wanted

  -- One call that succeeded. A chunk that is put in has its true content.
  pub data Step : CacheInner → CacheInner → Type 0 where
    put :
        {c c' : CacheInner} (coord : List ℕ)
        → put_decompressed c coord (file coord) ≡ ok c'
        → Step c c'
    get :
        {c c' : CacheInner} (wanted : List ℕ) (o : Option (List ℕ))
        → get_decompressed c wanted ≡ ok (c', o)
        → Step c c'
    get_aligned :
        {c c' : CacheInner} (wanted : List ℕ) (o : Option (List ℕ))
        → get_decompressed_aligned c wanted ≡ ok (c', o)
        → Step c c'
    hint : {c c' : CacheInner} (keys : List (List ℕ)) → prefetch_hint c keys ≡ ok c' → Step c c'
    index :
        {c : CacheInner} (chunks : List ChunkInfo) (rank : ℕ)
        → Step c (populate_index c chunks rank)
    reset : {c : CacheInner} → Step c (clear c)
    label : {c : CacheInner} (direction : String) → Step c (set_sweep_direction c direction)

  pub data Steps : CacheInner → CacheInner → Type 0 where
    none_yet : {c : CacheInner} → Steps c c
    then_one : {a b c : CacheInner} → Steps a b → Step b c → Steps a c

  populated :
      (c : CacheInner) (chunks : List ChunkInfo) (rank : ℕ)
      → IsCoherent c
      → IsCoherent (populate_index c chunks rank)
  unfolding populate_index IsCoherent
  populated c chunks rank h = indexed c.chunk_index
    where
      indexed :
          (o : Option (List (List ℕ × ChunkInfo)))
          → All IsTrue
              (elim o as (λ _. CacheInner) [
                | some entries ↦ c
                | none ↦ record c { chunk_index = some (insert_each rank [] chunks) }
              ]).slots
      indexed none = h
      indexed (some entries) = h

  cleared : (c : CacheInner) → IsCoherent (clear c)
  unfolding clear IsCoherent
  cleared c = tt

  labelled :
      (c : CacheInner) (direction : String)
      → IsCoherent c
      → IsCoherent (set_sweep_direction c direction)
  unfolding set_sweep_direction IsCoherent
  labelled c direction h = h

  Step-IsCoherent : {c c' : CacheInner} → Step c c' → IsCoherent c → IsCoherent c'
  Step-IsCoherent {c} {c'} (put coord e) h = put_decompressed-IsCoherent c coord h c' e
  Step-IsCoherent {c} {c'} (get wanted o e) h = (get_decompressed-IsCoherent c wanted h (c', o) e).0
  Step-IsCoherent {c} {c'} (get_aligned wanted o e) h =
      (get_aligned-IsCoherent c wanted h (c', o) e).0
  Step-IsCoherent {c} {c'} (hint keys e) h = prefetch_hint-IsCoherent c keys h c' e
  Step-IsCoherent {c} (index chunks rank) h = populated c chunks rank h
  Step-IsCoherent {c} reset h = cleared c
  Step-IsCoherent {c} (label direction) h = labelled c direction h

  Steps-IsCoherent : {a c : CacheInner} → Steps a c → IsCoherent a → IsCoherent c
  Steps-IsCoherent none_yet h = h
  Steps-IsCoherent (then_one steps step) h = Step-IsCoherent step (Steps-IsCoherent steps h)

  started : (max_bytes max_slots : ℕ) → IsCoherent (with_capacity max_bytes max_slots)
  unfolding with_capacity IsCoherent
  started max_bytes max_slots = tt

  -- The cache never gives back stale data. After any sequence of successful calls on a new cache, of
  -- `put_decompressed`, `get_decompressed`, `get_decompressed_aligned`, `prefetch_hint`,
  -- `populate_index`, `set_sweep_direction` and `clear` in any order, in which what is put in at a coordinate is that
  -- coordinate's true content, `get_decompressed` and `get_decompressed_aligned` give for a
  -- coordinate nothing or its true content, whatever was evicted before.
  pub Steps-ReadTruly :
      (max_bytes max_slots : ℕ) (c : CacheInner) (wanted : List ℕ)
      → Steps (with_capacity max_bytes max_slots) c
      → IsTruthful wanted (get_decompressed c wanted)
        × IsTruthful wanted (get_decompressed_aligned c wanted)
  unfolding IsTruthful
  Steps-ReadTruly max_bytes max_slots c wanted steps =
      let h = Steps-IsCoherent steps (started max_bytes max_slots) in
      (
        λ c' found e. (get_decompressed-IsCoherent c wanted h (c', some found) e).1 found refl,
        λ c' found e. (get_aligned-IsCoherent c wanted h (c', some found) e).1 found refl,
      )
