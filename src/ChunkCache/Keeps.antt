-- ===== src/ChunkCache/Keeps.antt =====
-- The limits of the cache hold after every operation, and what was put in is found.
use rustyhdf.Prelude.{
  if◌then◌else◌, ℕ, suc, ◌+◌, ◌<◌, ◌≤◌, ◌≡◌, refl, sym, ◌∙◌, arith, List, [], ◌∷◌, ◌++◌,
}
use rustyhdf.Prelude.{length, length-append, Option, none, some, ltb, true, false}
use rustyhdf.Prelude.{Option-cases, inl, inr}
use rustyhdf.Outcome.{ok, panic, ◌>>=◌, usize_mod, add_usize}
use rustyhdf.Outcome.Ensures.{Post, NoError, returns, bind, branch, weaken, add_usize-Ensures}
use rustyhdf.ChunkCache.{CacheInner, CachedChunk, touch, get_decompressed}
use rustyhdf.ChunkCache.{oldest, is_full, evict, put_decompressed, with_capacity}
use rustyhdf.ChunkCache.Slots.{
  total_bytes, IsAbsent, total_bytes-append, IsDistinct-append_one, touch-bytes, touch-length,
  touch-IsDistinct, touch-cached, cached, cached-touch, cached-none, cached-append_one,
}
use rustyhdf.ChunkCache.Eviction.{IsWithinLimits, IsUsable, evict-Ensures, record_access-Ensures}

-- What is cached at a coordinate once data was put there: data that is there stays, and other data
-- is taken if it fits the budget alone.
unfoldable pub settle : Option (List ℕ) → ℕ → List ℕ → Option (List ℕ)
settle (some found) max_bytes content = some found
settle none max_bytes content = if ltb max_bytes (length content) then none else some content

abbrev pub after_put : CacheInner → List ℕ → List ℕ → Option (List ℕ)
after_put c coord content = settle (cached c.slots coord) c.max_bytes content

module _ (c : CacheInner) (coord content : List ℕ) where
  after_put-found :
      {found : List ℕ} → cached c.slots coord ≡ some found → after_put c coord content ≡ some found
  unfolding settle
  after_put-found e = rw (e) refl

  after_put-new :
      cached c.slots coord ≡ none
      → ltb c.max_bytes (length content) ≡ false
      → after_put c coord content ≡ some content
  unfolding settle
  after_put-new e f = rw (e, f) refl

  after_put-big :
      ltb c.max_bytes (length content) ≡ true → after_put c coord content ≡ cached c.slots coord
  unfolding settle
  after_put-big f = elim (Option-cases (cached c.slots coord)) [
    | inl e ↦ rw (e, f) refl
    | inr (x, e) ↦ rw (e) refl
  ]

put_new :
    (c : CacheInner) (coord content : List ℕ) (tick : ℕ)
    → IsWithinLimits c
    → IsUsable c
    → length content ≤ c.max_bytes
    → IsAbsent coord c.slots
    → Post NoError
        (λ r. IsWithinLimits r × (cached r.slots coord ≡ some content))
        (do
          e ← evict (suc (length c.slots)) (record c { tick = tick }) (length content)
          bytes ← add_usize e.current_bytes (length content)
          ok (record e {
            slots =
                e.slots ++ (record { coord = coord; content = content; last_access = tick } ∷ []);
            current_bytes = bytes;
          }))
unfolding total_bytes
put_new c coord content tick w u fits absent =
    let ticked : IsWithinLimits (record c { tick = tick }) = record {
      counted = w.counted;
      bytes_bound = w.bytes_bound;
      slots_bound = w.slots_bound;
      distinct = w.distinct;
    } in
    let s : CachedChunk = record { coord = coord; content = content; last_access = tick } in
    bind
      (evict-Ensures (suc (length c.slots)) (record c { tick = tick }) (length content)
        (omega arith) ticked u.budget fits u.some_slot)
      λ e v.
        bind (add_usize-Ensures e.current_bytes (length content) (omega (arith, v.room, u.budget)))
          λ bytes b.
            let alone = v.keeps coord absent in
            returns (
              record {
                counted = omega (arith, b, v.limits.counted, total_bytes-append e.slots (s ∷ []));
                bytes_bound = omega (arith, b, v.room, v.same_bytes);
                slots_bound = omega (arith, v.slot, v.same_slots, length-append e.slots (s ∷ []));
                distinct = IsDistinct-append_one e.slots s v.limits.distinct alone;
              },
              cached-append_one coord e.slots s refl alone,
            )

-- On a cache within its limits that has a slot, a budget below 2^63 and a clock below its maximum,
-- `put_decompressed` succeeds, whatever has to be evicted, and leaves the cache within its limits: the byte count is exact and within the budget,
-- there are no more slots than allowed, and no coordinate is cached twice. At the coordinate,
-- data that was cached stays, and else the new data is cached if it fits the budget alone.
pub put_decompressed-IsWithinLimits :
    (c : CacheInner) (coord content : List ℕ)
    → IsWithinLimits c
    → IsUsable c
    → Post NoError
        (λ r. IsWithinLimits r × (cached r.slots coord ≡ after_put c coord content))
        (put_decompressed c coord content)
unfolding put_decompressed
put_decompressed-IsWithinLimits c coord content w u =
    branch (ltb c.max_bytes (length content))
      (λ e. returns (w, sym (after_put-big c coord content e)))
      (λ e. bind (add_usize-Ensures c.tick 1 u.clock) λ tick t.
        elim (Option-cases (cached c.slots coord)) [
          | inr (found, there) ↦
              let hit = touch-cached coord tick c.slots ∙ there in
              rw (hit) (
                returns (
                  record {
                    counted = w.counted ∙ sym (touch-bytes coord tick c.slots);
                    bytes_bound = w.bytes_bound;
                    slots_bound = omega (arith, w.slots_bound, touch-length coord tick c.slots);
                    distinct = touch-IsDistinct coord tick c.slots w.distinct;
                  },
                  cached-touch coord tick coord c.slots
                      ∙ there
                      ∙ sym (after_put-found c coord content there),
                ))
          | inl missing ↦
              let miss = touch-cached coord tick c.slots ∙ missing in
              let new = after_put-new c coord content missing e in
              rw (miss) (
                weaken
                  (put_new c coord content tick w u (ground arith)
                    (cached-none coord c.slots missing))
                  λ r v. (v.0, v.1 ∙ sym new))
        ])

-- A new cache with no slots makes `put_decompressed` panic on any data that fits its budget: the
-- loop wants to evict from an empty cache.
pub no_slots_panics :
    (max_bytes : ℕ) (coord content : List ℕ)
    → length content ≤ max_bytes
    → put_decompressed (with_capacity max_bytes 0) coord content ≡ panic
unfolding put_decompressed with_capacity evict is_full oldest touch add_usize
no_slots_panics max_bytes coord content fits =
    let small : ltb max_bytes (length content) ≡ false = ground arith in rw (small) refl

-- `get_decompressed` gives back what is cached at the coordinate, and leaves the cache within its
-- limits with the same data at every coordinate, when the cache was within its limits and neither
-- its clock nor its counters are at their maximum.
pub get_decompressed-cached :
    (c : CacheInner) (wanted : List ℕ)
    → IsWithinLimits c
    → c.tick + 1 < usize_mod
    → c.stats.sequential_count + 1 < usize_mod
    → c.stats.random_count + 1 < usize_mod
    → Post NoError
        (λ r.
          IsWithinLimits r.0
          × (r.1 ≡ cached c.slots wanted)
          × ((coord : List ℕ) → cached r.0.slots coord ≡ cached c.slots coord))
        (get_decompressed c wanted)
unfolding get_decompressed
get_decompressed-cached c wanted w clock fewer fewer' =
    bind (add_usize-Ensures c.tick 1 clock) λ tick t.
      bind (record_access-Ensures c wanted fewer fewer') λ stats _. returns (
        record {
          counted = w.counted ∙ sym (touch-bytes wanted tick c.slots);
          bytes_bound = w.bytes_bound;
          slots_bound = omega (arith, w.slots_bound, touch-length wanted tick c.slots);
          distinct = touch-IsDistinct wanted tick c.slots w.distinct;
        },
        touch-cached wanted tick c.slots,
        λ coord. cached-touch wanted tick coord c.slots,
      )
