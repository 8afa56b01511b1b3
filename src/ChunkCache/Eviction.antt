-- ===== src/ChunkCache/Eviction.antt =====
-- The limits of the cache, and what eviction leaves of it.
use rustyhdf.Prelude.{ℕ_discrete, ℕ, zero, suc, ◌+◌, ◌^◌, ◌<◌, ◌≤◌, ◌≡◌, ◌≢◌, refl, arith, List}
use rustyhdf.Prelude.{length, leb, true, false}
use rustyhdf.Prelude.{Option-cases, inl, inr}
use rustyhdf.Outcome.{usize_mod}
use rustyhdf.Outcome.Ensures.{
  Post, NoError, returns, bind, branch, weaken, add_usize-Ensures, sub_usize-Ensures,
}
use rustyhdf.ChunkCache.{CacheInner, record_access, changes}
use rustyhdf.ChunkCache.{is_full, evict}
use rustyhdf.ChunkCache.Slots.{
  total_bytes, IsAbsent, IsDistinct, swap_remove-IsRemoval, oldest-Ensures, total_bytes-empty,
}

-- The byte count is exact and within the budget, there are no more slots than allowed, and no
-- coordinate is cached twice.
pub record IsWithinLimits (c : CacheInner) : Type 0 where
  pub counted : c.current_bytes ≡ total_bytes c.slots
  pub bytes_bound : c.current_bytes ≤ c.max_bytes
  pub slots_bound : length c.slots ≤ c.max_slots
  pub distinct : IsDistinct c.slots

-- The limits of a real cache: a slot at least, a budget below 2^63, and a clock that can tick.
pub record IsUsable (c : CacheInner) : Type 0 where
  pub some_slot : 0 < c.max_slots
  pub budget : c.max_bytes < 2 ^ 63
  pub clock : c.tick + 1 < usize_mod

-- What eviction leaves: room for the new chunk.
pub record IsEvicted (data_len : ℕ) (c e : CacheInner) : Type 1 where
  pub limits : IsWithinLimits e
  pub same_bytes : e.max_bytes ≡ c.max_bytes
  pub same_slots : e.max_slots ≡ c.max_slots
  pub room : e.current_bytes + data_len ≤ c.max_bytes
  pub slot : length e.slots < c.max_slots
  pub keeps : (coord : List ℕ) → IsAbsent coord c.slots → IsAbsent coord e.slots

is_full-Ensures :
    (c : CacheInner) (data_len : ℕ)
    → IsWithinLimits c
    → c.max_bytes < 2 ^ 63
    → data_len ≤ c.max_bytes
    → 0 < c.max_slots
    → Post NoError
        (λ b.
          (b ≡ true → 0 < length c.slots)
          × (b ≡ false
              → (length c.slots < c.max_slots) × (c.current_bytes + data_len ≤ c.max_bytes)))
        (is_full c data_len)
unfolding is_full total_bytes
is_full-Ensures c data_len w budget fits some_slot =
    branch (leb c.max_slots (length c.slots))
      (λ e. returns ((λ _. ground arith), (λ f. absurd (cc))))
      (λ e.
        let free : length c.slots < c.max_slots = ground arith in
        bind
          (add_usize-Ensures c.current_bytes data_len (omega (arith, w.bytes_bound, budget, fits)))
          λ sum s. returns (
            (λ t. ground arith),
            (λ f. (
              free,
              (elim (ℕ_discrete (length c.slots) 0) [
                | yes e₀ ↦ omega (arith, w.counted, fits, total_bytes-empty c.slots e₀)
                | no some_left ↦ ground arith
              ]),
            )),
          ))

pub evict-Ensures :
    (fuel : ℕ) (c : CacheInner) (data_len : ℕ)
    → length c.slots < fuel
    → IsWithinLimits c
    → c.max_bytes < 2 ^ 63
    → data_len ≤ c.max_bytes
    → 0 < c.max_slots
    → Post NoError (IsEvicted data_len c) (evict fuel c data_len)
unfolding evict
evict-Ensures zero c data_len h w budget fits some_slot = absurd (omega arith)
evict-Ensures (suc fuel) c data_len h w budget fits some_slot =
    bind (is_full-Ensures c data_len w budget fits some_slot) λ full f.
      branch full
        (λ e. bind (oldest-Ensures c.slots (f.0 e)) λ i inside.
          bind (swap_remove-IsRemoval c.slots i inside) λ r m.
            let within : length r.0.content ≤ c.current_bytes = omega (arith, w.counted, m.bytes) in
            bind (sub_usize-Ensures c.current_bytes (length r.0.content) within) λ bytes b.
              weaken
                (evict-Ensures fuel (record c { slots = r.1; current_bytes = bytes }) data_len
                  (omega (arith, m.count))
                  (record {
                    counted = omega (arith, b, w.counted, m.bytes);
                    bytes_bound = omega (arith, b, w.bytes_bound);
                    slots_bound = omega (arith, m.count, w.slots_bound);
                    distinct = m.distinct w.distinct;
                  })
                  budget fits some_slot)
                λ e v. record {
                  limits = v.limits;
                  same_bytes = v.same_bytes;
                  same_slots = v.same_slots;
                  room = v.room;
                  slot = v.slot;
                  keeps = λ coord a. v.keeps coord (m.keeps (λ s. s.coord ≢ coord) a);
                })
        (λ e. returns (record {
          limits = w;
          same_bytes = refl;
          same_slots = refl;
          room = (f.1 e).1;
          slot = (f.1 e).0;
          keeps = λ coord a. a;
        }))

pub record_access-Ensures :
    (c : CacheInner) (wanted : List ℕ)
    → c.stats.sequential_count + 1 < usize_mod
    → c.stats.random_count + 1 < usize_mod
    → Post NoError (λ s. Unit {0}) (record_access c wanted)
unfolding record_access
record_access-Ensures c wanted h k = elim (Option-cases c.last_coord) [
  | inl e ↦ rw (e) (returns tt)
  | inr (prev, e) ↦ rw (e) (
      branch (leb (changes prev wanted) 1)
        (λ _. bind (add_usize-Ensures c.stats.sequential_count 1 h) λ n _. returns tt)
        (λ _. bind (add_usize-Ensures c.stats.random_count 1 k) λ n _. returns tt))
]
