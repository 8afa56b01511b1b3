-- ===== src/ChunkCache/Tests.antt =====
-- Runs of the chunk cache, and its theorems at concrete caches.
use rustyhdf.Prelude.{ℕ, ◌≡◌, refl, arith, List, [], ◌∷◌, some, none}
use rustyhdf.Outcome.{ok, panic, ◌>>=◌, add_usize, sub_usize}
use rustyhdf.Outcome.Ensures.{Post, NoError}
use rustyhdf.ChunkCache.{
  CacheInner, with_capacity, put_decompressed, get_decompressed, touch, record_access, changes,
  oldest_from, oldest, last_slot, but_last, swap_remove, is_full, evict, align_to_cache_line,
  populate_index, insert_each, lookup_index, find_entry, ChunkInfo, no_stats,
  get_decompressed_aligned, prefetch_hint, count_hints,
}
use rustyhdf.ChunkCache.Slots.{cached, total_bytes}
use rustyhdf.ChunkCache.Eviction.{IsWithinLimits, IsUsable}
use rustyhdf.ChunkCache.Keeps.{
  after_put, put_decompressed-IsWithinLimits, no_slots_panics, get_decompressed-cached,
}
use rustyhdf.ChunkCache.Coherent.{put, none_yet, then_one, IsTruthful, Steps-ReadTruly}

program : Unit {0}
unfolding add_usize sub_usize with_capacity put_decompressed get_decompressed touch record_access
    changes oldest_from oldest last_slot but_last swap_remove is_full evict align_to_cache_line
    populate_index insert_each lookup_index find_entry
program = tt

-- Two slots, both taken; the first was used last.
abbrev two_slots : CacheInner
two_slots = record {
  chunk_index = none;
  slots =
      record { coord = 0 ∷ []; content = 1 ∷ 2 ∷ []; last_access = 3 }
      ∷ record { coord = 4 ∷ []; content = 3 ∷ []; last_access = 2 }
      ∷ [];
  current_bytes = 3;
  max_bytes = 5;
  max_slots = 2;
  tick = 3;
  last_coord = some (0 ∷ []);
  stats = no_stats;
}

-- The slot that was used last stays.
put_evicts :
    (put_decompressed two_slots (8 ∷ []) (7 ∷ 8 ∷ 9 ∷ []) >>= λ c. ok c.slots)
    ≡ ok (
        record { coord = 0 ∷ []; content = 1 ∷ 2 ∷ []; last_access = 3 }
        ∷ record { coord = 8 ∷ []; content = 7 ∷ 8 ∷ 9 ∷ []; last_access = 4 }
        ∷ [])
unfolding program
put_evicts = refl

abbrev chunk_at : ℕ → ChunkInfo
chunk_at address = record {
  chunk_size = 8;
  filter_mask = 0;
  offsets = 4 ∷ 0 ∷ [];
  address = address;
}

-- The later of two chunks with one coordinate is found.
lookup_later :
    lookup_index (populate_index two_slots (chunk_at 100 ∷ chunk_at 200 ∷ []) 1) (4 ∷ [])
    ≡ some (chunk_at 200)
unfolding program
lookup_later = refl

two_slots-IsWithinLimits : IsWithinLimits two_slots
unfolding total_bytes
two_slots-IsWithinLimits = record {
  counted = refl;
  bytes_bound = omega arith;
  slots_bound = omega arith;
  distinct = (((λ e. cc), tt), (tt, tt));
}

two_slots-IsUsable : IsUsable two_slots
two_slots-IsUsable = record { some_slot = omega arith; budget = omega arith; clock = omega arith }

put_decompressed-IsWithinLimits_example :
    Post NoError
      (λ r. IsWithinLimits r × (cached r.slots (8 ∷ []) ≡ after_put two_slots (8 ∷ []) (7 ∷ [])))
      (put_decompressed two_slots (8 ∷ []) (7 ∷ []))
put_decompressed-IsWithinLimits_example =
    put_decompressed-IsWithinLimits two_slots (8 ∷ []) (7 ∷ []) two_slots-IsWithinLimits
      two_slots-IsUsable

no_slots_panics_example : put_decompressed (with_capacity 5 0) (8 ∷ []) (7 ∷ []) ≡ panic
no_slots_panics_example = no_slots_panics 5 (8 ∷ []) (7 ∷ []) (omega arith)

get_decompressed-cached_example :
    Post NoError
      (λ r.
        IsWithinLimits r.0
        × (r.1 ≡ cached two_slots.slots (4 ∷ []))
        × ((coord : List ℕ) → cached r.0.slots coord ≡ cached two_slots.slots coord))
      (get_decompressed two_slots (4 ∷ []))
get_decompressed-cached_example =
    get_decompressed-cached two_slots (4 ∷ []) two_slots-IsWithinLimits (omega arith) (omega arith)
      (omega arith)

-- A hint is counted when the index has the chunk.
prefetch_one :
    (prefetch_hint (populate_index two_slots (chunk_at 100 ∷ []) 1) ((4 ∷ []) ∷ (5 ∷ []) ∷ [])
      >>= λ c. ok c.stats.sequential_count)
    ≡ ok 1
unfolding program prefetch_hint count_hints
prefetch_one = refl

-- Each chunk holds its own coordinate.
abbrev own : List ℕ → List ℕ
own coord = coord

abbrev after_first : CacheInner
after_first = record {
  chunk_index = none;
  slots = record { coord = 5 ∷ []; content = 5 ∷ []; last_access = 1 } ∷ [];
  current_bytes = 1;
  max_bytes = 64;
  max_slots = 2;
  tick = 1;
  last_coord = none;
  stats = no_stats;
}

first : put_decompressed (with_capacity 64 2) (5 ∷ []) (5 ∷ []) ≡ ok after_first
unfolding program
first = refl

Steps-ReadTruly_example :
    IsTruthful own (5 ∷ []) (get_decompressed after_first (5 ∷ []))
    × IsTruthful own (5 ∷ []) (get_decompressed_aligned after_first (5 ∷ []))
Steps-ReadTruly_example =
    Steps-ReadTruly own 64 2 after_first (5 ∷ []) (then_one none_yet (put (5 ∷ []) first))
