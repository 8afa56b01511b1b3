-- ===== src/ChunkCache.antt =====
-- crates/rustyhdf5-format/src/chunk_cache.rs: the cache of decompressed chunks, with its byte and
-- slot limits. A call is a function on the state: each holds the lock for the whole of the call, but
-- `prefetch_hint`, which gives it up between its test of the index and its loop, and the calls are
-- modelled one after the other.
pub mod Slots
pub mod Align
pub mod Eviction
pub mod Keeps
pub mod Coherent
pub mod Lru
mod Tests
use rustyhdf.Prelude.{
  ℕ, zero, suc, ◌+◌, ◌-◌, ◌*◌, ◌/◌, List, [], ◌∷◌, ◌++◌, length, take, Option, none, some,
}
use rustyhdf.Prelude.{Bool, true, false, leb, ltb, ◌==◌, ◌&&◌, ◌||◌, not, String, if◌then◌else◌}
use rustyhdf.Outcome.{Outcome, ok, panic, stuck, ◌>>=◌, add_usize, sub_usize}
use rustyhdf.Bytes.{bytes_eq}

pub record ChunkInfo : Type 0 where
  pub chunk_size : ℕ
  pub filter_mask : ℕ
  pub offsets : List ℕ
  pub address : ℕ

abbrev pub cache_line_size : ℕ
cache_line_size = 64

-- `(size + 63) & !63` clears the low six bits, which rounds down to a multiple of 64.
unfoldable pub align_to_cache_line : ℕ → Outcome ℕ
align_to_cache_line size = do
  s ← add_usize size (cache_line_size - 1)
  ok (s / cache_line_size * cache_line_size)

pub record CachedChunk : Type 0 where
  pub coord : List ℕ
  pub content : List ℕ
  pub last_access : ℕ

pub record AccessStats : Type 0 where
  pub sequential_count : ℕ
  pub random_count : ℕ
  pub sweep_direction : Option String

-- The hash map is an association list, in which the first entry of a key counts.
pub record CacheInner : Type 0 where
  pub chunk_index : Option (List (List ℕ × ChunkInfo))
  pub slots : List CachedChunk
  pub current_bytes : ℕ
  pub max_bytes : ℕ
  pub max_slots : ℕ
  pub tick : ℕ
  pub last_coord : Option (List ℕ)
  pub stats : AccessStats

abbrev pub no_stats : AccessStats
no_stats = record { sequential_count = 0; random_count = 0; sweep_direction = none }

abbrev pub default_cache_bytes : ℕ
default_cache_bytes = 1024 * 1024

abbrev pub default_max_slots : ℕ
default_max_slots = 16

unfoldable pub with_capacity : ℕ → ℕ → CacheInner
with_capacity max_bytes max_slots = record {
  chunk_index = none;
  slots = [];
  current_bytes = 0;
  max_bytes = max_bytes;
  max_slots = max_slots;
  tick = 0;
  last_coord = none;
  stats = no_stats;
}

unfoldable pub new : CacheInner
new = with_capacity default_cache_bytes default_max_slots

-- `map.insert` for each chunk in turn: a later chunk comes first, so it replaces an earlier one.
unfoldable pub insert_each :
    ℕ → List (List ℕ × ChunkInfo) → List ChunkInfo → List (List ℕ × ChunkInfo)
insert_each rank entries [] = entries
insert_each rank entries (c ∷ cs) = insert_each rank ((take rank c.offsets, c) ∷ entries) cs

unfoldable pub populate_index : CacheInner → List ChunkInfo → ℕ → CacheInner
populate_index c chunks rank = elim c.chunk_index [
  | some entries ↦ c
  | none ↦ record c { chunk_index = some (insert_each rank [] chunks) }
]

unfoldable pub find_entry : List (List ℕ × ChunkInfo) → List ℕ → Option ChunkInfo
find_entry [] key = none
find_entry (e ∷ es) key = if bytes_eq e.0 key then some e.1 else find_entry es key

unfoldable pub lookup_index : CacheInner → List ℕ → Option ChunkInfo
lookup_index c key = elim c.chunk_index [ some entries ↦ find_entry entries key | none ↦ none ]

-- `zip`, and the count of the places that differ.
unfoldable pub changes : List ℕ → List ℕ → ℕ
changes [] ys = 0
changes (x ∷ xs) [] = 0
changes (x ∷ xs) (y ∷ ys) = if x == y then changes xs ys else suc (changes xs ys)

-- The statistics that `get_decompressed` keeps.
unfoldable pub record_access : CacheInner → List ℕ → Outcome AccessStats
record_access c wanted = elim c.last_coord [
  | none ↦ ok c.stats
  | some prev ↦
      if leb (changes prev wanted) 1
      then (do
        n ← add_usize c.stats.sequential_count 1
        ok (record c.stats { sequential_count = n }))
      else (do n ← add_usize c.stats.random_count 1; ok (record c.stats { random_count = n }))
]

-- The loop that looks for a slot and marks it as used at `tick`.
unfoldable pub touch : List CachedChunk → List ℕ → ℕ → List CachedChunk × Option (List ℕ)
touch [] wanted tick = ([], none)
touch (s ∷ ss) wanted tick =
    if bytes_eq s.coord wanted
    then (record s { last_access = tick } ∷ ss, some s.content)
    else (s ∷ (touch ss wanted tick).0, (touch ss wanted tick).1)

unfoldable pub get_decompressed : CacheInner → List ℕ → Outcome (CacheInner × Option (List ℕ))
get_decompressed c wanted = do
  tick ← add_usize c.tick 1
  stats ← record_access c wanted
  ok (
    record c {
      slots = (touch c.slots wanted tick).0;
      tick = tick;
      last_coord = some wanted;
      stats = stats;
    },
    (touch c.slots wanted tick).1,
  )

-- `min_by_key` over the rest of the slots: the first of the least.
unfoldable pub oldest_from : ℕ → ℕ → ℕ → List CachedChunk → ℕ
oldest_from least at i [] = at
oldest_from least at i (s ∷ ss) =
    if ltb s.last_access least
    then oldest_from s.last_access i (i + 1) ss
    else oldest_from least at (i + 1) ss

-- The index of the slot used least recently; `unwrap` panics when there is none.
unfoldable pub oldest : List CachedChunk → Outcome ℕ
oldest [] = panic
oldest (s ∷ ss) = ok (oldest_from s.last_access 0 1 ss)

unfoldable pub last_slot : CachedChunk → List CachedChunk → CachedChunk
last_slot s [] = s
last_slot s (t ∷ ts) = last_slot t ts

unfoldable pub but_last : CachedChunk → List CachedChunk → List CachedChunk
but_last s [] = []
but_last s (t ∷ ts) = s ∷ but_last t ts

-- `swap_remove`: the last slot takes the place of the one that is removed.
unfoldable pub swap_remove : List CachedChunk → ℕ → Outcome (CachedChunk × List CachedChunk)
swap_remove [] i = panic
swap_remove (s ∷ []) zero = ok (s, [])
swap_remove (s ∷ t ∷ ts) zero = ok (s, last_slot t ts ∷ but_last t ts)
swap_remove (s ∷ ss) (suc i) = do (removed, rest) ← swap_remove ss i; ok (removed, s ∷ rest)

-- The condition of the loop that evicts; `||` and `&&` stop early.
unfoldable pub is_full : CacheInner → ℕ → Outcome Bool
is_full c data_len = if leb c.max_slots (length c.slots) then ok true else (do
  sum ← add_usize c.current_bytes data_len
  ok (ltb c.max_bytes sum && not (length c.slots == 0)))

-- The loop, with fuel.
unfoldable pub evict : ℕ → CacheInner → ℕ → Outcome CacheInner
evict zero c data_len = stuck
evict (suc fuel) c data_len = do
  full ← is_full c data_len
  if full
      then (do
        lru_idx ← oldest c.slots
        (removed, slots) ← swap_remove c.slots lru_idx
        bytes ← sub_usize c.current_bytes (length removed.content)
        evict fuel (record c { slots = slots; current_bytes = bytes }) data_len)
      else ok c

-- Each round removes a slot, so one round more than there are slots is enough.
unfoldable pub put_decompressed : CacheInner → List ℕ → List ℕ → Outcome CacheInner
put_decompressed c coord content = if ltb c.max_bytes (length content) then ok c else (do
  tick ← add_usize c.tick 1
  let marked = touch c.slots coord tick
  elim marked.1 [
    | some found ↦ ok (record c { slots = marked.0; tick = tick })
    | none ↦ (do
      e ← evict (suc (length c.slots)) (record c { tick = tick }) (length content)
      bytes ← add_usize e.current_bytes (length content)
      ok (record e {
        slots = e.slots ++ (record { coord = coord; content = content; last_access = tick } ∷ []);
        current_bytes = bytes;
      }))
  ])

unfoldable pub clear : CacheInner → CacheInner
clear c = record c {
  chunk_index = none;
  slots = [];
  current_bytes = 0;
  tick = 0;
  last_coord = none;
  stats = no_stats;
}

-- `get_decompressed_aligned` keeps no statistics. A buffer is its bytes.
unfoldable pub get_decompressed_aligned :
    CacheInner → List ℕ → Outcome (CacheInner × Option (List ℕ))
get_decompressed_aligned c wanted = do
  tick ← add_usize c.tick 1
  ok (
    record c { slots = (touch c.slots wanted tick).0; tick = tick },
    (touch c.slots wanted tick).1,
  )

-- The loop over the hinted coordinates counts those that the index has.
unfoldable pub count_hints : List (List ℕ × ChunkInfo) → List (List ℕ) → ℕ → Outcome ℕ
count_hints entries [] n = ok n
count_hints entries (key ∷ keys) n = elim (find_entry entries key) [
  | some info ↦ (do m ← add_usize n 1; count_hints entries keys m)
  | none ↦ count_hints entries keys n
]

-- The source takes the lock twice, and no other call comes between here.
unfoldable pub prefetch_hint : CacheInner → List (List ℕ) → Outcome CacheInner
prefetch_hint c next_coords = elim c.chunk_index [
  | none ↦ ok c
  | some entries ↦ (do
    n ← count_hints entries next_coords c.stats.sequential_count
    ok (record c { stats = record c.stats { sequential_count = n } }))
]

unfoldable pub has_index : CacheInner → Bool
has_index c = elim c.chunk_index [ some entries ↦ true | none ↦ false ]

unfoldable pub cached_chunk_count : CacheInner → ℕ
cached_chunk_count c = length c.slots

unfoldable pub cached_bytes : CacheInner → ℕ
cached_bytes c = c.current_bytes

unfoldable pub access_stats : CacheInner → AccessStats
access_stats c = c.stats

unfoldable pub set_sweep_direction : CacheInner → String → CacheInner
set_sweep_direction c direction = record c {
  stats = record c.stats { sweep_direction = some direction };
}

unfoldable pub any_eq : List (List ℕ) → List ℕ → Bool
any_eq [] key = false
any_eq (k ∷ ks) key = bytes_eq k key || any_eq ks key

-- The values of the map: those of the first entry of each key. The source leaves their order open.
unfoldable pub values_of : List (List ℕ × ChunkInfo) → List (List ℕ) → List ChunkInfo
values_of [] seen = []
values_of (e ∷ es) seen =
    let rest = values_of es (e.0 ∷ seen) in if any_eq seen e.0 then rest else e.1 ∷ rest

unfoldable pub all_indexed_chunks : CacheInner → Option (List ChunkInfo)
all_indexed_chunks c = elim c.chunk_index [
  | some entries ↦ some (values_of entries [])
  | none ↦ none
]
