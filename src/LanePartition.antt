-- ===== src/LanePartition.antt =====
-- crates/rustyhdf5-format/src/lane_partition.rs: which lane decompresses which chunk.
pub mod Once
mod Tests
use rustyhdf.Prelude.{
  ℕ, zero, suc, ◌+◌, ◌*◌, ◌/◌, ◌%◌, ◌^◌, max, min, bit_xor, List, [], ◌∷◌, ◌++◌, replicate,
}
use rustyhdf.Prelude.{Option, some, none, ltb, ◌==◌, if◌then◌else◌}
use rustyhdf.Outcome.{Outcome, ok, panic, ◌>>=◌, ◌>>◌, add_usize, reserve}
use rustyhdf.Bytes.{slice}

-- `x ^ (x >> k)`
abbrev xor_shift : ℕ → ℕ → ℕ
xor_shift x k = bit_xor x (x / 2 ^ k)

unfoldable pub fxhash : ℕ → ℕ
fxhash x =
    let first = xor_shift (x * 0x517c_c1b7_2722_0a95 % 2 ^ 64) 33 in
    xor_shift (first * 0x517c_c1b7_2722_0a95 % 2 ^ 64) 29

unfoldable pub fxhash_combine : ℕ → ℕ → ℕ
fxhash_combine seed idx = fxhash (bit_xor seed (fxhash idx))

pub data PartitionMode : Type 0 where
  equal_size work_stealing : PartitionMode

-- `lanes[lane].push(idx)`
unfoldable pub push_at : List (List ℕ) → ℕ → ℕ → Outcome (List (List ℕ))
push_at [] lane idx = panic
push_at (l ∷ ls) zero idx = ok ((l ++ (idx ∷ [])) ∷ ls)
push_at (l ∷ ls) (suc lane) idx = do rest ← push_at ls lane idx; ok (l ∷ rest)

-- `for idx in 0..num_items`; `left` items from `idx` on are to be assigned.
unfoldable pub assign : ℕ → ℕ → ℕ → ℕ → List (List ℕ) → Outcome (List (List ℕ))
assign zero idx num_lanes seed lanes = ok lanes
assign (suc left) idx num_lanes seed lanes = do
  lanes' ← push_at lanes (fxhash_combine seed idx % num_lanes) idx
  assign left (idx + 1) num_lanes seed lanes'

-- `lanes.drain(..).flat_map(..)`
unfoldable pub flatten : List (List ℕ) → List ℕ
flatten [] = []
flatten (l ∷ ls) = l ++ flatten ls

-- How many items lane `i` gets when the work is balanced.
unfoldable pub target : ℕ → ℕ → ℕ → ℕ
target base_per_lane extra i = if ltb i extra then base_per_lane + 1 else base_per_lane

-- The loop that cuts the items into lanes; `left` lanes from `i` on are to be filled.
unfoldable pub cut : ℕ → ℕ → ℕ → ℕ → ℕ → List ℕ → Outcome (List (List ℕ))
cut zero i start base_per_lane extra all_items = ok []
cut (suc left) i start base_per_lane extra all_items = do
  lane ← slice all_items start (start + target base_per_lane extra i)
  rest ← cut left (i + 1) (start + target base_per_lane extra i) base_per_lane extra all_items
  ok (lane ∷ rest)

-- The rebalancing of the work-stealing mode.
unfoldable pub rebalance : PartitionMode → ℕ → ℕ → List (List ℕ) → Outcome (List (List ℕ))
rebalance equal_size num_items num_lanes lanes = ok lanes
rebalance work_stealing num_items num_lanes lanes =
    cut num_lanes 0 0 (num_items / num_lanes) (num_items % num_lanes) (flatten lanes)

-- `num_lanes` empty vectors, a vector of 24 bytes each, with room for `capacity` items of 8 bytes.
unfoldable pub empty_lanes : ℕ → ℕ → Outcome (List (List ℕ))
empty_lanes num_lanes capacity = do
  reserve num_lanes 24
  reserve capacity 8
  ok (replicate num_lanes [])

-- The core of `partition`, for `max(num_lanes, 1)` lanes.
unfoldable pub partition_into : ℕ → ℕ → ℕ → PartitionMode → Outcome (List (List ℕ))
partition_into num_items num_lanes seed mode =
    if num_items == 0 then empty_lanes num_lanes 0 else (do
      capacity ← add_usize (num_items / num_lanes) 1
      empty ← empty_lanes num_lanes capacity
      lanes ← assign num_items 0 num_lanes seed empty
      rebalance mode num_items num_lanes lanes)

unfoldable pub partition : ℕ → ℕ → ℕ → PartitionMode → Outcome (List (List ℕ))
partition num_items num_lanes seed mode = partition_into num_items (max num_lanes 1) seed mode

unfoldable pub partition_chunks : ℕ → ℕ → ℕ → Outcome (List (List ℕ))
partition_chunks num_chunks num_lanes seed = partition num_chunks num_lanes seed work_stealing

pub record LanePartitioner : Type 0 where
  pub num_lanes : ℕ
  pub mode : PartitionMode

unfoldable pub new : ℕ → PartitionMode → LanePartitioner
new num_lanes mode = record { num_lanes = max num_lanes 1; mode = mode }

-- What the standard library says of the machine's parallelism, if anything, is a parameter.
unfoldable pub auto : Option ℕ → PartitionMode → LanePartitioner
auto available_parallelism mode = new (elim available_parallelism [ some n ↦ n | none ↦ 1 ]) mode

unfoldable pub partition_with : LanePartitioner → ℕ → ℕ → Outcome (List (List ℕ))
partition_with p num_items seed = partition num_items p.num_lanes seed p.mode

pub record LaneStats : Type 0 where
  pub chunks_processed : ℕ
  pub compressed_bytes : ℕ
  pub decompressed_bytes : ℕ

pub record PartitionStats : Type 0 where
  pub per_lane : List LaneStats
  pub total_chunks : ℕ
  pub num_lanes : ℕ

-- `LaneStats` has 24 bytes.
unfoldable pub new_stats : ℕ → Outcome PartitionStats
new_stats num_lanes = do
  reserve num_lanes 24
  ok (record {
    per_lane =
        replicate num_lanes
          (record { chunks_processed = 0; compressed_bytes = 0; decompressed_bytes = 0 });
    total_chunks = 0;
    num_lanes = num_lanes;
  })

-- `max().unwrap_or(0)` and `min().unwrap_or(0)`
unfoldable pub most_from : ℕ → List LaneStats → ℕ
most_from m [] = m
most_from m (s ∷ ss) = most_from (max m s.chunks_processed) ss

unfoldable pub least_from : ℕ → List LaneStats → ℕ
least_from m [] = m
least_from m (s ∷ ss) = least_from (min m s.chunks_processed) ss

unfoldable pub extremes : List LaneStats → ℕ × ℕ
extremes [] = (0, 0)
extremes (s ∷ ss) = (most_from s.chunks_processed ss, least_from s.chunks_processed ss)

unfoldable pub imbalance : PartitionStats → ℕ × ℕ
imbalance p = extremes p.per_lane
