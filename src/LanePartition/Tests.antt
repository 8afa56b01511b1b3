-- ===== src/LanePartition/Tests.antt =====
-- Runs of the partition, and its theorems at concrete sizes.
use rustyhdf.Prelude.{◌/◌, ◌%◌, ◌≡◌, refl, arith, max, length, [], ◌∷◌}
use rustyhdf.Outcome.{ok, reserve}
use rustyhdf.Outcome.Ensures.{Post, NoError}
use rustyhdf.Bytes.{slice}
use rustyhdf.LanePartition.{
  target, cut, empty_lanes, partition_into, partition, work_stealing, equal_size,
}
use rustyhdf.LanePartition.Once.{
  IsPartition, AreBalanced, partition-IsPartition, partition-AreBalanced,
}

cut_five :
    cut 2 0 0 2 1 (10 ∷ 11 ∷ 12 ∷ 13 ∷ 14 ∷ []) ≡ ok ((10 ∷ 11 ∷ 12 ∷ []) ∷ (13 ∷ 14 ∷ []) ∷ [])
unfolding cut target slice
cut_five = refl

no_items_at_all : partition 0 0 7 equal_size ≡ ok ([] ∷ [])
unfolding partition partition_into empty_lanes reserve
no_items_at_all = refl

partition-IsPartition_example :
    Post NoError (IsPartition 5 (max 2 1)) (partition 5 2 7 work_stealing)
partition-IsPartition_example =
    partition-IsPartition 5 2 7 work_stealing (omega arith) (omega arith)

partition-AreBalanced_example :
    Post NoError
      (λ r. (length r ≡ 2) × AreBalanced (5 / 2) (5 % 2) 0 r)
      (partition 5 2 7 work_stealing)
partition-AreBalanced_example =
    partition-AreBalanced 5 2 7 (omega arith) (omega arith) (omega arith) (omega arith)
