-- ===== src/MetadataIndex/Tests.antt =====
-- Runs of the metadata index, and its theorems at concrete blocks.
use rustyhdf.Prelude.{ℕ, ◌≤◌, ◌≡◌, refl, List, [], ◌∷◌, some, none, false}
use rustyhdf.Outcome.{ok, err, duplicate_dataset_name}
use rustyhdf.Outcome.Ensures.{Post}
use rustyhdf.Bytes.{bytes_eq}
use rustyhdf.ChunkWrite.{ChunkOptions}
use rustyhdf.MetadataIndex.{DatasetMetadata, MetadataBlock, MetadataIndex, build_dataset_metadata}
use rustyhdf.MetadataIndex.{flattened, find, len, merge_blocks, from_collective, sort_by_name}
use rustyhdf.MetadataIndex.{insert, entries_from, check_duplicates, new_block, add_dataset}
use rustyhdf.MetadataIndex.Union.{find_among, times_among, total}
use rustyhdf.MetadataIndex.Refines.{IsDefinedTwice, AreOrdered, merge_blocks-find}
use rustyhdf.MetadataIndex.Refines.{from_collective-accepts}

abbrev plain : ChunkOptions
plain = record { chunk_dims = none; deflate_level = none; shuffle = false; fletcher32 = false }

-- A dataset with this name.
abbrev named : List ℕ → DatasetMetadata ℕ ℕ
named name = build_dataset_metadata name 0 (2 ∷ []) (1 ∷ 2 ∷ []) plain none []

abbrev blocks : List (MetadataBlock ℕ ℕ)
blocks =
    add_dataset (add_dataset (new_block 7) (named (98 ∷ []))) (named (97 ∷ []))
    ∷ record { creator_id = 9; datasets = named (97 ∷ 99 ∷ []) ∷ [] }
    ∷ []

twice :
    merge_blocks (
      record { creator_id = 1; datasets = named (97 ∷ []) ∷ named (98 ∷ []) ∷ [] }
      ∷ record { creator_id = 2; datasets = named (97 ∷ []) ∷ [] }
      ∷ [])
    ≡ err (duplicate_dataset_name (97 ∷ []))
unfolding merge_blocks flattened sort_by_name insert entries_from check_duplicates
    build_dataset_metadata
twice = refl

merge_blocks-find_example :
    Post
      (IsDefinedTwice blocks)
      (λ index.
        ((n : List ℕ) → times_among n blocks ≤ 1)
        × ((n : List ℕ) → find index n ≡ ok (find_among n blocks))
        × (len index ≡ total blocks)
        × AreOrdered index.datasets)
      (merge_blocks blocks)
merge_blocks-find_example = merge_blocks-find blocks

different : bytes_eq (named (98 ∷ [])).name (named (97 ∷ [])).name ≡ false
unfolding build_dataset_metadata
different = refl

different' : bytes_eq (named (97 ∷ [])).name (named (98 ∷ [])).name ≡ false
unfolding build_dataset_metadata
different' = refl

from_collective-accepts_example :
    (index : MetadataIndex ℕ ℕ) × (from_collective
        (named (97 ∷ []) ∷ named (98 ∷ []) ∷ named (97 ∷ []) ∷ [])
      ≡ ok index)
    × (len index ≡ 3)
    × (find index (named (97 ∷ [])).name ≡ ok (some (named (97 ∷ []))))
from_collective-accepts_example =
    from_collective-accepts (named (97 ∷ [])) (named (98 ∷ [])) (named (97 ∷ [])) refl different
      different'
