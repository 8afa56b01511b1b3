-- ===== src/MetadataIndex.antt =====
-- crates/rustyhdf5-format/src/metadata_index.rs: creators collect datasets independently, and
-- their blocks are merged into one index. Names are UTF-8 bytes; the types of datatypes and
-- attribute values are parameters.
pub mod Order
pub mod Union
pub mod Refines
mod Tests
use rustyhdf.Prelude.{ℕ, zero, suc, ◌+◌, ◌%◌, List, [], ◌∷◌, ◌++◌, map, length, get_elem?, Bool}
use rustyhdf.Prelude.{true, false, Option, none, some, ltb, ◌==◌, if◌then◌else◌}
use rustyhdf.Outcome.{Outcome, ok, err, panic, ◌>>=◌, ◌>>◌, duplicate_dataset_name}
use rustyhdf.Bytes.{bytes_eq}
use rustyhdf.Dataspace.{Dataspace, scalar, simple}
use rustyhdf.ChunkWrite.{ChunkOptions}

pub record DatasetMetadata (T V : Type 0) : Type 0 where
  pub name : List ℕ
  pub datatype : T
  pub dataspace : Dataspace
  pub chunk_options : ChunkOptions
  pub maxshape : Option (List ℕ)
  pub attrs : List (List ℕ × V)
  pub raw_data : List ℕ

pub record MetadataBlock (T V : Type 0) : Type 0 where
  pub creator_id : ℕ
  pub datasets : List (DatasetMetadata T V)

pub data CreationMode : Type 0 where
  collective independent : CreationMode

pub record IndexEntry : Type 0 where
  pub name : List ℕ
  pub dataset_index : ℕ
  pub source_block : ℕ

pub record MetadataIndex (T V : Type 0) : Type 0 where
  pub mode : CreationMode
  pub entries : List IndexEntry
  pub datasets : List (DatasetMetadata T V)

-- `a <= b` of `String`: the bytes in lexicographic order.
abbrev pub name_le : List ℕ → List ℕ → Bool
name_le [] bs = true
name_le (a ∷ xs) [] = false
name_le (a ∷ xs) (b ∷ ys) = if ltb a b then true else if a == b then name_le xs ys else false

unfoldable pub check_duplicates : List IndexEntry → Outcome (Unit {0})
check_duplicates [] = ok tt
check_duplicates (e ∷ []) = ok tt
check_duplicates (e ∷ f ∷ es) =
    let rest = check_duplicates (f ∷ es) in
    if bytes_eq f.name e.name then err (duplicate_dataset_name f.name) else rest

-- `iter().find(|e| e.name == name)`
unfoldable pub find_entry : List IndexEntry → List ℕ → Option IndexEntry
find_entry [] name = none
find_entry (e ∷ es) name = if bytes_eq e.name name then some e else find_entry es name

-- A dataset with the creator of the block that it came from.
abbrev pub Sourced : Type 0 → Type 0 → Type 0
Sourced T V = ℕ × DatasetMetadata T V

-- The two loops that flatten the blocks.
unfoldable pub flattened : {T V : Type 0} → List (MetadataBlock T V) → List (Sourced T V)
flattened [] = []
flattened (b ∷ bs) = map (λ d. (b.creator_id, d)) b.datasets ++ flattened bs

module _ {T V : Type 0} where
  unfoldable pub new_block : ℕ → MetadataBlock T V
  new_block creator_id = record { creator_id = creator_id; datasets = [] }

  unfoldable pub add_dataset : MetadataBlock T V → DatasetMetadata T V → MetadataBlock T V
  add_dataset b meta = record b { datasets = b.datasets ++ (meta ∷ []) }

  -- The entries of the datasets from index `i` on.
  unfoldable pub entries_from : ℕ → List (Sourced T V) → List IndexEntry
  entries_from i [] = []
  entries_from i (x ∷ xs) =
      record { name = x.1.name; dataset_index = i; source_block = x.0 } ∷ entries_from (i + 1) xs

  unfoldable pub from_collective : List (DatasetMetadata T V) → Outcome (MetadataIndex T V)
  from_collective datasets = do
    let entries = entries_from 0 (map (λ d. (0, d)) datasets)
    check_duplicates entries
    ok (record { mode = collective; entries = entries; datasets = datasets })

  -- `sort_by` is stable: a dataset goes in front of those with the same name that come after it.
  unfoldable pub insert : Sourced T V → List (Sourced T V) → List (Sourced T V)
  insert x [] = x ∷ []
  insert x (y ∷ ys) =
      let rest = insert x ys in if name_le x.1.name y.1.name then x ∷ y ∷ ys else y ∷ rest

  -- The source sorts the indices by the names that they stand for, and reads entries and datasets
  -- through them.
  unfoldable pub sort_by_name : List (Sourced T V) → List (Sourced T V)
  sort_by_name [] = []
  sort_by_name (x ∷ xs) = insert x (sort_by_name xs)

  unfoldable pub merge_blocks : List (MetadataBlock T V) → Outcome (MetadataIndex T V)
  merge_blocks blocks = do
    let order = sort_by_name (flattened blocks)
    let entries = entries_from 0 order
    check_duplicates entries
    ok (record { mode = independent; entries = entries; datasets = map (λ x. x.1) order })

  -- The dataset that an entry stands for; the index may be out of range.
  unfoldable pub dataset_of :
      List (DatasetMetadata T V) → Option IndexEntry → Outcome (Option (DatasetMetadata T V))
  dataset_of datasets none = ok none
  dataset_of datasets (some e) = elim (get_elem? datasets e.dataset_index) [
    | some d ↦ ok (some d)
    | none ↦ panic
  ]

  unfoldable pub find : MetadataIndex T V → List ℕ → Outcome (Option (DatasetMetadata T V))
  find index name = dataset_of index.datasets (find_entry index.entries name)

  unfoldable pub len : MetadataIndex T V → ℕ
  len index = length index.datasets

  unfoldable pub is_empty : MetadataIndex T V → Bool
  is_empty index = length index.datasets == 0

  unfoldable pub build_dataset_metadata :
      List ℕ
      → T
      → List ℕ
      → List ℕ
      → ChunkOptions
      → Option (List ℕ)
      → List (List ℕ × V)
      → DatasetMetadata T V
  build_dataset_metadata name datatype shape raw_data chunk_options maxshape attrs = record {
    name = name;
    datatype = datatype;
    dataspace = record {
      space_type = if length shape == 0 then scalar else simple;
      rank = length shape % 256;
      dimensions = shape;
      max_dimensions = maxshape;
    };
    chunk_options = chunk_options;
    maxshape = maxshape;
    attrs = attrs;
    raw_data = raw_data;
  }
