-- ===== src/FilterPipeline/Tests.antt =====
-- Runs of the filter pipeline code, and its theorems at concrete pipelines.
use rustyhdf.Prelude.{ℕ, ◌≡◌, refl, arith, List, [], ◌∷◌, ◌++◌, some, none, inr, true}
use rustyhdf.Outcome.{ok}
use rustyhdf.Outcome.Ensures.{Ensures}
use rustyhdf.FilterPipeline.{FilterPipeline, parse, serialize, serialize_filters_v2}
use rustyhdf.FilterPipeline.{serialize_filter_v2, name_bytes_v2, write_values}
use rustyhdf.FilterPipeline.Safety.{IsPipeline, parse-IsPipeline}
use rustyhdf.FilterPipeline.Names.{known, custom}
use rustyhdf.FilterPipeline.RoundTrip.{IsWritable, pipeline_parse-serialize}
use rustyhdf.LocalHeap.Utf8.{is_utf8}

-- Shuffle, then a filter that is not well known.
abbrev pipeline : FilterPipeline
pipeline = record {
  version = 2;
  filters =
      record { filter_id = 2; name = none; flags = 0; client_data = 4 ∷ [] }
      ∷ record { filter_id = 300; name = some (97 ∷ 98 ∷ []); flags = 1; client_data = [] }
      ∷ [];
}

abbrev message : List ℕ
message =
    2 ∷ 2 ∷ 2 ∷ 0 ∷ 0 ∷ 0 ∷ 1 ∷ 0 ∷ 4 ∷ 0 ∷ 0 ∷ 0 ∷ 44 ∷ 1 ∷ 3 ∷ 0 ∷ 1 ∷ 0 ∷ 0 ∷ 0 ∷ 97 ∷ 98 ∷ 0
    ∷ []

serialize-pipeline : serialize pipeline ≡ message
unfolding serialize serialize_filters_v2 serialize_filter_v2 name_bytes_v2 write_values
serialize-pipeline = refl

name_valid : is_utf8 (97 ∷ 98 ∷ []) ≡ true
unfolding is_utf8
name_valid = refl

pipeline-IsWritable : IsWritable pipeline
pipeline-IsWritable = record {
  few = omega arith;
  version = inr (
    refl,
    (
      (
        record {
          id = omega arith;
          flag = omega arith;
          few = omega arith;
          values = (omega arith, tt);
        },
        known (omega arith),
      ),
      (
        (
          record { id = omega arith; flag = omega arith; few = omega arith; values = tt },
          custom (omega arith) (record {
            nonzero = (omega arith, (omega arith, tt));
            valid = name_valid;
            short = omega arith;
          }),
        ),
        tt,
      ),
    ),
  );
}

pipeline_parse-serialize_example : parse (serialize pipeline ++ (9 ∷ [])) ≡ ok pipeline
pipeline_parse-serialize_example =
    pipeline_parse-serialize pipeline (9 ∷ []) pipeline-IsWritable
      (rw serialize-pipeline (omega arith))

parse-IsPipeline_example : Ensures IsPipeline (parse message)
parse-IsPipeline_example =
    parse-IsPipeline {d = message} (record { bytes = omega arith; sized = omega arith })
