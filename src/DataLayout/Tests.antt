-- ===== src/DataLayout/Tests.antt =====
-- Runs of the data layout code, and its theorem at a concrete message.
use rustyhdf.Prelude.{ℕ, ◌≡◌, refl, arith, List, [], ◌∷◌}
use rustyhdf.Outcome.{ok}
use rustyhdf.Outcome.Ensures.{Ensures}
use rustyhdf.Bytes.{index, slice, from_le_bytes}
use rustyhdf.Utils.{ensure_len}
use rustyhdf.DataLayout.{compact, parse, parse_v3, parse_compact}
use rustyhdf.DataLayout.Safety.{IsLayout, parse-IsLayout}

abbrev message : List ℕ
message = 3 ∷ 0 ∷ 2 ∷ 0 ∷ 7 ∷ 8 ∷ []

parse-message : parse message 8 8 ≡ ok (compact (7 ∷ 8 ∷ []))
unfolding parse parse_v3 parse_compact index slice from_le_bytes ensure_len
parse-message = refl

parse-IsLayout_example : Ensures (IsLayout 8 8) (parse message 8 8)
parse-IsLayout_example =
    parse-IsLayout {d = message} (record { bytes = omega arith; sized = omega arith }) 8 8
