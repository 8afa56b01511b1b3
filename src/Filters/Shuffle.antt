-- ===== src/Filters/Shuffle.antt =====
-- `shuffle_compress` and `shuffle_decompress`.
use rustyhdf.Prelude.{ℕ, ◌+◌, ◌*◌, ◌/◌, ◌%◌, List, length, set, replicate, leb, ltb, ◌==◌}
use rustyhdf.Prelude.{if◌then◌else◌}
use rustyhdf.Outcome.{Outcome, ok, err, panic, ◌>>=◌, filter_error}
use rustyhdf.Outcome.Loop.{for_range}
use rustyhdf.Bytes.{index}

-- `result[k] = v`
unfoldable pub store : List ℕ → ℕ → ℕ → Outcome (List ℕ)
store r k v = if ltb k (length r) then ok (set r k v) else panic

-- The double loop of both functions, over elements `i` and their bytes `j`: the byte at
-- `source i j` goes to `target i j`.
unfoldable pub move_bytes : List ℕ → ℕ → ℕ → (ℕ → ℕ → ℕ) → (ℕ → ℕ → ℕ) → Outcome (List ℕ)
move_bytes d num_elements element_size target source =
    for_range num_elements 0
      (λ i r.
        for_range element_size 0 (λ j t. do v ← index d (source i j); store t (target i j) v) r)
      (replicate (length d) 0)

-- Where byte `j` of element `i` lies when the elements lie one after the other, and when the bytes
-- of one place lie together.
abbrev pub plain : ℕ → ℕ → ℕ → ℕ
plain element_size i j = i * element_size + j

abbrev pub grouped : ℕ → ℕ → ℕ → ℕ
grouped num_elements i j = j * num_elements + i

unfoldable pub shuffle_decompress : List ℕ → ℕ → Outcome (List ℕ)
shuffle_decompress d element_size =
    if leb element_size 1
    then ok d
    else if length d % element_size == 0
    then move_bytes d (length d / element_size) element_size (plain element_size)
        (grouped (length d / element_size))
    else err (filter_error "shuffle: data length not a multiple of element size")

unfoldable pub shuffle_compress : List ℕ → ℕ → Outcome (List ℕ)
shuffle_compress d element_size =
    if leb element_size 1
    then ok d
    else if length d % element_size == 0
    then move_bytes d (length d / element_size) element_size (grouped (length d / element_size))
        (plain element_size)
    else err (filter_error "shuffle: data length not a multiple of element size")
