-- ===== src/FilterPipeline/Safety.antt =====
-- Parsing a filter pipeline always returns.
use rustyhdf.Prelude.{ℕ, zero, suc, ◌+◌, ◌*◌, ◌^◌, ◌<◌, ◌≤◌, ◌≡◌, refl, ap, arith}
use rustyhdf.Prelude.{List, length, All, ltb, leb, ◌==◌}
use rustyhdf.Outcome.Ensures.{Ensures, Returns, returns, fails, bind, branch, weaken}
use rustyhdf.Bytes.{IsSlice}
use rustyhdf.Bytes.Reads.{index-Ensures, slice-Ensures, from_le_bytes-Ensures}
use rustyhdf.Utils.Safety.{ensure_len-Ensures, pad8-Ensures}
use rustyhdf.FilterPipeline.{FilterDescription, FilterPipeline, read_values, read_client_data}
use rustyhdf.FilterPipeline.{read_name_v1, read_name_v2, read_name_length}
use rustyhdf.FilterPipeline.{parse_filter_v1, parse_filters_v1, parse_v1}
use rustyhdf.FilterPipeline.{parse_filter_v2, parse_filters_v2, parse_v2, parse}

-- The identifier, the flags and the number of values fit 16 bits, and each value 32.
pub record IsFilter (f : FilterDescription) : Type 0 where
  pub id : f.filter_id < 2 ^ 16
  pub flag : f.flags < 2 ^ 16
  pub few : length f.client_data < 2 ^ 16
  pub values : All (λ v. v < 2 ^ 32) f.client_data

-- Version 1 or 2, and at most 255 filters.
pub record IsPipeline (p : FilterPipeline) : Type 0 where
  pub known : (1 ≤ p.version) × (p.version ≤ 2)
  pub few : length p.filters < 256
  pub each : All IsFilter p.filters

module _ {d : List ℕ} (s : IsSlice d) where
  read_values-Ensures :
      (n pos : ℕ)
      → pos + n * 4 ≤ length d
      → Ensures
          (λ r. (length r.0 ≡ n) × All (λ v. v < 2 ^ 32) r.0 × (r.1 ≡ pos + n * 4))
          (read_values n d pos)
  unfolding read_values
  read_values-Ensures zero pos h = returns (refl, tt, omega arith)
  read_values-Ensures (suc n) pos h = bind (from_le_bytes-Ensures s 4 pos (omega arith)) λ v small.
      bind (read_values-Ensures n (pos + 4) (omega arith))
        λ r t. returns (ap suc t.0, (small, t.1), omega (arith, t.2))

  read_client_data-Ensures :
      (n pos : ℕ)
      → Ensures
          (λ r. (length r.0 ≡ n) × All (λ v. v < 2 ^ 32) r.0 × (r.1 ≤ length d))
          (read_client_data n d pos)
  unfolding read_client_data
  read_client_data-Ensures n pos =
      bind (ensure_len-Ensures d pos (n * 4))
        λ _ h. weaken (read_values-Ensures n pos h) (λ r t. (t.0, t.1, omega (arith, t.2)))

  read_name_v1-Ensures : (n pos : ℕ) → n < 2 ^ 16 → Returns (read_name_v1 n d pos)
  unfolding read_name_v1
  read_name_v1-Ensures n pos h =
      branch (ltb 0 n)
        (λ _. bind (ensure_len-Ensures d pos n) λ _ inside.
          bind (slice-Ensures s pos (pos + n) (omega arith) inside)
            λ bs _. bind (pad8-Ensures n (omega arith)) λ padded _. returns tt)
        λ _. returns tt

  read_name_v2-Ensures : (n pos : ℕ) → Returns (read_name_v2 n d pos)
  unfolding read_name_v2
  read_name_v2-Ensures n pos =
      branch (ltb 0 n)
        (λ _.
          bind (ensure_len-Ensures d pos n) λ _ inside.
            bind (slice-Ensures s pos (pos + n) (omega arith) inside) λ bs _. returns tt)
        λ _. returns tt

  read_name_length-Ensures : (id pos : ℕ) → Returns (read_name_length id d pos)
  unfolding read_name_length
  read_name_length-Ensures id pos =
      branch (leb 256 id)
        (λ _.
          bind (ensure_len-Ensures d pos 2)
            λ _ h. bind (from_le_bytes-Ensures s 2 pos h) λ nl _. returns tt)
        λ _. returns tt

  parse_filter_v1-Ensures : (pos : ℕ) → Ensures (λ r. IsFilter r.0) (parse_filter_v1 d pos)
  unfolding parse_filter_v1
  parse_filter_v1-Ensures pos = bind (ensure_len-Ensures d pos 8) λ _ h.
      bind (from_le_bytes-Ensures s 2 pos (omega arith)) λ filter_id id.
        bind (from_le_bytes-Ensures s 2 (pos + 2) (omega arith)) λ name_length nl.
          bind (from_le_bytes-Ensures s 2 (pos + 4) (omega arith)) λ flags flag.
            bind (from_le_bytes-Ensures s 2 (pos + 6) (omega arith)) λ num few.
              bind (read_name_v1-Ensures name_length (pos + 8) nl) λ name _.
                bind (read_client_data-Ensures num name.1) λ vals v.
                  returns (record { id = id; flag = flag; few = omega (arith, v.0); values = v.1 })

  parse_filter_v2-Ensures : (pos : ℕ) → Ensures (λ r. IsFilter r.0) (parse_filter_v2 d pos)
  unfolding parse_filter_v2
  parse_filter_v2-Ensures pos = bind (ensure_len-Ensures d pos 2) λ _ h.
      bind (from_le_bytes-Ensures s 2 pos (omega arith)) λ filter_id id.
        bind (read_name_length-Ensures filter_id (pos + 2)) λ nl _.
          bind (ensure_len-Ensures d nl.1 4) λ _ k.
            bind (from_le_bytes-Ensures s 2 nl.1 (omega arith)) λ flags flag.
              bind (from_le_bytes-Ensures s 2 (nl.1 + 2) (omega arith)) λ num few.
                bind (read_name_v2-Ensures nl.0 (nl.1 + 4)) λ name _.
                  bind (read_client_data-Ensures num name.1) λ vals v.
                    returns
                      (record { id = id; flag = flag; few = omega (arith, v.0); values = v.1 })

  parse_filters_v1-Ensures :
      (n pos : ℕ) → Ensures (λ fs. (length fs ≡ n) × All IsFilter fs) (parse_filters_v1 n d pos)
  unfolding parse_filters_v1
  parse_filters_v1-Ensures zero pos = returns (refl, tt)
  parse_filters_v1-Ensures (suc n) pos =
      bind (parse_filter_v1-Ensures pos)
        λ f h. bind (parse_filters_v1-Ensures n f.1) λ fs t. returns (ap suc t.0, (h, t.1))

  parse_filters_v2-Ensures :
      (n pos : ℕ) → Ensures (λ fs. (length fs ≡ n) × All IsFilter fs) (parse_filters_v2 n d pos)
  unfolding parse_filters_v2
  parse_filters_v2-Ensures zero pos = returns (refl, tt)
  parse_filters_v2-Ensures (suc n) pos =
      bind (parse_filter_v2-Ensures pos)
        λ f h. bind (parse_filters_v2-Ensures n f.1) λ fs t. returns (ap suc t.0, (h, t.1))

  parse_v1-Ensures : (n : ℕ) → n < 256 → Ensures IsPipeline (parse_v1 d n)
  unfolding parse_v1
  parse_v1-Ensures n h = bind (ensure_len-Ensures d 0 8) λ _ _.
      bind (parse_filters_v1-Ensures n 8) λ fs t.
        returns
          (record { known = (omega arith, omega arith); few = omega (arith, t.0); each = t.1 })

  parse_v2-Ensures : (n : ℕ) → n < 256 → Ensures IsPipeline (parse_v2 d n)
  unfolding parse_v2
  parse_v2-Ensures n h = bind (parse_filters_v2-Ensures n 2) λ fs t.
      returns (record { known = (omega arith, omega arith); few = omega (arith, t.0); each = t.1 })

  -- For every message, `parse` returns `Ok` or `Err` and never panics; a pipeline that it returns
  -- has version 1 or 2 and at most 255 filters, the identifier, the flags and the number of client
  -- values of each fit 16 bits, and each client value fits 32 bits.
  pub parse-IsPipeline : Ensures IsPipeline (parse d)
  unfolding parse
  parse-IsPipeline = bind (ensure_len-Ensures d 0 2) λ _ h.
      bind (index-Ensures s 0 (omega arith)) λ version _.
        bind (index-Ensures s 1 (omega arith)) λ n byte.
          branch (version == 1) (λ _. parse_v1-Ensures n byte)
            λ _. branch (version == 2) (λ _. parse_v2-Ensures n byte) λ _. fails tt
