-- ===== src/InfoMessages/Safety.antt =====
-- Parsing an info message always returns, and what it returns is bounded by its fields.
use rustyhdf.Prelude.{ℕ, ◌+◌, ◌^◌, ◌<◌, ◌≡◌, arith, Bool, List, Option, none, some}
use rustyhdf.Prelude.{false, ◌==◌}
use rustyhdf.Outcome.Ensures.{Ensures, returns, bind, branch, guarded}
use rustyhdf.Bytes.{IsSlice}
use rustyhdf.Bytes.Reads.{index-Ensures, from_le_bytes-Ensures}
use rustyhdf.Utils.{bit_set, is_undefined_offset}
use rustyhdf.Utils.Safety.{ensure_len-Ensures, read_offset-Ensures}
use rustyhdf.DataLayout.Safety.{IsBelow}
use rustyhdf.InfoMessages.{LinkInfoMessage, GroupInfoMessage, AttributeInfoMessage, parse_addr}
use rustyhdf.InfoMessages.{optional_number, optional_addr, optional_pair, parse_link_info}
use rustyhdf.InfoMessages.{parse_group_info, parse_attribute_info}

-- An address that is there fits its width, and is not the undefined one.
unfoldable pub IsAddress : ℕ → Option ℕ → Type 0
IsAddress n none = Unit {0}
IsAddress n (some a) = (a < 256 ^ n) × (is_undefined_offset a n ≡ false)

pub record IsLinkInfo (n : ℕ) (m : LinkInfoMessage) : Type 0 where
  pub order : IsBelow (2 ^ 64) m.max_creation_order
  pub heap : IsAddress n m.fractal_heap_address
  pub by_name : IsAddress n m.btree_name_index_address
  pub by_order : IsAddress n m.btree_creation_order_address

pub record IsGroupInfo (m : GroupInfoMessage) : Type 0 where
  pub compact : IsBelow (2 ^ 16) m.max_compact
  pub dense : IsBelow (2 ^ 16) m.min_dense
  pub entries : IsBelow (2 ^ 16) m.estimated_num_entries
  pub names : IsBelow (2 ^ 16) m.estimated_name_length

pub record IsAttributeInfo (n : ℕ) (m : AttributeInfoMessage) : Type 0 where
  pub order : IsBelow (2 ^ 16) m.max_creation_index
  pub heap : IsAddress n m.fractal_heap_address
  pub by_name : IsAddress n m.btree_name_index_address
  pub by_order : IsAddress n m.btree_creation_order_address

module _ {d : List ℕ} (s : IsSlice d) where
  parse_addr-Ensures : (pos n : ℕ) → Ensures (IsAddress n) (parse_addr d pos n)
  unfolding parse_addr IsAddress
  parse_addr-Ensures pos n =
      bind (read_offset-Ensures s pos n)
        λ a f. branch (is_undefined_offset a n) (λ _. returns tt) (λ e. returns (f.fits, e))

  optional_addr-Ensures : (b : Bool) (pos n : ℕ) → Ensures (IsAddress n) (optional_addr b d pos n)
  unfolding optional_addr IsAddress
  optional_addr-Ensures b pos n = branch b (λ _. parse_addr-Ensures pos n) (λ _. returns tt)

  optional_number-Ensures :
      (b : Bool) (n pos : ℕ) → Ensures (λ r. IsBelow (256 ^ n) r.0) (optional_number b n d pos)
  unfolding optional_number
  optional_number-Ensures b n pos =
      branch b
        (λ _.
          bind (ensure_len-Ensures d pos n)
            λ _ h. bind (from_le_bytes-Ensures s n pos h) λ v below. returns below)
        (λ _. returns tt)

  optional_pair-Ensures :
      (b : Bool) (pos : ℕ)
      → Ensures (λ r. IsBelow (2 ^ 16) r.0.0 × IsBelow (2 ^ 16) r.0.1) (optional_pair b d pos)
  unfolding optional_pair
  optional_pair-Ensures b pos =
      branch b
        (λ _. bind (ensure_len-Ensures d pos 4) λ _ h.
          bind (from_le_bytes-Ensures s 2 pos (omega arith)) λ x below.
            bind (from_le_bytes-Ensures s 2 (pos + 2) (omega arith))
              λ y below'. returns (below, below'))
        (λ _. returns (tt, tt))

  parse_link_info-Ensures : (n : ℕ) → Ensures (IsLinkInfo n) (parse_link_info d n)
  unfolding parse_link_info
  parse_link_info-Ensures n = bind (ensure_len-Ensures d 0 2) λ _ h.
      bind (index-Ensures s 0 (omega arith)) λ version _. bind (guarded (version == 0) _) λ _ _.
        bind (index-Ensures s 1 (omega arith)) λ flags _.
          bind (optional_number-Ensures (bit_set flags 0x01) 8 2) λ order o.
            bind (parse_addr-Ensures order.1 n) λ heap a.
              bind (parse_addr-Ensures (order.1 + n) n) λ names b.
                bind (optional_addr-Ensures (bit_set flags 0x02) (order.1 + n + n) n)
                  λ orders c. returns (record { order = o; heap = a; by_name = b; by_order = c })

  parse_group_info-Ensures : Ensures IsGroupInfo (parse_group_info d)
  unfolding parse_group_info
  parse_group_info-Ensures = bind (ensure_len-Ensures d 0 2) λ _ h.
      bind (index-Ensures s 0 (omega arith)) λ version _. bind (guarded (version == 0) _) λ _ _.
        bind (index-Ensures s 1 (omega arith)) λ flags _.
          bind (optional_pair-Ensures (bit_set flags 0x01) 2) λ phase p.
            bind (optional_pair-Ensures (bit_set flags 0x02) phase.1) λ estimated q.
              returns (record { compact = p.0; dense = p.1; entries = q.0; names = q.1 })

  parse_attribute_info-Ensures : (n : ℕ) → Ensures (IsAttributeInfo n) (parse_attribute_info d n)
  unfolding parse_attribute_info
  parse_attribute_info-Ensures n = bind (ensure_len-Ensures d 0 2) λ _ h.
      bind (index-Ensures s 0 (omega arith)) λ version _. bind (guarded (version == 0) _) λ _ _.
        bind (index-Ensures s 1 (omega arith)) λ flags _.
          bind (optional_number-Ensures (bit_set flags 0x01) 2 2) λ order o.
            bind (parse_addr-Ensures order.1 n) λ heap a.
              bind (parse_addr-Ensures (order.1 + n) n) λ names b.
                bind (optional_addr-Ensures (bit_set flags 0x02) (order.1 + n + n) n)
                  λ orders c. returns (record { order = o; heap = a; by_name = b; by_order = c })

  -- For every message and address size, the parsers of the link info, the group info and the
  -- attribute info message return `Ok` or `Err` and never panic. An address that they return fits
  -- the address size and is not the undefined one; the counts and hints fit 16 bits, and the largest
  -- creation order of a link 64.
  pub parse_infos-Ensures :
      (n : ℕ)
      → Ensures (IsLinkInfo n) (parse_link_info d n)
        × Ensures IsGroupInfo (parse_group_info d)
        × Ensures (IsAttributeInfo n) (parse_attribute_info d n)
  parse_infos-Ensures n =
      (parse_link_info-Ensures n, parse_group_info-Ensures, parse_attribute_info-Ensures n)
