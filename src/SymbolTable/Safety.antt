-- ===== src/SymbolTable/Safety.antt =====
-- Parsing a group's symbol table always returns, and a node has the entries its header counts.
use rustyhdf.Prelude.{
  ℕ, zero, suc, ◌+◌, ◌*◌, ◌^◌, ◌<◌, ◌≤◌, ◌≡◌, refl, ap, ◌∙◌, sym, arith, List, [], ◌∷◌, length, All,
  ◌==◌,
}
use rustyhdf.Outcome.Ensures.{Ensures, returns, bind, bind_eq, guarded}
use rustyhdf.Outcome.{ok, invalid_symbol_table_node_signature, invalid_symbol_table_node_version}
use rustyhdf.Bytes.{IsSlice, IsBytes, bytes_eq, from_le_bytes}
use rustyhdf.Bytes.Reads.{index-Ensures, slice-Ensures, from_le_bytes-Ensures}
use rustyhdf.Utils.Safety.{ensure_len-Ensures, read_offset-Ensures}
use rustyhdf.SymbolTable.{SymbolTableEntry}
use rustyhdf.SymbolTable.{parse_message, parse_entry, parse_entries, parse_node}

-- An entry's addresses fit `offset_size` bytes, and its scratch pad is 16 bytes.
pub record IsEntry (offset_size : ℕ) (e : SymbolTableEntry) : Type 0 where
  pub name : e.link_name_offset < 256 ^ offset_size
  pub header : e.object_header_address < 256 ^ offset_size
  pub cache : e.cache_type < 2 ^ 32
  pub pad : IsBytes e.scratch_pad
  pub pad_length : length e.scratch_pad ≡ 16

module _ {d : List ℕ} (s : IsSlice d) where
  parse_entry-Ensures :
      (pos size : ℕ)
      → pos + size + size + 24 ≤ length d
      → Ensures (IsEntry size) (parse_entry d pos size)
  unfolding parse_entry
  parse_entry-Ensures pos size h = bind (read_offset-Ensures s pos size) λ name q.
      bind (read_offset-Ensures s (pos + size) size) λ header q'.
        bind (from_le_bytes-Ensures s 4 (pos + size + size) (omega arith)) λ cache small.
          bind
            (slice-Ensures s (pos + size + size + 8) (pos + size + size + 24) (omega arith)
              (omega arith))
            λ pad t. returns (record {
              name = q.fits;
              header = q'.fits;
              cache = small;
              pad = t.0.bytes;
              pad_length = omega (arith, t.1);
            })

  parse_entries-Ensures :
      (n pos size : ℕ)
      → pos + n * (size + size + 4 + 4 + 16) ≤ length d
      → Ensures
          (λ entries. (length entries ≡ n) × All (IsEntry size) entries)
          (parse_entries n d pos size)
  unfolding parse_entries
  parse_entries-Ensures zero pos size h = returns (refl, tt)
  parse_entries-Ensures (suc n) pos size h =
      let room : pos + size + size + 24 + n * (size + size + 4 + 4 + 16) ≤ length d = grind arith in
      bind (parse_entry-Ensures pos size (omega arith)) λ entry e.
        bind (parse_entries-Ensures n (pos + size + size + 24) size room)
          λ entries t. returns (ap suc t.0, (e, t.1))

  -- For every file and every offset, parsing a symbol table node returns `Ok` or `Err` and never
  -- panics. A node that it returns has as many entries as bytes 6 and 7 of the node say, the
  -- entries all lie inside the file, and each has addresses of `size` bytes and a scratch pad of
  -- 16 bytes.
  pub parse_node-IsNode :
      (offset size : ℕ)
      → Ensures
          (λ n.
            (from_le_bytes 2 d (offset + 6) ≡ ok (length n.entries))
            × (offset + 8 + length n.entries * (size + size + 24) ≤ length d)
            × All (IsEntry size) n.entries)
          (parse_node d offset size)
  unfolding parse_node
  parse_node-IsNode offset size = bind (ensure_len-Ensures d offset 8) λ _ h.
      bind (slice-Ensures s offset (offset + 4) (omega arith) (omega arith)) λ signature _.
        bind
          (guarded (bytes_eq signature (b'S' ∷ b'N' ∷ b'O' ∷ b'D' ∷ []))
            invalid_symbol_table_node_signature)
          λ _ _. bind (index-Ensures s (offset + 4) (omega arith)) λ version _.
            bind (guarded (version == 1) (invalid_symbol_table_node_version version)) λ _ _.
              bind_eq (from_le_bytes 2 d (offset + 6))
                (from_le_bytes-Ensures s 2 (offset + 6) (omega arith))
                λ num_symbols e _.
                  bind
                    (ensure_len-Ensures d 0 (offset + 8 + num_symbols * (size + size + 4 + 4 + 16)))
                    λ _ inside.
                      bind
                        (parse_entries-Ensures num_symbols (offset + 8) size
                          (omega (arith, inside)))
                        λ entries t.
                          returns (e ∙ ap ok (sym t.0), rw (t.0) (omega (arith, inside)), t.1)

  pub parse_message-Ensures :
      (size : ℕ)
      → Ensures
          (λ m. (m.btree_address < 256 ^ size) × (m.local_heap_address < 256 ^ size))
          (parse_message d size)
  unfolding parse_message
  parse_message-Ensures size = bind (ensure_len-Ensures d 0 (size * 2)) λ _ _.
      bind (read_offset-Ensures s 0 size)
        λ tree q. bind (read_offset-Ensures s size size) λ heap q'. returns (q.fits, q'.fits)
