-- ===== src/LocalHeap/Safety.antt =====
-- Parsing a local heap's header, and reading a name from the heap.
use rustyhdf.Prelude.{
  ℕ, ℕ_discrete, zero, suc, ◌+◌, ◌*◌, ◌^◌, ◌<◌, ◌≤◌, ◌≡◌, ◌≢◌, ap, ◌∙◌, sym, min, arith,
}
use rustyhdf.Prelude.{List, [], ◌∷◌, length, leb, ltb, ◌==◌, ==_iff, true, false, Bool, not, ◌||◌}
use rustyhdf.Outcome.{usize_mod, ok}
use rustyhdf.Outcome.{invalid_local_heap_signature, invalid_local_heap_version}
use rustyhdf.Outcome.Ensures.{Ensures, returns, fails, bind, bind_eq, branch, weaken, guarded}
use rustyhdf.Outcome.Ensures.{add_usize-Ensures}
use rustyhdf.Bytes.{IsSlice, bytes_eq, index, slice}
use rustyhdf.Bytes.Reads.{index-Ensures, slice-Ensures}
use rustyhdf.Utils.Safety.{ensure_len-Ensures, read_offset-Ensures}
use rustyhdf.LocalHeap.{LocalHeap, parse, find_null, guard_eof, read_string}
use rustyhdf.LocalHeap.Utf8.{is_utf8}

-- The first place from `pos` on with a zero, or `stop` when there is none before it.
record IsFirstNull (d : List ℕ) (pos stop end : ℕ) : Type 0 where
  from : pos ≤ end
  upto : end ≤ stop
  none_before : (k : ℕ) → pos ≤ k → k < end → index d k ≢ ok 0
  zero_at : end < stop → index d end ≡ ok 0

-- A name in the heap: text from `start` up to the first zero byte, which lies before `stop`.
pub record IsName (d : List ℕ) (start stop : ℕ) (s : List ℕ) : Type 0 where
  pub read : slice d start (start + length s) ≡ ok s
  pub before_stop : start + length s < stop
  pub terminated : index d (start + length s) ≡ ok 0
  pub no_null : (k : ℕ) → start ≤ k → k < start + length s → index d k ≢ ok 0
  pub text : is_utf8 s ≡ true

module _ {d : List ℕ} (s : IsSlice d) where
  starts_nonzero :
      {pos b : ℕ} (i : ℕ) → i ≡ pos → index d pos ≡ ok b → (b == 0) ≡ false → index d i ≢ ok 0
  starts_nonzero {pos} {b} i same at nz z =
      let here : index d i ≡ index d pos = ap (index d) same in
      let zero_here : ok b ≡ ok 0 = cc in let none : b ≡ 0 = cc in ground arith

  find_null-Ensures :
      (fuel pos stop : ℕ)
      → pos ≤ stop
      → stop ≤ length d
      → length d < fuel + pos
      → Ensures (IsFirstNull d pos stop) (find_null fuel d stop pos)
  unfolding find_null
  find_null-Ensures zero pos stop h k l = absurd (omega arith)
  find_null-Ensures (suc fuel) pos stop h k l =
      branch (ltb pos stop)
        (λ e.
          let inside : pos < stop = ground arith in
          bind_eq (index d pos) (index-Ensures s pos (omega arith)) λ b at _.
            branch (b == 0)
              (λ z. returns (record {
                from = omega arith;
                upto = omega arith;
                none_before = λ i a c. absurd (omega arith);
                zero_at = λ _. at ∙ ap ok ((==_iff b 0).0 z);
              }))
              (λ nz.
                weaken (find_null-Ensures fuel (pos + 1) stop (omega arith) k (omega arith))
                  λ end t. record {
                    from = omega (arith, t.from);
                    upto = t.upto;
                    none_before = λ i a c. elim (ℕ_discrete i pos) [
                      | yes same ↦ (λ z. absurd (starts_nonzero i same at nz z))
                      | no differ ↦ t.none_before i (omega (arith, differ)) c
                    ];
                    zero_at = t.zero_at;
                  }))
        (λ e.
          let at_stop : pos ≡ stop = ground arith in
          returns (record {
            from = omega arith;
            upto = omega arith;
            none_before = λ i a c. absurd (omega arith);
            zero_at = λ c. absurd (omega arith);
          }))

  -- For every file and offset, parsing a local heap's header returns `Ok` or `Err` and never
  -- panics; the fields that it returns fit the widths they were read with.
  pub parse_local_heap-Ensures :
      (offset offset_size length_size : ℕ)
      → Ensures
          (λ h.
            (h.data_segment_size < 256 ^ length_size)
            × (h.free_list_head_offset < 256 ^ length_size)
            × (h.data_segment_address < 256 ^ offset_size))
          (parse d offset offset_size length_size)
  unfolding parse
  parse_local_heap-Ensures offset os ls =
      bind (ensure_len-Ensures d offset (8 + ls * 2 + os)) λ _ h.
        bind (slice-Ensures s offset (offset + 4) (omega arith) (omega arith)) λ signature _.
          bind
            (guarded (bytes_eq signature (b'H' ∷ b'E' ∷ b'A' ∷ b'P' ∷ []))
              invalid_local_heap_signature)
            λ _ _. bind (index-Ensures s (offset + 4) (omega arith)) λ version _.
              bind (guarded (version == 0) (invalid_local_heap_version version)) λ _ _.
                bind (read_offset-Ensures s (offset + 8) ls) λ seg q.
                  bind (read_offset-Ensures s (offset + 8 + ls) ls) λ free q'.
                    bind (read_offset-Ensures s (offset + 8 + ls + ls) os)
                      λ address q''. returns (q.fits, q'.fits, q''.fits)

  guard_eof-Ensures :
      (inside : Bool) (last available : ℕ)
      → last + 1 < usize_mod
      → Ensures (λ _. inside ≡ true) (guard_eof inside last available)
  unfolding guard_eof
  guard_eof-Ensures inside last available h =
      branch inside (λ e. returns e) λ _. bind (add_usize-Ensures last 1 h) λ _ _. fails tt

  -- Reading a name never panics when the segment's end does not pass `usize::MAX` and the name's
  -- address lies below `usize::MAX`. What it returns is the text from the name's address up to the first zero byte,
  -- and that byte lies inside the segment.
  pub read_string-IsName :
      (heap : LocalHeap) (string_offset : ℕ)
      → heap.data_segment_address + string_offset + 1 < usize_mod
      → heap.data_segment_address + heap.data_segment_size < usize_mod
      → Ensures
          (IsName d
            (heap.data_segment_address + string_offset)
            (heap.data_segment_address + heap.data_segment_size))
          (read_string heap d string_offset)
  unfolding read_string
  read_string-IsName heap string_offset h k = bind (add_usize-Ensures _ _ (omega arith)) λ start a.
      bind (add_usize-Ensures _ _ k) λ stop b.
        bind
          (guard_eof-Ensures (not (leb (length d) start || leb stop start)) start (length d)
            (omega (arith, a)))
          λ _ g.
            let inside : start < length d = ground arith in
            let before : start < stop = ground arith in
            bind
              (find_null-Ensures (suc (length d)) start (min stop (length d)) (omega arith)
                (omega arith) (omega arith))
              λ end f.
                bind
                  (guard_eof-Ensures (not (leb (min stop (length d)) end)) end (min stop (length d))
                    (omega (arith, f.upto, s.sized)))
                  λ _ g'.
                    let short : end < min stop (length d) = ground arith in
                    bind_eq (slice d start end) (slice-Ensures s start end f.from (omega arith))
                      λ t at q. bind (guarded (is_utf8 t) invalid_local_heap_signature) λ _ u.
                        let end_at : start + length t ≡ end = omega (arith, q.1, f.from) in
                        returns (
                          rw (sym a, sym b)
                            (record {
                              read = rw (end_at) at;
                              before_stop = omega (arith, end_at);
                              terminated = rw (end_at) (f.zero_at short);
                              no_null = rw (end_at) f.none_before;
                              text = u;
                            }))
