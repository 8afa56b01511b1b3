-- ===== src/ObjectHeader/V1Safety.antt =====
-- Version 1 headers: parsing returns on every file, and each message is whole.
use rustyhdf.Prelude.{ℕ, zero, suc, ◌+◌, ◌-◌, ◌<◌, ◌≤◌, ◌≡◌, ◌≢◌, arith, List, length, All}
use rustyhdf.Prelude.{All-append, Bool-cases, inl, inr, leb, ltb, ◌==◌, false, min}
use rustyhdf.Outcome.{Outcome, usize_mod}
use rustyhdf.Outcome.Ensures.{Ensures, Returns, returns, fails, bind, branch, guarded}
use rustyhdf.Bytes.{IsSlice}
use rustyhdf.Bytes.Reads.{index-Ensures, slice-Ensures, from_le_bytes-Ensures}
use rustyhdf.Utils.{bit_set}
use rustyhdf.Utils.Safety.{ensure_len-Ensures, read_offset-Ensures}
use rustyhdf.MessageType.{MessageType, nil, unknown, from_u16, is_nil, is_continuation}
use rustyhdf.ObjectHeader.Defs.{HeaderMessage, check_known, IsMessage}
use rustyhdf.ObjectHeader.V1.{follow, kept, v1_messages, parse_v1_continuation, parse_v1}

abbrev pub AreMessages : List HeaderMessage → Type 0
AreMessages = All IsMessage

pub is_nil-ne-nil : (t : MessageType) → is_nil t ≡ false → t ≢ nil
unfolding is_nil
is_nil-ne-nil nil h = λ _. cc
is_nil-ne-nil _ h = λ e. cc

pub check_known-Ensures : (t : MessageType) (flags : ℕ) → Returns (check_known t flags)
unfolding check_known
check_known-Ensures (unknown id) flags =
    branch (bit_set flags 0x08) (λ _. fails tt) (λ _. returns tt)
check_known-Ensures _ flags = returns tt

kept-AreMessages :
    (t : MessageType) (size flags : ℕ) (contents : List ℕ)
    → length contents ≡ size
    → AreMessages (kept t size flags contents)
unfolding kept
kept-AreMessages t size flags contents h = elim (Bool-cases (is_nil t)) [
  | inl e ↦ rw e tt
  | inr e ↦ rw e (record { used = is_nil-ne-nil t e; sized = h }, tt)
]

module _ (block : ℕ → ℕ → Outcome (List HeaderMessage))
    (returning : (o l : ℕ) → Ensures AreMessages (block o l)) where
  follow-Ensures :
      {contents : List ℕ} (os ls : ℕ) (t : MessageType)
      → IsSlice contents
      → Ensures AreMessages (follow block os ls t contents)
  unfolding follow
  follow-Ensures {contents} os ls t s =
      branch (is_continuation t)
        (λ _.
          branch (leb (os + ls) (length contents))
            (λ _.
              bind (read_offset-Ensures s 0 os)
                λ o _. bind (read_offset-Ensures s os ls) λ l _. returning o l)
            (λ _. returns tt))
        (λ _. returns tt)

  v1_messages-Ensures :
      {d : List ℕ} (fuel pos end os ls : ℕ)
      → IsSlice d
      → end ≤ length d
      → pos ≤ end
      → end < pos + fuel
      → Ensures AreMessages (v1_messages block fuel d pos end os ls)
  unfolding v1_messages
  v1_messages-Ensures zero pos end os ls s inside ordered enough = absurd (omega arith)
  v1_messages-Ensures {d} (suc fuel) pos end os ls s inside ordered enough =
      branch (leb (pos + 8) end)
        (λ more.
          let room : pos + 8 ≤ end = ground arith in
          bind (from_le_bytes-Ensures s 2 pos (omega arith)) λ raw _.
            bind (from_le_bytes-Ensures s 2 (pos + 2) (omega arith)) λ size _.
              bind (index-Ensures s (pos + 4) (omega arith)) λ flags _.
                branch (ltb end (pos + 8 + size)) (λ _. returns tt)
                  λ fits.
                    let stop : pos + 8 + size ≤ end = ground arith in
                    bind (check_known-Ensures (from_u16 raw) flags) λ _ _.
                      bind (slice-Ensures s (pos + 8) (pos + 8 + size) (omega arith) (omega arith))
                        λ contents q. bind (follow-Ensures os ls (from_u16 raw) q.0) λ cont_msgs cs.
                          bind
                            (v1_messages-Ensures fuel (pos + 8 + size) end os ls s inside stop
                              (omega arith))
                            λ rest rs. returns (
                              All-append IsMessage _ _
                                (kept-AreMessages (from_u16 raw) size flags contents
                                  (omega (arith, q.1)))
                                (All-append IsMessage cont_msgs rest cs rs)))
        (λ _. returns tt)

module _ {d : List ℕ} (s : IsSlice d) where
  parse_v1_continuation-Ensures :
      (depth offset size os ls : ℕ)
      → Ensures AreMessages (parse_v1_continuation depth d offset size os ls)
  unfolding parse_v1_continuation
  parse_v1_continuation-Ensures zero offset size os ls = fails tt
  parse_v1_continuation-Ensures (suc depth) offset size os ls =
      bind (ensure_len-Ensures d offset size) λ _ inside.
        let e : min (offset + size) (usize_mod - 1) ≡ offset + size = omega (arith, s.sized) in
        v1_messages-Ensures (λ o l. parse_v1_continuation depth d o l os ls)
          (λ o l. parse_v1_continuation-Ensures depth o l os ls) (suc size) offset
          (min (offset + size) (usize_mod - 1)) os ls s (omega (arith, e)) (omega (arith, e))
          (omega (arith, e))

  -- Reading a version 1 header returns `Ok` or `Err` for every file and every place in it, whatever
  -- its continuation blocks are, also if they form a cycle: no panic and no endless loop. In a
  -- header that it returns no message is nil, and each has as many bytes as its size says.
  pub parse_v1-IsMessage :
      (offset os ls : ℕ) → Ensures (λ h. AreMessages h.messages) (parse_v1 d offset os ls)
  unfolding parse_v1
  parse_v1-IsMessage offset os ls = bind (ensure_len-Ensures d offset 16) λ _ room.
      bind (index-Ensures s offset (omega arith)) λ version _.
        bind (guarded (version == 1) _) λ _ _.
          bind (from_le_bytes-Ensures s 4 (offset + 4) (omega arith)) λ count _.
            bind (from_le_bytes-Ensures s 4 (offset + 8) (omega arith)) λ size _.
              bind (parse_v1_continuation-Ensures 33 (offset + 16) size os ls)
                λ messages ms. returns ms
