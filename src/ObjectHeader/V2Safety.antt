-- ===== src/ObjectHeader/V2Safety.antt =====
-- Version 2 headers: parsing returns, and when it does not.
use rustyhdf.Prelude.{
  ℕ, zero, suc, ◌+◌, ◌-◌, ◌^◌, ◌%◌, ◌<◌, ◌≤◌, ◌≡◌, ◌≢◌, arith, List, [], ◌∷◌, length,
}
use rustyhdf.Prelude.{All-append, leb, ltb, ◌==◌, true, false, Bool, bit_and}
use rustyhdf.Outcome.{ok, usize_mod}
use rustyhdf.Prelude.Bits.{low_two_bits}
use rustyhdf.Outcome.Ensures.{Ensures, Returns, returns, fails, bind, bind_eq, branch, guarded}
use rustyhdf.Bytes.{IsSlice, index, bytes_eq}
use rustyhdf.Bytes.Reads.{index-Ensures, slice-Ensures, from_le_bytes-Ensures}
use rustyhdf.Utils.{bit_set}
use rustyhdf.Utils.Safety.{ensure_len-Ensures, read_offset-Ensures, check_checksum-Ensures}
use rustyhdf.MessageType.{from_u16, is_nil, is_continuation}
use rustyhdf.ObjectHeader.Defs.{HeaderMessage, IsMessage, ochk_signature}
use rustyhdf.ObjectHeader.V1Safety.{AreMessages, is_nil-ne-nil, check_known-Ensures}
use rustyhdf.ObjectHeader.V2.{
  Collected, read_creation_order, collect, msg_header_size, v2_messages, parse_v2_messages,
  parse_v2_continuation, follow_continuations, read_times, skip_thresholds, chunk_size_width,
  parse_v2,
}

abbrev AreCollected : Collected → Type 0
AreCollected acc = AreMessages acc.messages

collect-Ensures :
    (acc : Collected) (m : HeaderMessage) (os ls : ℕ)
    → IsSlice m.contents
    → length m.contents ≡ m.size
    → AreCollected acc
    → Ensures AreCollected (collect acc m os ls)
unfolding collect
collect-Ensures acc m os ls s sized h =
    branch (is_continuation m.msg_type)
      (λ _.
        branch (leb (os + ls) (length m.contents))
          (λ _.
            bind (read_offset-Ensures s 0 os)
              λ o _. bind (read_offset-Ensures s os ls) λ l _. returns h)
          (λ _. returns h))
      λ _.
        branch (is_nil m.msg_type) (λ _. returns h)
          λ e. returns (
            All-append IsMessage acc.messages (m ∷ []) h
              (record { used = is_nil-ne-nil m.msg_type e; sized = sized }, tt))

module _ {d : List ℕ} (s : IsSlice d) where
  read_creation_order-Ensures :
      (has : Bool) (pos : ℕ)
      → pos + msg_header_size has ≤ length d
      → Returns (read_creation_order has d pos)
  unfolding read_creation_order
  read_creation_order-Ensures true pos h =
      bind (from_le_bytes-Ensures s 2 (pos + 4) (omega arith)) λ co _. returns tt
  read_creation_order-Ensures false pos h = returns tt

  msg_header_size-le : (has : Bool) → 4 ≤ msg_header_size has
  msg_header_size-le true = omega arith
  msg_header_size-le false = omega arith

  v2_messages-Ensures :
      (fuel pos end : ℕ) (has : Bool) (os ls : ℕ) (acc : Collected)
      → end ≤ length d
      → end < pos + fuel
      → pos ≤ end
      → AreCollected acc
      → Ensures AreCollected (v2_messages fuel d pos end has os ls acc)
  unfolding v2_messages
  v2_messages-Ensures zero pos end has os ls acc inside enough ordered h = absurd (omega arith)
  v2_messages-Ensures (suc fuel) pos end has os ls acc inside enough ordered h =
      let start = pos + msg_header_size has in
      let lo : 4 ≤ msg_header_size has = msg_header_size-le has in
      branch (leb start end)
        (λ more.
          let room : start ≤ end = ground arith in
          bind (index-Ensures s pos (omega arith)) λ raw _.
            bind (from_le_bytes-Ensures s 2 (pos + 1) (omega arith)) λ size _.
              bind (index-Ensures s (pos + 3) (omega arith)) λ flags _.
                bind (read_creation_order-Ensures has pos (omega arith)) λ order _.
                  branch (ltb end (start + size)) (λ _. returns h)
                    λ fits.
                      let stop : start + size ≤ end = ground arith in
                      bind (check_known-Ensures (from_u16 raw) flags) λ _ _.
                        bind (slice-Ensures s start (start + size) (omega arith) (omega arith))
                          λ contents q.
                            bind (collect-Ensures acc _ os ls q.0 (omega (arith, q.1)) h) λ acc' h'.
                              v2_messages-Ensures fuel (start + size) end has os ls acc' inside
                                (omega arith) stop h')
        (λ _. returns h)

  parse_v2_messages-Ensures :
      (start end : ℕ) (has : Bool) (os ls : ℕ) (acc : Collected)
      → end ≤ length d
      → start ≤ end
      → AreCollected acc
      → Ensures AreCollected (parse_v2_messages d start end has os ls acc)
  unfolding parse_v2_messages
  parse_v2_messages-Ensures start end has os ls acc inside ordered h =
      v2_messages-Ensures (suc (end - start)) start end has os ls acc inside (omega arith) ordered h

  parse_v2_continuation-Ensures :
      (offset size : ℕ) (has : Bool) (os ls : ℕ) (acc : Collected)
      → AreCollected acc
      → Ensures AreCollected (parse_v2_continuation d offset size has os ls acc)
  unfolding parse_v2_continuation
  parse_v2_continuation-Ensures offset size has os ls acc h =
      bind (ensure_len-Ensures d offset size) λ _ room. bind (guarded (leb 8 size) _) λ _ big.
        let big' : 8 ≤ size = ground arith in
        bind (ensure_len-Ensures d offset 4) λ _ _.
          bind (slice-Ensures s offset (offset + 4) (omega arith) (omega arith)) λ magic _.
            bind (guarded (bytes_eq magic ochk_signature) _) λ _ _.
              bind
                (check_checksum-Ensures s offset (offset + size - 4) (omega arith)
                  (omega (arith, s.sized)))
                λ _ inside.
                  parse_v2_messages-Ensures (offset + 4) (offset + size - 4) has os ls acc
                    (omega arith) (omega arith) h

  follow_continuations-Ensures :
      (remaining : ℕ) (has : Bool) (os ls : ℕ) (messages : List HeaderMessage) (cs : List (ℕ × ℕ))
      → AreMessages messages
      → Ensures AreMessages (follow_continuations remaining d has os ls messages cs)
  unfolding follow_continuations
  follow_continuations-Ensures zero has os ls messages [] h = returns h
  follow_continuations-Ensures (suc n) has os ls messages [] h = returns h
  follow_continuations-Ensures zero has os ls messages (c ∷ cs) h = fails tt
  follow_continuations-Ensures (suc n) has os ls messages (c ∷ cs) h =
      bind (parse_v2_continuation-Ensures c.0 c.1 has os ls _ h)
        λ acc h'. follow_continuations-Ensures n has os ls acc.messages acc.continuations h'

  read_times-Ensures : (pos flags : ℕ) → Ensures (λ t. pos ≤ t.after) (read_times d pos flags)
  unfolding read_times
  read_times-Ensures pos flags =
      branch (bit_set flags 0x20)
        (λ _. bind (ensure_len-Ensures d pos 16) λ _ room.
          bind (from_le_bytes-Ensures s 4 pos (omega arith)) λ a _.
            bind (from_le_bytes-Ensures s 4 (pos + 4) (omega arith)) λ m _.
              bind (from_le_bytes-Ensures s 4 (pos + 8) (omega arith)) λ c _.
                bind (from_le_bytes-Ensures s 4 (pos + 12) (omega arith))
                  λ b _. returns (omega arith))
        (λ _. returns (omega arith))

  skip_thresholds-Ensures : (pos flags : ℕ) → Ensures (λ p. pos ≤ p) (skip_thresholds d pos flags)
  unfolding skip_thresholds
  skip_thresholds-Ensures pos flags =
      branch (bit_set flags 0x10)
        (λ _. bind (ensure_len-Ensures d pos 4) λ _ _. returns (omega arith))
        (λ _. returns (omega arith))

-- Three of the four widths keep the chunk below 4 GiB.
chunk_size_width-Ensures :
    (flags : ℕ)
    → flags < 256
    → flags % 4 ≢ 3
    → Ensures (λ w. 256 ^ w ≤ 2 ^ 32) (chunk_size_width flags)
unfolding chunk_size_width
chunk_size_width-Ensures flags byte narrow =
    let e : bit_and flags 3 ≡ flags % 4 = low_two_bits flags byte in
    branch (bit_and flags 3 == 0) (λ _. returns (omega arith))
      λ n₀.
        branch (bit_and flags 3 == 1) (λ _. returns (omega arith))
          λ n₁.
            branch (bit_and flags 3 == 2) (λ _. returns (omega arith))
              λ n₂. absurd (ground (arith, e))

-- Reading a version 2 header returns `Ok` or `Err` for every file and every place in it, also if
-- its continuation blocks form a cycle, unless its flags announce an 8-byte chunk size. In a header
-- that it returns no message is nil, and each has as many bytes as its size says.
pub parse_v2-IsMessage :
    {d : List ℕ} (offset os ls : ℕ)
    → IsSlice d
    → ((flags : ℕ) → index d (offset + 5) ≡ ok flags → flags % 4 ≢ 3)
    → Ensures (λ h. AreMessages h.messages) (parse_v2 d offset os ls)
unfolding parse_v2
parse_v2-IsMessage {d} offset os ls s narrow = bind (ensure_len-Ensures d offset 6) λ _ room.
    bind (index-Ensures s (offset + 4) (omega arith)) λ version _.
      bind (guarded (version == 2) _) λ _ _.
        bind_eq (index d (offset + 5)) (index-Ensures s (offset + 5) (omega arith)) λ flags at byte.
          bind (read_times-Ensures s (offset + 6) flags) λ times after.
            bind (skip_thresholds-Ensures s times.after flags) λ size_pos after'.
              bind (chunk_size_width-Ensures flags byte (narrow flags at)) λ width small.
                bind (read_offset-Ensures s size_pos width) λ chunk0_size field.
                  let start = size_pos + width in
                  let end = start + chunk0_size in
                  bind (guarded (ltb end usize_mod) _) λ _ _.
                    bind
                      (check_checksum-Ensures s offset end (omega arith)
                        (omega (arith, field.inside, field.fits, s.sized)))
                      λ _ inside.
                        bind
                          (parse_v2_messages-Ensures s start end (bit_set flags 0x04) os ls _
                            (omega arith) (omega arith) tt)
                          λ acc ms.
                            bind
                              (follow_continuations-Ensures s 256 (bit_set flags 0x04) os ls
                                acc.messages acc.continuations ms)
                              λ messages ms'. returns ms'
