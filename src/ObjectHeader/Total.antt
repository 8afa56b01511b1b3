-- ===== src/ObjectHeader/Total.antt =====
-- `ObjectHeader::parse` on any file.
use rustyhdf.Prelude.{ℕ, ◌+◌, ◌%◌, ◌≡◌, ◌≢◌, ap, ◌∙◌, arith, List}
use rustyhdf.Outcome.{ok}
use rustyhdf.Outcome.Ensures.{Ensures, bind_eq, bind, branch}
use rustyhdf.Bytes.{IsSlice, index, slice, bytes_eq}
use rustyhdf.Bytes.Laws.{bytes_eq-true}
use rustyhdf.Bytes.Reads.{slice-Ensures}
use rustyhdf.Utils.Safety.{ensure_len-Ensures}
use rustyhdf.ObjectHeader.{parse}
use rustyhdf.ObjectHeader.Defs.{ohdr_signature}
use rustyhdf.ObjectHeader.V1Safety.{AreMessages, parse_v1-IsMessage}
use rustyhdf.ObjectHeader.V2Safety.{parse_v2-IsMessage}

-- Parsing an object header returns `Ok` or `Err` for every file and every place in it: it does not
-- panic, and it ends, also where continuation blocks form a cycle. The one exception is a header
-- with the OHDR signature whose flags announce an 8-byte chunk size. In a header that is returned
-- no message is nil, and each has as many bytes as its size says.
pub header_parse-IsMessage :
    {d : List ℕ} (offset os ls : ℕ)
    → IsSlice d
    → (slice d offset (offset + 4) ≡ ok ohdr_signature
        → (flags : ℕ) → index d (offset + 5) ≡ ok flags
        → flags % 4 ≢ 3)
    → Ensures (λ h. AreMessages h.messages) (parse d offset os ls)
unfolding parse
header_parse-IsMessage {d} offset os ls s narrow = bind (ensure_len-Ensures d offset 4) λ _ room.
    bind_eq (slice d offset (offset + 4))
      (slice-Ensures s offset (offset + 4) (omega arith) (omega arith))
      λ magic at _.
        branch (bytes_eq magic ohdr_signature)
          (λ e.
            let signed = at ∙ ap ok (bytes_eq-true magic ohdr_signature e) in
            parse_v2-IsMessage offset os ls s (narrow signed))
          (λ _. parse_v1-IsMessage s offset os ls)
