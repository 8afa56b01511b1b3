-- ===== src/ObjectHeaderWriter/RoundTrip.antt =====
-- An object header that was written is read back.
use rustyhdf.Prelude.{ℕ, suc, ◌+◌, ◌-◌, ◌^◌, ◌<◌, ◌≤◌, ◌≡◌, refl, ap, ◌∙◌, arith, List, []}
use rustyhdf.Prelude.{◌∷◌, ◌++◌, length, length-append, append_assoc, All, none}
use rustyhdf.Prelude.{map, All-append}
use rustyhdf.Outcome.{ok, usize_mod}
use rustyhdf.Bytes.{IsByte, IsSlice, to_le}
use rustyhdf.Bytes.Laws.{length-to_le, to_le-IsBytes}
use rustyhdf.Bytes.Cursor.{Cursor, Cursor-start, Cursor-step, Cursor-length, slice_at, index_at}
use rustyhdf.ObjectHeaderWriter.{Entry, ObjectHeaderWriter, msg_bytes, entries_bytes}
use rustyhdf.Prelude.{lt→ltb}
use rustyhdf.Utils.Values.{ensure_len_lem, read_offset_at_any, check_checksum_at}
use rustyhdf.Checksum.{jenkins_lookup3}
use rustyhdf.Checksum.Total.{jenkins_lookup3-Ensures}
use rustyhdf.Outcome.Ensures.{NoError, succeeds}
use rustyhdf.ObjectHeader.{parse}
use rustyhdf.ObjectHeader.Defs.{ObjectHeader, ohdr_signature}
use rustyhdf.ObjectHeader.V2.{
  parse_v2, read_times, skip_thresholds, follow_continuations, parse_v2_messages,
}
use rustyhdf.ObjectHeaderWriter.{body, serialize}
use rustyhdf.ObjectHeaderWriter.Entries.{
  IsEntry, as_message, length-entries_bytes, v2_messages_entries, entries_bytes-IsBytes,
}
use rustyhdf.ObjectHeaderWriter.SizeField.{IsSizeField, IsSizeField-cases}

-- What `parse` returns for a header that was written.
abbrev pub as_parsed : ObjectHeaderWriter → ℕ → ObjectHeader
as_parsed w f = record {
  version = 2;
  messages = map as_message w.messages;
  reference_count = none;
  flags = f;
  access_time = none;
  modification_time = none;
  change_time = none;
  birth_time = none;
}

-- The header in front of its checksum.
module _ (f w : ℕ) (es : List Entry) where
  abbrev written_body : List ℕ
  written_body = ohdr_signature ++ (2 ∷ f ∷ (to_le w (msg_bytes es) ++ entries_bytes es))

  length-written_body : length written_body ≡ 6 + w + msg_bytes es
  length-written_body = omega (
    arith,
    length-append (to_le w (msg_bytes es)) (entries_bytes es),
    length-to_le w (msg_bytes es),
    length-entries_bytes es,
  )

module _ (d : List ℕ) (small : length d < usize_mod) (a f w c os ls : ℕ) (es : List Entry)
    (t : List ℕ) (entries : All IsEntry es) (sf : IsSizeField f w (msg_bytes es)) where
  parse_v2_at :
      Cursor d a ((written_body f w es) ++ (to_le 4 c ++ t))
      → jenkins_lookup3 (written_body f w es) ≡ ok c
      → c < 256 ^ 4
      → parse d a os ls ≡ ok (as_parsed (record { messages = es }) f)
  unfolding parse parse_v2 read_times skip_thresholds follow_continuations parse_v2_messages
  parse_v2_at at hash hc =
      let total = msg_bytes es in
      let rest : List ℕ = entries_bytes es ++ (to_le 4 c ++ t) in
      let tail : List ℕ = to_le w total ++ rest in
      let e : (written_body f w es) ++ (to_le 4 c ++ t) ≡ ohdr_signature ++ (2 ∷ f ∷ tail) =
        ap (λ xs. ohdr_signature ++ (2 ∷ f ∷ xs))
          (append_assoc (to_le w total) (entries_bytes es) (to_le 4 c ++ t)) in
      let at₀ : Cursor d a (ohdr_signature ++ (2 ∷ f ∷ tail)) = record {
        rest = at.rest ∙ e;
        inside = at.inside;
      } in
      let at₄ : Cursor d (a + 4) (2 ∷ f ∷ tail) =
        Cursor-step d a (a + 4) ohdr_signature (2 ∷ f ∷ tail) at₀ refl in
      let at₅ : Cursor d (a + 5) (f ∷ tail) =
        Cursor-step d (a + 4) (a + 5) (2 ∷ []) (f ∷ tail) at₄ (omega arith) in
      let at₆ : Cursor d (a + 6) tail =
        Cursor-step d (a + 5) (a + 6) (f ∷ []) tail at₅ (omega arith) in
      let at_es : Cursor d (a + 6 + w) rest =
        Cursor-step d (a + 6) (a + 6 + w) (to_le w total) rest at₆
          (omega (arith, length-to_le w total)) in
      let end : ℕ = a + 6 + w + total in
      let room : end + 4 ≤ length d = omega (
        arith,
        Cursor-length d (a + 6 + w) rest at_es,
        length-append (entries_bytes es) (to_le 4 c ++ t),
        length-entries_bytes es,
      ) in
      rw
        (
          ensure_len_lem d a 4 (omega arith) small,
          slice_at d a (a + 4) ohdr_signature (2 ∷ f ∷ tail) at₀ refl,
          ensure_len_lem d a 6 (omega arith) small,
          index_at d (a + 4) 2 (f ∷ tail) at₄,
          index_at d (a + 5) f tail at₅,
          sf.no_times,
          sf.no_thresholds,
          sf.width,
          read_offset_at_any d small w (a + 6) total rest sf.readable sf.fits at₆,
          lt→ltb end usize_mod (omega arith),
          check_checksum_at d a end (written_body f w es) c t small at
              (omega (arith, length-written_body f w es)) hash hc,
          sf.no_order,
          v2_messages_entries d end os ls (omega arith) es (suc (end - (a + 6 + w))) (a + 6 + w)
              (to_le 4 c ++ t) (record { messages = []; continuations = [] }) entries at_es
              (omega arith) (omega arith),
        )
        refl

module _ (w : ObjectHeaderWriter) (entries : All IsEntry w.messages)
    (total : msg_bytes w.messages < 2 ^ 32) where
  body-written :
      (f n : ℕ) → IsSizeField f n (msg_bytes w.messages) → body w ≡ written_body f n w.messages
  unfolding body
  body-written f n sf = rw sf.field

  body-IsSlice :
      (f n : ℕ) → IsSizeField f n (msg_bytes w.messages) → IsSlice (written_body f n w.messages)
  body-IsSlice f n sf = record {
    bytes = All-append IsByte (ohdr_signature ++ (2 ∷ f ∷ [])) _ (omega (arith, sf.byte)) (
        All-append IsByte (to_le n (msg_bytes w.messages)) (entries_bytes w.messages)
          (to_le-IsBytes n (msg_bytes w.messages)) (entries_bytes-IsBytes w.messages entries));
    sized = omega (arith, length-written_body f n w.messages, sf.narrow);
  }

  serialized :
      (os ls : ℕ) (front rest : List ℕ)
      → length front + length rest < 2 ^ 62
      → (f n c : ℕ) → IsSizeField f n (msg_bytes w.messages)
      → jenkins_lookup3 (written_body f n w.messages) ≡ ok c
      → c < 256 ^ 4
      → (buf : List ℕ) × (g : ℕ) × (serialize w ≡ ok buf)
        × (parse (front ++ (buf ++ rest)) (length front) os ls ≡ ok (as_parsed w g))
  unfolding serialize
  serialized os ls front rest room f n c sf hash hc =
      let x = written_body f n w.messages in
      let hash' : jenkins_lookup3 (body w) ≡ ok c =
        ap jenkins_lookup3 (body-written f n sf) ∙ hash in
      let d : List ℕ = front ++ (x ++ (to_le 4 c ++ rest)) in
      let small : length d < usize_mod = omega (
        arith,
        length-append front (x ++ (to_le 4 c ++ rest)),
        length-append x (to_le 4 c ++ rest),
        length-written_body f n w.messages,
        sf.narrow,
      ) in
      (
        x ++ to_le 4 c,
        f,
        rw hash' (ap (λ b. ok (b ++ to_le 4 c)) (body-written f n sf)),
        rw (append_assoc) (
            parse_v2_at d small (length front) f n c os ls w.messages rest entries sf
              (Cursor-step d 0 (length front) front _ (Cursor-start d) (omega arith)) hash hc),
      )

  -- `serialize` succeeds, and `parse`, at the place where the header lies in a file, reads back the
  -- messages that were added, in order, with their types, data and flags. This holds for messages
  -- of known or ignorable one-byte types that are neither nil nor a continuation, of fewer than
  -- 2^16 bytes each and 2^32 together, in a file with fewer than 2^62 bytes around the header.
  pub header_parse-serialize :
      (os ls : ℕ) (front rest : List ℕ)
      → length front + length rest < 2 ^ 62
      → (buf : List ℕ) × (f : ℕ) × (serialize w ≡ ok buf)
        × (parse (front ++ (buf ++ rest)) (length front) os ls ≡ ok (as_parsed w f))
  header_parse-serialize os ls front rest room =
      let (f, n, sf) = IsSizeField-cases (msg_bytes w.messages) total in
      let (c, hash, hc) = succeeds (jenkins_lookup3-Ensures {E = NoError} (body-IsSlice f n sf)) in
      serialized os ls front rest room f n c sf hash hc
