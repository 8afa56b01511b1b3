-- ===== src/ObjectHeaderWriter/Batch.antt =====
-- A batch of headers is one buffer, in which each header is found at its offset.
use rustyhdf.Prelude.{ℕ, ◌+◌, ◌^◌, ◌<◌, ◌≡◌, refl, ap, ◌∙◌, sym, arith, List, [], ◌∷◌, ◌++◌}
use rustyhdf.Prelude.{length, length-append, append_assoc, append-nil, All}
use rustyhdf.Outcome.{ok}
use rustyhdf.ObjectHeader.{parse}
use rustyhdf.ObjectHeaderWriter.{
  ObjectHeaderWriter, BatchObjectHeaderWriter, msg_bytes, serialize_each, concatenate,
  serialize_all,
}
use rustyhdf.ObjectHeaderWriter.Entries.{IsEntry}
use rustyhdf.ObjectHeaderWriter.RoundTrip.{as_parsed, header_parse-serialize}
use mathlib.Core.Path.{subst}

-- A header that comes back: its messages do, and have fewer than 2^32 bytes together.
abbrev pub IsWriter : ObjectHeaderWriter → Type 0
IsWriter w = All IsEntry w.messages × (msg_bytes w.messages < 2 ^ 32)

-- The serialized headers behind one another, and where each starts.
joined : List (List ℕ) → List ℕ
joined [] = []
joined (s ∷ ss) = s ++ joined ss

starts : ℕ → List (List ℕ) → List ℕ
starts at [] = []
starts at (s ∷ ss) = at ∷ starts (at + length s) ss

concatenate-joined :
    (ss : List (List ℕ)) (buf : List ℕ) (offsets : List ℕ)
    → concatenate buf offsets ss ≡ (buf ++ joined ss, offsets ++ starts (length buf) ss)
unfolding concatenate joined starts
concatenate-joined [] buf offsets = rw (append-nil buf, append-nil offsets) refl
concatenate-joined (s ∷ ss) buf offsets =
    concatenate-joined ss (buf ++ s) (offsets ++ (length buf ∷ []))
    ∙ rw (length-append buf s, append_assoc) (rw (append_assoc) refl)

-- The headers of the writers are read at the offsets, in order.
pub data AreParsed (d : List ℕ) (os ls : ℕ) : List ℕ → List ObjectHeaderWriter → Type 0 where
  no_headers : AreParsed d os ls [] []
  header_at :
      {o : ℕ} {offsets : List ℕ} {w : ObjectHeaderWriter} {ws : List ObjectHeaderWriter} (f : ℕ)
      → parse d o os ls ≡ ok (as_parsed w f)
      → AreParsed d os ls offsets ws
      → AreParsed d os ls (o ∷ offsets) (w ∷ ws)

serialize_each-ok :
    (ws : List ObjectHeaderWriter)
    → All IsWriter ws
    → (ss : List (List ℕ)) × (serialize_each ws ≡ ok ss)
unfolding serialize_each
serialize_each-ok [] h = ([], refl)
serialize_each-ok (w ∷ ws) h =
    let (s, f, e, p) = header_parse-serialize w h.0.0 h.0.1 8 8 [] [] (omega arith) in
    let (ss, e') = serialize_each-ok ws h.1 in (s ∷ ss, rw (e, e') refl)

serialize_all-joined :
    (b : BatchObjectHeaderWriter) (ss : List (List ℕ))
    → serialize_each b.headers ≡ ok ss
    → serialize_all b ≡ ok (joined ss, starts 0 ss)
unfolding serialize_all
serialize_all-joined b ss e = rw (e) (ap ok (concatenate-joined ss [] []))

module _ (os ls : ℕ) where
  parsed_from :
      (ws : List ObjectHeaderWriter) (ss : List (List ℕ)) (front d : List ℕ)
      → All IsWriter ws
      → serialize_each ws ≡ ok ss
      → d ≡ front ++ joined ss
      → length d < 2 ^ 62
      → AreParsed d os ls (starts (length front) ss) ws
  unfolding serialize_each joined starts
  parsed_from [] ss front d h e e' small =
      let empty : [] ≡ ss = cc in
      subst (λ k. AreParsed d os ls (starts (length front) k) []) empty no_headers
  parsed_from (w ∷ ws) ss front d h e e' small =
      let (ss', each) = serialize_each-ok ws h.1 in
      let (s, f₀, e₀, p₀) = header_parse-serialize w h.0.0 h.0.1 os ls [] [] (omega arith) in
      let now : serialize_each (w ∷ ws) ≡ ok (s ∷ ss') = rw (e₀, each) refl in
      let all : s ∷ ss' ≡ ss = cc in
      let split : d ≡ front ++ (s ++ joined ss') = e' ∙ ap (λ k. front ++ joined k) (sym all) in
      let size : length front + (length s + length (joined ss')) ≡ length d = omega (
        arith,
        ap length split,
        length-append front (s ++ joined ss'),
        length-append s (joined ss'),
      ) in
      let (s', f, e₁, p) =
        header_parse-serialize w h.0.0 h.0.1 os ls front (joined ss') (omega (arith, size)) in
      let same : s' ≡ s = cc in
      let here : parse d (length front) os ls ≡ ok (as_parsed w f) =
        ap (λ k. parse k (length front) os ls)
          (split ∙ ap (λ k. front ++ (k ++ joined ss')) (sym same))
        ∙ p in
      let rest =
        parsed_from ws ss' (front ++ s) d h.1 each (split ∙ sym (append_assoc front s (joined ss')))
          small in
      let rest' : AreParsed d os ls (starts (length front + length s) ss') ws =
        subst (λ k. AreParsed d os ls (starts k ss') ws) (length-append front s) rest in
      subst (λ k. AreParsed d os ls (starts (length front) k) (w ∷ ws)) all (header_at f here rest')

-- A batch of headers that come back is serialized into one buffer and their offsets, and each
-- header is parsed at its offset in the buffer, in order, provided the buffer has fewer than 2^62
-- bytes. A header comes back under the conditions of the single writer: known or ignorable
-- messages of one-byte types that are neither nil nor a continuation, of fewer than 2^16 bytes
-- each and 2^32 together.
pub serialize_all-AreParsed :
    (b : BatchObjectHeaderWriter) (os ls : ℕ)
    → All IsWriter b.headers
    → ((buf offsets : List ℕ) → serialize_all b ≡ ok (buf, offsets) → length buf < 2 ^ 62)
    → (buf : List ℕ) × (offsets : List ℕ) × (serialize_all b ≡ ok (buf, offsets))
      × AreParsed buf os ls offsets b.headers
serialize_all-AreParsed b os ls h small =
    let (ss, e) = serialize_each-ok b.headers h in
    let whole = serialize_all-joined b ss e in
    (
      joined ss,
      starts 0 ss,
      whole,
      parsed_from os ls b.headers ss [] (joined ss) h e refl
          (small (joined ss) (starts 0 ss) whole),
    )
