-- ===== src/ObjectHeaderWriter/Entries.antt =====
-- The messages of an object header that was written are read back.
use rustyhdf.Prelude.{ℕ, zero, suc, ◌+◌, ◌%◌, ◌^◌, ◌<◌, ◌≤◌, ◌≡◌, refl, ap, ◌∙◌, arith, List, []}
use rustyhdf.Prelude.{◌∷◌, ◌++◌, length, length-append, append_assoc, append-nil, All, none, false}
use rustyhdf.Prelude.{map, All-append, le→leb, not_ltb, not_leb}
use rustyhdf.Outcome.{ok}
use rustyhdf.Bytes.{IsByte, IsBytes, to_le}
use rustyhdf.Bytes.Laws.{to_le-IsBytes}
use rustyhdf.Bytes.Cursor.{Cursor, Cursor-step, slice_at, index_at, from_le_bytes_at}
use rustyhdf.MessageType.{to_u16, from_u16, is_nil, is_continuation}
use rustyhdf.ObjectHeader.Defs.{HeaderMessage, check_known}
use rustyhdf.ObjectHeader.V2.{Collected, read_creation_order, collect, v2_messages}
use rustyhdf.ObjectHeaderWriter.{Entry, msg_bytes, entry_bytes, entries_bytes}
use rustyhdf.Utils.Values.{}
use rustyhdf.ObjectHeader.V2.{}
use native.Mathlib.Nat.{mod-eq_of_lt}

-- What a message must be to come back: its type has an identifier of one byte, is neither nil nor a
-- continuation, and is understood; its data has fewer than 2 ^ 16 bytes.
pub record IsEntry (e : Entry) : Type 0 where
  pub named : from_u16 (to_u16 e.msg_type) ≡ e.msg_type
  pub one_byte : to_u16 e.msg_type < 256
  pub used : is_nil e.msg_type ≡ false
  pub plain : is_continuation e.msg_type ≡ false
  pub understood : check_known e.msg_type e.flags ≡ ok tt
  pub short : length e.contents < 2 ^ 16
  pub bytes : IsBytes e.contents
  pub flag_byte : e.flags < 256

-- The message that an entry is read as.
abbrev pub as_message : Entry → HeaderMessage
as_message e = record {
  msg_type = e.msg_type;
  size = length e.contents;
  flags = e.flags;
  creation_order = none;
  contents = e.contents;
}

length-entry_bytes : (e : Entry) → length (entry_bytes e) ≡ 4 + length e.contents
unfolding entry_bytes
length-entry_bytes e = omega arith

pub length-entries_bytes : (es : List Entry) → length (entries_bytes es) ≡ msg_bytes es
unfolding entries_bytes msg_bytes
length-entries_bytes [] = refl
length-entries_bytes (e ∷ es) = omega (
  arith,
  length-append (entry_bytes e) (entries_bytes es),
  length-entry_bytes e,
  length-entries_bytes es,
)

module _ (d : List ℕ) (end os ls : ℕ) (inside : end ≤ length d) where
  -- One round of the loop.
  v2_messages_step :
      (fuel pos : ℕ) (e : Entry) (t : List ℕ) (acc : Collected)
      → IsEntry e
      → Cursor d pos (entry_bytes e ++ t)
      → pos + 4 + length e.contents ≤ end
      → v2_messages (suc fuel) d pos end false os ls acc
        ≡ v2_messages fuel d
            (pos + 4 + length e.contents)
            end
            false
            os
            ls
            (record acc { messages = acc.messages ++ (as_message e ∷ []) })
  unfolding v2_messages entry_bytes read_creation_order collect
  v2_messages_step fuel pos e t acc ie c fits =
      let n = length e.contents in
      let code = to_u16 e.msg_type % 256 in
      let c₁ : Cursor d (pos + 1) (to_le 2 n ++ (e.flags ∷ (e.contents ++ t))) =
        Cursor-step d pos (pos + 1) (code ∷ []) _ c refl in
      let c₃ : Cursor d (pos + 3) (e.flags ∷ (e.contents ++ t)) =
        Cursor-step d (pos + 1) (pos + 3) (to_le 2 n) _ c₁ (omega arith) in
      let c₄ : Cursor d (pos + 4) (e.contents ++ t) =
        Cursor-step d (pos + 3) (pos + 4) (e.flags ∷ []) _ c₃ (omega arith) in
      let same : from_u16 code ≡ e.msg_type = ap from_u16 (mod-eq_of_lt ie.one_byte) ∙ ie.named in
      rw
        (
          le→leb (pos + 4) end (omega arith),
          index_at d pos code _ c,
          from_le_bytes_at d 2 (pos + 1) n _ c₁ (omega (arith, ie.short)),
          index_at d (pos + 3) e.flags _ c₃,
          not_ltb end (pos + 4 + n) fits,
          same,
          ie.understood,
          slice_at d (pos + 4) (pos + 4 + n) e.contents t c₄ refl,
          ie.plain,
          ie.used,
        )
        refl

  -- The loop reads all entries, in order, and stops where they end.
  pub v2_messages_entries :
      (es : List Entry) (fuel pos : ℕ) (t : List ℕ) (acc : Collected)
      → All IsEntry es
      → Cursor d pos (entries_bytes es ++ t)
      → pos + msg_bytes es ≡ end
      → msg_bytes es < fuel
      → v2_messages fuel d pos end false os ls acc
        ≡ ok (record acc { messages = acc.messages ++ map as_message es })
  unfolding msg_bytes entries_bytes
  v2_messages_entries es zero pos t acc h c e enough = absurd (omega arith)
  v2_messages_entries [] (suc fuel) pos t acc h c e enough =
      unfold v2_messages in rw (not_leb (pos + 4) end (omega arith), append-nil acc.messages) refl
  v2_messages_entries (x ∷ es) (suc fuel) pos t acc h c e enough =
      let n = length x.contents in
      let here : Cursor d pos (entry_bytes x ++ (entries_bytes es ++ t)) = record {
        rest = c.rest ∙ append_assoc (entry_bytes x) (entries_bytes es) t;
        inside = c.inside;
      } in
      let there : Cursor d (pos + 4 + n) (entries_bytes es ++ t) =
        Cursor-step d pos (pos + 4 + n) (entry_bytes x) _ here
          (omega (arith, length-entry_bytes x)) in
      v2_messages_step fuel pos x _ acc h.0 here (omega arith)
      ∙ v2_messages_entries es fuel (pos + 4 + n) t _ h.1 there (omega arith) (omega arith)
      ∙ ap (λ ms. ok (record acc { messages = ms }))
          (append_assoc acc.messages (as_message x ∷ []) (map as_message es))

pub entries_bytes-IsBytes : (es : List Entry) → All IsEntry es → IsBytes (entries_bytes es)
unfolding entries_bytes entry_bytes
entries_bytes-IsBytes [] h = tt
entries_bytes-IsBytes (e ∷ es) h = (
  omega arith,
  All-append IsByte (to_le 2 (length e.contents) ++ (e.flags ∷ e.contents)) (entries_bytes es)
      (All-append IsByte (to_le 2 (length e.contents)) (e.flags ∷ e.contents)
        (to_le-IsBytes 2 (length e.contents)) (h.0.flag_byte, h.0.bytes))
      (entries_bytes-IsBytes es h.1),
)
