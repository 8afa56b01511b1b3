-- ===== src/ObjectHeader/Defs.antt =====
-- The data of an object header, and the check of one message, which both versions share.
use rustyhdf.Prelude.{ℕ, List, [], ◌∷◌, Option, length, ◌≡◌, ◌≢◌}
use rustyhdf.Prelude.{if◌then◌else◌}
use rustyhdf.Outcome.{Outcome, ok, err, unsupported_message}
use rustyhdf.MessageType.{MessageType, unknown, nil}
use rustyhdf.Utils.{bit_set}

abbrev pub ohdr_signature : List ℕ
ohdr_signature = b'O' ∷ b'H' ∷ b'D' ∷ b'R' ∷ []

abbrev pub ochk_signature : List ℕ
ochk_signature = b'O' ∷ b'C' ∷ b'H' ∷ b'K' ∷ []

-- `contents` is the source's `data`.
pub record HeaderMessage : Type 0 where
  pub msg_type : MessageType
  pub size : ℕ
  pub flags : ℕ
  pub creation_order : Option ℕ
  pub contents : List ℕ

pub record ObjectHeader : Type 0 where
  pub version : ℕ
  pub messages : List HeaderMessage
  pub reference_count : Option ℕ
  pub flags : ℕ
  pub access_time : Option ℕ
  pub modification_time : Option ℕ
  pub change_time : Option ℕ
  pub birth_time : Option ℕ

-- An unknown message with bit 3 of its flags set is refused.
unfoldable pub check_known : MessageType → ℕ → Outcome (Unit {0})
check_known (unknown id) msg_flags =
    if bit_set msg_flags 0x08 then err (unsupported_message id) else ok tt
check_known _ msg_flags = ok tt

-- What the messages of a header have in common: none is nil, and the size is that of the data.
pub record IsMessage (m : HeaderMessage) : Type 0 where
  pub used : m.msg_type ≢ nil
  pub sized : length m.contents ≡ m.size
