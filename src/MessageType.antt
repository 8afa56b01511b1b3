-- ===== src/MessageType.antt =====
-- crates/rustyhdf5-format/src/message_type.rs: the kinds of object header messages.
mod Tests
use rustyhdf.Prelude.{ℕ, ◌≡◌, ◌≢◌, refl, arith, ◌==◌, if◌then◌else◌, Bool, true, false}

pub data MessageType : Type 0 where
  nil dataspace link_info datatype fill_value_old fill_value link data_layout : MessageType
  group_info filter_pipeline attribute object_header_continuation symbol_table : MessageType
  object_modification_time btree_k_values shared_message_table attribute_info : MessageType
  object_reference_count : MessageType
  unknown : ℕ → MessageType

unfoldable pub from_u16 : ℕ → MessageType
from_u16 val =
    if val == 0x0000
    then nil
    else if val == 0x0001
    then dataspace
    else if val == 0x0002
    then link_info
    else if val == 0x0003
    then datatype
    else if val == 0x0004
    then fill_value_old
    else if val == 0x0005
    then fill_value
    else if val == 0x0006
    then link
    else if val == 0x0008
    then data_layout
    else if val == 0x000a
    then group_info
    else if val == 0x000b
    then filter_pipeline
    else if val == 0x000c
    then attribute
    else if val == 0x000f
    then shared_message_table
    else if val == 0x0010
    then object_header_continuation
    else if val == 0x0011
    then symbol_table
    else if val == 0x0012
    then object_modification_time
    else if val == 0x0013
    then btree_k_values
    else if val == 0x0015
    then attribute_info
    else if val == 0x0016
    then object_reference_count
    else unknown val

unfoldable pub to_u16 : MessageType → ℕ
to_u16 nil = 0x0000
to_u16 dataspace = 0x0001
to_u16 link_info = 0x0002
to_u16 datatype = 0x0003
to_u16 fill_value_old = 0x0004
to_u16 fill_value = 0x0005
to_u16 link = 0x0006
to_u16 data_layout = 0x0008
to_u16 group_info = 0x000a
to_u16 filter_pipeline = 0x000b
to_u16 attribute = 0x000c
to_u16 shared_message_table = 0x000f
to_u16 object_header_continuation = 0x0010
to_u16 symbol_table = 0x0011
to_u16 object_modification_time = 0x0012
to_u16 btree_k_values = 0x0013
to_u16 attribute_info = 0x0015
to_u16 object_reference_count = 0x0016
to_u16 (unknown v) = v

-- `==` on message types, where the source compares with a constant.
unfoldable pub is_nil : MessageType → Bool
is_nil nil = true
is_nil _ = false

unfoldable pub is_continuation : MessageType → Bool
is_continuation object_header_continuation = true
is_continuation _ = false

-- Every identifier is that of the type it is read as.
pub to_u16-from_u16 : (v : ℕ) → to_u16 (from_u16 v) ≡ v
unfolding to_u16 from_u16
to_u16-from_u16 v = ground arith

-- A type that is not `unknown` has an identifier of its own.
pub from_u16-to_u16 : (m : MessageType) → ((v : ℕ) → m ≢ unknown v) → from_u16 (to_u16 m) ≡ m
unfolding to_u16 from_u16
from_u16-to_u16 (unknown v) h = absurd (h v refl)
from_u16-to_u16 _ h = refl
