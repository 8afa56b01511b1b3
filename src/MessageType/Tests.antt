-- ===== src/MessageType/Tests.antt =====
-- Runs of the message types, and the theorems at concrete ones.
use rustyhdf.Prelude.{ℕ, ◌≡◌, ◌≢◌, refl}
use rustyhdf.MessageType.{from_u16, dataspace, unknown}

unknown_18 : from_u16 0x0018 ≡ unknown 0x0018
unfolding from_u16
unknown_18 = refl

dataspace_known : (v : ℕ) → dataspace ≢ unknown v
dataspace_known v e = cc
