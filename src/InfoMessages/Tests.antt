-- ===== src/InfoMessages/Tests.antt =====
-- The theorem on the link info, group info and attribute info messages at a concrete message.
use rustyhdf.Prelude.{ℕ, arith, List, [], ◌∷◌}
use rustyhdf.Outcome.Ensures.{Ensures}
use rustyhdf.InfoMessages.{parse_link_info, parse_group_info, parse_attribute_info}
use rustyhdf.InfoMessages.Safety.{IsLinkInfo, IsGroupInfo, IsAttributeInfo, parse_infos-Ensures}

-- An index by name whose address is undefined.
abbrev message : List ℕ
message = 0 ∷ 0 ∷ 255 ∷ 255 ∷ 255 ∷ 255 ∷ 16 ∷ 0 ∷ 0 ∷ 0 ∷ []

parse_infos-Ensures_example :
    Ensures (IsLinkInfo 4) (parse_link_info message 4)
    × Ensures IsGroupInfo (parse_group_info message)
    × Ensures (IsAttributeInfo 4) (parse_attribute_info message 4)
parse_infos-Ensures_example =
    parse_infos-Ensures {d = message} (record { bytes = omega arith; sized = omega arith }) 4
