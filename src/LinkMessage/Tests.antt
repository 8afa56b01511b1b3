-- ===== src/LinkMessage/Tests.antt =====
-- A run of the link message code, and its theorem at a concrete link.
use rustyhdf.Prelude.{ℕ, ◌≡◌, refl, arith, List, [], ◌∷◌, ◌++◌, some, true}
use rustyhdf.Outcome.{ok}
use rustyhdf.LocalHeap.Utf8.{is_utf8}
use rustyhdf.Utils.Values.{eight}
use rustyhdf.LinkMessage.{LinkMessage, external, utf8, serialize, parse, size_bits, order_bit}
use rustyhdf.LinkMessage.{type_bit, charset_bit, type_bytes, order_bytes, charset_bytes}
use rustyhdf.LinkMessage.{name_size_width, target_bytes}
use rustyhdf.LinkMessage.RoundTrip.{IsLink, link_parse-serialize}

-- An external link with a creation order.
abbrev link : LinkMessage
link = record {
  name = 97 ∷ [];
  link_target = external (102 ∷ []) (47 ∷ 98 ∷ []);
  creation_order = some 5;
  charset = utf8;
}

abbrev link_bytes : List ℕ
link_bytes =
    1 ∷ 28 ∷ 64 ∷ 5 ∷ 0 ∷ 0 ∷ 0 ∷ 0 ∷ 0 ∷ 0 ∷ 0 ∷ 1 ∷ 1 ∷ 97 ∷ 6 ∷ 0 ∷ 0 ∷ 102 ∷ 0 ∷ 47 ∷ 98 ∷ 0
    ∷ []

serialize-link : serialize link 8 ≡ link_bytes
unfolding serialize size_bits order_bit type_bit charset_bit type_bytes order_bytes charset_bytes
    name_size_width target_bytes
serialize-link = refl

name_valid : is_utf8 (97 ∷ []) ≡ true
unfolding is_utf8
name_valid = refl

file_valid : is_utf8 (102 ∷ []) ≡ true
unfolding is_utf8
file_valid = refl

path_valid : is_utf8 (47 ∷ 98 ∷ []) ≡ true
unfolding is_utf8
path_valid = refl

link-IsLink : IsLink 8 link
link-IsLink = record {
  valid = name_valid;
  short = omega arith;
  target = (
    record { nonzero = (omega arith, tt); valid = file_valid },
    record { nonzero = (omega arith, (omega arith, tt)); valid = path_valid },
    omega arith,
  );
  order = omega arith;
}

link_parse-serialize_example : parse (serialize link 8 ++ (9 ∷ [])) 8 ≡ ok link
link_parse-serialize_example =
    link_parse-serialize link 8 (9 ∷ []) (eight refl) link-IsLink (rw serialize-link (omega arith))
