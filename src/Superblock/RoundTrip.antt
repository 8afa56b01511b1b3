-- ===== src/Superblock/RoundTrip.antt =====
-- A superblock that was written is read back.
use rustyhdf.Prelude.{ℕ, ◌+◌, ◌*◌, ◌%◌, ◌^◌, ◌<◌, ◌≤◌, ◌≡◌, refl, ap, ◌∙◌, arith}
use rustyhdf.Prelude.{
  List, [], ◌∷◌, ◌++◌, length, none, some, append_assoc, append-nil, length-append, All-append,
}
use rustyhdf.Prelude.{==_refl}
use rustyhdf.Outcome.{ok, usize_mod}
use rustyhdf.Outcome.Ensures.{NoError, succeeds}
use rustyhdf.Bytes.{IsByte, IsSlice, index, to_le}
use rustyhdf.Bytes.Laws.{length-to_le, to_le-IsBytes}
use rustyhdf.Bytes.Cursor.{
  Cursor, Cursor-start, Cursor-step, Cursor-room, slice_at, from_le_bytes_at,
}
use rustyhdf.Bytes.Cursor.{slice_from_at}
use rustyhdf.Utils.Values.{IsWidth, two, four, eight, ensure_len_lem, read_offset_at}
use rustyhdf.Checksum.{jenkins_lookup3}
use rustyhdf.Checksum.Total.{jenkins_lookup3-Ensures}
use rustyhdf.Signature.{hdf5_signature}
use rustyhdf.Superblock.{Superblock, validate_sizes, write_offset, serialize_body, serialize}
use rustyhdf.Superblock.{parse_v2v3, parse}
use rustyhdf.Superblock.Safety.{IsValid}
use mathlib.Core.Path.{subst}
use native.Mathlib.Nat.{mod-eq_of_lt}

validate_sizes_lem : (n m : ℕ) → IsWidth n → IsWidth m → validate_sizes n m ≡ ok tt
unfolding validate_sizes
validate_sizes_lem n m (two e) (two f) = rw (e, f)
validate_sizes_lem n m (two e) (four f) = rw (e, f)
validate_sizes_lem n m (two e) (eight f) = rw (e, f)
validate_sizes_lem n m (four e) (two f) = rw (e, f)
validate_sizes_lem n m (four e) (four f) = rw (e, f)
validate_sizes_lem n m (four e) (eight f) = rw (e, f)
validate_sizes_lem n m (eight e) (two f) = rw (e, f)
validate_sizes_lem n m (eight e) (four f) = rw (e, f)
validate_sizes_lem n m (eight e) (eight f) = rw (e, f)

pub write_offset-to_le : (v n : ℕ) → IsWidth n → v < 256 ^ n → write_offset v n ≡ to_le n v
unfolding write_offset
write_offset-to_le v n (two e) h =
    let k : v % 2 ^ 16 ≡ v = (let h' : v < 256 ^ 2 = subst (λ m. v < 256 ^ m) e h in omega arith) in
    rw (e, k)
write_offset-to_le v n (four e) h =
    let k : v % 2 ^ 32 ≡ v = (let h' : v < 256 ^ 4 = subst (λ m. v < 256 ^ m) e h in omega arith) in
    rw (e, k)
write_offset-to_le v n (eight e) h = rw e

-- The four addresses in front of what follows, as the fields lie in the file.
module _ (n b e f r : ℕ) (t : List ℕ) where
  abbrev addresses : List ℕ
  addresses = to_le n b ++ (to_le n e ++ (to_le n f ++ (to_le n r ++ t)))

  abbrev layout : ℕ → ℕ → ℕ → List ℕ
  layout version m flags = hdf5_signature ++ (version ∷ n ∷ m ∷ flags ∷ addresses)

-- What `parse` returns for a superblock that was written.
abbrev pub as_parsed : Superblock → ℕ → ℕ → Superblock
as_parsed s ext c = record s {
  group_leaf_node_k = none;
  group_internal_node_k = none;
  indexed_storage_internal_node_k = none;
  free_space_address = none;
  driver_info_address = none;
  superblock_extension_address = some ext;
  checksum = some c;
}

module _ (version n m flags b e f r c : ℕ) (rest body : List ℕ) (wn : IsWidth n) (wm : IsWidth m)
    (hb : b < 256 ^ n) (he : e < 256 ^ n) (hf : f < 256 ^ n) (hr : r < 256 ^ n) (hc : c < 256 ^ 4)
    (split : layout n b e f r (to_le 4 c ++ rest) version m flags ≡ body ++ (to_le 4 c ++ rest))
    (long : length body ≡ 12 + n + n + n + n) (hash : jenkins_lookup3 body ≡ ok c)
    (small : length (layout n b e f r (to_le 4 c ++ rest) version m flags) < usize_mod) where
  abbrev d : List ℕ
  d = layout n b e f r (to_le 4 c ++ rest) version m flags

  at_b : Cursor d 12 (addresses n b e f r (to_le 4 c ++ rest))
  at_b = record { rest = refl; inside = omega arith }

  at_e : Cursor d (12 + n) (to_le n e ++ (to_le n f ++ (to_le n r ++ (to_le 4 c ++ rest))))
  at_e = Cursor-step d 12 (12 + n) (to_le n b) _ at_b (omega (arith, length-to_le n b))

  at_f : Cursor d (12 + n + n) (to_le n f ++ (to_le n r ++ (to_le 4 c ++ rest)))
  at_f = Cursor-step d (12 + n) (12 + n + n) (to_le n e) _ at_e (omega (arith, length-to_le n e))

  at_r : Cursor d (12 + n + n + n) (to_le n r ++ (to_le 4 c ++ rest))
  at_r =
      Cursor-step d (12 + n + n) (12 + n + n + n) (to_le n f) _ at_f
        (omega (arith, length-to_le n f))

  at_c : Cursor d (12 + n + n + n + n) (to_le 4 c ++ rest)
  at_c =
      Cursor-step d (12 + n + n + n) (12 + n + n + n + n) (to_le n r) _ at_r
        (omega (arith, length-to_le n r))

  parse_v2v3_layout :
      parse_v2v3 d version
      ≡ ok (record {
        version = version;
        offset_size = n;
        length_size = m;
        base_address = b;
        eof_address = f;
        root_group_address = r;
        group_leaf_node_k = none;
        group_internal_node_k = none;
        indexed_storage_internal_node_k = none;
        free_space_address = none;
        driver_info_address = none;
        consistency_flags = flags;
        superblock_extension_address = some e;
        checksum = some c;
      })
  unfolding parse_v2v3 index
  parse_v2v3_layout =
      rw
        (
          ensure_len_lem d 0 12 (omega arith) small,
          validate_sizes_lem n m wn wm,
          ensure_len_lem d 0 (12 + 4 * n + 4)
              (omega (arith, Cursor-room d _ 4 (to_le 4 c) rest at_c refl)) small,
          read_offset_at d small n 12 b _ wn hb at_b,
          read_offset_at d small n (12 + n) e _ wn he at_e,
          read_offset_at d small n (12 + n + n) f _ wn hf at_f,
          read_offset_at d small n (12 + n + n + n) r _ wn hr at_r,
          from_le_bytes_at d 4 (12 + n + n + n + n) c rest at_c hc,
          slice_at d 0 (12 + n + n + n + n) body (to_le 4 c ++ rest)
              (record { rest = split; inside = omega arith }) (omega (arith, long)),
          hash,
          ==_refl c,
        )
        refl

pub width-le : (n : ℕ) → IsWidth n → n ≤ 8
width-le n (two e) = omega arith
width-le n (four e) = omega arith
width-le n (eight e) = omega arith

module _ (n b e f r version m flags : ℕ) where
  abbrev front_part : List ℕ
  front_part = layout n b e f r [] version m flags

  -- What follows the addresses can be moved behind them.
  layout-append : (t : List ℕ) → layout n b e f r t version m flags ≡ front_part ++ t
  layout-append t = simp (append_assoc)

  length-layout : length front_part ≡ 12 + n + n + n + n
  length-layout = omega (
    arith,
    length-append (to_le n b) (to_le n e ++ (to_le n f ++ (to_le n r ++ []))),
    length-append (to_le n e) (to_le n f ++ (to_le n r ++ [])),
    length-append (to_le n f) (to_le n r ++ []),
    length-append (to_le n r) [],
    length-to_le n b,
    length-to_le n e,
    length-to_le n f,
    length-to_le n r,
  )

  layout-IsSlice : IsWidth n → IsWidth m → version < 4 → flags < 256 → IsSlice front_part
  layout-IsSlice wn wm known small = record {
    bytes =
        All-append IsByte (hdf5_signature ++ (version ∷ n ∷ m ∷ flags ∷ []))
          (addresses n b e f r []) (omega (arith, width-le n wn, width-le m wm))
          (All-append IsByte (to_le n b) _ (to_le-IsBytes n b) (
            All-append IsByte (to_le n e) _ (to_le-IsBytes n e) (
              All-append IsByte (to_le n f) _ (to_le-IsBytes n f)
                (All-append IsByte (to_le n r) [] (to_le-IsBytes n r) tt))));
    sized = omega (arith, length-layout, width-le n wn);
  }

module _ (s : Superblock) (ext : ℕ) (valid : IsValid s) (modern : 1 < s.version)
    (small : s.consistency_flags < 256) (has_ext : s.superblock_extension_address ≡ some ext)
    (fits : ext < 256 ^ s.offset_size) where
  serialize_body-layout :
      serialize_body s
      ≡ front_part s.offset_size s.base_address ext s.eof_address s.root_group_address s.version
          s.length_size s.consistency_flags
  unfolding serialize_body
  serialize_body-layout =
      rw
        (
          has_ext,
          write_offset-to_le s.base_address s.offset_size valid.offset_width valid.base,
          write_offset-to_le ext s.offset_size valid.offset_width fits,
          write_offset-to_le s.eof_address s.offset_size valid.offset_width valid.eof,
          write_offset-to_le s.root_group_address s.offset_size valid.offset_width valid.root,
          mod-eq_of_lt small,
          append-nil (to_le s.offset_size s.root_group_address),
        )
        refl

  abbrev body : List ℕ
  body =
      front_part s.offset_size s.base_address ext s.eof_address s.root_group_address s.version
        s.length_size s.consistency_flags

  written : (c : ℕ) → jenkins_lookup3 body ≡ ok c → serialize s ≡ ok (body ++ to_le 4 c)
  unfolding serialize
  written c hash =
      let hash' : jenkins_lookup3 (serialize_body s) ≡ ok c =
        ap jenkins_lookup3 serialize_body-layout ∙ hash in
      rw hash' (ap (λ b. ok (b ++ to_le 4 c)) serialize_body-layout)

  abbrev in_file : ℕ → List ℕ → List ℕ
  in_file c rest =
      layout s.offset_size s.base_address ext s.eof_address s.root_group_address (to_le 4 c ++ rest)
        s.version s.length_size s.consistency_flags

  in_file-split : (c : ℕ) (rest : List ℕ) → in_file c rest ≡ body ++ (to_le 4 c ++ rest)
  in_file-split c rest =
      layout-append s.offset_size s.base_address ext s.eof_address s.root_group_address s.version
        s.length_size s.consistency_flags (to_le 4 c ++ rest)

  length-body : length body ≡ 12 + s.offset_size + s.offset_size + s.offset_size + s.offset_size
  length-body =
      length-layout s.offset_size s.base_address ext s.eof_address s.root_group_address s.version
        s.length_size s.consistency_flags

  length-in_file : (c : ℕ) (rest : List ℕ) → length (in_file c rest) ≤ 48 + length rest
  length-in_file c rest = omega (
    arith,
    ap length (in_file-split c rest),
    length-append body (to_le 4 c ++ rest),
    length-body,
    width-le s.offset_size valid.offset_width,
  )

  parsed :
      (c : ℕ) (front rest : List ℕ)
      → jenkins_lookup3 body ≡ ok c
      → c < 256 ^ 4
      → length front + length rest < 2 ^ 63
      → parse (front ++ in_file c rest) (length front) ≡ ok (as_parsed s ext c)
  unfolding parse index
  parsed c front rest hash hc room =
      let small : length (in_file c rest) < usize_mod = omega (arith, length-in_file c rest) in
      rw
        (
          slice_from_at (front ++ in_file c rest) (length front) (in_file c rest) (
              Cursor-step (front ++ in_file c rest) 0 (length front) front (in_file c rest)
                (Cursor-start _) (omega arith)),
          ensure_len_lem (in_file c rest) 0 9 (omega arith) small,
          slice_at (in_file c rest) 0 8 hdf5_signature _ (Cursor-start _) refl,
          parse_v2v3_layout s.version s.offset_size s.length_size s.consistency_flags s.base_address
              ext s.eof_address s.root_group_address c rest body valid.offset_width
              valid.length_width valid.base fits valid.eof valid.root hc (in_file-split c rest)
              length-body hash small,
        )
        (ground arith)

  -- `serialize` succeeds, and `parse`, at the place where the superblock lies, reads the same
  -- superblock back, whatever lies in front of it and behind it. This holds for versions 2 and 3
  -- with an extension address, and consistency flags of one byte, in a file with
  -- fewer than 2^63 bytes around it. Only the checksum is new, and
  -- the fields of the older versions are empty.
  pub superblock_parse-serialize :
      (front rest : List ℕ)
      → length front + length rest < 2 ^ 63
      → (buf : List ℕ) × (c : ℕ) × (serialize s ≡ ok buf)
        × (parse (front ++ (buf ++ rest)) (length front) ≡ ok (as_parsed s ext c))
  superblock_parse-serialize front rest room =
      let (c, hash, hc) = succeeds (
        jenkins_lookup3-Ensures {E = NoError} (
          layout-IsSlice s.offset_size s.base_address ext s.eof_address s.root_group_address
            s.version s.length_size s.consistency_flags valid.offset_width valid.length_width
            valid.known small)) in
      (
        body ++ to_le 4 c,
        c,
        written c hash,
        rw (append_assoc, ← in_file-split c rest) (parsed c front rest hash hc room),
      )
