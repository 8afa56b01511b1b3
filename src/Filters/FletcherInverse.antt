-- ===== src/Filters/FletcherInverse.antt =====
-- The Fletcher-32 filter: the checksum is the one of its definition, and a chunk with its checksum
-- appended is verified.
use rustyhdf.Prelude.{ℕ, suc, ◌+◌, ◌-◌, ◌*◌, ◌%◌, ◌^◌, ◌<◌, ◌≤◌, ◌≡◌, refl, ap, ◌∙◌, sym, arith}
use rustyhdf.Prelude.{false, List, [], ◌++◌, length, ltb, ◌==◌, ==_refl, length-append, append-nil}
use rustyhdf.Outcome.{
  FormatError, Outcome, ok, err, guard, filter_error, fletcher32_mismatch, ◌>>=◌, ◌>>◌,
}
use rustyhdf.Prelude.{
  Bool, true, Bool-cases, inl, inr, take, drop, take-append-drop, length-take, length-drop,
  All-take, if◌then◌else◌,
}
use rustyhdf.Outcome.Ensures.{Post, NoError, returns, bind}
use rustyhdf.Outcome.Ensures.{succeeds}
use rustyhdf.Bytes.{IsByte, le_value, IsBytes, IsSlice, slice, to_le, from_le_bytes}
use rustyhdf.Bytes.Laws.{length-to_le}
use rustyhdf.Bytes.Cursor.{Cursor, Cursor-start, Cursor-step, slice_at, from_le_bytes_at}
use rustyhdf.Filters.Fletcher.{Sums, fletcher32_compute, fletcher32_verify, fletcher32_append}
use rustyhdf.Filters.FletcherSums.{words, fletcher_sums, add_blocks-Ensures, add_rest-Ensures}
use mathlib.Core.Path.{subst}
use native.Mathlib.Nat.{mod-eq_of_lt}

abbrev pub no_sums : Sums
no_sums = record { sum1 = 0; sum2 = 0 }

-- Fletcher's checksum of the 16-bit words, reduced modulo 65535 after each word.
unfoldable pub fletcher32 : List ℕ → ℕ
fletcher32 d =
    (fletcher_sums no_sums (words d)).sum2 * 2 ^ 16 + (fletcher_sums no_sums (words d)).sum1

module _ (d : List ℕ) (s : IsBytes d) where
  compute-Ensures : Post NoError (λ v. (v < 2 ^ 32) × (v ≡ fletcher32 d)) (fletcher32_compute d)
  unfolding fletcher32_compute fletcher32
  compute-Ensures =
      bind
        (add_blocks-Ensures d s (suc (length d)) 0 no_sums (omega arith) (omega arith) (omega arith)
          (record { small1 = omega arith; small2 = omega arith }))
        λ r a.
          bind (add_rest-Ensures d s (suc (length d)) r.0 r.1 (omega arith) (omega arith) a.1)
            λ t b.
              let all : t ≡ fletcher_sums no_sums (words d) = b.1 ∙ sym a.2 in
              let high : t.sum2 * 2 ^ 16 % 2 ^ 32 ≡ t.sum2 * 2 ^ 16 =
                mod-eq_of_lt (omega (arith, b.0.small2)) in
              returns (omega (arith, b.0.small1, b.0.small2), rw (high, sym all) refl)

  -- The blocked computation, which reduces the sums once in 360 words, never overflows `u32` and
  -- gives Fletcher's checksum as its definition has it, for data of every length.
  pub fletcher32_compute-fletcher32 : fletcher32_compute d ≡ ok (fletcher32 d)
  fletcher32_compute-fletcher32 = let (v, e, h) = succeeds compute-Ensures in e ∙ ap ok h.1

  -- Verifying what was appended gives the data back.
  pub fletcher32_verify-fletcher32_append :
      (fletcher32_append d >>= λ c. fletcher32_verify c) ≡ ok d
  unfolding fletcher32_append fletcher32_verify
  fletcher32_verify-fletcher32_append =
      let (v, e, h) = succeeds compute-Ensures in
      let c = Cursor-start (d ++ to_le 4 v) in
      let size : length (d ++ to_le 4 v) ≡ length d + 4 =
        omega (arith, length-append d (to_le 4 v), length-to_le 4 v) in
      let back : length (d ++ to_le 4 v) - 4 ≡ length d = omega (arith, size) in
      let long : ltb (length (d ++ to_le 4 v)) 4 ≡ false = ground (arith, size) in
      let payload = slice_at (d ++ to_le 4 v) 0 (length d) d (to_le 4 v) c (omega arith) in
      let behind = Cursor-step (d ++ to_le 4 v) 0 (length d) d (to_le 4 v) c (omega arith) in
      let at_end : Cursor (d ++ to_le 4 v) (length d) (to_le 4 v ++ []) =
        subst (Cursor (d ++ to_le 4 v) (length d)) (sym (append-nil (to_le 4 v))) behind in
      let stored = from_le_bytes_at (d ++ to_le 4 v) 4 (length d) v [] at_end h.0 in
      rw (e, long, back, payload, stored, e, ==_refl v) refl

-- What verifying must give: an error for data of fewer than four bytes; else the data without its
-- last four bytes, when these hold the checksum of the rest, and an error that has both checksums
-- when they do not.
abbrev pub verified : List ℕ → Outcome (List ℕ)
verified d =
    let payload = take (length d - 4) d in
    let stored = le_value (drop (length d - 4) d) in
    if ltb (length d) 4
    then err (filter_error "fletcher32: data too short for checksum")
    else if stored == fletcher32 payload
    then ok payload
    else err (fletcher32_mismatch stored (fletcher32 payload))

guard_then {ℓ} :
    {A : Type ℓ} (b : Bool) (e : FormatError) (m : Outcome A)
    → (guard b e >> m) ≡ (if b then m else err e)
guard_then true e m = refl
guard_then false e m = refl

-- The last four bytes and those in front of them.
last_four :
    (d : List ℕ)
    → 4 ≤ length d
    → (slice d 0 (length d - 4) ≡ ok (take (length d - 4) d))
      × (from_le_bytes 4 d (length d - 4) ≡ ok (le_value (drop (length d - 4) d)))
unfolding from_le_bytes
last_four d h =
    let n : ℕ = length d - 4 in
    let whole : Cursor d 0 (take n d ++ drop n d) =
      subst (Cursor d 0) (sym (take-append-drop n d)) (Cursor-start d) in
    let behind : Cursor d n (drop n d ++ []) = record {
      rest = sym (append-nil (drop n d));
      inside = omega arith;
    } in
    (
      slice_at d 0 n (take n d) (drop n d) whole (omega (arith, length-take n d)),
      rw (slice_at d n (n + 4) (drop n d) [] behind (omega (arith, length-drop n d))) refl,
    )

-- For all data, `fletcher32_verify` gives the data without its last four bytes exactly when these
-- are the checksum of the rest, lowest byte first. For fewer than four bytes it is the error of too
-- short data, and else the error that has the stored checksum and the one of the rest.
pub fletcher32_verify_lem : (d : List ℕ) → IsSlice d → fletcher32_verify d ≡ verified d
unfolding fletcher32_verify
fletcher32_verify_lem d s = elim (Bool-cases (ltb (length d) 4)) [
  | inl e ↦ rw e refl
  | inr e ↦
      let (payload, stored) = last_four d (ground (arith, e)) in
      let computed =
        fletcher32_compute-fletcher32 (take (length d - 4) d)
          (All-take IsByte (length d - 4) d s.bytes) in
      rw (e, payload, stored, computed) (guard_then _ _ (ok (take (length d - 4) d)))
]
