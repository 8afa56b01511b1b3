-- ===== src/Signature/Search.antt =====
-- What the search for the magic bytes returns.
use mathlib.Core.Path.{subst}
use rustyhdf.Prelude.{
  dec_lt, ℕ_discrete, ℕ, zero, suc, ◌+◌, ◌*◌, ◌<◌, ◌≤◌, ◌≡◌, refl, ap, ◌∙◌, sym, arith,
}
use rustyhdf.Prelude.{if◌then◌else◌, List, length, leb, true, inl, inr, Bool-cases}
use rustyhdf.Outcome.{FormatError, Outcome, ok, panic, ◌>>=◌, signature_not_found}
use rustyhdf.Outcome.Ensures.{Post, returns, fails, bind_eq, branch}
use rustyhdf.Bytes.{IsSlice, slice, bytes_eq}
use rustyhdf.Bytes.Laws.{bytes_eq_refl, bytes_eq-true}
use rustyhdf.Bytes.Reads.{slice-Ensures}
use rustyhdf.Signature.{hdf5_signature, find_from, find_signature}

-- The offsets at which a file may start: 0, 512, and the double of each from 512 on.
pub data IsCandidate : ℕ → Type 0 where
  at_start : IsCandidate 0
  at_512 : IsCandidate 512
  doubled : {n : ℕ} → 512 ≤ n → IsCandidate n → IsCandidate (n * 2)

-- The magic bytes stand at the offset.
abbrev pub HasSignature : List ℕ → ℕ → Type 0
HasSignature d n = slice d n (n + 8) ≡ ok hdf5_signature

-- Nothing lies between a candidate and its double.
candidate_gap : {m n : ℕ} → IsCandidate m → IsCandidate n → 512 ≤ n → m < n * 2 → m ≤ n
candidate_gap at_start b h l = omega arith
candidate_gap at_512 b h l = omega arith
candidate_gap (doubled k a) at_start h l = omega arith
candidate_gap (doubled k a) at_512 h l = omega arith
candidate_gap (doubled {n = m} k a) (doubled {n = n} k' b) h l =
    omega (arith, candidate_gap a b k' (omega arith))

NoneBelow : List ℕ → ℕ → Type 0
NoneBelow d n = (m : ℕ) → IsCandidate m → m < n → ¬ HasSignature d m

module _ {d : List ℕ} (s : IsSlice d) where
  has-inside : (n : ℕ) → HasSignature d n → n + 8 ≤ length d
  unfolding slice
  has-inside n h = elim (Bool-cases (leb (n + 8) (length d))) [
    | inl e ↦ ground arith
    | inr e ↦ absurd (let out : slice d n (n + 8) ≡ panic = ground arith in cc)
  ]

  -- Looking at one place.
  look :
      {E : FormatError → Type 0} {P : ℕ → Type 0} (n : ℕ) {next : Outcome ℕ}
      → n + 8 ≤ length d
      → (HasSignature d n → P n)
      → (¬ HasSignature d n → Post E P next)
      → Post E P (do t ← slice d n (n + 8); if bytes_eq t hdf5_signature then ok n else next)
  look n h found missed =
      bind_eq (slice d n (n + 8)) (slice-Ensures s n (n + 8) (omega arith) h) λ t at q.
        branch (bytes_eq t hdf5_signature)
          (λ e. returns (found (at ∙ ap ok (bytes_eq-true t hdf5_signature e))))
          (λ e. missed λ has.
            let magic : ok t ≡ ok hdf5_signature = sym at ∙ has in
            let same : t ≡ hdf5_signature = cc in
            let all_same = bytes_eq_refl hdf5_signature in
            let matches : bytes_eq t hdf5_signature ≡ true = rw (same) all_same in absurd (cc))

  find_from-Ensures :
      (fuel offset : ℕ)
      → length d < fuel + offset
      → 0 < fuel
      → 512 ≤ offset
      → IsCandidate offset
      → NoneBelow d offset
      → Post
          (λ e. (e ≡ signature_not_found) × ((m : ℕ) → IsCandidate m → ¬ HasSignature d m))
          (λ n. IsCandidate n × HasSignature d n × NoneBelow d n)
          (find_from fuel d offset)
  unfolding find_from NoneBelow
  find_from-Ensures zero offset h k l c b = absurd (omega arith)
  find_from-Ensures (suc fuel) offset h k l c b =
      branch (leb (offset + 8) (length d))
        (λ e.
          let inside : offset + 8 ≤ length d = ground arith in
          look offset inside (λ has. (c, has, b))
            (λ misses.
              find_from-Ensures fuel (offset * 2) (omega arith) (omega arith) (omega arith)
                (doubled l c)
                (λ m cm below. elim (ℕ_discrete m offset) [
                  | yes same ↦ (λ has. misses (subst (HasSignature d) same has))
                  | no differ ↦ b m cm (omega (arith, differ, candidate_gap cm c l below))
                ])))
        (λ e. fails (
          refl,
          λ m cm has. elim (dec_lt m offset) [
            | yes below ↦ b m cm below has
            | no above ↦
                let room = has-inside m has in
                let outside : length d < offset + 8 = ground arith in omega (arith, above)
          ],
        ))

  -- For every file, the search ends: it returns the first of the offsets 0, 512, 1024, 2048 and so
  -- on at which the magic bytes stand, and `SignatureNotFound` exactly when they stand at none of
  -- them.
  pub find_signature-first :
      Post
        (λ e. (e ≡ signature_not_found) × ((m : ℕ) → IsCandidate m → ¬ HasSignature d m))
        (λ n.
          IsCandidate n × HasSignature d n × ((m : ℕ) → IsCandidate m → m < n → ¬ HasSignature d m))
        (find_signature d)
  unfolding find_signature NoneBelow
  find_signature-first =
      branch (leb 8 (length d))
        (λ e.
          let inside : 0 + 8 ≤ length d = ground arith in
          look 0 inside (λ has. (at_start, has, λ m c l. absurd (omega arith)))
            (λ misses. search_from_512 misses))
        (λ e.
          let outside : length d < 8 = ground arith in
          search_from_512 λ has. let room = has-inside 0 has in omega arith)
    where
      below_512 : ¬ HasSignature d 0 → {m : ℕ} → IsCandidate m → m < 512 → ¬ HasSignature d m
      below_512 misses at_start l = misses
      below_512 misses at_512 l = absurd (omega arith)
      below_512 misses (doubled k c) l = absurd (omega arith)

      search_from_512 :
          ¬ HasSignature d 0
          → Post
              (λ e. (e ≡ signature_not_found) × ((m : ℕ) → IsCandidate m → ¬ HasSignature d m))
              (λ n. IsCandidate n × HasSignature d n × NoneBelow d n)
              (find_from (suc (length d)) d 512)
      search_from_512 misses =
          find_from-Ensures (suc (length d)) 512 (omega arith) (omega arith) (omega arith) at_512
            λ m c l. below_512 misses c l
