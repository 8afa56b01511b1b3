-- ===== src/Signature/Tests.antt =====
-- Runs of the signature search, and its theorem at a concrete file.
use rustyhdf.Prelude.{ℕ, ◌<◌, ◌≡◌, refl, arith, List, [], ◌∷◌, ◌++◌, replicate}
use rustyhdf.Outcome.{ok, err, signature_not_found}
use rustyhdf.Outcome.Ensures.{Post}
use rustyhdf.Bytes.{slice}
use rustyhdf.Signature.{hdf5_signature, find_from, find_signature}
use rustyhdf.Signature.Search.{IsCandidate, HasSignature, find_signature-first}

-- A file with a user block of 512 bytes.
abbrev with_user_block : List ℕ
with_user_block = replicate 512 7 ++ (hdf5_signature ++ (0 ∷ []))

find_behind_user_block : find_signature with_user_block ≡ ok 512
unfolding find_signature find_from slice
find_behind_user_block = refl

find_nothing : find_signature (7 ∷ hdf5_signature) ≡ err signature_not_found
unfolding find_signature find_from slice
find_nothing = refl

find_signature-first_example :
    Post
      (λ e.
        (e ≡ signature_not_found) × ((m : ℕ) → IsCandidate m → ¬ HasSignature with_user_block m))
      (λ n.
        IsCandidate n
        × HasSignature with_user_block n
        × ((m : ℕ) → IsCandidate m → m < n → ¬ HasSignature with_user_block m))
      (find_signature with_user_block)
find_signature-first_example =
    find_signature-first {d = with_user_block} (record { bytes = omega arith; sized = omega arith })
