-- ===== src/ChunkCache/Lru.antt =====
-- The slot that eviction picks is the one used least recently.
use rustyhdf.Prelude.{
  ℕ, ◌+◌, ◌<◌, ◌≤◌, ◌≡◌, refl, ap, ◌∙◌, sym, arith, List, [], ◌∷◌, ◌++◌, length, All, All-append,
  append-nil, append_assoc, length-append,
}
use rustyhdf.Prelude.{get_elem?, some, ltb, Bool-cases, inl, inr}
use rustyhdf.Outcome.Ensures.{Post, NoError, returns}
use mathlib.Core.Path.{subst}
use rustyhdf.ChunkCache.{CachedChunk, oldest, oldest_from}

-- The slot at the place was used no later than any.
pub record IsOldest (ss : List CachedChunk) (i : ℕ) : Type 0 where
  pub slot : CachedChunk
  pub at : get_elem? ss i ≡ some slot
  pub least : All (λ t. slot.last_access ≤ t.last_access) ss

All-weaken :
    {P Q : CachedChunk → Type 0} (ss : List CachedChunk)
    → ((s : CachedChunk) → P s → Q s)
    → All P ss
    → All Q ss
All-weaken [] f a = tt
All-weaken (s ∷ ss) f a = (f s a.0, All-weaken ss f a.1)

get_elem?-passed :
    (seen ss : List CachedChunk) (s : CachedChunk)
    → get_elem? (seen ++ (s ∷ ss)) (length seen) ≡ some s
get_elem?-passed [] ss s = refl
get_elem?-passed (t ∷ seen) ss s = get_elem?-passed seen ss s

module _ (whole : List CachedChunk) where
  -- The slots seen so far, of which `best` at `at` is the oldest, and those that are left.
  oldest_from-IsOldest :
      (seen ss : List CachedChunk) (best : CachedChunk) (at i : ℕ)
      → whole ≡ seen ++ ss
      → i ≡ length seen
      → get_elem? whole at ≡ some best
      → All (λ t. best.last_access ≤ t.last_access) seen
      → IsOldest whole (oldest_from best.last_access at i ss)
  unfolding oldest_from
  oldest_from-IsOldest seen [] best at i w e g a = record {
    slot = best;
    at = g;
    least = subst (All (λ t. best.last_access ≤ t.last_access)) (sym (w ∙ append-nil seen)) a;
  }
  oldest_from-IsOldest seen (s ∷ ss) best at i w e g a =
      let longer : whole ≡ (seen ++ (s ∷ [])) ++ ss = w ∙ sym (append_assoc seen (s ∷ []) ss) in
      let next : i + 1 ≡ length (seen ++ (s ∷ [])) =
        omega (arith, e, length-append seen (s ∷ [])) in
      elim (Bool-cases (ltb s.last_access best.last_access)) [
        | inl younger ↦
            let below : s.last_access < best.last_access = ground arith in
            let here : get_elem? whole i ≡ some s =
              ap (λ k. get_elem? k i) w
              ∙ ap (λ k. get_elem? (seen ++ (s ∷ ss)) k) e
              ∙ get_elem?-passed seen ss s in
            let all =
              All-append (λ t. s.last_access ≤ t.last_access) seen (s ∷ [])
                (All-weaken seen (λ t h. omega (arith, h, below)) a) (omega arith, tt) in
            rw (younger)
              (oldest_from-IsOldest (seen ++ (s ∷ [])) ss s i (i + 1) longer next here all)
        | inr older ↦
            let above : best.last_access ≤ s.last_access = ground arith in
            let all =
              All-append (λ t. best.last_access ≤ t.last_access) seen (s ∷ []) a (above, tt) in
            rw (older)
              (oldest_from-IsOldest (seen ++ (s ∷ [])) ss best at (i + 1) longer next g all)
      ]

-- On slots that are not empty, `oldest` returns the place of a slot whose last access is not
-- later than that of any slot.
pub oldest-IsOldest :
    (s : CachedChunk) (ss : List CachedChunk) → Post NoError (IsOldest (s ∷ ss)) (oldest (s ∷ ss))
unfolding oldest
oldest-IsOldest s ss =
    returns (oldest_from-IsOldest (s ∷ ss) (s ∷ []) ss s 0 1 refl refl refl (omega arith, tt))
