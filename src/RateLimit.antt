-- ===== src/RateLimit.antt =====
-- api/rate_limit.py: the hits of each key in a sliding window.
pub mod Window
use agyary.Common.{
  ℕ, ◌+◌, ◌≡◌, refl, Option, none, some, List, [], ◌∷◌, ◌++◌, length, Bool, true, false, ltb, leb,
  ◌==◌, if◌then◌else◌,
}

-- `[t for t in hits if t > now - window_seconds]`, newest first
unfoldable pub recent : ℕ → ℕ → List ℕ → List ℕ
recent window now [] = []
recent window now (t ∷ hits) =
    let rest = recent window now hits in if ltb now (t + window) then t ∷ rest else rest

unfoldable pub hits_of : ℕ → List (ℕ × List ℕ) → List ℕ
hits_of key [] = []
hits_of key ((k, hits) ∷ store) = let later = hits_of key store in if k == key then hits else later

unfoldable pub set_hits : ℕ → List ℕ → List (ℕ × List ℕ) → List (ℕ × List ℕ)
set_hits key hits [] = (key, hits) ∷ []
set_hits key hits ((k, old) ∷ store) =
    let others = set_hits key hits store in
    if k == key then (key, hits) ∷ store else (k, old) ∷ others

-- `enforce_key`: the store after an admitted request, none where it is refused with status 429.
unfoldable pub enforce_key : ℕ → ℕ → ℕ → ℕ → List (ℕ × List ℕ) → Option (List (ℕ × List ℕ))
enforce_key max_requests window now key store =
    let hits = recent window now (hits_of key store) in
    if leb max_requests (length hits) then none else some (set_hits key (now ∷ hits) store)
