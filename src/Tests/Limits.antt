-- ===== src/Tests/Limits.antt =====
-- A second request in a window of a minute, of two that may be made.
use agyary.Common.{◌≡◌, refl, some, none, [], ◌∷◌, arith}
use agyary.RateLimit.{recent, hits_of, set_hits, enforce_key}
use agyary.RateLimit.Window.{Bounded, enforce_key-Bounded, recent-one}

second_run : enforce_key 2 60 130 7 ((7, 100 ∷ []) ∷ []) ≡ some ((7, 130 ∷ 100 ∷ []) ∷ [])
unfolding enforce_key recent hits_of set_hits
second_run = refl

third_run : enforce_key 2 60 140 7 ((7, 130 ∷ 100 ∷ []) ∷ []) ≡ none
unfolding enforce_key recent hits_of
third_run = refl

one-Bounded : Bounded 2 60 100 (100 ∷ []) (hits_of 7 ((7, 100 ∷ []) ∷ []))
unfolding hits_of
one-Bounded = record { agrees = λ t k. refl; few = λ t k. omega (arith, recent-one 60 t 100) }

enforce_key-Bounded_example :
    Bounded 2 60 130 (130 ∷ 100 ∷ []) (hits_of 7 ((7, 130 ∷ 100 ∷ []) ∷ []))
enforce_key-Bounded_example =
    enforce_key-Bounded 2 60 100 130 7 (100 ∷ []) ((7, 100 ∷ []) ∷ []) ((7, 130 ∷ 100 ∷ []) ∷ [])
      (omega arith) one-Bounded second_run
