-- ===== src/SignIn/Lock.antt =====
-- What a secret that may be guessed at promises: a few tries, and one success at most.
use agyary.Common.{
  ℕ, zero, suc, ◌≤◌, ◌≡◌, refl, sym, ap, ◌∙◌, ◌++◌, Option, none, some, List, [], ◌∷◌, Bool, true,
  false, arith,
}

-- A lock with tries left, or one that has been opened.
pub data Lock : Type 0 where
  armed : ℕ → Lock
  opened : Lock

-- A try, with the right secret or a wrong one, and whether it opens the lock.
abbrev pub try : Bool → Lock → Lock × Bool
try right opened = (opened, false)
try right (armed zero) = (armed zero, false)
try true (armed (suc n)) = (opened, true)
try false (armed (suc n)) = (armed n, false)

-- `none` is a call that does not reach the lock.
abbrev pub attempt : Option Bool → Lock → Lock × Bool
attempt none lock = (lock, false)
attempt (some right) lock = try right lock

abbrev pub attempts : List (Option Bool) → Lock → List Bool
attempts [] lock = []
attempts (g ∷ gs) lock = let (after, answer) = attempt g lock in answer ∷ attempts gs after

-- How many of the answers are yes.
abbrev pub successes : List Bool → ℕ
successes [] = 0
successes (true ∷ answers) = suc (successes answers)
successes (false ∷ answers) = successes answers

-- How many tries were wrong.
abbrev pub wrong : List (Option Bool) → ℕ
wrong [] = 0
wrong (some false ∷ gs) = suc (wrong gs)
wrong (_ ∷ gs) = wrong gs

-- The lock can no longer be opened.
abbrev Shut : Lock → Type 0
Shut opened = Unit
Shut (armed n) = n ≡ 0

Shut-attempts :
    (gs : List (Option Bool)) (lock : Lock) → Shut lock → successes (attempts gs lock) ≡ 0
Shut-attempts [] lock shut = refl
Shut-attempts (none ∷ gs) lock shut = Shut-attempts gs lock shut
Shut-attempts (some right ∷ gs) opened shut = Shut-attempts gs opened tt
Shut-attempts (some right ∷ gs) (armed zero) shut = Shut-attempts gs (armed zero) refl
Shut-attempts (some right ∷ gs) (armed (suc n)) shut = absurd (omega arith)

-- A lock opens at most once, however often it is tried.
pub attempts-once : (gs : List (Option Bool)) (lock : Lock) → successes (attempts gs lock) ≤ 1
attempts-once [] lock = omega arith
attempts-once (none ∷ gs) lock = attempts-once gs lock
attempts-once (some right ∷ gs) opened = attempts-once gs opened
attempts-once (some right ∷ gs) (armed zero) = attempts-once gs (armed zero)
attempts-once (some true ∷ gs) (armed (suc n)) = omega (arith, Shut-attempts gs opened tt)
attempts-once (some false ∷ gs) (armed (suc n)) = attempts-once gs (armed n)

-- With as many wrong tries as there are tries, what comes after them does not open the lock.
pub attempts-spent :
    (gs hs : List (Option Bool)) (n : ℕ)
    → n ≤ wrong gs
    → successes (attempts (gs ++ hs) (armed n)) ≡ successes (attempts gs (armed n))
attempts-spent [] hs n spent = Shut-attempts hs (armed n) (omega arith)
attempts-spent (none ∷ gs) hs n spent = attempts-spent gs hs n spent
attempts-spent (some right ∷ gs) hs zero spent =
    Shut-attempts (gs ++ hs) (armed 0) refl ∙ sym (Shut-attempts gs (armed 0) refl)
attempts-spent (some true ∷ gs) hs (suc n) spent =
    ap suc (Shut-attempts (gs ++ hs) opened tt ∙ sym (Shut-attempts gs opened tt))
attempts-spent (some false ∷ gs) hs (suc n) spent = attempts-spent gs hs n (omega arith)
