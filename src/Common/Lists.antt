-- ===== src/Common/Lists.antt =====
-- Lists measured and indexed by native numbers, under the library's names.
use Prim.Native.Nat.{ℕ, zero, suc, ◌+◌}
use mathlib.Core.Path.{◌≡◌, sym, subst}
use mathlib.Core.Logic.{◌≢◌, ◌⊎◌, inl, inr}
use mathlib.Core.List.{List, [], ◌∷◌, ◌++◌}
use mathlib.Core.Option.{Option, none, some}
use mathlib.Core.Bool.{Bool, true, false, ◌||◌}
use native.Mathlib.Omega.{arith}
use agyary.Common.Tests.{◌==◌}

module _ {ℓ} {A : Type ℓ} where
  abbrev pub length : List A → ℕ
  length [] = 0
  length (x ∷ xs) = suc (length xs)

  abbrev pub get_elem? : List A → ℕ → Option A
  get_elem? [] i = none
  get_elem? (x ∷ xs) zero = some x
  get_elem? (x ∷ xs) (suc i) = get_elem? xs i

  abbrev pub get_or : List A → ℕ → A → A
  get_or [] i d = d
  get_or (x ∷ xs) zero d = x
  get_or (x ∷ xs) (suc i) d = get_or xs i d

  abbrev pub take : ℕ → List A → List A
  take zero xs = []
  take (suc n) [] = []
  take (suc n) (x ∷ xs) = x ∷ take n xs

  pub length-append : (xs ys : List A) → length (xs ++ ys) ≡ length xs + length ys
  length-append [] ys = omega arith
  length-append (x ∷ xs) ys = omega (arith, length-append xs ys)

-- `range(lo, lo + n)`
abbrev pub range : ℕ → ℕ → List ℕ
range lo zero = []
range lo (suc n) = lo ∷ range (suc lo) n

-- A predicate that holds of every element.
abbrev pub All {ℓ κ} : {A : Type ℓ} → (A → Type κ) → List A → Type κ
All P [] = Unit
All P (x ∷ xs) = P x × All P xs

-- x stands in the list.
abbrev pub Among : {A : Type 0} → A → List A → Type 0
Among x [] = ⊥
Among x (y ∷ ys) = (x ≡ y) ⊎ Among x ys

pub All-Among {κ} :
    {A : Type 0} (P : A → Type κ) {x : A} (xs : List A) → All P xs → Among x xs → P x
All-Among P [] all here = elim here [ ]
All-Among P (y ∷ ys) all (inl same) = subst P (sym same) all.0
All-Among P (y ∷ ys) all (inr later) = All-Among P ys all.1 later

-- `n in ms`
unfoldable pub number_in : ℕ → List ℕ → Bool
number_in n [] = false
number_in n (m ∷ ms) = n == m || number_in n ms

-- The numbers of a list are all different from x, and from one another.
abbrev pub Fresh : ℕ → List ℕ → Type 0
Fresh x ids = All (λ y. y ≢ x) ids

pub number_in-Fresh : (x : ℕ) (xs : List ℕ) → number_in x xs ≡ false → Fresh x xs
unfolding number_in
number_in-Fresh x [] h = tt
number_in-Fresh x (y ∷ ys) h = (ground arith, number_in-Fresh x ys (ground arith))

pub number_in-Among : (x : ℕ) (xs : List ℕ) → number_in x xs ≡ true → Among x xs
unfolding number_in
number_in-Among x [] h = absurd (let e : false ≡ true = h in (cc))
number_in-Among x (y ∷ ys) h = ground (arith, number_in-Among x ys)
