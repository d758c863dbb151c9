-- ===== src/Common/Strings.antt =====
-- Python's text as a list of code points: equality, prefixes, `strip`, `lstrip` and `split`.
use Prim.Native.Nat.{ℕ}
use Prim.Native.Char.{code}
use Prim.Native.String.{String}
use mathlib.Core.Path.{◌≡◌, refl}
use mathlib.Core.Logic.{◌↔◌, inl, inr}
use mathlib.Core.Bool.{Bool, true, false, ◌&&◌, ◌||◌}
use mathlib.Core.List.{List, [], ◌∷◌}
use native.Mathlib.Omega.{arith}
use agyary.Common.Tests.{leb, ◌==◌, Bool-cases, if◌then◌else◌}

abbrev pub Text : Type 0
Text = List ℕ

-- The code points of a literal.
abbrev pub codes : String → Text
codes String.[] = []
codes (String.◌∷◌ c s) = code c ∷ codes s

unfoldable pub text_eq : Text → Text → Bool
text_eq [] [] = true
text_eq (a ∷ s) (b ∷ t) = a == b && text_eq s t
text_eq _ _ = false

-- `c.isspace()`, which is also `\s` of a pattern
unfoldable pub is_space : ℕ → Bool
is_space c =
    (leb 9 c && leb c 13)
    || (leb 28 c && leb c 32)
    || c == 133
    || c == 160
    || c == 5760
    || (leb 8192 c && leb c 8202)
    || c == 8232
    || c == 8233
    || c == 8239
    || c == 8287
    || c == 12288

-- Without the leading elements that a test holds of.
unfoldable pub drop_while : (ℕ → Bool) → Text → Text
drop_while test [] = []
drop_while test (c ∷ s) = let rest = drop_while test s in if test c then rest else c ∷ s

-- Without the trailing ones.
unfoldable pub drop_end : (ℕ → Bool) → Text → Text
drop_end test [] = []
drop_end test (c ∷ s) = elim (drop_end test s) [
  | [] ↦ (if test c then [] else c ∷ [])
  | d ∷ t ↦ c ∷ d ∷ t
]

unfoldable pub strip : Text → Text
strip s = drop_end is_space (drop_while is_space s)

-- Without each element that a test holds of.
unfoldable pub remove_all : (ℕ → Bool) → Text → Text
remove_all test [] = []
remove_all test (c ∷ s) = let rest = remove_all test s in if test c then rest else c ∷ rest

unfoldable pub starts_with : Text → Text → Bool
starts_with [] s = true
starts_with (p ∷ ps) [] = false
starts_with (p ∷ ps) (c ∷ s) = p == c && starts_with ps s

-- `s[len(p):]`
unfoldable pub after_prefix : Text → Text → Text
after_prefix [] s = s
after_prefix (p ∷ ps) [] = []
after_prefix (p ∷ ps) (c ∷ s) = after_prefix ps s

-- `s.split(c)`: the first part, and the others.
unfoldable pub split_first : ℕ → Text → Text × List Text
split_first sep [] = ([], [])
split_first sep (c ∷ s) =
    let (first, rest) = split_first sep s in
    if c == sep then ([], first ∷ rest) else (c ∷ first, rest)

unfoldable pub split_on : ℕ → Text → List Text
unfolding split_first
split_on sep s = let (first, rest) = split_first sep s in first ∷ rest

unfoldable pub text_in : Text → List Text → Bool
text_in s [] = false
text_in s (t ∷ ts) = text_eq s t || text_in s ts

pub text_eq_iff : (s t : Text) → (text_eq s t ≡ true) ↔ (s ≡ t)
unfolding text_eq
text_eq_iff [] [] = (λ h. refl, λ h. refl)
text_eq_iff [] (b ∷ t) = (λ h. cc, λ h. cc)
text_eq_iff (a ∷ s) [] = (λ h. cc, λ h. cc)
text_eq_iff (a ∷ s) (b ∷ t) =
    (λ h. ground (arith, (text_eq_iff s t).0), λ h. ground (arith, (text_eq_iff s t).1))

pub text_eq_refl : (s : Text) → text_eq s s ≡ true
text_eq_refl s = (text_eq_iff s s).1 refl

-- No element of the text has the property that the test asks for.
abbrev pub Lacks : (ℕ → Bool) → Text → Type 0
Lacks test [] = Unit
Lacks test (c ∷ s) = (test c ≡ false) × Lacks test s

module _ (test : ℕ → Bool) where
  pub drop_while-Lacks : (s : Text) → Lacks test s → drop_while test s ≡ s
  unfolding drop_while
  drop_while-Lacks [] h = refl
  drop_while-Lacks (c ∷ s) h = rw (h.0)

  pub remove_all-Lacks : (s : Text) → Lacks test s → remove_all test s ≡ s
  unfolding remove_all
  remove_all-Lacks [] h = refl
  remove_all-Lacks (c ∷ s) h = rw (h.0, remove_all-Lacks s h.1)

  pub Lacks-remove_all : (s : Text) → Lacks test (remove_all test s)
  unfolding remove_all
  Lacks-remove_all [] = tt
  Lacks-remove_all (c ∷ s) = elim (Bool-cases (test c)) [
    | inl y ↦ rw y (Lacks-remove_all s)
    | inr n ↦ rw n (n, Lacks-remove_all s)
  ]

  pub drop_end-Lacks : (s : Text) → Lacks test s → drop_end test s ≡ s
  unfolding drop_end
  drop_end-Lacks [] h = refl
  drop_end-Lacks (c ∷ []) h = rw (h.0)
  drop_end-Lacks (c ∷ d ∷ s) h = rw (drop_end-Lacks (d ∷ s) h.1)
