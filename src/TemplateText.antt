-- ===== src/TemplateText.antt =====
-- services/template_text.py: the rules for a text that goes into a message we pay for. The tests of
-- the pattern library (`\w`, `\d` and the lower case that it compares by) are parameters.
pub mod Tidy
pub mod Passed
use agyary.Common.{
  ℕ, zero, suc, ◌+◌, List, [], ◌∷◌, ◌++◌, Bool, true, false, not, ◌&&◌, ◌||◌, ltb, leb, ◌==◌,
  if◌then◌else◌, length, Text, codes, is_space, starts_with, Option, none, some, String,
}

-- The first word of the text and the others, where a word may be empty: `str.split()` drops those.
unfoldable pub spell : Text → Text × List Text
spell [] = ([], [])
spell (c ∷ s) =
    let (word, words) = spell s in if is_space c then ([], word ∷ words) else (c ∷ word, words)

unfoldable pub not_empty : List Text → List Text
not_empty [] = []
not_empty ([] ∷ words) = not_empty words
not_empty ((c ∷ word) ∷ words) = (c ∷ word) ∷ not_empty words

unfoldable pub split_words : Text → List Text
unfolding spell not_empty
split_words s = let (word, words) = spell s in not_empty (word ∷ words)

abbrev pub blank : ℕ
blank = 32

-- `" ".join(words)`
unfoldable pub join_words : List Text → Text
join_words [] = []
join_words (word ∷ []) = word
join_words (word ∷ next ∷ words) = word ++ blank ∷ join_words (next ∷ words)

-- `" ".join(text.split())`
unfoldable pub tidy : Text → Text
unfolding split_words join_words
tidy s = join_words (split_words s)

-- What is wrong with a text.
pub data Problem : Type 0 where
  too_long has_link has_handle has_number : Problem

-- The endings of web addresses that `_LINK` lists.
abbrev pub domains : List String
domains =
    "com" ∷ "net" ∷ "org" ∷ "in" ∷ "co" ∷ "io" ∷ "me" ∷ "ly" ∷ "info" ∷ "biz" ∷ "xyz" ∷ "app"
    ∷ "site" ∷ "online" ∷ "shop" ∷ "top" ∷ "live" ∷ "link" ∷ "ai" ∷ "gg" ∷ "to" ∷ "uk" ∷ "us" ∷ "ru"
    ∷ "cn" ∷ "tk" ∷ "ml" ∷ "ga" ∷ "cf" ∷ "gq" ∷ "page" ∷ "dev" ∷ "club" ∷ "store" ∷ "website"
    ∷ "space" ∷ "click" ∷ []

-- `[\s().+-]`
unfoldable pub is_joint : ℕ → Bool
is_joint c = is_space c || c == b'(' || c == b')' || c == b'.' || c == b'+' || c == b'-'

-- The text with its spacing tidied, or what is wrong with it, which the source raises.
pub data Checked : Type 0 where
  tidied : Text → Checked
  wrong : Problem → Checked

unfoldable pub verdict : Option Problem → Text → Checked
verdict none cleaned = tidied cleaned
verdict (some p) cleaned = wrong p

module _ (is_word is_decimal : ℕ → Bool) (lower : ℕ → ℕ) where
  unfoldable pub starts_word : Text → Bool
  starts_word [] = false
  starts_word (c ∷ s) = is_word c

  -- The rest after a text of small letters, compared without regard to case.
  unfoldable pub after_letters : Text → Text → Option Text
  after_letters [] s = some s
  after_letters (p ∷ ps) [] = none
  after_letters (p ∷ ps) (c ∷ s) = if lower c == p then after_letters ps s else none

  -- `(?:com|net|...)\b` at the head of the text
  unfoldable pub ends_domain : List String → Text → Bool
  ends_domain [] s = false
  ends_domain (name ∷ names) s =
      elim (after_letters (codes name) s) [ none ↦ false | some rest ↦ not (starts_word rest) ]
      || ends_domain names s

  -- `[a-z0-9-]`
  unfoldable pub is_host : ℕ → Bool
  is_host c =
      let l = lower c in (leb b'a' l && leb l b'z') || (leb b'0' l && leb l b'9') || l == b'-'

  -- `[a-z0-9-]+\.(?:...)\b` at the head: the letters run up to a dot, which is none of them.
  unfoldable pub is_address : Bool → Text → Bool
  is_address some_host [] = false
  is_address some_host (c ∷ s) =
      (some_host && c == b'.' && ends_domain domains s) || (is_host c && is_address true s)

  abbrev pub is_www : Text → Bool
  is_www s = elim (after_letters (codes "www.") s) [ none ↦ false | some rest ↦ true ]

  -- `_LINK.search`, with whether the character before is one of a word.
  unfoldable pub finds_link : Bool → Text → Bool
  finds_link after_word [] = false
  finds_link after_word (c ∷ s) =
      let bounded = if is_word c then not after_word else after_word in
      starts_with (codes "://") (c ∷ s)
      || (bounded && (is_www (c ∷ s) || is_address false (c ∷ s)))
      || finds_link (is_word c) s

  -- `_HANDLE.search`
  unfoldable pub finds_handle : Text → Bool
  finds_handle [] = false
  finds_handle (c ∷ s) = (c == b'@' && starts_word s) || finds_handle s

  -- `_JOINED_DIGITS.sub("", s)`: `after_digit` says whether a digit stands before the characters that
  -- are held back.
  unfoldable pub without_joints : Bool → Text → Text → Text
  without_joints after_digit held [] = held
  without_joints after_digit held (c ∷ s) = elim (after_digit && is_joint c) [
    | true ↦ without_joints true (held ++ c ∷ []) s
    | false ↦ elim (is_decimal c) [
      | true ↦ c ∷ without_joints true [] s
      | false ↦ held ++ c ∷ without_joints false [] s
    ]
  ]

  -- `_DIGIT_RUN.search`, with the digits that stand just before.
  unfoldable pub finds_run : ℕ → Text → Bool
  finds_run count [] = false
  finds_run count (c ∷ s) =
      let digits = if is_decimal c then suc count else 0 in leb 6 digits || finds_run digits s

  unfoldable pub problem : Text → ℕ → Option Problem
  problem text max_len =
      let cleaned = tidy text in
      if ltb max_len (length cleaned)
      then some too_long
      else if finds_link false cleaned
      then some has_link
      else if finds_handle cleaned
      then some has_handle
      else if finds_run 0 (without_joints false [] cleaned)
      then some has_number
      else none

  unfoldable pub check : Text → ℕ → Checked
  check text max_len = verdict (problem text max_len) (tidy text)
