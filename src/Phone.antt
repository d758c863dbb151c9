-- ===== src/Phone.antt =====
-- services/phone.py: the one stored shape of a phone number, and the shape that is accepted.
pub mod Normal
use agyary.Common.{
  ℕ, zero, suc, ◌+◌, ◌≤◌, ◌<◌, ◌≡◌, refl, sym, ap, ◌∙◌, ◌⊎◌, inl, inr, Option, none, some, List, [],
  ◌∷◌, ◌++◌, length, Bool, true, false, not, ◌&&◌, ◌||◌, leb, ◌==◌, Bool-cases, if◌then◌else◌,
  arith, Result, ok, value_error, ◌>>=◌, Text, codes, is_space, strip, drop_while, remove_all,
  starts_with, after_prefix,
}

-- `+`, and what the pattern `[\s\-().]` takes out
abbrev pub plus : ℕ
plus = 43

unfoldable pub is_separator : ℕ → Bool
is_separator c = is_space c || c == 45 || c == 40 || c == 41 || c == 46

unfoldable pub is_zero_digit : ℕ → Bool
is_zero_digit c = c == 48

abbrev pub known_country_codes : List Text
known_country_codes =
    codes "971"
    ∷ codes "852"
    ∷ codes "966"
    ∷ codes "968"
    ∷ codes "965"
    ∷ codes "974"
    ∷ codes "91"
    ∷ codes "98"
    ∷ codes "92"
    ∷ codes "94"
    ∷ codes "44"
    ∷ codes "61"
    ∷ codes "64"
    ∷ codes "65"
    ∷ codes "86"
    ∷ codes "81"
    ∷ codes "82"
    ∷ codes "49"
    ∷ codes "33"
    ∷ codes "39"
    ∷ codes "34"
    ∷ codes "27"
    ∷ codes "20"
    ∷ codes "60"
    ∷ codes "66"
    ∷ codes "63"
    ∷ codes "1"
    ∷ codes "7"
    ∷ []

-- The loop over the codes: the first that the digits start with.
unfoldable pub trim_trunk : List Text → Text → Text
trim_trunk [] digits = plus ∷ digits
trim_trunk (country ∷ others) digits =
    let later = trim_trunk others digits in
    if starts_with country digits
    then plus ∷ (country ++ drop_while is_zero_digit (after_prefix country digits))
    else later

abbrev pub normalize_cleaned : Text → Text
normalize_cleaned [] = []
normalize_cleaned (c ∷ digits) =
    if c == plus then trim_trunk known_country_codes digits else c ∷ digits

unfoldable pub normalize_phone : Text → Text
normalize_phone value = normalize_cleaned (remove_all is_separator (strip value))

-- `\d` of a text pattern is any decimal digit of Unicode: the test is a parameter.
module _ (is_decimal : ℕ → Bool) where
  unfoldable pub all_decimal : Text → Bool
  all_decimal [] = true
  all_decimal (c ∷ s) = is_decimal c && all_decimal s

  -- `^\+[1-9]\d{7,14}$` on a text that has no newline
  unfoldable pub is_e164 : Text → Bool
  is_e164 (p ∷ d ∷ rest) =
      p == plus
      && leb 49 d
      && leb d 57
      && leb 7 (length rest)
      && leb (length rest) 14
      && all_decimal rest
  is_e164 _ = false

  unfoldable pub validate_phone : Text → Result Text
  validate_phone value =
      let normal = normalize_phone value in if is_e164 normal then ok normal else value_error

  unfoldable pub validate_optional_phone : Option Text → Result (Option Text)
  validate_optional_phone none = ok none
  validate_optional_phone (some value) = validate_phone value >>= λ v. ok (some v)
