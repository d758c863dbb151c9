-- ===== src/SignIn/Verify.antt =====
-- Typing a code back, `extract_code` of services/otp.py and `otp_verify` of api/routes/otp.py.
use agyary.Common.{
  ℕ, Option, none, some, List, [], ◌∷◌, ◌++◌, length, Bool, true, false, ◌&&◌, ◌||◌, ◌==◌,
  if◌then◌else◌, Text, is_space, strip,
}
use agyary.SignIn.{LoginOtp, code_length, verify_code}
use agyary.SignIn.Attempts.{WaLoginAttempt, create_claimed}

-- `[\s-]`
unfoldable pub is_gap : ℕ → Bool
is_gap c = is_space c || c == 45

-- `is_decimal` is the test of `\d`.
module _ (is_decimal : ℕ → Bool) where
  -- The gaps between two digits go; `held` is what may be such a gap, after a digit.
  unfoldable pub squeeze_from : Bool → Text → Text → Text
  squeeze_from after_digit held [] = held
  squeeze_from after_digit held (c ∷ s) =
      let joined = squeeze_from true [] s in
      let longer = squeeze_from true (held ++ c ∷ []) s in
      let plain = squeeze_from false [] s in
      if is_decimal c
      then c ∷ joined
      else if after_digit && is_gap c
      then longer
      else held ++ c ∷ plain

  unfoldable pub flush : Text → List Text → List Text
  flush [] runs = runs
  flush (c ∷ s) runs = (c ∷ s) ∷ runs

  -- The longest runs of digits, from the one that was begun on.
  unfoldable pub runs_from : Text → Text → List Text
  runs_from run [] = flush run []
  runs_from run (c ∷ s) =
      let longer = runs_from (run ++ c ∷ []) s in
      let others = runs_from [] s in if is_decimal c then longer else flush run others

  -- `_CODE.findall`: the runs of six
  unfoldable pub codes_among : List Text → List Text
  codes_among [] = []
  codes_among (run ∷ runs) =
      let rest = codes_among runs in if length run == code_length then run ∷ rest else rest

  unfoldable pub only_one : List Text → Option Text
  only_one (code ∷ []) = some code
  only_one _ = none

  unfoldable pub extract_code : Text → Option Text
  extract_code text = only_one (codes_among (runs_from [] (squeeze_from false [] text)))

  -- `extract_code(code) or code.strip()`
  unfoldable pub code_or_stripped : Text → Option Text → Text
  code_or_stripped text none = strip text
  code_or_stripped text (some code) = code

  -- The route: the two tables, and whether an attempt was made for the number, which the session
  -- is made of. A wrong guess is committed as well.
  unfoldable pub otp_verify :
      (ℕ → ℕ → Text → ℕ)
      → ℕ
      → Text
      → ℕ
      → ℕ
      → ℕ
      → Text
      → ℕ
      → List LoginOtp
      → List WaLoginAttempt
      → List LoginOtp × List WaLoginAttempt × Bool
  otp_verify digest id new_code hash ttl phone text now otps rows =
      let (after, right) =
        verify_code digest is_decimal phone (code_or_stripped text (extract_code text)) now otps in
      if right
      then (after, create_claimed id new_code hash ttl phone now rows, true)
      else (after, rows, false)
