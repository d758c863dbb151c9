-- ===== src/SignIn.antt =====
-- services/otp.py: the codes that are sent to a number, and the check of a code that comes back.
pub mod Lock
pub mod Newest
pub mod Guesses
pub mod Request
pub mod Limits
pub mod Attempts
pub mod Verify
pub mod Grounds
pub mod Writes
pub mod Released
use agyary.Common.{
  ℕ, zero, suc, ◌+◌, Option, none, some, is_some, List, [], ◌∷◌, Bool, true, false, not, ◌&&◌, ◌||◌,
  ltb, leb, ◌==◌, if◌then◌else◌, length, Text,
}
use agyary.Phone.{all_decimal}

-- What became of a code: `suppressed` is one that was not sent since its number may not sign in.
pub data OtpStatus : Type 0 where
  pending sent failed suppressed : OtpStatus

-- A row of login_otps. Numbers, salts, digests and addresses stand as numbers, times in seconds.
pub record LoginOtp : Type 0 where
  pub id : ℕ
  pub phone : ℕ
  pub salt : ℕ
  pub code_hash : ℕ
  pub created_at : ℕ
  pub expires_at : ℕ
  pub attempts : ℕ
  pub consumed_at : Option ℕ
  pub is_new_number : Bool
  pub requester : ℕ
  pub status : OtpStatus

abbrev pub code_length : ℕ
code_length = 6

abbrev pub max_attempts : ℕ
max_attempts = 5

unfoldable pub is_sent : OtpStatus → Bool
is_sent sent = true
is_sent _ = false

-- `order_by(created_at.desc(), id.desc())`
unfoldable pub comes_after : LoginOtp → LoginOtp → Bool
comes_after o p = ltb p.created_at o.created_at || (p.created_at == o.created_at && ltb p.id o.id)

unfoldable pub newer : LoginOtp → Option LoginOtp → LoginOtp
newer o none = o
newer o (some p) = if comes_after p o then p else o

unfoldable pub is_sent_to : ℕ → LoginOtp → Bool
is_sent_to phone o = o.phone == phone && is_sent o.status

-- The newest code that was sent to the number.
unfoldable pub newest_sent : ℕ → List LoginOtp → Option LoginOtp
newest_sent phone [] = none
newest_sent phone (o ∷ otps) =
    let later = newest_sent phone otps in if is_sent_to phone o then some (newer o later) else later

-- The row with the id of o becomes o.
unfoldable pub save_otp : LoginOtp → List LoginOtp → List LoginOtp
save_otp o [] = []
save_otp o (p ∷ otps) = (if p.id == o.id then o else p) ∷ save_otp o otps

unfoldable pub is_dead : ℕ → LoginOtp → Bool
is_dead now row = is_some row.consumed_at || leb row.expires_at now || leb max_attempts row.attempts

-- `_CODE.fullmatch`; `is_decimal` is the test of `\d`.
unfoldable pub is_code : (ℕ → Bool) → Text → Bool
is_code is_decimal code = length code == code_length && all_decimal is_decimal code

-- `digest salt phone code` is the salted digest.
module _ (digest : ℕ → ℕ → Text → ℕ) where
  -- One guess at a row that is alive.
  unfoldable pub guess : ℕ → Text → ℕ → LoginOtp → LoginOtp × Bool
  guess phone code now row =
      if digest row.salt phone code == row.code_hash
      then (record row { attempts = row.attempts + 1; consumed_at = some now }, true)
      else (record row { attempts = row.attempts + 1 }, false)

  unfoldable pub check_row : ℕ → Text → ℕ → Option LoginOtp → List LoginOtp → List LoginOtp × Bool
  check_row phone code now none otps = (otps, false)
  check_row phone code now (some row) otps =
      if is_dead now row
      then (otps, false)
      else (save_otp (guess phone code now row).0 otps, (guess phone code now row).1)

  unfoldable pub verify_code : (ℕ → Bool) → ℕ → Text → ℕ → List LoginOtp → List LoginOtp × Bool
  verify_code is_decimal phone code now otps =
      if not (is_code is_decimal code)
      then (otps, false)
      else check_row phone code now (newest_sent phone otps) otps
