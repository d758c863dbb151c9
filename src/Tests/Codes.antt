-- ===== src/Tests/Codes.antt =====
-- A code that is guessed at, a number that asks for its fourth code, and a sign-in by a message.
use agyary.Common.{
  ℕ, ◌+◌, ◌≡◌, ◌≤◌, refl, subst, none, some, List, [], ◌∷◌, ◌++◌, Bool, true, false, Text, codes,
  leb, ◌&&◌, map, arith, text_eq, strip, drop_end, drop_while, is_space,
}
use agyary.Sending.{answered}
use agyary.SignIn.{
  LoginOtp, sent, is_sent, comes_after, newer, is_sent_to, newest_sent, is_code, verify_code,
  check_row, is_dead, guess, save_otp,
}
use agyary.SignIn.Lock.{attempts, successes, wrong}
use agyary.SignIn.Guesses.{lock_of, tries, verify_codes, verify_codes-refines, verify_codes-spent}
use agyary.SignIn.Request.{OtpSettings, Desk, count_where, otp_request}
use agyary.SignIn.Limits.{Kept, otp_request-Kept}
use agyary.SignIn.Attempts.{
  WaLoginAttempt, new_attempt, start, process_sign_in, wa_login_confirm, peek, peek_claimed_phone,
  number_asked, claim, claim_row, find_code, ask, require_confirmation, confirm, confirm_attempt,
  confirm_kept, check_number, save_attempt, released_by, is_expired, drop_expired, create_claimed,
}
use agyary.Phone.{all_decimal}
use agyary.SignIn.Verify.{
  extract_code, otp_verify, squeeze_from, runs_from, codes_among, only_one, flush, is_gap,
  code_or_stripped,
}
use agyary.SignIn.Grounds.{Event, message_from, number_typed}
use agyary.SignIn.Released.{
  starts, receives, types, Reached, empty, after_step, MayRelease, peek_claimed_phone-MayRelease,
}

abbrev digest : ℕ → ℕ → Text → ℕ
digest salt phone [] = 0
digest salt phone (c ∷ code) = c + digest salt phone code

abbrev is_decimal : ℕ → Bool
is_decimal c = leb 48 c && leb c 57

abbrev code : LoginOtp
code = record {
  id = 9;
  phone = 5;
  salt = 1;
  code_hash = 297;
  created_at = 1000;
  expires_at = 1300;
  attempts = 0;
  consumed_at = none;
  is_new_number = false;
  requester = 2;
  status = sent;
}

abbrev otps : List LoginOtp
otps = code ∷ record code { id = 8; created_at = 900; code_hash = 300 } ∷ []

newest_run : newest_sent 5 otps ≡ some code
unfolding newest_sent is_sent_to is_sent newer comes_after
newest_run = refl

abbrev right_call : Text × ℕ
right_call = (codes "111222" ++ [], 1010)

abbrev wrong_call : Text × ℕ
wrong_call = (codes "000000", 1010)

verify_codes-refines_example :
    verify_codes digest is_decimal 5 (wrong_call ∷ right_call ∷ []) otps
    ≡ attempts
        (map (tries digest is_decimal 5 1 297 1300) (wrong_call ∷ right_call ∷ []))
        (lock_of code)
verify_codes-refines_example =
    verify_codes-refines digest is_decimal 5 (wrong_call ∷ right_call ∷ []) otps code newest_run

abbrev five : List (Text × ℕ)
five = wrong_call ∷ wrong_call ∷ wrong_call ∷ wrong_call ∷ wrong_call ∷ []

five_run : 5 ≤ wrong (map (tries digest is_decimal 5 1 297 1300) five) + 0
unfolding tries is_code all_decimal
five_run = omega arith

verify_codes-spent_example :
    successes (verify_codes digest is_decimal 5 (five ++ right_call ∷ []) otps)
    ≡ successes (verify_codes digest is_decimal 5 five otps)
verify_codes-spent_example =
    verify_codes-spent digest is_decimal 5 five (right_call ∷ []) otps code newest_run refl five_run

abbrev otp_settings : OtpSettings
otp_settings = record {
  is_live = true;
  ttl_seconds = 300;
  per_address_hourly = 10;
  per_address_daily = 30;
  daily_cap = 100;
  new_number_hourly_cap = 20;
  has_token = true;
  app_debug = false;
  admins = 1 ∷ [];
}

abbrev nobody_has : ℕ → Bool
nobody_has phone = false

abbrev open_to_all : ℕ → Bool
open_to_all phone = true

abbrev ist_day : ℕ → ℕ
ist_day t = 0

abbrev desk : Desk
desk = record { otps = []; is_paused = false; alerts = []; next_id = 1 }

desk-Kept : Kept desk
unfolding count_where
desk-Kept = record { hours = λ phone t. omega arith; days = λ phone t. omega arith }

otp_request-Kept_example :
    Kept
      (otp_request digest nobody_has open_to_all ist_day otp_settings 5 2 1
        (codes "111222")
        (answered 200 (some 77) none)
        1000
        desk).0
otp_request-Kept_example =
    otp_request-Kept digest nobody_has open_to_all ist_day otp_settings 5 2 1 (codes "111222")
      (answered 200 (some 77) none) 1000 desk desk-Kept

abbrev number_digest : ℕ → Text → ℕ
number_digest hash [] = hash
number_digest hash (c ∷ number) = c + number_digest hash number

abbrev started : WaLoginAttempt
started = new_attempt 1 (codes "ABCDEFGHJK") 6 1600 none none

abbrev asked : WaLoginAttempt
asked = record started { claimed_phone = some 5; claimed_at = some 1100; confirm_hash = some 109 }

abbrev finished : WaLoginAttempt
finished = record asked { confirm_hash = none; confirm_attempts = 1 }

start_run : start true 1 (codes "ABCDEFGHJK") 6 600 1000 [] ≡ some (started ∷ [])
unfolding start drop_expired
start_run = refl

started-Reached : Reached is_decimal digest number_digest (started ∷ [], [])
started-Reached =
    after_step [] [] (started ∷ [], []) empty
      (starts 1 (codes "ABCDEFGHJK") 6 600 1000 (started ∷ []) start_run)

asked_run :
    process_sign_in number_digest true true
      (codes "34")
      (codes "ABCDEFGHJK")
      5
      none
      1100
      (started ∷ [])
    ≡ (asked ∷ [], number_asked 1)
unfolding process_sign_in ask claim claim_row find_code text_eq is_expired save_attempt
    require_confirmation
asked_run = refl

typed_run :
    wa_login_confirm number_digest (codes "34") 6 1200 (asked ∷ []) ≡ (finished ∷ [], some 1)
unfolding wa_login_confirm confirm_attempt peek save_attempt confirm confirm_kept is_expired
    check_number strip drop_end drop_while is_space
typed_run = refl

abbrev message : Event
message = message_from (codes "ABCDEFGHJK") 5 true true (codes "34")

abbrev log : List Event
log = number_typed 6 (codes "34") ∷ message ∷ []

asked-Reached : Reached is_decimal digest number_digest (asked ∷ [], message ∷ [])
asked-Reached =
    subst (λ end. Reached is_decimal digest number_digest (end.0, message ∷ [])) asked_run
      (after_step (started ∷ []) [] _ started-Reached
        (receives true true (codes "34") (codes "ABCDEFGHJK") 5 none 1100))

finished-Reached : Reached is_decimal digest number_digest (finished ∷ [], log)
finished-Reached =
    subst (λ end. Reached is_decimal digest number_digest (end.0, log)) typed_run
      (after_step (asked ∷ []) (message ∷ []) _ asked-Reached (types (codes "34") 6 1200))

released_run : peek_claimed_phone 6 (finished ∷ []) ≡ some 5
unfolding peek_claimed_phone released_by peek
released_run = refl

peek_claimed_phone-MayRelease_example :
    (row : WaLoginAttempt) × (peek 6 (finished ∷ []) ≡ some row)
    × MayRelease is_decimal digest number_digest log row 5
peek_claimed_phone-MayRelease_example =
    peek_claimed_phone-MayRelease is_decimal digest number_digest (finished ∷ []) log 6 5
      finished-Reached released_run

-- A pasted message with one code in it.
extract_run :
    extract_code is_decimal (codes "Your code is 111 222. Call 9812345678.") ≡ some (codes "111222")
unfolding extract_code only_one codes_among runs_from squeeze_from flush is_gap is_space
extract_run = refl

verify_run :
    otp_verify is_decimal digest 2 (codes "ABCDEFGHJK") 7 600 5 (codes " 111-222 ") 1010 otps [] ≡ (
      record code { attempts = 1; consumed_at = some 1010 }
          ∷ record code { id = 8; created_at = 900; code_hash = 300 }
          ∷ [],
      create_claimed 2 (codes "ABCDEFGHJK") 7 600 5 1010 [],
      true,
    )
unfolding otp_verify verify_code is_code code_or_stripped extract_code only_one codes_among
    runs_from squeeze_from flush is_gap is_space all_decimal check_row newest_sent is_sent_to
    is_sent is_dead drop_end drop_while strip create_claimed comes_after guess newer save_otp
verify_run = refl
