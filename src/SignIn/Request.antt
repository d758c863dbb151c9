-- ===== src/SignIn/Request.antt =====
-- Asking for a code, `request_code` of services/otp.py and `otp_request` of api/routes/otp.py.
use agyary.Common.{
  ℕ, suc, ◌+◌, ◌-◌, Option, none, some, is_some, List, [], ◌∷◌, Bool, true, false, not, ◌&&◌, ◌||◌,
  ltb, leb, ◌==◌, if◌then◌else◌, Text,
}
use agyary.Guardrails.{Alert, sending_paused, code_limit_reached, alert_admins}
use agyary.Sending.{Reply, not_connected, no_answer, answered, account_codes, code_in}
use agyary.SignIn.{LoginOtp, OtpStatus, pending, sent, failed, suppressed}

pub record OtpSettings : Type 0 where
  pub is_live : Bool
  pub ttl_seconds : ℕ
  pub per_address_hourly : ℕ
  pub per_address_daily : ℕ
  pub daily_cap : ℕ
  pub new_number_hourly_cap : ℕ
  pub has_token : Bool
  pub app_debug : Bool
  pub admins : List ℕ

-- The tables that a request reads and writes, and the pause switch.
pub record Desk : Type 0 where
  pub otps : List LoginOtp
  pub is_paused : Bool
  pub alerts : List Alert
  pub next_id : ℕ

-- What the caller is told.
pub data Refusal : Type 0 where
  not_available unavailable over_daily_cap over_new_cap : Refusal
  wait_seconds : ℕ → Refusal
  hourly_limit daily_limit address_hourly_limit address_daily_limit : Refusal

pub data Asked : Type 0 where
  code_sent : Option Text → Asked
  refused : Refusal → Asked

abbrev pub cooldown_seconds : ℕ
cooldown_seconds = 30

abbrev pub per_phone_hourly : ℕ
per_phone_hourly = 3

abbrev pub per_phone_daily : ℕ
per_phone_daily = 8

abbrev pub hour : ℕ
hour = 3600

abbrev pub day : ℕ
day = 86400

unfoldable pub is_failed : OtpStatus → Bool
is_failed failed = true
is_failed _ = false

unfoldable pub is_really_sent : OtpStatus → Bool
is_really_sent failed = false
is_really_sent suppressed = false
is_really_sent _ = true

-- `_count`
unfoldable pub count_where : (LoginOtp → Bool) → List LoginOtp → ℕ
count_where test [] = 0
count_where test (o ∷ otps) = let rest = count_where test otps in if test o then suc rest else rest

-- `created_at > now - span`
unfoldable pub is_within : ℕ → ℕ → LoginOtp → Bool
is_within span now o = ltb now (o.created_at + span)

unfoldable pub counts_for : ℕ → ℕ → ℕ → LoginOtp → Bool
counts_for phone span now o = o.phone == phone && not (is_failed o.status) && is_within span now o

unfoldable pub is_from : ℕ → ℕ → ℕ → LoginOtp → Bool
is_from requester span now o = o.requester == requester && is_within span now o

unfoldable pub is_spent_on : (ℕ → ℕ) → ℕ → LoginOtp → Bool
is_spent_on ist_day now o = is_really_sent o.status && ist_day o.created_at == ist_day now

unfoldable pub is_new_within : ℕ → LoginOtp → Bool
is_new_within now o = o.is_new_number && is_really_sent o.status && is_within hour now o

-- The time of the latest row of the number, whatever became of it.
unfoldable pub latest_of : ℕ → List LoginOtp → Option ℕ
latest_of phone [] = none
latest_of phone (o ∷ otps) =
    let later = latest_of phone otps in
    if not (o.phone == phone) then later else elim later [
      | none ↦ some o.created_at
      | some t ↦ (if ltb o.created_at t then some t else some o.created_at)
    ]

-- `COOLDOWN_SECONDS - int((now - latest).total_seconds())`, where it is positive
unfoldable pub wait_of : ℕ → Option ℕ → ℕ
wait_of now none = 0
wait_of now (some latest) = cooldown_seconds + latest - now

-- The sweep: rows that are two days old go.
unfoldable pub sweep : ℕ → List LoginOtp → List LoginOtp
sweep now [] = []
sweep now (o ∷ otps) =
    let rest = sweep now otps in if ltb (o.created_at + 172800) now then rest else o ∷ rest

-- What `_send` gives: it returns, or raises one of its two errors.
pub data Delivery : Type 0 where
  delivered account_fault undelivered : Delivery

unfoldable pub otp_send : Reply → Delivery
otp_send not_connected = undelivered
otp_send no_answer = undelivered
otp_send (answered status_code message_id code) =
    if status_code == 200
    then (if is_some message_id then delivered else undelivered)
    else if code_in code account_codes
    then account_fault
    else undelivered

unfoldable pub unless_limited : Option Refusal → Desk → Desk × Bool × Asked → Desk × Bool × Asked
unless_limited none desk next = next
unless_limited (some why) desk next = (desk, false, refused why)

-- `digest salt phone code` is the salted digest, `has_account` the query for a user of the number, and
-- `may_sign_up` the rule of SIGNUP_MODE and its lists; `ist_day` is the day in India of a time.
module _ (digest : ℕ → ℕ → Text → ℕ) (has_account may_sign_up : ℕ → Bool) (ist_day : ℕ → ℕ)
    (settings : OtpSettings) where
  unfoldable pub may_sign_in : ℕ → Bool
  may_sign_in phone = may_sign_up phone || has_account phone

  -- The limits on one number and on one address, in the order in which they are looked at.
  unfoldable pub limit_of : ℕ → ℕ → ℕ → List LoginOtp → Option Refusal
  limit_of phone requester now otps =
      if ltb 0 (wait_of now (latest_of phone otps))
      then some (wait_seconds (wait_of now (latest_of phone otps)))
      else if leb per_phone_hourly (count_where (counts_for phone hour now) otps)
      then some hourly_limit
      else if leb per_phone_daily (count_where (counts_for phone day now) otps)
      then some daily_limit
      else if leb settings.per_address_hourly (count_where (is_from requester hour now) otps)
      then some address_hourly_limit
      else if leb settings.per_address_daily (count_where (is_from requester day now) otps)
      then some address_daily_limit
      else none

  -- The row of the request, with the status that it ends with, after the sweep.
  unfoldable pub put_row : ℕ → ℕ → ℕ → Text → ℕ → OtpStatus → Desk → Desk
  put_row phone requester salt code now status desk =
      let row : LoginOtp = record {
        id = desk.next_id;
        phone = phone;
        salt = salt;
        code_hash = digest salt phone code;
        created_at = now;
        expires_at = now + settings.ttl_seconds;
        attempts = 0;
        consumed_at = none;
        is_new_number = not (has_account phone);
        requester = requester;
        status = status;
      } in
      record desk { otps = row ∷ sweep now desk.otps; next_id = suc desk.next_id }

  unfoldable pub pause_for_account : ℕ → Desk → Desk
  pause_for_account now desk = record desk {
    is_paused = true;
    alerts = alert_admins settings.admins sending_paused now desk.alerts;
  }

  -- What follows an answer of Meta; `put` writes the row with its status.
  unfoldable pub finish_send : Delivery → (OtpStatus → Desk) → ℕ → Desk × Bool × Asked
  finish_send delivered put now = (put sent, true, code_sent none)
  finish_send account_fault put now =
      (pause_for_account now (put failed), true, refused unavailable)
  finish_send undelivered put now = (put failed, true, refused unavailable)

  -- The end of a request that no limit stops. The Boolean says that what was written is committed.
  unfoldable pub send_code : ℕ → ℕ → ℕ → Text → Reply → ℕ → Desk → Desk × Bool × Asked
  send_code phone requester salt code reply now desk =
      let put : OtpStatus → Desk = λ status. put_row phone requester salt code now status desk in
      if not settings.has_token && not settings.app_debug
      then (put pending, false, refused unavailable)
      else if not (may_sign_in phone)
      then (put suppressed, true, code_sent none)
      else if not settings.has_token
      then (put sent, true, code_sent (some code))
      else finish_send (otp_send reply) put now

  -- The two caps on what is spent; at the first, the admins are alerted.
  unfoldable pub within_limits : ℕ → ℕ → ℕ → Text → Reply → ℕ → Desk → Desk × Bool × Asked
  within_limits phone requester salt code reply now desk =
      if leb settings.daily_cap (count_where (is_spent_on ist_day now) desk.otps)
      then (
        record desk { alerts = alert_admins settings.admins code_limit_reached now desk.alerts },
        false,
        refused over_daily_cap,
      )
      else if not (has_account phone)
          && leb settings.new_number_hourly_cap (count_where (is_new_within now) desk.otps)
      then (desk, false, refused over_new_cap)
      else send_code phone requester salt code reply now desk

  unfoldable pub request_code : ℕ → ℕ → ℕ → Text → Reply → ℕ → Desk → Desk × Bool × Asked
  request_code phone requester salt code reply now desk =
      if not settings.is_live
      then (desk, false, refused not_available)
      else if desk.is_paused
      then (desk, false, refused unavailable)
      else unless_limited (limit_of phone requester now desk.otps) desk
          (within_limits phone requester salt code reply now desk)

  -- The route: what is not committed is rolled back.
  unfoldable pub otp_request : ℕ → ℕ → ℕ → Text → Reply → ℕ → Desk → Desk × Asked
  otp_request phone requester salt code reply now desk =
      let (after, is_committed, answer) = request_code phone requester salt code reply now desk in
      ((if is_committed then after else desk), answer)
