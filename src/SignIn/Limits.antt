-- ===== src/SignIn/Limits.antt =====
-- How many codes a number is sent: in any hour, and in any day, no more than its limit.
use agyary.Common.{
  ℕ, ◌≤◌, ◌<◌, ◌≡◌, refl, inl, inr, Option, none, some, List, [], ◌∷◌, Bool, true, false, not, ◌&&◌,
  leb, Bool-cases, if◌then◌else◌, Text, arith,
}
use agyary.Guardrails.{alert_admins, code_limit_reached}
use agyary.Sending.{Reply}
use agyary.SignIn.{LoginOtp, OtpStatus, pending, sent, failed, suppressed}
use agyary.SignIn.Request.{
  OtpSettings, Desk, Asked, refused, not_available, unavailable, over_daily_cap, over_new_cap,
  is_spent_on, is_new_within, per_phone_hourly, per_phone_daily, hour, day, count_where, is_within,
  counts_for, latest_of, wait_of, sweep, Refusal, unless_limited, Delivery, finish_send,
  within_limits, otp_send, delivered, account_fault, undelivered, limit_of, put_row,
  pause_for_account, send_code, request_code, otp_request,
}

-- A row of the number that is not a failure, in the span of seconds that ends at a time.
unfoldable pub in_window : ℕ → ℕ → ℕ → LoginOtp → Bool
in_window phone span t o = counts_for phone span t o && leb o.created_at t

-- In no window of the span are there more of them than the limit.
abbrev pub Limited : ℕ → ℕ → List LoginOtp → Type 0
Limited span limit otps = (phone t : ℕ) → count_where (in_window phone span t) otps ≤ limit

sweep-count :
    (test : LoginOtp → Bool) (now : ℕ) (otps : List LoginOtp)
    → count_where test (sweep now otps) ≤ count_where test otps
unfolding count_where sweep
sweep-count test now [] = omega arith
sweep-count test now (o ∷ otps) = ground (arith, sweep-count test now otps)

count_mono :
    (f g : LoginOtp → Bool) (otps : List LoginOtp)
    → ((o : LoginOtp) → f o ≡ true → g o ≡ true)
    → count_where f otps ≤ count_where g otps
unfolding count_where
count_mono f g [] h = omega arith
count_mono f g (o ∷ otps) h = elim (Bool-cases (f o)) [
  | inl yes_f ↦ rw (yes_f, h o yes_f) (omega (arith, count_mono f g otps h))
  | inr no_f ↦ rw no_f (ground (arith, count_mono f g otps h))
]

-- A row that is added at a time at which its number has room keeps the limit.
Limited-add :
    (span limit now : ℕ) (row : LoginOtp) (otps : List LoginOtp)
    → row.created_at ≡ now
    → count_where (counts_for row.phone span now) otps < limit
    → Limited span limit otps
    → Limited span limit (row ∷ sweep now otps)
unfolding count_where in_window counts_for is_within
Limited-add span limit now row otps at room limited phone t =
    elim (Bool-cases (in_window phone span t row)) [
      | inr out ↦
          rw out (omega (arith, sweep-count (in_window phone span t) now otps, limited phone t))
      | inl inside ↦
          let its_phone : row.phone ≡ phone = ground arith in
          let before : now ≤ t = ground arith in
          let also : (o : LoginOtp)
              → in_window phone span t o ≡ true
              → counts_for row.phone span now o ≡ true =
            λ o h. ground arith in
          rw inside (
            omega (
              arith,
              sweep-count (in_window phone span t) now otps,
              count_mono (in_window phone span t) (counts_for row.phone span now) otps also,
            ))
    ]

-- The limits of each number, over any hour and over any day.
pub record Kept (desk : Desk) : Type 0 where
  pub hours : Limited hour per_phone_hourly desk.otps
  pub days : Limited day per_phone_daily desk.otps

abbrev Call : Type 0
Call = Desk × Bool × Asked

-- What a call leaves in its session keeps them.
record Keeps (c : Call) : Type 0 where
  pub kept : Kept c.0

module _ (digest : ℕ → ℕ → Text → ℕ) (has_account may_sign_up : ℕ → Bool) (ist_day : ℕ → ℕ)
    (settings : OtpSettings) (phone requester salt : ℕ) (code : Text) (reply : Reply)
    (now : ℕ) where
  limit_of-room :
      (otps : List LoginOtp)
      → limit_of digest has_account may_sign_up ist_day settings phone requester now otps ≡ none
      → (count_where (counts_for phone hour now) otps < per_phone_hourly)
        × (count_where (counts_for phone day now) otps < per_phone_daily)
        × (wait_of now (latest_of phone otps) ≡ 0)
  unfolding limit_of
  limit_of-room otps e = (ground arith, ground arith, ground arith)

  put_row-Kept :
      (status : OtpStatus) (desk : Desk)
      → limit_of digest has_account may_sign_up ist_day settings phone requester now desk.otps
        ≡ none
      → Kept desk
      → Kept (
          put_row digest has_account may_sign_up ist_day settings phone requester salt code now
            status desk)
  unfolding put_row
  put_row-Kept status desk e kept =
      let (hours, days, _) = limit_of-room desk.otps e in
      record {
        hours = Limited-add hour per_phone_hourly now _ desk.otps refl hours kept.hours;
        days = Limited-add day per_phone_daily now _ desk.otps refl days kept.days;
      }

  if-Kept : (b : Bool) (x y : Call) → Keeps x → Keeps y → Keeps (if b then x else y)
  if-Kept true x y k l = k
  if-Kept false x y k l = l

  unless_limited-Kept :
      (why : Option Refusal) (desk : Desk) (next : Call)
      → Kept desk
      → (why ≡ none → Keeps next)
      → Keeps (unless_limited why desk next)
  unfolding unless_limited
  unless_limited-Kept none desk next kept keeps = keeps refl
  unless_limited-Kept (some why) desk next kept keeps = record { kept = kept }

  finish_send-Kept :
      (d : Delivery) (put : OtpStatus → Desk)
      → ((status : OtpStatus) → Kept (put status))
      → Keeps (finish_send digest has_account may_sign_up ist_day settings d put now)
  unfolding finish_send pause_for_account
  finish_send-Kept delivered put keeps = record { kept = keeps sent }
  finish_send-Kept account_fault put keeps =
      let k = keeps failed in record { kept = record { hours = k.hours; days = k.days } }
  finish_send-Kept undelivered put keeps = record { kept = keeps failed }

  send_code-Kept :
      (desk : Desk)
      → limit_of digest has_account may_sign_up ist_day settings phone requester now desk.otps
        ≡ none
      → Kept desk
      → Keeps (
          send_code digest has_account may_sign_up ist_day settings phone requester salt code reply
            now desk)
  unfolding send_code
  send_code-Kept desk e kept =
      let put = λ (status : OtpStatus). put_row-Kept status desk e kept in
      if-Kept _ _ _ (record { kept = put pending })
        (if-Kept _ _ _ (record { kept = put suppressed })
          (if-Kept _ _ _ (record { kept = put sent }) (finish_send-Kept (otp_send reply) _ put)))

  within_limits-Kept :
      (desk : Desk)
      → limit_of digest has_account may_sign_up ist_day settings phone requester now desk.otps
        ≡ none
      → Kept desk
      → Keeps (
          within_limits digest has_account may_sign_up ist_day settings phone requester salt code
            reply now desk)
  unfolding within_limits
  within_limits-Kept desk free kept =
      let capped = leb settings.daily_cap (count_where (is_spent_on ist_day now) desk.otps) in
      let crowded =
        not (has_account phone)
        && leb settings.new_number_hourly_cap (count_where (is_new_within now) desk.otps) in
      let alerted : Desk = record desk {
        alerts = alert_admins settings.admins code_limit_reached now desk.alerts;
      } in
      let next =
        send_code digest has_account may_sign_up ist_day settings phone requester salt code reply
          now desk in
      if-Kept capped (alerted, false, refused over_daily_cap)
        (if crowded then (desk, false, refused over_new_cap) else next)
        (record { kept = record { hours = kept.hours; days = kept.days } })
        (if-Kept crowded (desk, false, refused over_new_cap) next (record { kept = kept })
          (send_code-Kept desk free kept))

  request_code-Kept :
      (desk : Desk)
      → Kept desk
      → Keeps (
          request_code digest has_account may_sign_up ist_day settings phone requester salt code
            reply now desk)
  unfolding request_code
  request_code-Kept desk kept =
      let why =
        limit_of digest has_account may_sign_up ist_day settings phone requester now desk.otps in
      let next =
        within_limits digest has_account may_sign_up ist_day settings phone requester salt code
          reply now desk in
      let same : (answer : Refusal) → Keeps (desk, false, refused answer) =
        λ answer. record { kept = kept } in
      if-Kept (not settings.is_live) (desk, false, refused not_available)
        (if desk.is_paused
          then (desk, false, refused unavailable)
          else unless_limited why desk next)
        (same not_available)
        (if-Kept desk.is_paused (desk, false, refused unavailable) (unless_limited why desk next)
          (same unavailable)
          (unless_limited-Kept why desk next kept (λ free. within_limits-Kept desk free kept)))

  -- A request for a code, whatever comes of it and whether it is committed or rolled back,
  -- keeps the limits: no number has more than three rows that are not failures in any hour,
  -- nor more than eight in any day.
  pub otp_request-Kept :
      (desk : Desk)
      → Kept desk
      → Kept
          (otp_request digest has_account may_sign_up ist_day settings phone requester salt code
            reply now desk).0
  unfolding otp_request
  otp_request-Kept desk kept =
      elim (Bool-cases
        (request_code digest has_account may_sign_up ist_day settings phone requester salt code
          reply now desk).1) [
            | inl committed ↦ rw committed ((request_code-Kept desk kept).kept)
            | inr dropped ↦ rw dropped kept
          ]
