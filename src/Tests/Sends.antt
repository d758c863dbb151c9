-- ===== src/Tests/Sends.antt =====
-- A queue of two reminders, of which one family said STOP, and the receipts of the other.
use agyary.Common.{
  ◌≢◌, ◌⊎◌, Among, number_in, ℕ, ◌≡◌, refl, none, some, List, [], ◌∷◌, true, false, ◌/◌, ◌%◌, arith,
  All,
}
use agyary.Guardrails.{
  Limits, Usage, Alert, sending_paused, count_of, set_count, count_one, at_cap, at_owner_cap,
  blocker, add, same_title, has_recent, alert_admins,
}
use agyary.Guardrails.Caps.{Within}
use agyary.Guardrails.Alerts.{Spaced, alert_admins-Spaced}
use agyary.Sending.{
  Notification, Customer, Settings, Reply, answered, pending, sent, failed, replied_stop,
  is_pending, is_sending, code_in, post, find_customer, find_owner, owner_of, same_owner,
  turned_off_for, withdrawn_by, withdrawn, next_pending, save,
}
use agyary.Sending.Loop.{
  Run, pending_count, start_call, tell_mobed_failed, pause, give_up, is_late, miss_late,
  miss_withdrawn, mark_sending, breaker, count_sent, add_streak, keep_pending, after_post, round,
  next_round, send_loop, close_row, close_stuck, send_pending,
}
use agyary.Sending.Once.{OnceRun, taken, send_pending-Once}
use agyary.Sending.Consent.{Consented, send_pending-Consented}
use agyary.Sending.Ends.{send_pending_ends}
use agyary.Sending.Receipts.{Receipt, was_read, was_delivered}
use agyary.Sending.Furthest.{apply_statuses, Moved, apply_statuses-Furthest}

abbrev settings : Settings
settings = record {
  is_live = true;
  has_credentials = true;
  cutoff_hour = 21;
  breaker_failures = 3;
  admins = 1 ∷ [];
}

abbrev owners : List (ℕ × ℕ)
owners = (40, 5) ∷ (41, 5) ∷ []

abbrev day : ℕ → ℕ
day t = t / 86400

abbrev hour : ℕ → ℕ
hour t = t / 3600 % 24

abbrev willing : Customer
willing = record {
  id = 20;
  owner_user_id = some 5;
  is_active = true;
  reminders_enabled = true;
  reminders_stopped_at = none;
}

abbrev stopped : Customer
stopped = record {
  id = 21;
  owner_user_id = some 5;
  is_active = true;
  reminders_enabled = false;
  reminders_stopped_at = some 69000;
}

abbrev records : ℕ → List Customer
records r = willing ∷ stopped ∷ []

abbrev replies : ℕ → Notification → Reply
replies r n = answered 200 (some 77) none

abbrev row_one : Notification
row_one = record {
  id = 1;
  status = pending;
  scheduled_at = 69000;
  updated_at = 69000;
  retry_count = 0;
  recipient_id = some 20;
  memorial_observance_id = some 40;
  wa_message_id = none;
  sent_at = none;
  delivered_at = none;
  read_at = none;
  error_message = none;
}

abbrev row_two : Notification
row_two = record row_one { id = 2; recipient_id = some 21; memorial_observance_id = some 41 }

abbrev row_one_sent : Notification
row_one_sent = record row_one {
  status = sent;
  wa_message_id = some 77;
  sent_at = some 70000;
  updated_at = 70000;
}

abbrev row_two_missed : Notification
row_two_missed = record row_two {
  status = failed;
  error_message = some replied_stop;
  updated_at = 70000;
}

abbrev queue : Run
queue = record {
  rows = row_one ∷ row_two ∷ [];
  paused = none;
  alerts = [];
  told = [];
  posted = [];
  replies = [];
  sent_count = 0;
  failed_count = 0;
  missed_count = 0;
  streak = 0;
  sent_for = [];
}

abbrev sent_queue : Run
sent_queue = record queue {
  rows = row_one_sent ∷ row_two_missed ∷ [];
  posted = (2, row_one) ∷ [];
  replies = (1, replies 2 row_one) ∷ [];
  sent_count = 1;
  missed_count = 1;
  sent_for = (5, 1) ∷ [];
}

queue_run : send_pending settings owners day hour records replies 70000 queue ≡ some sent_queue
unfolding count_of set_count count_one at_cap at_owner_cap blocker add same_title has_recent
    alert_admins is_pending is_sending number_in code_in post find_customer find_owner owner_of
    same_owner turned_off_for withdrawn_by withdrawn next_pending save pending_count start_call
    tell_mobed_failed pause give_up is_late miss_late miss_withdrawn mark_sending breaker count_sent
    add_streak keep_pending after_post round next_round send_loop close_row close_stuck send_pending
queue_run = refl

queue-Once : OnceRun queue
unfolding taken
queue-Once = record { distinct = tt; settled = tt }

send_pending-Once_example : OnceRun sent_queue
send_pending-Once_example =
    send_pending-Once settings owners day hour records replies 70000 queue sent_queue queue-Once
      queue_run

send_pending-Consented_example :
    All (λ (p : ℕ × Notification). Consented owners (records p.0) p.1) ((2, row_one) ∷ [])
send_pending-Consented_example =
    send_pending-Consented settings owners day hour records replies 70000 queue sent_queue queue_run

send_pending_ends_example :
    (done : Run) × (send_pending settings owners day hour records replies 70000 queue ≡ some done)
send_pending_ends_example = send_pending_ends settings owners day hour records replies 70000 queue

-- It is read, and the receipt of its delivery comes after, twice.
abbrev receipts : List (ℕ × Receipt)
receipts = (70300, was_read) ∷ (70301, was_delivered) ∷ (70302, was_delivered) ∷ []

apply_statuses-Furthest_example :
    (All (λ m. m.wa_message_id ≢ some 77) (row_one_sent ∷ row_two_missed ∷ [])
      × (apply_statuses 77 receipts (row_one_sent ∷ row_two_missed ∷ [])
          ≡ row_one_sent ∷ row_two_missed ∷ []))
    ⊎ ((n : Notification) × (m : Notification) × Among n (row_one_sent ∷ row_two_missed ∷ [])
        × (n.wa_message_id ≡ some 77)
        × Moved n m receipts
        × (apply_statuses 77 receipts (row_one_sent ∷ row_two_missed ∷ [])
            ≡ save m (row_one_sent ∷ row_two_missed ∷ [])))
apply_statuses-Furthest_example =
    apply_statuses-Furthest 77 70300 was_read ((70301, was_delivered) ∷ (70302, was_delivered) ∷ [])
      (row_one_sent ∷ row_two_missed ∷ []) (tt, (tt, (tt, tt)))

abbrev limits : Limits
limits = record {
  daily_cap = 3;
  monthly_cap = 30;
  per_mobed_daily_cap = 2;
  per_agyary_daily_cap = 2;
}

abbrev used : Usage
used = record { today = 0; month = 4; per_mobed = []; per_agyary = [] }

used-Within : Within limits used
unfolding count_of
used-Within = record {
  today_in = omega arith;
  month_in = omega arith;
  mobed_in = λ m. omega arith;
  agyary_in = λ a. omega arith;
}

free_run : blocker limits used (some 5) (some 3) (some 1) ≡ none
unfolding blocker at_cap at_owner_cap count_of
free_run = refl

abbrev first_alert : Alert
first_alert = record { user_id = 1; title = sending_paused; created_at = 60000 }

alert_admins-Spaced_example : Spaced (alert_admins (1 ∷ []) sending_paused 70000 (first_alert ∷ []))
alert_admins-Spaced_example =
    alert_admins-Spaced (1 ∷ []) sending_paused 70000 (first_alert ∷ []) (tt, tt)
