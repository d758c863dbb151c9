-- ===== src/Sending.antt =====
-- services/reminder_sender.py: the rows of planned reminders, and what a reply of Meta means.
pub mod Loop
pub mod Receipts
pub mod Furthest
pub mod Once
pub mod Ends
pub mod Consent
use agyary.Common.{
  number_in, ℕ, zero, suc, ◌+◌, ◌≤◌, ◌<◌, ◌≡◌, refl, Option, none, some, List, [], ◌∷◌, ◌++◌, Bool,
  true, false, not, ◌&&◌, ◌||◌, ltb, leb, ◌==◌, if◌then◌else◌, arith, is_some,
}
use agyary.Guardrails.{Alert}

-- The status of a row of the notifications table.
pub data Status : Type 0 where
  pending sending sent delivered read failed : Status

unfoldable pub is_pending : Status → Bool
is_pending pending = true
is_pending _ = false

unfoldable pub is_sending : Status → Bool
is_sending sending = true
is_sending _ = false

-- Why a row was not sent, as its `error_message` says.
pub data Why : Type 0 where
  no_answer_came sending_was_paused not_in_time no_longer_on_file replied_stop turned_off : Why
  refused : Option ℕ → Why
  not_accepted could_not_deliver : Why

-- A reminder's row. Times are in seconds, WhatsApp's message ids are numbered.
pub record Notification : Type 0 where
  pub id : ℕ
  pub status : Status
  pub scheduled_at : ℕ
  pub updated_at : ℕ
  pub retry_count : ℕ
  pub recipient_id : Option ℕ
  pub memorial_observance_id : Option ℕ
  pub wa_message_id : Option ℕ
  pub sent_at : Option ℕ
  pub delivered_at : Option ℕ
  pub read_at : Option ℕ
  pub error_message : Option Why

-- A mobed's record of a family.
pub record Customer : Type 0 where
  pub id : ℕ
  pub owner_user_id : Option ℕ
  pub is_active : Bool
  pub reminders_enabled : Bool
  pub reminders_stopped_at : Option ℕ

-- The settings that the loop reads; the admins are the users with their phones.
pub record Settings : Type 0 where
  pub is_live : Bool
  pub has_credentials : Bool
  pub cutoff_hour : ℕ
  pub breaker_failures : ℕ
  pub admins : List ℕ

abbrev pub max_attempts : ℕ
max_attempts = 3

-- `STUCK_SENDING`, five minutes
abbrev pub stuck_sending : ℕ
stuck_sending = 300

abbrev pub account_codes : List ℕ
account_codes =
    190 ∷ 131042 ∷ 131031 ∷ 131048 ∷ 130429 ∷ 80007 ∷ 368 ∷ 132001 ∷ 132015 ∷ 132016 ∷ []

abbrev pub recipient_codes : List ℕ
recipient_codes = 131026 ∷ 131021 ∷ 131030 ∷ []

-- `code in codes`, of a code that may be missing
unfoldable pub code_in : Option ℕ → List ℕ → Bool
code_in none codes = false
code_in (some code) codes = number_in code codes

-- What the client of the HTTP library gives for a post: no connection, no answer after the request
-- went out, or a response with its status, its message id and its error code.
pub data Reply : Type 0 where
  not_connected no_answer : Reply
  answered : ℕ → Option ℕ → Option ℕ → Reply

-- What `_post` returns, or raises.
pub data Outcome : Type 0 where
  accepted : Option ℕ → Outcome
  account_problem permanent : Option ℕ → Outcome
  unknown transient : Outcome

unfoldable pub post : Reply → Outcome
post not_connected = transient
post no_answer = unknown
post (answered status_code message_id code) =
    if status_code == 200
    then accepted message_id
    else if code_in code account_codes
    then account_problem code
    else if leb 400 status_code && ltb status_code 500 && not (status_code == 429)
    then permanent code
    else transient

unfoldable pub find_customer : ℕ → List Customer → Option Customer
find_customer key [] = none
find_customer key (c ∷ customers) =
    let later = find_customer key customers in if c.id == key then some c else later

-- Who made the memorial of an observance.
unfoldable pub find_owner : ℕ → List (ℕ × ℕ) → Option ℕ
find_owner key [] = none
find_owner key ((observance, owner) ∷ rest) =
    let later = find_owner key rest in if observance == key then some owner else later

-- `_owner_and_name`, of which the name is for texts only.
unfoldable pub owner_of : List (ℕ × ℕ) → Notification → Option ℕ
owner_of owners n = elim n.memorial_observance_id [ none ↦ none | some o ↦ find_owner o owners ]

unfoldable pub same_owner : Option ℕ → ℕ → Bool
same_owner none owner = false
same_owner (some o) owner = o == owner

-- The last test of `_withdrawn`: the mobed's own record, with consent.
unfoldable pub turned_off_for : Option ℕ → Customer → Option Why
turned_off_for none c = some turned_off
turned_off_for (some owner) c =
    if not (same_owner c.owner_user_id owner) || not c.reminders_enabled
    then some turned_off
    else none

unfoldable pub withdrawn_by : Option ℕ → Option Customer → Option Why
withdrawn_by owner none = some no_longer_on_file
withdrawn_by owner (some c) =
    if not c.is_active
    then some no_longer_on_file
    else if is_some c.reminders_stopped_at
    then some replied_stop
    else turned_off_for owner c

-- Why a reminder must not go after all.
unfoldable pub withdrawn : List (ℕ × ℕ) → List Customer → Notification → Option Why
withdrawn owners customers n =
    withdrawn_by (owner_of owners n)
      (elim n.recipient_id [ none ↦ none | some c ↦ find_customer c customers ])

-- The query for the next row, in the order of the ids.
unfoldable pub next_pending : ℕ → List Notification → Option Notification
next_pending now [] = none
next_pending now (n ∷ rows) =
    let later = next_pending now rows in
    if is_pending n.status && leb n.scheduled_at now then some n else later

-- The row with the id of n becomes n.
unfoldable pub save : Notification → List Notification → List Notification
save n [] = []
save n (m ∷ rows) = (if m.id == n.id then n else m) ∷ save n rows
