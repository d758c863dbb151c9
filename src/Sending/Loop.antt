-- ===== src/Sending/Loop.antt =====
-- `send_pending` of services/reminder_sender.py: closing stuck rows, and the loop over the queue.
use agyary.Common.{
  ℕ, zero, suc, ◌+◌, Option, none, some, List, [], ◌∷◌, Bool, true, not, ◌&&◌, ◌||◌, ltb, leb, ◌==◌,
  if◌then◌else◌, is_some,
}
use agyary.Guardrails.{Alert, sending_paused, alert_admins}
use agyary.Sending.{
  pending, sending, sent, failed, is_pending, is_sending, Why, no_answer_came, sending_was_paused,
  not_in_time, refused, not_accepted, Notification, Customer, Settings, max_attempts, stuck_sending,
  recipient_codes, code_in, Reply, Outcome, accepted, account_problem, permanent, unknown,
  transient, post, owner_of, withdrawn, next_pending, save,
}

-- Why all sending is paused.
pub data Pause : Type 0 where
  by_admin : Pause
  account_reported : Option ℕ → Pause
  failures_in_row : ℕ → Pause

-- What a run reads and writes: the rows, the pause switch, the alerts, the mobeds told of a failure
-- (with the row), and its local variables. Two fields are the history of what was handed to Meta,
-- and nothing reads them: `posted` lists each row with the fuel of its round, and `replies` its id
-- with what the client of the HTTP library gave, whatever the code makes of it, over all calls.
pub record Run : Type 0 where
  pub rows : List Notification
  pub paused : Option Pause
  pub alerts : List Alert
  pub told : List (ℕ × ℕ)
  pub posted : List (ℕ × Notification)
  pub replies : List (ℕ × Reply)
  pub sent_count : ℕ
  pub failed_count : ℕ
  pub missed_count : ℕ
  pub streak : ℕ
  pub sent_for : List (ℕ × ℕ)

-- A round breaks out of the loop, or the loop goes on.
pub data Next : Type 0 where
  stop again : Run → Next

-- How many rows are pending: the fuel of the loop is one more.
unfoldable pub pending_count : List Notification → ℕ
pending_count [] = 0
pending_count (n ∷ rows) = pending_count rows + (if is_pending n.status then 1 else 0)

-- The report and the local variables, as a call starts with them.
unfoldable pub start_call : Run → Run
start_call run = record run {
  posted = [];
  sent_count = 0;
  failed_count = 0;
  missed_count = 0;
  streak = 0;
  sent_for = [];
}

-- `local_day` and `local_hour` give the date and the hour in India of a time; `reply` is what the
-- post of a row gets, `customers` the families' records as a round reads them.
module _ (settings : Settings) (owners : List (ℕ × ℕ)) (local_day local_hour : ℕ → ℕ)
    (customers : ℕ → List Customer) (reply : ℕ → Notification → Reply) (now : ℕ) where
  -- `_tell_mobed_failed`
  unfoldable pub tell_mobed_failed : Notification → List (ℕ × ℕ) → List (ℕ × ℕ)
  tell_mobed_failed n told = elim (owner_of owners n) [ none ↦ told | some o ↦ (o, n.id) ∷ told ]

  -- `guardrails.pause`
  unfoldable pub pause : Pause → Run → Run
  pause why run = record run {
    paused = some why;
    alerts = alert_admins settings.admins sending_paused now run.alerts;
  }

  -- The row failed, its mobed is told, and it is counted.
  unfoldable pub give_up : Why → Notification → Run → Run
  give_up why n run = record run {
    rows = save (record n { status = failed; error_message = some why; updated_at = now }) run.rows;
    told = tell_mobed_failed n run.told;
    failed_count = run.failed_count + 1;
  }

  unfoldable pub is_late : Notification → Bool
  is_late n =
      leb settings.cutoff_hour (local_hour now) || not (local_day n.scheduled_at == local_day now)

  unfoldable pub miss_late : Option Pause → Notification → Run → Run
  miss_late paused n run =
      let why = (if is_some paused then sending_was_paused else not_in_time) in
      record run {
        rows =
            save (record n { status = failed; error_message = some why; updated_at = now })
              run.rows;
        told = tell_mobed_failed n run.told;
        missed_count = run.missed_count + 1;
      }

  unfoldable pub miss_withdrawn : Why → Notification → Run → Run
  miss_withdrawn why n run = record run {
    rows = save (record n { status = failed; error_message = some why; updated_at = now }) run.rows;
    missed_count = run.missed_count + 1;
  }

  -- Marked as on its way before it is handed to Meta.
  unfoldable pub mark_sending : ℕ → Notification → Run → Run
  mark_sending round n run = record run {
    rows = save (record n { status = sending; updated_at = now }) run.rows;
    posted = (round, n) ∷ run.posted;
    replies = (n.id, reply round n) ∷ run.replies;
  }

  -- The end of a round: several failures in a row pause all sending.
  unfoldable pub breaker : Run → Next
  breaker run =
      if leb settings.breaker_failures run.streak
      then stop (pause (failures_in_row run.streak) run)
      else again run

  unfoldable pub count_sent : Option ℕ → Notification → Run → Run
  count_sent message_id n run = record run {
    rows =
        save
          (record n {
            status = sent;
            wa_message_id = message_id;
            sent_at = some now;
            error_message = none;
            updated_at = now;
          })
          run.rows;
    sent_count = run.sent_count + 1;
    streak = 0;
    sent_for = elim (owner_of owners n) [ none ↦ run.sent_for | some o ↦ (o, n.id) ∷ run.sent_for ];
  }

  unfoldable pub add_streak : Bool → Run → Run
  add_streak counts run = record run { streak = if counts then run.streak + 1 else run.streak }

  unfoldable pub keep_pending : Why → ℕ → Notification → Run → Run
  keep_pending why retries n run = record run {
    rows =
        save
          (record n {
            status = pending;
            retry_count = retries;
            error_message = some why;
            updated_at = now;
          })
          run.rows;
  }

  -- The branches on what `_post` returned or raised.
  unfoldable pub after_post : Outcome → Notification → Run → Next
  after_post (accepted message_id) n run = breaker (count_sent message_id n run)
  after_post (account_problem code) n run =
      stop (pause (account_reported code) (keep_pending (refused code) n.retry_count n run))
  after_post (permanent code) n run =
      breaker (add_streak (not (code_in code recipient_codes)) (give_up (refused code) n run))
  after_post unknown n run = breaker (give_up no_answer_came n run)
  after_post transient n run =
      if leb max_attempts (n.retry_count + 1)
      then breaker (
          add_streak true (give_up not_accepted (record n { retry_count = n.retry_count + 1 }) run))
      else stop (keep_pending not_accepted (n.retry_count + 1) n run)

  -- One round on the row that the query found.
  unfoldable pub round : Option Pause → ℕ → Notification → Run → Next
  round paused r n run =
      if is_late n
      then again (miss_late paused n run)
      else if is_some paused
      then stop run
      else elim (withdrawn owners (customers r) n) [
        | some why ↦ again (miss_withdrawn why n run)
        | none ↦ after_post (post (reply r n)) n (mark_sending r n run)
      ]

  -- The head of the loop: it breaks where no row is due.
  unfoldable pub next_round : Option Pause → ℕ → Run → Next
  next_round paused r run = elim (next_pending now run.rows) [
    | none ↦ stop run
    | some n ↦ round paused r n run
  ]

  -- The loop, on fuel: none where it runs out.
  unfoldable pub send_loop : Option Pause → ℕ → Run → Option Run
  send_loop paused zero run = none
  send_loop paused (suc fuel) run = elim (next_round paused fuel run) [
    | stop done ↦ some done
    | again later ↦ send_loop paused fuel later
  ]

  -- A row left mid-send is closed.
  unfoldable pub close_row : Notification → Run → Run
  close_row n run =
      if is_sending n.status && ltb (n.updated_at + stuck_sending) now
      then give_up no_answer_came n run
      else run

  unfoldable pub close_stuck : List Notification → Run → Run
  close_stuck [] run = run
  close_stuck (n ∷ rows) run = close_stuck rows (close_row n run)

  -- The whole function, on what the database holds when it is called.
  unfoldable pub send_pending : Run → Option Run
  send_pending run =
      let fresh = start_call run in
      let closed = close_stuck fresh.rows fresh in
      if not settings.is_live || not settings.has_credentials
      then some fresh
      else send_loop fresh.paused (suc (pending_count closed.rows)) closed
