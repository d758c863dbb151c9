-- ===== src/Planning.antt =====
-- `plan_tomorrow` of services/reminder_sender.py, and `usage` of services/guardrails.py.
pub mod Sound
pub mod DryRun
use agyary.Common.{
  number_in, ℕ, zero, suc, ◌+◌, ◌≤◌, ◌<◌, ◌≡◌, refl, Option, none, some, List, [], ◌∷◌, ◌++◌, Bool,
  true, false, not, ◌&&◌, ◌||◌, ltb, leb, ◌==◌, if◌then◌else◌, arith, is_some,
}
use agyary.Guardrails.{Limits, Usage, Cap, count_one, blocker, add}
use agyary.Sending.{same_owner}

pub data Mode : Type 0 where
  off dry_run live : Mode

-- One joined row of the query: an observance, its memorial, the family's record, and the account.
pub record Candidate : Type 0 where
  pub observance_id : ℕ
  pub gregorian_day : ℕ
  pub day_number : ℕ
  pub reminded_by_hand_at : Option ℕ
  pub automatic_reminders : Bool
  pub created_by_user_id : ℕ
  pub agyary_id : ℕ
  pub phone : ℕ
  pub owner_user_id : Option ℕ
  pub reminders_enabled : Bool
  pub reminders_stopped_at : Option ℕ
  pub is_active : Bool

-- What planning reads of a row of the notifications table; the mobed is missing where the
-- observance has been deleted since.
pub record PlannedRow : Type 0 where
  pub observance_id : ℕ
  pub phone : ℕ
  pub owner_id : Option ℕ
  pub agyary_id : ℕ
  pub created_at : ℕ
  pub is_failed : Bool

-- `OPENING_DAYS` of services/memorials.py
abbrev pub opening_days : ℕ
opening_days = 10

-- The conditions of the query.
unfoldable pub eligible : ℕ → Candidate → Bool
eligible tomorrow c =
    c.gregorian_day == tomorrow
    && ltb opening_days c.day_number
    && not (is_some c.reminded_by_hand_at)
    && c.automatic_reminders
    && same_owner c.owner_user_id c.created_by_user_id
    && c.reminders_enabled
    && not (is_some c.reminders_stopped_at)
    && c.is_active

-- `_already_planned`
unfoldable pub already_planned : ℕ → List PlannedRow → Bool
already_planned observance [] = false
already_planned observance (r ∷ rows) =
    r.observance_id == observance || already_planned observance rows

-- Whether a time is in today, or in this month, in India.
module _ (in_day in_month : ℕ → Bool) where
  -- One row of the counts: a failed one is not counted, and one with no mobed only in the totals.
  unfoldable pub count_row : PlannedRow → Usage → Usage
  count_row r used =
      let today = not r.is_failed && in_day r.created_at in
      let this_month = not r.is_failed && in_month r.created_at in
      record {
        today = if today then used.today + 1 else used.today;
        month = if this_month then used.month + 1 else used.month;
        per_mobed = if today then count_one r.owner_id used.per_mobed else used.per_mobed;
        per_agyary =
            if today && is_some r.owner_id
            then count_one (some r.agyary_id) used.per_agyary
            else used.per_agyary;
      }

  unfoldable pub usage : List PlannedRow → Usage
  usage [] = record { today = 0; month = 0; per_mobed = []; per_agyary = [] }
  usage (r ∷ rows) = count_row r (usage rows)

  -- The numbers that were given a reminder today.
  unfoldable pub reminded_today : List PlannedRow → List ℕ
  reminded_today [] = []
  reminded_today (r ∷ rows) =
      let others = reminded_today rows in
      if not r.is_failed && in_day r.created_at then r.phone ∷ others else others

-- The table and the local variables of the loop; the mobeds told are listed by observance.
pub record Plan : Type 0 where
  pub rows : List PlannedRow
  pub used : Usage
  pub reminded : List ℕ
  pub planned : ℕ
  pub blocked : List Cap
  pub told : List ℕ

-- `may_send_to` is the allowlist, `text_problem` the rules for texts, `owner_cap` the caps of new
-- accounts.
module _ (limits : Limits) (may_send_to : ℕ → Bool) (text_problem : Candidate → Bool)
    (owner_cap : ℕ → Option ℕ) (now : ℕ) where
  -- `_record_not_sent`, which leaves a row that is there as it is.
  unfoldable pub record_not_sent : Candidate → Plan → Plan
  record_not_sent c p = if already_planned c.observance_id p.rows then p else record p {
    rows =
        record {
          observance_id = c.observance_id;
          phone = c.phone;
          owner_id = some c.created_by_user_id;
          agyary_id = c.agyary_id;
          created_at = now;
          is_failed = true;
        }
        ∷ p.rows;
    told = c.observance_id ∷ p.told;
  }

  unfoldable pub not_sent_in : Mode → Candidate → Plan → Plan
  not_sent_in live c p = record_not_sent c p
  not_sent_in _ c p = p

  unfoldable pub count_planned : Candidate → Plan → Plan
  count_planned c p = record p {
    used = add p.used (some c.created_by_user_id) (some c.agyary_id);
    reminded = c.phone ∷ p.reminded;
    planned = p.planned + 1;
  }

  -- The row of a reminder to send, unless the observance has one.
  unfoldable pub insert_pending : Candidate → Plan → Plan
  insert_pending c p =
      if already_planned c.observance_id p.rows
      then p
      else count_planned c (record p {
        rows =
            record {
              observance_id = c.observance_id;
              phone = c.phone;
              owner_id = some c.created_by_user_id;
              agyary_id = c.agyary_id;
              created_at = now;
              is_failed = false;
            }
            ∷ p.rows;
      })

  unfoldable pub plan_in : Mode → Candidate → Plan → Plan
  plan_in live c p = insert_pending c p
  plan_in _ c p = count_planned c p

  unfoldable pub within_caps : Mode → Candidate → Plan → Plan
  within_caps mode c p =
      elim (blocker limits p.used (some c.created_by_user_id) (some c.agyary_id)
        (owner_cap c.created_by_user_id)) [
          | some limit ↦ not_sent_in mode c (record p { blocked = limit ∷ p.blocked })
          | none ↦ plan_in mode c p
        ]

  abbrev pub is_live : Mode → Bool
  is_live live = true
  is_live _ = false

  -- One round of the loop.
  unfoldable pub plan_one : Mode → Candidate → Plan → Plan
  plan_one mode c p =
      if is_live mode && not (may_send_to c.phone)
      then p
      else if already_planned c.observance_id p.rows
      then p
      else if text_problem c || number_in c.phone p.reminded
      then not_sent_in mode c p
      else within_caps mode c p

  unfoldable pub plan_if : ℕ → Mode → Candidate → Plan → Plan
  plan_if tomorrow mode c p = if eligible tomorrow c then plan_one mode c p else p

  unfoldable pub plan_each : ℕ → Mode → List Candidate → Plan → Plan
  plan_each tomorrow mode [] p = p
  plan_each tomorrow mode (c ∷ candidates) p =
      plan_each tomorrow mode candidates (plan_if tomorrow mode c p)

  unfoldable pub plan_tomorrow :
      (ℕ → Bool) → (ℕ → Bool) → ℕ → Mode → List Candidate → List PlannedRow → Plan
  plan_tomorrow in_day in_month tomorrow mode candidates rows =
      let start : Plan = record {
        rows = rows;
        used = usage in_day in_month rows;
        reminded = reminded_today in_day in_month rows;
        planned = 0;
        blocked = [];
        told = [];
      } in
      elim mode [
        | off ↦ start
        | dry_run ↦ plan_each tomorrow dry_run candidates start
        | live ↦ plan_each tomorrow live candidates start
      ]
