-- ===== src/Tests/Plans.antt =====
-- Two observances of one family on one day: the first is planned, the second is not sent.
use agyary.Common.{number_in, ℕ, ◌≡◌, refl, Option, none, some, [], ◌∷◌, Bool, true, false, arith}
use agyary.Guardrails.{Limits, blocker, at_cap, at_owner_cap, count_of, set_count, count_one, add}
use agyary.Sending.{same_owner}
use agyary.Planning.{
  live, Candidate, PlannedRow, eligible, already_planned, count_row, usage, reminded_today,
  record_not_sent, not_sent_in, count_planned, insert_pending, plan_in, within_caps, plan_one,
  plan_if, plan_each, plan_tomorrow,
}
use agyary.Planning.Sound.{Sound, plan_tomorrow-Sound}

abbrev limits : Limits
limits = record {
  daily_cap = 3;
  monthly_cap = 30;
  per_mobed_daily_cap = 2;
  per_agyary_daily_cap = 2;
}

abbrev everyone : ℕ → Bool
everyone phone = true

abbrev no_problem : Candidate → Bool
no_problem c = false

abbrev no_cap : ℕ → Option ℕ
no_cap owner = none

abbrev always : ℕ → Bool
always t = true

abbrev first : Candidate
first = record {
  observance_id = 40;
  gregorian_day = 101;
  day_number = 31;
  reminded_by_hand_at = none;
  automatic_reminders = true;
  created_by_user_id = 5;
  agyary_id = 3;
  phone = 919;
  owner_user_id = some 5;
  reminders_enabled = true;
  reminders_stopped_at = none;
  is_active = true;
}

abbrev second : Candidate
second = record first { observance_id = 41 }

abbrev planned_row : PlannedRow
planned_row = record {
  observance_id = 40;
  phone = 919;
  owner_id = some 5;
  agyary_id = 3;
  created_at = 70000;
  is_failed = false;
}

plan_run :
    (plan_tomorrow limits everyone no_problem no_cap 70000 always always 101 live
      (first ∷ second ∷ [])
      []).rows
    ≡ record planned_row { observance_id = 41; is_failed = true } ∷ planned_row ∷ []
unfolding plan_tomorrow plan_each plan_if eligible plan_one already_planned within_caps plan_in
    not_sent_in insert_pending count_planned record_not_sent usage count_row reminded_today
    number_in same_owner blocker at_cap at_owner_cap count_of set_count count_one add
plan_run = refl

nothing-Sound : Sound limits always always []
unfolding usage reminded_today count_of
nothing-Sound = record {
  caps = record {
    today_in = omega arith;
    month_in = omega arith;
    mobed_in = λ m. omega arith;
    agyary_in = λ a. omega arith;
  };
  numbers = tt;
  single = tt;
}

plan_tomorrow-Sound_example :
    Sound limits always always
      (plan_tomorrow limits everyone no_problem no_cap 70000 always always 101 live
        (first ∷ second ∷ [])
        []).rows
plan_tomorrow-Sound_example =
    plan_tomorrow-Sound limits everyone no_problem no_cap 70000 always always refl refl 101
      (first ∷ second ∷ []) [] nothing-Sound
