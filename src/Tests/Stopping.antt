-- ===== src/Tests/Stopping.antt =====
-- One number in the books of two mobeds says STOP.
use agyary.Common.{◌≡◌, refl, inl, none, some, List, [], ◌∷◌, true, false, All}
use agyary.Guardrails.{Limits}
use agyary.Planning.{Candidate, PlannedRow, live, plan_tomorrow}
use agyary.Sending.{same_owner}
use agyary.Stops.{
  Entry, Stops, is_affected, told_of, told_all, record_stop, stop_entries, stop_entry,
  stop_customer,
}
use agyary.Stops.Switch.{
  Switch, switch_all, switch_entries, switch_entry, set_reminders, turn_on, or_same, is_stale,
}
use agyary.Stops.Unplanned.{Joins, IsOld, record_stop-Unplanned}
use agyary.Stops.Stopped.{Silent}

abbrev book : Stops
book = record {
  opted_out = [];
  entries =
      record {
        phone = 919;
        customer = record {
          id = 20;
          owner_user_id = some 5;
          is_active = true;
          reminders_enabled = true;
          reminders_stopped_at = none;
        };
      }
      ∷ record {
        phone = 919;
        customer = record {
          id = 31;
          owner_user_id = some 6;
          is_active = true;
          reminders_enabled = false;
          reminders_stopped_at = none;
        };
      }
      ∷ [];
  told = [];
}

told_run : (record_stop 919 70000 book).told ≡ (5, 20) ∷ []
unfolding record_stop told_all told_of is_affected
told_run = refl

-- Each of the two mobeds tries to turn reminders on again.
abbrev retries : List Switch
retries =
    record {
      user_id = 5;
      customer_id = 20;
      is_on = true;
      confirm_restart = false;
      consent_version = some 2;
      now = 80000;
    }
    ∷ record {
      user_id = 6;
      customer_id = 31;
      is_on = true;
      confirm_restart = false;
      consent_version = none;
      now = 81000;
    }
    ∷ []

-- The query's rows for tomorrow, of the first record.
abbrev asked : Candidate
asked = record {
  observance_id = 11;
  gregorian_day = 9;
  day_number = 30;
  reminded_by_hand_at = none;
  automatic_reminders = true;
  created_by_user_id = 5;
  agyary_id = 1;
  phone = 919;
  owner_user_id = some 5;
  reminders_enabled = false;
  reminders_stopped_at = some 70000;
  is_active = true;
}

abbrev stopped_entry : Entry
stopped_entry = record {
  phone = 919;
  customer = record {
    id = 20;
    owner_user_id = some 5;
    is_active = true;
    reminders_enabled = false;
    reminders_stopped_at = some 70000;
  };
}

abbrev limits : Limits
limits = record {
  daily_cap = 3;
  monthly_cap = 30;
  per_mobed_daily_cap = 2;
  per_agyary_daily_cap = 2;
}

abbrev older : PlannedRow
older = record {
  observance_id = 10;
  phone = 919;
  owner_id = some 5;
  agyary_id = 1;
  created_at = 60000;
  is_failed = false;
}

joined : Joins (switch_all 2 retries (record_stop 919 70000 book).entries) asked
unfolding switch_all switch_entries switch_entry set_reminders turn_on or_same is_stale same_owner
    record_stop stop_entries stop_entry stop_customer is_affected
joined = (stopped_entry, inl refl, refl, refl)

record_stop-Unplanned_example :
    All
      (IsOld 919 (older ∷ []))
      (plan_tomorrow limits
        (λ p. true)
        (λ c. false)
        (λ u. none)
        90000
        (λ t. true)
        (λ t. true)
        9
        live
        (asked ∷ [])
        (older ∷ [])).rows
    × All (Silent 919 (some 5)) (switch_all 2 retries (record_stop 919 70000 book).entries)
record_stop-Unplanned_example =
    record_stop-Unplanned 919 2 70000 retries book limits (λ p. true) (λ c. false) (λ u. none) 90000
      (λ t. true) (λ t. true) 9 live (asked ∷ []) (older ∷ []) (some 5) (refl, (refl, tt))
      (joined, tt)
