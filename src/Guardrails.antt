-- ===== src/Guardrails.antt =====
-- services/guardrails.py: the caps on reminders, and the alerts to the admins.
pub mod Caps
pub mod Alerts
use agyary.Common.{
  ℕ, zero, suc, ◌+◌, ◌≤◌, ◌<◌, ◌≡◌, refl, Option, none, some, List, [], ◌∷◌, ◌++◌, Bool, true,
  false, not, ◌&&◌, ◌||◌, ltb, leb, ◌==◌, if◌then◌else◌, arith,
}

-- The caps of the settings.
pub record Limits : Type 0 where
  pub daily_cap : ℕ
  pub monthly_cap : ℕ
  pub per_mobed_daily_cap : ℕ
  pub per_agyary_daily_cap : ℕ

-- Which cap forbids a reminder.
pub data Cap : Type 0 where
  daily_limit monthly_limit new_account_limit mobed_limit agyary_limit : Cap

pub record Usage : Type 0 where
  pub today : ℕ
  pub month : ℕ
  pub per_mobed : List (ℕ × ℕ)
  pub per_agyary : List (ℕ × ℕ)

-- `counts.get(key, 0)`
unfoldable pub count_of : ℕ → List (ℕ × ℕ) → ℕ
count_of key [] = 0
count_of key ((k, n) ∷ rest) = let later = count_of key rest in if k == key then n else later

-- `counts[key] = n`
unfoldable pub set_count : ℕ → ℕ → List (ℕ × ℕ) → List (ℕ × ℕ)
set_count key n [] = (key, n) ∷ []
set_count key n ((k, m) ∷ rest) =
    let others = set_count key n rest in if k == key then (key, n) ∷ rest else (k, m) ∷ others

-- `counts[key] = counts.get(key, 0) + 1`, where there is a key
unfoldable pub count_one : Option ℕ → List (ℕ × ℕ) → List (ℕ × ℕ)
count_one none counts = counts
count_one (some key) counts = set_count key (count_of key counts + 1) counts

-- `key is not None and counts.get(key, 0) >= cap`
unfoldable pub at_cap : Option ℕ → List (ℕ × ℕ) → ℕ → Bool
at_cap none counts cap = false
at_cap (some key) counts cap = leb cap (count_of key counts)

unfoldable pub at_owner_cap : Option ℕ → List (ℕ × ℕ) → Option ℕ → Bool
at_owner_cap owner counts none = false
at_owner_cap owner counts (some cap) = at_cap owner counts cap

unfoldable pub blocker : Limits → Usage → Option ℕ → Option ℕ → Option ℕ → Option Cap
blocker limits used owner_id agyary_id owner_cap =
    if leb limits.daily_cap used.today
    then some daily_limit
    else if leb limits.monthly_cap used.month
    then some monthly_limit
    else if at_owner_cap owner_id used.per_mobed owner_cap
    then some new_account_limit
    else if at_cap owner_id used.per_mobed limits.per_mobed_daily_cap
    then some mobed_limit
    else if at_cap agyary_id used.per_agyary limits.per_agyary_daily_cap
    then some agyary_limit
    else none

unfoldable pub add : Usage → Option ℕ → Option ℕ → Usage
add used owner_id agyary_id = record {
  today = used.today + 1;
  month = used.month + 1;
  per_mobed = count_one owner_id used.per_mobed;
  per_agyary = count_one agyary_id used.per_agyary;
}

-- An alert of a kind, left for a user at a time in seconds.
pub data Title : Type 0 where
  sending_paused limit_reached code_limit_reached : Title

unfoldable pub same_title : Title → Title → Bool
same_title sending_paused sending_paused = true
same_title limit_reached limit_reached = true
same_title code_limit_reached code_limit_reached = true
same_title _ _ = false

pub record Alert : Type 0 where
  pub user_id : ℕ
  pub title : Title
  pub created_at : ℕ

-- `ALERT_DEDUPE`, six hours
abbrev pub alert_dedupe : ℕ
alert_dedupe = 21600

-- `created_at > now - ALERT_DEDUPE`, of an alert of that title to that user
unfoldable pub has_recent : ℕ → Title → ℕ → List Alert → Bool
has_recent uid title now [] = false
has_recent uid title now (a ∷ alerts) =
    (a.user_id == uid && same_title a.title title && ltb now (a.created_at + alert_dedupe))
    || has_recent uid title now alerts

-- The loop over the admins, each alerted unless there is a recent one.
unfoldable pub alert_admins : List ℕ → Title → ℕ → List Alert → List Alert
alert_admins [] title now alerts = alerts
alert_admins (uid ∷ admins) title now alerts =
    let given : Alert = record { user_id = uid; title = title; created_at = now } in
    alert_admins admins title now
      (if has_recent uid title now alerts then alerts else given ∷ alerts)
