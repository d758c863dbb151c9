-- ===== src/Stops/Switch.antt =====
-- `set_reminders`, `may_send_to` and `goes_automatically` of services/reminders.py.
use agyary.Common.{
  ℕ, Option, none, some, is_some, List, [], ◌∷◌, Bool, true, false, not, ◌&&◌, ◌||◌, ◌==◌,
  if◌then◌else◌,
}
use agyary.Sending.{Customer, same_owner}
use agyary.Stops.{Entry}

-- When a family agreed, and the version of the words that were read to them.
pub record Consent : Type 0 where
  pub enabled_at : Option ℕ
  pub version : Option ℕ

-- A change of a record, or ReminderError with its code.
pub data Switched : Type 0 where
  switched : Customer → Consent → Switched
  not_in_book stale_consent stopped : Switched

-- `consent_version is not None and consent_version != CONSENT_VERSION`
unfoldable pub is_stale : Option ℕ → ℕ → Bool
is_stale none current = false
is_stale (some version) current = not (version == current)

-- What a mobed asks for: reminders of one family on or off.
pub record Switch : Type 0 where
  pub user_id : ℕ
  pub customer_id : ℕ
  pub is_on : Bool
  pub confirm_restart : Bool
  pub consent_version : Option ℕ
  pub now : ℕ

-- `current` is CONSENT_VERSION.
module _ (current : ℕ) where
  unfoldable pub turn_on : Switch → Customer → Switched
  turn_on s c =
      if is_stale s.consent_version current
      then stale_consent
      else if is_some c.reminders_stopped_at && not s.confirm_restart
      then stopped
      else switched (record c { reminders_stopped_at = none; reminders_enabled = true })
          (record { enabled_at = some s.now; version = some current })

  unfoldable pub set_reminders : Switch → Customer → Switched
  set_reminders s c =
      if not (same_owner c.owner_user_id s.user_id)
      then not_in_book
      else if s.is_on
      then turn_on s c
      else switched (record c { reminders_enabled = false })
          (record { enabled_at = none; version = none })

  -- The record after a call, which a refusal leaves as it was.
  unfoldable pub or_same : Customer → Switched → Customer
  or_same c (switched after consent) = after
  or_same c _ = c

  -- The record that a call names.
  unfoldable pub switch_entry : Switch → Entry → Entry
  switch_entry s e =
      if e.customer.id == s.customer_id
      then record e { customer = or_same e.customer (set_reminders s e.customer) }
      else e

  unfoldable pub switch_entries : Switch → List Entry → List Entry
  switch_entries s [] = []
  switch_entries s (e ∷ entries) = switch_entry s e ∷ switch_entries s entries

  -- Some calls in a row.
  unfoldable pub switch_all : List Switch → List Entry → List Entry
  switch_all [] entries = entries
  switch_all (s ∷ calls) entries = switch_all calls (switch_entries s entries)

-- REMINDERS_ALLOWLIST: everyone, or a set of numbers.
pub data Allowlist : Type 0 where
  everyone : Allowlist
  numbers : List ℕ → Allowlist

unfoldable pub phone_in : ℕ → List ℕ → Bool
phone_in phone [] = false
phone_in phone (p ∷ phones) = phone == p || phone_in phone phones

unfoldable pub may_send_to : Allowlist → ℕ → Bool
may_send_to everyone phone = true
may_send_to (numbers phones) phone = phone_in phone phones

-- `is_live` is the mode of sending.
unfoldable pub goes_automatically : Bool → Allowlist → Bool → Bool → ℕ → Entry → Bool
goes_automatically is_live allowlist paused account_on owner e =
    is_live
    && not paused
    && account_on
    && same_owner e.customer.owner_user_id owner
    && e.customer.reminders_enabled
    && not (is_some e.customer.reminders_stopped_at)
    && e.customer.is_active
    && may_send_to allowlist e.phone
