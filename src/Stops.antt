-- ===== src/Stops.antt =====
-- `record_stop` of services/reminders.py: a person replied STOP.
pub mod Stopped
pub mod Switch
pub mod Lasts
pub mod Unplanned
use agyary.Common.{
  ℕ, ◌+◌, ◌≡◌, refl, Option, none, some, List, [], ◌∷◌, Bool, true, false, not, ◌&&◌, ◌==◌,
  if◌then◌else◌, is_some,
}
use agyary.Sending.{Customer}

-- A family's record with its number.
pub record Entry : Type 0 where
  pub phone : ℕ
  pub customer : Customer

-- The numbers that said STOP with the time, the records, and the mobeds told with the record.
pub record Stops : Type 0 where
  pub opted_out : List (ℕ × ℕ)
  pub entries : List Entry
  pub told : List (ℕ × ℕ)

-- `on_conflict_do_update`
unfoldable pub opt_out : ℕ → ℕ → List (ℕ × ℕ) → List (ℕ × ℕ)
opt_out phone now [] = (phone, now) ∷ []
opt_out phone now ((p, t) ∷ rest) =
    let others = opt_out phone now rest in
    if p == phone then (phone, now) ∷ rest else (p, t) ∷ others

-- The record stopped: reminders are off, and the time of the STOP is kept.
unfoldable pub stop_customer : ℕ → Customer → Customer
stop_customer now c = record c { reminders_stopped_at = some now; reminders_enabled = false }

-- The query's condition: a record of the number that was not stopped.
unfoldable pub is_affected : ℕ → Entry → Bool
is_affected phone e = e.phone == phone && not (is_some e.customer.reminders_stopped_at)

unfoldable pub stop_entry : ℕ → ℕ → Entry → Entry
stop_entry phone now e =
    if is_affected phone e then record e { customer = stop_customer now e.customer } else e

unfoldable pub stop_entries : ℕ → ℕ → List Entry → List Entry
stop_entries phone now [] = []
stop_entries phone now (e ∷ entries) = stop_entry phone now e ∷ stop_entries phone now entries

-- The mobed of a record that had reminders on is told.
unfoldable pub told_of : ℕ → Entry → List (ℕ × ℕ) → List (ℕ × ℕ)
told_of phone e told =
    if is_affected phone e && e.customer.reminders_enabled
    then elim e.customer.owner_user_id [ none ↦ told | some o ↦ (o, e.customer.id) ∷ told ]
    else told

unfoldable pub told_all : ℕ → List Entry → List (ℕ × ℕ) → List (ℕ × ℕ)
told_all phone [] told = told
told_all phone (e ∷ entries) told = told_all phone entries (told_of phone e told)

unfoldable pub record_stop : ℕ → ℕ → Stops → Stops
record_stop phone now s = record {
  opted_out = opt_out phone now s.opted_out;
  entries = stop_entries phone now s.entries;
  told = told_all phone s.entries s.told;
}
