-- ===== src/Stops/Stopped.antt =====
-- After a STOP nothing goes to that number, and a second STOP tells nobody.
use agyary.Common.{
  ℕ, ◌≡◌, ◌≢◌, refl, ap, ◌∙◌, ◌⊎◌, inl, inr, Option, some, List, [], ◌∷◌, true, false, not, ◌==◌,
  Bool-cases, is_some,
}
use mathlib.Core.Path.{ap₂}
use agyary.Sending.{Customer, withdrawn_by}
use agyary.Stops.{
  Entry, Stops, stop_customer, is_affected, stop_entry, stop_entries, told_of, told_all,
  record_stop,
}

-- The record is of another number, or no reminder for it may go where o made the memorial.
abbrev pub Silent : ℕ → Option ℕ → Entry → Type 0
Silent phone o e = (e.phone ≢ phone) ⊎ (is_some (withdrawn_by o (some e.customer)) ≡ true)

pub stopped_withdrawn :
    (c : Customer) (o : Option ℕ)
    → is_some c.reminders_stopped_at ≡ true
    → is_some (withdrawn_by o (some c)) ≡ true
unfolding withdrawn_by
stopped_withdrawn c o h = elim (Bool-cases (not c.is_active)) [
  | inl y ↦ rw y refl
  | inr n ↦ rw (n, h) refl
]

unaffected : (phone now : ℕ) (e : Entry) → is_affected phone (stop_entry phone now e) ≡ false
unfolding stop_entry is_affected stop_customer
unaffected phone now e = elim (Bool-cases (e.phone == phone)) [
  | inr other ↦ rw (other, other) refl
  | inl same ↦ elim (Bool-cases (is_some e.customer.reminders_stopped_at)) [
    | inl before ↦ rw (same, before) (rw (same, before) refl)
    | inr new ↦ rw (same, new) (rw same refl)
  ]
]

stop_entry_same :
    (phone now : ℕ) (e : Entry) → is_affected phone e ≡ false → stop_entry phone now e ≡ e
unfolding stop_entry
stop_entry_same phone now e h = rw h refl

same_entry :
    (phone now later : ℕ) (e : Entry)
    → stop_entry phone later (stop_entry phone now e) ≡ stop_entry phone now e
same_entry phone now later e =
    stop_entry_same phone later (stop_entry phone now e) (unaffected phone now e)

same_entries :
    (phone now later : ℕ) (entries : List Entry)
    → stop_entries phone later (stop_entries phone now entries) ≡ stop_entries phone now entries
unfolding stop_entries
same_entries phone now later [] = refl
same_entries phone now later (e ∷ entries) =
    ap₂ (λ (x : Entry) (xs : List Entry). x ∷ xs) (same_entry phone now later e)
      (same_entries phone now later entries)

told_of_same :
    (phone : ℕ) (e : Entry) (told : List (ℕ × ℕ))
    → is_affected phone e ≡ false
    → told_of phone e told ≡ told
unfolding told_of
told_of_same phone e told h = rw h refl

nobody_told :
    (phone now : ℕ) (entries : List Entry) (told : List (ℕ × ℕ))
    → told_all phone (stop_entries phone now entries) told ≡ told
unfolding stop_entries told_all
nobody_told phone now [] told = refl
nobody_told phone now (e ∷ entries) told =
    ap (λ t. told_all phone (stop_entries phone now entries) t)
      (told_of_same phone (stop_entry phone now e) told (unaffected phone now e))
    ∙ nobody_told phone now entries told

-- A second STOP of one number tells nobody more and changes no record.
pub record_stop-again :
    (phone now later : ℕ) (s : Stops)
    → ((record_stop phone later (record_stop phone now s)).told ≡ (record_stop phone now s).told)
      × ((record_stop phone later (record_stop phone now s)).entries
          ≡ (record_stop phone now s).entries)
unfolding record_stop
record_stop-again phone now later s =
    (nobody_told phone now s.entries _, same_entries phone now later s.entries)
