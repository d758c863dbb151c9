-- ===== src/Stops/Lasts.antt =====
-- A STOP lasts until the person asks the mobed to lift it.
use agyary.Common.{
  ℕ, ◌≡◌, ◌≢◌, refl, ◌⊎◌, inl, inr, Option, is_some, List, [], ◌∷◌, Bool, true, false, not, ◌&&◌,
  ◌==◌, Bool-cases, All, arith,
}
use agyary.Sending.{Customer, same_owner}
use agyary.Stops.{Entry, Stops, stop_customer, is_affected, stop_entry, stop_entries, record_stop}
use agyary.Stops.Stopped.{Silent, stopped_withdrawn}
use agyary.Stops.Switch.{
  Switch, turn_on, set_reminders, or_same, switch_entry, switch_entries, switch_all, is_stale,
  goes_automatically, Allowlist,
}

-- The record is of another number, or it is stopped.
abbrev pub Stopped : ℕ → Entry → Type 0
Stopped phone e = (e.phone ≢ phone) ⊎ (is_some e.customer.reminders_stopped_at ≡ true)

stop_entry-Stopped : (phone now : ℕ) (e : Entry) → Stopped phone (stop_entry phone now e)
unfolding stop_entry stop_customer is_affected
stop_entry-Stopped phone now e = elim (Bool-cases (e.phone == phone)) [
  | inr other ↦ rw other (inl (ground arith))
  | inl same ↦ elim (Bool-cases (is_some e.customer.reminders_stopped_at)) [
    | inl before ↦ rw (same, before) (inr before)
    | inr new ↦ rw (same, new) (inr refl)
  ]
]

pub stop_entries-Stopped :
    (phone now : ℕ) (entries : List Entry) → All (Stopped phone) (stop_entries phone now entries)
unfolding stop_entries
stop_entries-Stopped phone now [] = tt
stop_entries-Stopped phone now (e ∷ entries) =
    (stop_entry-Stopped phone now e, stop_entries-Stopped phone now entries)

-- A call that does not confirm a restart leaves a stopped record stopped.
set_reminders_stopped :
    (current : ℕ) (s : Switch) (c : Customer)
    → s.confirm_restart ≡ false
    → is_some c.reminders_stopped_at ≡ true
    → is_some (or_same current c (set_reminders current s c)).reminders_stopped_at ≡ true
unfolding set_reminders turn_on or_same
set_reminders_stopped current s c plain still =
    elim (Bool-cases (not (same_owner c.owner_user_id s.user_id))) [
      | inl elsewhere ↦ rw elsewhere still
      | inr own ↦ elim (Bool-cases s.is_on) [
        | inr off ↦ rw (own, off) still
        | inl on ↦ elim (Bool-cases (is_stale s.consent_version current)) [
          | inl stale ↦ rw (own, on, stale) still
          | inr fresh ↦
              let refused : (is_some c.reminders_stopped_at && not s.confirm_restart) ≡ true =
                rw (still, plain) in
              rw (own, on, fresh, refused) still
        ]
      ]
    ]

switch_entries-Stopped :
    (current phone : ℕ) (s : Switch) (entries : List Entry)
    → s.confirm_restart ≡ false
    → All (Stopped phone) entries
    → All (Stopped phone) (switch_entries current s entries)
unfolding switch_entries switch_entry
switch_entries-Stopped current phone s [] plain all = tt
switch_entries-Stopped current phone s (e ∷ entries) plain (head, all) = (
  elim (Bool-cases (e.customer.id == s.customer_id)) [
    | inr other ↦ rw other head
    | inl its ↦ rw its (elim head [
      | inl elsewhere ↦ inl elsewhere
      | inr still ↦ inr (set_reminders_stopped current s e.customer plain still)
    ])
  ],
  switch_entries-Stopped current phone s entries plain all,
)

pub switch_all-Stopped :
    (current phone : ℕ) (calls : List Switch) (entries : List Entry)
    → All (λ s. s.confirm_restart ≡ false) calls
    → All (Stopped phone) entries
    → All (Stopped phone) (switch_all current calls entries)
unfolding switch_all
switch_all-Stopped current phone [] entries plain all = all
switch_all-Stopped current phone (s ∷ calls) entries plain all =
    switch_all-Stopped current phone calls (switch_entries current s entries) plain.1
      (switch_entries-Stopped current phone s entries plain.0 all)

-- The list of reminders shows none of the record as going on its own, and the check withdraws
-- it, whoever made the memorial.
abbrev pub Quiet : ℕ → Bool → Allowlist → Bool → Bool → ℕ → Option ℕ → Entry → Type 0
Quiet phone is_live allowlist paused account_on owner o e =
    Silent phone o e
    × ((e.phone ≢ phone) ⊎ (goes_automatically is_live allowlist paused account_on owner e ≡ false))

module _ (phone : ℕ) (is_live : Bool) (allowlist : Allowlist) (paused account_on : Bool) (owner : ℕ)
    (o : Option ℕ) where
  Stopped-Quiet :
      (entries : List Entry)
      → All (Stopped phone) entries
      → All (Quiet phone is_live allowlist paused account_on owner o) entries
  unfolding goes_automatically
  Stopped-Quiet [] all = tt
  Stopped-Quiet (e ∷ entries) (inl elsewhere, all) =
      ((inl elsewhere, inl elsewhere), Stopped-Quiet entries all)
  Stopped-Quiet (e ∷ entries) (inr still, all) =
      ((inr (stopped_withdrawn e.customer o still), inr (ground arith)), Stopped-Quiet entries all)

  -- After a STOP, and after any calls that turn reminders on or off by whichever mobeds, none of
  -- which confirms that the person asked for a restart, every record is of another number, or is one
  -- that the list of reminders shows as not going and for which the check before sending finds a
  -- reason to withdraw.
  pub record_stop-Quiet :
      (current now : ℕ) (calls : List Switch) (s : Stops)
      → All (λ call. call.confirm_restart ≡ false) calls
      → All
          (Quiet phone is_live allowlist paused account_on owner o)
          (switch_all current calls (record_stop phone now s).entries)
  unfolding record_stop
  record_stop-Quiet current now calls s plain =
      Stopped-Quiet _
        (switch_all-Stopped current phone calls _ plain (stop_entries-Stopped phone now s.entries))
