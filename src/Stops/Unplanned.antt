-- ===== src/Stops/Unplanned.antt =====
-- After a STOP the planner of services/reminder_sender.py adds nothing for the number.
use agyary.Common.{
  ℕ, ◌≡◌, ◌≢◌, refl, sym, ap, ◌∙◌, subst, ◌⊎◌, inl, inr, Option, some, is_some, List, [], ◌∷◌, Bool,
  true, false, not, ◌&&◌, ◌||◌, Bool-cases, Option-cases, All, Among, number_in, arith,
}
use agyary.Guardrails.{Limits, blocker}
use agyary.Planning.{
  Mode, off, dry_run, live, Candidate, PlannedRow, Plan, eligible, already_planned, record_not_sent,
  not_sent_in, count_planned, insert_pending, plan_in, within_caps, is_live, plan_one, plan_if,
  plan_each, plan_tomorrow,
}
use agyary.Stops.{Entry, Stops, record_stop}
use agyary.Stops.Stopped.{Silent, stopped_withdrawn}
use agyary.Stops.Switch.{Switch, switch_all}
use agyary.Stops.Lasts.{Stopped, stop_entries-Stopped, switch_all-Stopped}

-- A row of the planner's query: it has the number and the STOP of a record of the table.
abbrev pub Joins : List Entry → Candidate → Type 0
Joins entries c =
    (e : Entry) × Among e entries
    × (c.phone ≡ e.phone)
    × (c.reminders_stopped_at ≡ e.customer.reminders_stopped_at)

module _ (phone : ℕ) where
  abbrev PassedOver : ℕ → Candidate → Type 0
  PassedOver tomorrow c = (c.phone ≢ phone) ⊎ (eligible tomorrow c ≡ false)

  Stopped-Among :
      (e : Entry) (entries : List Entry)
      → All (Stopped phone) entries
      → Among e entries
      → Stopped phone e
  Stopped-Among e [] all at = absurd at
  Stopped-Among e (d ∷ entries) all (inl it) = subst (Stopped phone) (sym it) all.0
  Stopped-Among e (d ∷ entries) all (inr later) = Stopped-Among e entries all.1 later

  Joins-PassedOver :
      (tomorrow : ℕ) (entries : List Entry) (candidates : List Candidate)
      → All (Stopped phone) entries
      → All (Joins entries) candidates
      → All (PassedOver tomorrow) candidates
  unfolding eligible
  Joins-PassedOver tomorrow entries [] all joined = tt
  Joins-PassedOver tomorrow entries (c ∷ candidates) all ((e, at, its_phone, its_stop), joined) = (
    elim (Stopped-Among e entries all at) [
      | inl elsewhere ↦ inl (λ same. elsewhere (sym its_phone ∙ same))
      | inr still ↦
          let stopped : is_some c.reminders_stopped_at ≡ true = ap is_some its_stop ∙ still in
          inr (ground (arith, stopped))
    ],
    Joins-PassedOver tomorrow entries candidates all joined,
  )

  module _ (rows : List PlannedRow) where
    -- A row that was there, or is of another number.
    abbrev pub IsOld : PlannedRow → Type 0
    IsOld r = (r.phone ≢ phone) ⊎ Among r rows

    abbrev NothingNew : Plan → Type 0
    NothingNew p = All IsOld p.rows

    module _ (limits : Limits) (may_send_to : ℕ → Bool) (text_problem : Candidate → Bool)
        (owner_cap : ℕ → Option ℕ) (now : ℕ) (c : Candidate) (other : c.phone ≢ phone) where
      not_sent_in-NothingNew :
          (mode : Mode) (p : Plan)
          → NothingNew p
          → NothingNew (not_sent_in limits may_send_to text_problem owner_cap now mode c p)
      unfolding not_sent_in record_not_sent
      not_sent_in-NothingNew off p h = h
      not_sent_in-NothingNew dry_run p h = h
      not_sent_in-NothingNew live p h = elim (Bool-cases (already_planned c.observance_id p.rows)) [
        | inl there ↦ rw there h
        | inr new ↦ rw new (inl other, h)
      ]

      plan_in-NothingNew :
          (mode : Mode) (p : Plan)
          → NothingNew p
          → NothingNew (plan_in limits may_send_to text_problem owner_cap now mode c p)
      unfolding plan_in insert_pending count_planned
      plan_in-NothingNew off p h = h
      plan_in-NothingNew dry_run p h = h
      plan_in-NothingNew live p h = elim (Bool-cases (already_planned c.observance_id p.rows)) [
        | inl there ↦ rw there h
        | inr new ↦ rw new (inl other, h)
      ]

      within_caps-NothingNew :
          (mode : Mode) (p : Plan)
          → NothingNew p
          → NothingNew (within_caps limits may_send_to text_problem owner_cap now mode c p)
      unfolding within_caps
      within_caps-NothingNew mode p h =
          elim (Option-cases (
            blocker limits p.used (some c.created_by_user_id) (some c.agyary_id)
              (owner_cap c.created_by_user_id))) [
                | inl free ↦ rw (within_caps, free) (plan_in-NothingNew mode p h)
                | inr (limit, is) ↦
                    rw (within_caps, is)
                      (not_sent_in-NothingNew mode (record p { blocked = limit ∷ p.blocked }) h)
              ]

      plan_one-NothingNew :
          (mode : Mode) (p : Plan)
          → NothingNew p
          → NothingNew (plan_one limits may_send_to text_problem owner_cap now mode c p)
      unfolding plan_one
      plan_one-NothingNew mode p h =
          elim (Bool-cases (
            is_live limits may_send_to text_problem owner_cap now mode
            && not (may_send_to c.phone))) [
              | inl kept_out ↦ rw kept_out h
              | inr allowed ↦
                  rw allowed (elim (Bool-cases (already_planned c.observance_id p.rows)) [
                    | inl there ↦ rw there h
                    | inr new ↦
                        rw new (elim (Bool-cases (text_problem c || number_in c.phone p.reminded)) [
                          | inl bad ↦ rw bad (not_sent_in-NothingNew mode p h)
                          | inr fine ↦ rw fine (within_caps-NothingNew mode p h)
                        ])
                  ])
            ]

    module _ (limits : Limits) (may_send_to : ℕ → Bool) (text_problem : Candidate → Bool)
        (owner_cap : ℕ → Option ℕ) (now : ℕ) where
      plan_each-NothingNew :
          (tomorrow : ℕ) (mode : Mode) (candidates : List Candidate) (p : Plan)
          → All (PassedOver tomorrow) candidates
          → NothingNew p
          → NothingNew
              (plan_each limits may_send_to text_problem owner_cap now tomorrow mode candidates p)
      unfolding plan_each plan_if
      plan_each-NothingNew tomorrow mode [] p over h = h
      plan_each-NothingNew tomorrow mode (c ∷ candidates) p (one, over) h =
          plan_each-NothingNew tomorrow mode candidates _ over
            (elim (Bool-cases (eligible tomorrow c)) [
              | inr out ↦ rw out h
              | inl asked ↦ rw asked (elim one [
                | inl other ↦
                    plan_one-NothingNew limits may_send_to text_problem owner_cap now c other mode p
                      h
                | inr out ↦ absurd (let k : true ≡ false = sym asked ∙ out in (cc))
              ])
            ])

All-own :
    (rows all : List PlannedRow)
    → ((r : PlannedRow) → Among r rows → Among r all)
    → All (λ r. Among r all) rows
All-own [] all h = tt
All-own (r ∷ rows) all h = (h r (inl refl), All-own rows all (λ s at. h s (inr at)))

All-IsOld :
    (phone : ℕ) (all rows : List PlannedRow)
    → All (λ r. Among r all) rows
    → All (IsOld phone all) rows
All-IsOld phone all [] h = tt
All-IsOld phone all (r ∷ rows) h = (inr h.0, All-IsOld phone all rows h.1)

All-Silent :
    (phone : ℕ) (o : Option ℕ) (entries : List Entry)
    → All (Stopped phone) entries
    → All (Silent phone o) entries
All-Silent phone o [] h = tt
All-Silent phone o (e ∷ entries) (inl elsewhere, h) = (inl elsewhere, All-Silent phone o entries h)
All-Silent phone o (e ∷ entries) (inr still, h) =
    (inr (stopped_withdrawn e.customer o still), All-Silent phone o entries h)

-- After a STOP, and after any calls that turn reminders on or off by whichever mobeds, none of
-- which confirms that the person asked for a restart: where each row of the planner's query has the
-- number and the STOP of one of the records, a run of the planner in any mode adds no row for the
-- number, to send or not; and for every record of the number the check before sending finds a reason
-- to withdraw, whoever made the memorial.
pub record_stop-Unplanned :
    (phone current now : ℕ) (calls : List Switch) (s : Stops) (limits : Limits)
    (may_send_to : ℕ → Bool) (text_problem : Candidate → Bool) (owner_cap : ℕ → Option ℕ) (at : ℕ)
    (in_day in_month : ℕ → Bool) (tomorrow : ℕ) (mode : Mode) (candidates : List Candidate)
    (rows : List PlannedRow) (o : Option ℕ)
    → All (λ call. call.confirm_restart ≡ false) calls
    → All (Joins (switch_all current calls (record_stop phone now s).entries)) candidates
    → All
        (IsOld phone rows)
        (plan_tomorrow limits may_send_to text_problem owner_cap at in_day in_month tomorrow mode
          candidates rows).rows
      × All (Silent phone o) (switch_all current calls (record_stop phone now s).entries)
unfolding plan_tomorrow
record_stop-Unplanned phone current now calls s limits may_send_to text_problem owner_cap at in_day
      in_month tomorrow mode candidates rows o plain joined =
    let stopped : All (Stopped phone) (switch_all current calls (record_stop phone now s).entries) =
      switch_all-Stopped current phone calls _ plain
        (unfold record_stop in stop_entries-Stopped phone now s.entries) in
    let old = All-IsOld phone rows rows (All-own rows rows (λ r at. at)) in
    let over = Joins-PassedOver phone tomorrow _ candidates stopped joined in
    (
      elim mode
          as (λ k.
            All (IsOld phone rows)
              (plan_tomorrow limits may_send_to text_problem owner_cap at in_day in_month tomorrow k
                candidates rows).rows) [
                  | off ↦ old
                  | dry_run ↦
                      plan_each-NothingNew phone rows limits may_send_to text_problem owner_cap at
                        tomorrow dry_run candidates _ over old
                  | live ↦
                      plan_each-NothingNew phone rows limits may_send_to text_problem owner_cap at
                        tomorrow live candidates _ over old
                ],
      All-Silent phone o _ stopped,
    )
