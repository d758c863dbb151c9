-- ===== src/Planning/DryRun.antt =====
-- A dry run writes nothing.
use agyary.Common.{
  number_in, ℕ, ◌≡◌, refl, ◌∙◌, inl, inr, Option, some, List, [], ◌∷◌, Bool, ◌||◌, Bool-cases,
  Option-cases,
}
use agyary.Guardrails.{Limits, blocker}
use agyary.Planning.{
  dry_run, Candidate, PlannedRow, eligible, already_planned, Plan, not_sent_in, count_planned,
  plan_in, within_caps, plan_one, plan_if, plan_each, plan_tomorrow,
}

module _ (limits : Limits) (may_send_to : ℕ → Bool) (text_problem : Candidate → Bool)
    (owner_cap : ℕ → Option ℕ) (now : ℕ) where
  within_caps-rows :
      (c : Candidate) (p : Plan)
      → (within_caps limits may_send_to text_problem owner_cap now dry_run c p).rows ≡ p.rows
  unfolding within_caps not_sent_in plan_in count_planned
  within_caps-rows c p =
      elim (Option-cases (
        blocker limits p.used (some c.created_by_user_id) (some c.agyary_id)
          (owner_cap c.created_by_user_id))) [
            | inl free ↦ rw (within_caps, free) refl
            | inr (limit, is) ↦ rw (within_caps, is) refl
          ]

  plan_one-rows :
      (c : Candidate) (p : Plan)
      → (plan_one limits may_send_to text_problem owner_cap now dry_run c p).rows ≡ p.rows
  unfolding plan_one not_sent_in
  plan_one-rows c p = elim (Bool-cases (already_planned c.observance_id p.rows)) [
    | inl y ↦ rw y refl
    | inr new ↦ rw new (elim (Bool-cases (text_problem c || number_in c.phone p.reminded)) [
      | inl y ↦ rw y refl
      | inr fine ↦ rw fine (within_caps-rows c p)
    ])
  ]

  plan_each-rows :
      (tomorrow : ℕ) (candidates : List Candidate) (p : Plan)
      → (plan_each limits may_send_to text_problem owner_cap now tomorrow dry_run candidates p).rows
        ≡ p.rows
  unfolding plan_each plan_if
  plan_each-rows tomorrow [] p = refl
  plan_each-rows tomorrow (c ∷ candidates) p =
      plan_each-rows tomorrow candidates _ ∙ elim (Bool-cases (eligible tomorrow c)) [
        | inl y ↦ rw y (plan_one-rows c p)
        | inr n ↦ rw n refl
      ]

  -- Planning in a dry run leaves the table as it was.
  pub plan_tomorrow-dry_run :
      (in_day in_month : ℕ → Bool) (tomorrow : ℕ) (candidates : List Candidate)
      (rows : List PlannedRow)
      → (plan_tomorrow limits may_send_to text_problem owner_cap now in_day in_month tomorrow
          dry_run candidates rows).rows
        ≡ rows
  unfolding plan_tomorrow
  plan_tomorrow-dry_run in_day in_month tomorrow candidates rows =
      plan_each-rows tomorrow candidates _
