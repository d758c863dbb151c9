-- ===== src/Planning/Sound.antt =====
-- Planning keeps the caps, gives a number one reminder a day, and an observance one row.
use agyary.Common.{
  Fresh, number_in-Fresh, number_in, ℕ, ◌≡◌, refl, sym, ap, ◌∙◌, inl, inr, Option, none, some, List,
  [], ◌∷◌, Bool, true, false, not, ◌||◌, Bool-cases, Option-cases, arith, subst,
}
use agyary.Guardrails.{Limits, Usage, Cap, blocker, add}
use agyary.Guardrails.Caps.{Within, add-Within}
use agyary.Sending.Once.{Distinct}
use agyary.Planning.{
  live, Candidate, PlannedRow, eligible, already_planned, count_row, usage, reminded_today, Plan,
  record_not_sent, not_sent_in, count_planned, insert_pending, plan_in, within_caps, plan_one,
  plan_if, plan_each, plan_tomorrow,
}

abbrev pub observances : List PlannedRow → List ℕ
observances [] = []
observances (r ∷ rows) = r.observance_id ∷ observances rows

already_planned-Fresh :
    (x : ℕ) (rows : List PlannedRow) → already_planned x rows ≡ false → Fresh x (observances rows)
unfolding already_planned
already_planned-Fresh x [] h = tt
already_planned-Fresh x (r ∷ rows) h = (ground arith, already_planned-Fresh x rows (ground arith))

-- What planning promises of the table: the counts of the day and the month are within the caps, the
-- numbers that were given a reminder today are all different, and so are the observances of rows.
pub record Sound (limits : Limits) (in_day in_month : ℕ → Bool) (rows : List PlannedRow)
    : Type 0 where
  pub caps : Within limits (usage in_day in_month rows)
  pub numbers : Distinct (reminded_today in_day in_month rows)
  pub single : Distinct (observances rows)

-- The local variables say what the table says.
record Kept (limits : Limits) (in_day in_month : ℕ → Bool) (p : Plan) : Type 0 where
  used_is : p.used ≡ usage in_day in_month p.rows
  reminded_is : p.reminded ≡ reminded_today in_day in_month p.rows
  sound : Sound limits in_day in_month p.rows

module _ (limits : Limits) (may_send_to : ℕ → Bool) (text_problem : Candidate → Bool)
    (owner_cap : ℕ → Option ℕ) (now : ℕ) (in_day in_month : ℕ → Bool) (today : in_day now ≡ true)
    (this_month : in_month now ≡ true) where
  abbrev KeptPlan : Plan → Type 0
  KeptPlan = Kept limits in_day in_month

  record_not_sent-Kept :
      (c : Candidate) (p : Plan)
      → KeptPlan p
      → KeptPlan (record_not_sent limits may_send_to text_problem owner_cap now c p)
  unfolding record_not_sent usage count_row reminded_today
  record_not_sent-Kept c p k = elim (Bool-cases (already_planned c.observance_id p.rows)) [
    | inl y ↦ rw y k
    | inr n ↦ rw n (record {
      used_is = k.used_is;
      reminded_is = k.reminded_is;
      sound = record {
        caps = k.sound.caps;
        numbers = k.sound.numbers;
        single = (already_planned-Fresh c.observance_id p.rows n, k.sound.single);
      };
    })
  ]

  counted :
      (observance phone owner agyary : ℕ) (used : Usage)
      → count_row in_day in_month
          (record {
            observance_id = observance;
            phone = phone;
            owner_id = some owner;
            agyary_id = agyary;
            created_at = now;
            is_failed = false;
          })
          used
        ≡ add used (some owner) (some agyary)
  unfolding count_row add
  counted observance phone owner agyary used = rw (today, this_month) refl

  insert_pending-Kept :
      (c : Candidate) (p : Plan)
      → KeptPlan p
      → number_in c.phone p.reminded ≡ false
      → blocker limits p.used
          (some c.created_by_user_id)
          (some c.agyary_id)
          (owner_cap c.created_by_user_id)
        ≡ none
      → KeptPlan (insert_pending limits may_send_to text_problem owner_cap now c p)
  unfolding insert_pending count_planned usage reminded_today
  insert_pending-Kept c p k f b = elim (Bool-cases (already_planned c.observance_id p.rows)) [
    | inl y ↦ rw y k
    | inr n ↦ rw n (record {
      used_is =
          ap (λ u. add u (some c.created_by_user_id) (some c.agyary_id)) k.used_is
          ∙ sym (counted _ _ _ _ _);
      reminded_is = rw today (ap (λ l. c.phone ∷ l) k.reminded_is);
      sound = record {
        caps =
            subst (Within limits)
              (sym (
                counted c.observance_id c.phone c.created_by_user_id c.agyary_id
                  (usage in_day in_month p.rows)))
              (add-Within limits (usage in_day in_month p.rows) (some c.created_by_user_id)
                (some c.agyary_id) (owner_cap c.created_by_user_id) k.sound.caps
                (subst
                  (λ u.
                    blocker limits u (some c.created_by_user_id) (some c.agyary_id)
                      (owner_cap c.created_by_user_id)
                    ≡ none)
                  k.used_is b));
        numbers = rw today (
          subst (Fresh c.phone) k.reminded_is (number_in-Fresh c.phone p.reminded f),
          k.sound.numbers,
        );
        single = (already_planned-Fresh c.observance_id p.rows n, k.sound.single);
      };
    })
  ]

  Kept-blocked :
      (limit : Cap) (p : Plan) → KeptPlan p → KeptPlan (record p { blocked = limit ∷ p.blocked })
  Kept-blocked limit p k = record {
    used_is = k.used_is;
    reminded_is = k.reminded_is;
    sound = k.sound;
  }

  within_caps-Kept :
      (c : Candidate) (p : Plan)
      → KeptPlan p
      → number_in c.phone p.reminded ≡ false
      → KeptPlan (within_caps limits may_send_to text_problem owner_cap now live c p)
  unfolding within_caps not_sent_in plan_in
  within_caps-Kept c p k f =
      elim (Option-cases (
        blocker limits p.used (some c.created_by_user_id) (some c.agyary_id)
          (owner_cap c.created_by_user_id))) [
            | inl free ↦ rw (within_caps, free) (insert_pending-Kept c p k f free)
            | inr (limit, is) ↦
                rw (within_caps, is) (record_not_sent-Kept c _ (Kept-blocked limit p k))
          ]

  plan_one-Kept :
      (c : Candidate) (p : Plan)
      → KeptPlan p
      → KeptPlan (plan_one limits may_send_to text_problem owner_cap now live c p)
  unfolding plan_one not_sent_in
  plan_one-Kept c p k = elim (Bool-cases (not (may_send_to c.phone))) [
    | inl y ↦ rw y k
    | inr n ↦ rw n (elim (Bool-cases (already_planned c.observance_id p.rows)) [
      | inl y ↦ rw y k
      | inr new ↦ rw new (elim (Bool-cases (text_problem c || number_in c.phone p.reminded)) [
        | inl y ↦ rw y (record_not_sent-Kept c p k)
        | inr fine ↦ rw fine (within_caps-Kept c p k (ground arith))
      ])
    ])
  ]

  plan_if-Kept :
      (tomorrow : ℕ) (c : Candidate) (p : Plan)
      → KeptPlan p
      → KeptPlan (plan_if limits may_send_to text_problem owner_cap now tomorrow live c p)
  unfolding plan_if
  plan_if-Kept tomorrow c p k = elim (Bool-cases (eligible tomorrow c)) [
    | inl y ↦ rw y (plan_one-Kept c p k)
    | inr n ↦ rw n k
  ]

  plan_each-Kept :
      (tomorrow : ℕ) (candidates : List Candidate) (p : Plan)
      → KeptPlan p
      → KeptPlan
          (plan_each limits may_send_to text_problem owner_cap now tomorrow live candidates p)
  unfolding plan_each
  plan_each-Kept tomorrow [] p k = k
  plan_each-Kept tomorrow (c ∷ candidates) p k =
      plan_each-Kept tomorrow candidates _ (plan_if-Kept tomorrow c p k)

  -- Planning in live mode keeps the table sound, where the time of planning is in the day and in the
  -- month that are counted: every count stays within its cap, no number is given two reminders in
  -- the day, and no observance has two rows.
  pub plan_tomorrow-Sound :
      (tomorrow : ℕ) (candidates : List Candidate) (rows : List PlannedRow)
      → Sound limits in_day in_month rows
      → Sound limits in_day in_month
          (plan_tomorrow limits may_send_to text_problem owner_cap now in_day in_month tomorrow live
            candidates rows).rows
  unfolding plan_tomorrow
  plan_tomorrow-Sound tomorrow candidates rows s =
      let kept =
        plan_each-Kept tomorrow candidates _
          (record { used_is = refl; reminded_is = refl; sound = s }) in
      kept.sound
