-- ===== src/Memorials/Planned.antt =====
-- What `plan` answers: a schedule that can be saved, counted from the date of the death.
use agyary.Common.{
  ℕ, ◌+◌, ◌-◌, ◌≤◌, leb, pos, ◌+ℤ◌, ◌≡◌, ◌≢◌, refl, sym, ap, ◌∙◌, subst, Option, none, some, List,
  [], length, Bool, true, false, not, ◌&&◌, guard, is_some, ltb, ok, >>=-eq-ok, ℤ, strip, arith,
}
use agyary.Dates.{Date, make_date}
use agyary.Dates.Ordinal.{IsDate}
use agyary.Dates.Shift.{add_days-eq-ok}
use agyary.Engine.{
  CalendarSystem, shenshai, kadmi, fasli, gregorian_to_parsi, to_gregorian, yz_era_offset,
  days_before_gatha, fasli_max_gatha, shenshai_to_gregorian, kadmi_to_gregorian, fasli_to_gregorian,
}
use agyary.Engine.Days.{shenshai_to_gregorian-IsDate}
use agyary.Memorial.{Observance, Death}
use agyary.Memorial.Build.{build_schedule, date_of_death}
use agyary.Memorial.Kept.{Increasing}
use agyary.Memorial.Sorted.{build_schedule-Increasing}
use agyary.Machis.Booking.{slot_keys}
use agyary.Machis.Keys.{date_of_key, slot_keys-back}
use agyary.Memorials.{
  Choice, Outcome, done, >>=-eq-done, done_injective, demanded, demand-true, too_many_observances,
  caught-ok, caught_value, caught_value-ok, uncaught, uncaught-ok, validate_length,
  max_birthday_years, max_observances, no_such_roj_and_mah, death_given_once, only_roj_and_mah,
  bad_schedule,
}
use agyary.Memorials.Death.{
  on_parsi_day, is_roj_and_mah, in_year, death_by_parsi, death_given, by_parsi, by_its_date_or_year,
  resolve_death, resolve_birthday,
}
use agyary.Memorials.Latest.{on_parsi_day-day, latest_day-IsLatest}
use agyary.Memorials.Plan.{
  stored_death, death_fields, has_none, within_limit, Planned, planned_from, request_of, name_fits,
  lengths_fit, parabs_chosen, with_start, plan,
}

stored_death-key :
    (key : Option ℕ × Option ℕ × ℤ) (death : Death)
    → stored_death key ≡ done death
    → key ≡ (some death.roj, some death.mah, death.year)
unfolding stored_death
stored_death-key (none, mah, year) death e = cc
stored_death-key (some roj, none, year) death e = cc
stored_death-key (some roj, some mah, year) death e = cc (done_injective e)

-- The fields of a death that is stored are those of its date.
death_fields-date :
    (s : CalendarSystem) (d : Date) (death : Death)
    → IsDate d
    → death_fields s d ≡ done death
    → date_of_death death s ≡ ok d
unfolding death_fields date_of_death slot_keys date_of_key
death_fields-date s d death v e =
    let (p, read, stored) = >>=-eq-done (uncaught (gregorian_to_parsi d s)) _ e in
    let key : slot_keys s d ≡ ok (some death.roj, some death.mah, death.year) =
      rw (uncaught-ok _ read) (ap ok (stored_death-key _ death stored)) in
    slot_keys-back s d v key

-- A date that a calendar answers is one of the class.
to_gregorian-IsDate :
    (s : CalendarSystem) (y : ℤ) (n : ℕ) {d : Date} → to_gregorian s y n ≡ ok d → IsDate d
unfolding to_gregorian kadmi_to_gregorian fasli_to_gregorian
to_gregorian-IsDate shenshai y n e = shenshai_to_gregorian-IsDate y n e
to_gregorian-IsDate kadmi y n e =
    let (day, found, moved) = >>=-eq-ok (shenshai_to_gregorian y n) _ e in
    (add_days-eq-ok day _ moved).0
to_gregorian-IsDate fasli y n e =
    let cycle = y +ℤ pos yz_era_offset in
    let (u, fits, e1) =
      >>=-eq-ok (guard (leb 1 n && leb n (days_before_gatha + fasli_max_gatha cycle))) _ e in
    let (start, made, moved) = >>=-eq-ok (make_date cycle 3 21) _ e1 in
    (add_days-eq-ok start (pos (n - 1)) moved).0

on_parsi_day-IsDate :
    (s : CalendarSystem) (roj mah : ℕ) (y : ℤ) (d : Date)
    → on_parsi_day y s roj mah ≡ ok d
    → IsDate d
on_parsi_day-IsDate s roj mah y d e =
    let (n, day) = on_parsi_day-day s roj mah y d e in to_gregorian-IsDate s y n day

in_year-IsDate :
    (s : CalendarSystem) (long_ago : Bool) (roj mah : ℕ) (year : Option ℤ) (today d : Date)
    → IsDate today
    → in_year s long_ago roj mah year today ≡ done d
    → IsDate d
unfolding in_year
in_year-IsDate s long_ago roj mah (some year) today d v e =
    on_parsi_day-IsDate s roj mah year d (caught-ok _ _ e)
in_year-IsDate s long_ago roj mah none today d v e =
    let l = latest_day-IsLatest s long_ago roj mah today d v e in
    on_parsi_day-IsDate s roj mah l.year d l.its_day

death_by_parsi-IsDate :
    (s : CalendarSystem) (long_ago : Bool) (roj mah : Option ℕ) (year : Option ℤ) (today d : Date)
    → IsDate today
    → death_by_parsi s long_ago roj mah year today ≡ done d
    → IsDate d
unfolding death_by_parsi
death_by_parsi-IsDate s long_ago none mah year today d v e = absurd (cc)
death_by_parsi-IsDate s long_ago (some roj) none year today d v e = absurd (cc)
death_by_parsi-IsDate s long_ago (some roj) (some mah) year today d v e =
    in_year-IsDate s long_ago roj mah year today d v
      (demanded (is_roj_and_mah roj mah) no_such_roj_and_mah _ e).1

death_given-IsDate :
    (given : Option Date) (by_roj : Bool) (other : Outcome Date) (d : Date)
    → ((day : Date) → given ≡ some day → IsDate day)
    → (other ≡ done d → IsDate d)
    → death_given given by_roj other ≡ done d
    → IsDate d
unfolding death_given
death_given-IsDate (some day) by_roj other d v w e =
    let (once, is) = demanded (not by_roj) death_given_once (done day) e in
    subst IsDate (done_injective is) (v day refl)
death_given-IsDate none by_roj other d v w e = w (demanded by_roj death_given_once other e).1

-- A date of the class is what Python's type says of a date that is given.
abbrev pub ValidDates : Choice → Date → Type 0
ValidDates choice today = ((day : Date) → choice.death_date ≡ some day → IsDate day) × IsDate today

resolve_death-IsDate :
    (s : CalendarSystem) (choice : Choice) (today d : Date)
    → ValidDates choice today
    → resolve_death s choice today ≡ done d
    → IsDate d
unfolding resolve_death
resolve_death-IsDate s choice today d (v, w) e =
    death_given-IsDate choice.death_date (by_parsi choice) _ d v
      (death_by_parsi-IsDate s choice.long_ago choice.death_roj choice.death_mah choice.death_year
        today d w)
      (demanded (not (choice.long_ago && by_its_date_or_year choice)) only_roj_and_mah _ e).1

-- A list that has not none is not empty.
pub not_none-ne {ℓ} : {A : Type ℓ} (xs : List A) → not (has_none xs) ≡ true → xs ≢ []
unfolding has_none
not_none-ne xs h e = absurd (let k : false ≡ true = rw e at h in (cc))

within_limit-fits :
    (started : Bool) (os : List Observance) {u : Unit {0}}
    → within_limit started os ≡ done u
    → (os ≢ []) × (length os ≤ max_observances)
unfolding within_limit
within_limit-fits started os e =
    let (some_left, e1) = demanded (not (has_none os)) _ _ e in
    let few = demand-true (not (ltb max_observances (length os))) too_many_observances e1 in
    (not_none-ne os some_left, ground arith)

-- What is planned can be saved: it has from 1 to 2500 observances, each on a later date than those
-- before it, and they are those that `build_schedule` answers for the death as it is stored, whose
-- Roj, Mah and year are those of the date of death.
pub record CanBeSaved (system : CalendarSystem) (choice : Choice) (today : Date) (p : Planned)
    : Type 0 where
  pub not_empty : p.schedule ≢ []
  pub not_too_many : length p.schedule ≤ max_observances
  pub increasing : Increasing p.schedule
  pub resolved : resolve_death system choice today ≡ done p.death_date
  pub stored : date_of_death p.death system ≡ ok p.death_date
  pub start : Option Date
  pub birthday : Option (ℕ × ℕ)
  pub built : build_schedule (request_of system choice start birthday p.death) ≡ ok p.schedule

planned_from-parts :
    (system : CalendarSystem) (choice : Choice) (start : Option Date) (birthday : Option (ℕ × ℕ))
    (day : Date) (death : Death) (p : Planned)
    → planned_from system choice start birthday day death ≡ done p
    → (build_schedule (request_of system choice start birthday death) ≡ ok p.schedule)
      × (p.schedule ≢ [])
      × (length p.schedule ≤ max_observances)
      × (p.death ≡ death)
      × (p.death_date ≡ day)
unfolding planned_from
planned_from-parts system choice start birthday day death p e =
    let (os, built, e1) =
      >>=-eq-done
        (caught_value bad_schedule (build_schedule (request_of system choice start birthday death)))
        _ e in
    let (u, fits, e2) = >>=-eq-done (within_limit (is_some start) os) _ e1 in
    let is = done_injective e2 in
    let (filled, few) = within_limit-fits (is_some start) os fits in
    rw (← is) (caught_value-ok _ _ built, filled, few, refl, refl)

planned_from-CanBeSaved :
    (system : CalendarSystem) (choice : Choice) (today : Date) (start : Option Date)
    (birthday : Option (ℕ × ℕ)) (day : Date) (death : Death) (p : Planned)
    → resolve_death system choice today ≡ done day
    → date_of_death death system ≡ ok day
    → planned_from system choice start birthday day death ≡ done p
    → CanBeSaved system choice today p
planned_from-CanBeSaved system choice today start birthday day death p resolved stored e =
    let (built, filled, few, its_death, its_date) =
      planned_from-parts system choice start birthday day death p e in
    record {
      not_empty = filled;
      not_too_many = few;
      increasing = build_schedule-Increasing _ p.schedule built;
      resolved = resolved ∙ ap done (sym its_date);
      stored = ap (λ x. date_of_death x system) its_death ∙ stored ∙ ap ok (sym its_date);
      start = start;
      birthday = birthday;
      built =
          ap (λ x. build_schedule (request_of system choice start birthday x)) its_death ∙ built;
    }

module _ (is_word is_decimal : ℕ → Bool) (lower : ℕ → ℕ) where
  -- A plan that is made can be saved: it has from 1 to 2500 observances, each on a later date than
  -- those before it; they are what `build_schedule` answers for the stored death, and the Roj, Mah
  -- and year that are stored for it convert back to the date of death that was resolved.
  pub plan-CanBeSaved :
      (system : CalendarSystem) (choice : Choice) (today : Date) (p : Planned)
      → ValidDates choice today
      → plan is_word is_decimal lower system choice today ≡ done p
      → CanBeSaved system choice today p
  unfolding plan
  plan-CanBeSaved system choice today p v e =
      let (u1, named, e1) =
        >>=-eq-done (name_fits is_word is_decimal lower (strip choice.departed_name)) _ e in
      let (u2, lengths, e2) = >>=-eq-done (lengths_fit choice) _ e1 in
      let (u3, parabs, e3) = >>=-eq-done (parabs_chosen choice) _ e2 in
      let (birthday, born, e4) = >>=-eq-done (resolve_birthday system choice) _ e3 in
      let (u5, years, e5) =
        >>=-eq-done (validate_length choice.birthday_years max_birthday_years) _ e4 in
      let (start, started, e6) = >>=-eq-done (with_start choice today) _ e5 in
      let (day, resolved, e7) = >>=-eq-done (resolve_death system choice today) _ e6 in
      let (death, stored, e8) = >>=-eq-done (death_fields system day) _ e7 in
      let valid = resolve_death-IsDate system choice today day v resolved in
      planned_from-CanBeSaved system choice today start birthday day death p resolved
        (death_fields-date system day death valid stored) e8
