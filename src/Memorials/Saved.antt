-- ===== src/Memorials/Saved.antt =====
-- A memorial that is saved: its dates, their prayers, and the death that it is counted from.
use agyary.Common.{
  ℕ, suc, ◌<◌, ◌≡◌, ◌≢◌, refl, sym, ap, ◌∙◌, subst, inl, inr, Option, none, some, List, [], ◌∷◌,
  Bool, true, false, not, Bool-cases, if◌then◌else◌, All, map, ok, Text,
}
use agyary.Dates.{Date}
use agyary.Engine.{CalendarSystem, shenshai, kadmi, fasli}
use agyary.Memorial.{Code, Observance}
use agyary.Memorial.Build.{date_of_death}
use agyary.Memorial.Kept.{day_of, Increasing}
use agyary.Memorials.{
  Choice, CalendarName, no_calendar, other_calendar, named_calendar, done, >>=-eq-done,
  done_injective, demanded, is_offered, reading_system, calendar_for, calendar_chosen,
  unoffered_calendar, all_removed, only_jashan,
}
use agyary.Memorials.Plan.{Planned, plan, has_none}
use agyary.Memorials.Planned.{ValidDates, plan-CanBeSaved, not_none-ne}
use agyary.Memorials.Death.{resolve_birthday}
use agyary.Memorials.Prayers.{
  Offers, validated_services-Offers, SetPrayers, resolve_overrides-SetPrayers, JashanFits,
  chosen_services-fit,
}
use agyary.Memorials.Saving.{
  Service, KeptDate, KeptMemorial, Book, validated_services, code_in, codes_of, without_codes,
  left_to_keep, ids_of, resolve_overrides, chosen_services, kept_dates,
}
use agyary.Memorials.Creating.{Wish, memorial_of, create_memorial}

reading_system-offered : (c : CalendarName) → is_offered (reading_system c) ≡ true
unfolding reading_system is_offered
reading_system-offered no_calendar = refl
reading_system-offered other_calendar = refl
reading_system-offered (named_calendar shenshai) = refl
reading_system-offered (named_calendar kadmi) = refl
reading_system-offered (named_calendar fasli) = refl

calendar_chosen-offered :
    (preferred chosen : CalendarName) (s : CalendarSystem)
    → calendar_chosen preferred chosen ≡ done s
    → is_offered s ≡ true
unfolding calendar_chosen
calendar_chosen-offered preferred no_calendar s e =
    rw (← done_injective e) (reading_system-offered preferred)
calendar_chosen-offered preferred other_calendar s e = cc
calendar_chosen-offered preferred (named_calendar system) s e =
    let (offered, is) = demanded (is_offered system) unoffered_calendar (done system) e in
    rw (← done_injective is) offered

-- The calendar of a new memorial is one of the two that are offered.
calendar_for-offered :
    (preferred : CalendarName) (choice : Choice) (s : CalendarSystem)
    → calendar_for preferred choice ≡ done s
    → is_offered s ≡ true
unfolding calendar_for
calendar_for-offered preferred choice s e = calendar_chosen-offered preferred choice.calendar s e

without_codes-excluded :
    (excluded : List Code) (os : List Observance)
    → All (λ o. code_in o.code excluded ≡ false) (without_codes excluded os)
unfolding without_codes
without_codes-excluded excluded [] = tt
without_codes-excluded excluded (o ∷ os) = elim (Bool-cases (code_in o.code excluded)) [
  | inl out ↦ rw out (without_codes-excluded excluded os)
  | inr left ↦ rw left (left, without_codes-excluded excluded os)
]

All-without_codes :
    (P : Observance → Type 0) (excluded : List Code) (os : List Observance)
    → All P os
    → All P (without_codes excluded os)
unfolding without_codes
All-without_codes P excluded [] h = tt
All-without_codes P excluded (o ∷ os) h = elim (Bool-cases (code_in o.code excluded)) [
  | inl out ↦ rw out (All-without_codes P excluded os h.1)
  | inr left ↦ rw left (h.0, All-without_codes P excluded os h.1)
]

without_codes-Increasing :
    (excluded : List Code) (os : List Observance)
    → Increasing os
    → Increasing (without_codes excluded os)
unfolding without_codes
without_codes-Increasing excluded [] h = tt
without_codes-Increasing excluded (o ∷ os) h = elim (Bool-cases (code_in o.code excluded)) [
  | inl out ↦ rw out (without_codes-Increasing excluded os h.1)
  | inr left ↦ rw left (
    All-without_codes (λ p. day_of o < day_of p) excluded os h.0,
    without_codes-Increasing excluded os h.1,
  )
]

none_excluded : (os : List Observance) → All (λ o. code_in o.code [] ≡ false) os
unfolding code_in
none_excluded [] = tt
none_excluded (o ∷ os) = (refl, none_excluded os)

-- The dates that are left to keep: not removed, in their order, and at least one.
record LeftToKeep (excluded : List Code) (os : List Observance) : Type 0 where
  filled : os ≢ []
  increasing : Increasing os
  kept : All (λ o. code_in o.code excluded ≡ false) os

left_to_keep-LeftToKeep :
    (excluded : List Code) (schedule os : List Observance)
    → schedule ≢ []
    → Increasing schedule
    → left_to_keep excluded schedule ≡ done os
    → LeftToKeep excluded os
unfolding left_to_keep has_none
left_to_keep-LeftToKeep [] schedule os filled inc e =
    subst (LeftToKeep []) (done_injective e)
      (record { filled = filled; increasing = inc; kept = none_excluded schedule })
left_to_keep-LeftToKeep (c ∷ cs) schedule os filled inc e =
    let rest = without_codes (c ∷ cs) schedule in
    let (some_left, is) = demanded (not (has_none rest)) all_removed (done rest) e in
    subst (LeftToKeep (c ∷ cs)) (done_injective is) (record {
      filled = not_none-ne rest some_left;
      increasing = without_codes-Increasing (c ∷ cs) schedule inc;
      kept = without_codes-excluded (c ∷ cs) schedule;
    })

module _ (lower_case : Text → Text) (table : List Service) (wish : Wish) where
  -- A date that is saved: it was not removed, it has a prayer, each of its prayers is a service that
  -- the fire temple offers, and where its prayers were not set apart, Jashan is among them only on
  -- an anniversary.
  pub record SavedDate (d : KeptDate) : Type 0 where
    pub prayers : List Service
    pub their_ids : d.service_ids ≡ ids_of prayers
    pub some_prayer : prayers ≢ []
    pub offered : All (Offers wish.agyary_id table) prayers
    pub jashan :
        code_in d.observance.code (map (λ w. w.0) wish.service_overrides) ≡ false
        → JashanFits lower_case d.observance.code prayers
    pub not_removed : code_in d.observance.code wish.exclude_codes ≡ false

  pub record Saved (m : KeptMemorial) : Type 0 where
    pub calendar_offered : is_offered m.calendar_system ≡ true
    pub death_kept : date_of_death m.death m.calendar_system ≡ ok m.death_gregorian
    pub some_date : m.observances ≢ []
    pub increasing : Increasing (map (λ d. d.observance) m.observances)
    pub dates : All SavedDate m.observances

  kept_dates-Saved :
      (paid_at : Option ℕ) (overrides : List (Code × List Service)) (services : List Service)
      (id : ℕ) (os : List Observance) (ds : List KeptDate)
      → SetPrayers wish.agyary_id table wish.service_overrides overrides
      → All (Offers wish.agyary_id table) services
      → All (λ o. code_in o.code wish.exclude_codes ≡ false) os
      → kept_dates lower_case paid_at overrides services id os ≡ done ds
      → (map (λ d. d.observance) ds ≡ os) × All SavedDate ds
  unfolding kept_dates
  kept_dates-Saved paid_at overrides services id [] ds h k l e =
      subst (λ x. (map (λ d. d.observance) x ≡ []) × All SavedDate x) (done_injective e) (refl, tt)
  kept_dates-Saved paid_at overrides services id (o ∷ os) ds h k l e =
      let prayers = chosen_services lower_case overrides services o.code in
      let (filled, e1) = demanded (not (has_none prayers)) only_jashan _ e in
      let (rest, saved, made) =
        >>=-eq-done (kept_dates lower_case paid_at overrides services (suc id) os) _ e1 in
      let (same, all) =
        kept_dates-Saved paid_at overrides services (suc id) os rest h k l.1 saved in
      let (offered, fits) =
        chosen_services-fit lower_case wish.agyary_id table wish.service_overrides overrides
          services o.code h k in
      subst (λ x. (map (λ d. d.observance) x ≡ o ∷ os) × All SavedDate x) (done_injective made)
        ((
          ap (λ x. o ∷ x) same,
          (
            record {
              prayers = prayers;
              their_ids = refl;
              some_prayer = not_none-ne prayers filled;
              offered = offered;
              jashan = fits;
              not_removed = l.0;
            },
            all,
          ),
        ))

  memorial_of-Saved :
      (choice : Choice) (system : CalendarSystem) (p : Planned) (birthday : Option (ℕ × ℕ))
      (ds : List KeptDate) (id : ℕ) (m : KeptMemorial) (os : List Observance)
      → is_offered system ≡ true
      → date_of_death p.death system ≡ ok p.death_date
      → os ≢ []
      → Increasing os
      → map (λ d. d.observance) ds ≡ os
      → All SavedDate ds
      → memorial_of id wish choice system p birthday ds ≡ m
      → Saved m
  memorial_of-Saved choice system p birthday ds id m os offered stored filled inc same all made =
      subst Saved made (record {
        calendar_offered = offered;
        death_kept = stored;
        some_date = λ none'. filled (sym same ∙ ap (map (λ d. d.observance)) none');
        increasing = subst Increasing (sym same) inc;
        dates = all;
      })

module _ (is_word is_decimal : ℕ → Bool) (lower : ℕ → ℕ) (lower_case : Text → Text) where
  -- A memorial that is created is in one of the two calendars that are offered; the Roj, Mah and
  -- year of its death convert back to its date; it has a date or more, each later than those before
  -- it and none that was removed; and each has a prayer, all its prayers are services that the fire
  -- temple offers, with Jashan among them only on an anniversary or where the mobed set them for
  -- that date.
  pub create_memorial-Saved :
      (preferred : CalendarName) (wish : Wish) (choice : Choice) (today : Date) (now : ℕ)
      (book after : Book) (m : KeptMemorial)
      → ValidDates choice today
      → create_memorial is_word is_decimal lower lower_case preferred wish choice today now book
        ≡ done (after, m)
      → Saved lower_case book.services wish m
  unfolding create_memorial
  create_memorial-Saved preferred wish choice today now book after m v e =
      let (system, its_calendar, e1) = >>=-eq-done (calendar_for preferred choice) _ e in
      let (p, planned, e2) = >>=-eq-done (plan is_word is_decimal lower system choice today) _ e1 in
      let (os, left, e3) = >>=-eq-done (left_to_keep wish.exclude_codes p.schedule) _ e2 in
      let (services, offered, e4) =
        >>=-eq-done (validated_services wish.agyary_id book.services wish.service_ids) _ e3 in
      let (overrides, set, e5) =
        >>=-eq-done
          (resolve_overrides wish.agyary_id book.services (codes_of os) wish.service_overrides) _
          e4 in
      let (birthday, born, e6) = >>=-eq-done (resolve_birthday system choice) _ e5 in
      let (ds, saved, e7) =
        >>=-eq-done
          (kept_dates lower_case (if wish.all_paid then some now else none) overrides services
            book.next_date_id os)
          _ e6 in
      let c = plan-CanBeSaved is_word is_decimal lower system choice today p v planned in
      let l =
        left_to_keep-LeftToKeep wish.exclude_codes p.schedule os c.not_empty c.increasing left in
      let (same, all) =
        kept_dates-Saved lower_case book.services wish (if wish.all_paid then some now else none)
          overrides services book.next_date_id os ds
          (resolve_overrides-SetPrayers wish.agyary_id book.services (codes_of os)
            wish.service_overrides overrides set)
          (validated_services-Offers wish.agyary_id book.services wish.service_ids services offered)
          l.kept saved in
      memorial_of-Saved lower_case book.services wish choice system p birthday ds book.next_id m os
        (calendar_for-offered preferred choice system its_calendar) c.stored l.filled l.increasing
        same all (ap (λ r. r.1) (done_injective e7))
