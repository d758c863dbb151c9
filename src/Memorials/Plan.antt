-- ===== src/Memorials/Plan.antt =====
-- `plan` of services/memorials.py with its checks, and the two functions of the review screen that
-- run it, `named_days_passed` and `passed_before_start`.
use agyary.Common.{
  ℕ, ◌+◌, Option, none, some, List, [], ◌∷◌, ◌++◌, length, is_some, Bool, true, false, not, ◌&&◌,
  ◌||◌, ltb, ◌==◌, if◌then◌else◌, ℤ, Text, strip,
}
use agyary.Dates.{Date, ltb_date}
use agyary.Engine.{CalendarSystem, gregorian_to_parsi}
use agyary.Memorial.{Opening, no_opening, days_5_to_9, Code, day_code, Observance, Death}
use agyary.Memorial.Build.{Request, build_schedule}
use agyary.Machis.{parsi_slot_fields}
use agyary.TemplateText.{tidied, wrong, check}
use agyary.Memorials.{
  Choice, Outcome, done, refused, crashed, ◌>>=◌, ◌>>◌, demand, caught_value, uncaught,
  validate_length, no_name, bad_text, which_parabs, how_many_parabs, parabs_given_once,
  days_have_passed, bad_schedule, nothing_left, nothing_chosen, too_many_observances,
  max_monthly_months, max_yearly_years, max_parab_years, max_parab_count, max_birthday_years,
  max_observances, departed_max,
}
use agyary.Memorials.Death.{resolve_death, resolve_birthday}

-- `value or 0`
abbrev pub or_zero : Option ℕ → ℕ
or_zero none = 0
or_zero (some n) = n

unfoldable pub is_no_opening : Opening → Bool
is_no_opening no_opening = true
is_no_opening _ = false

unfoldable pub has_none {ℓ} : {A : Type ℓ} → List A → Bool
has_none [] = true
has_none (x ∷ xs) = false

-- The fields of a death as they are stored. Python's None in them would end in a TypeError.
unfoldable pub stored_death : Option ℕ × Option ℕ × ℤ → Outcome Death
stored_death (some roj, some mah, year) = done (record { roj = roj; mah = mah; year = year })
stored_death _ = crashed

unfoldable pub death_fields : CalendarSystem → Date → Outcome Death
death_fields system death_date = do
  p ← uncaught (gregorian_to_parsi death_date system)
  stored_death (parsi_slot_fields p)

unfoldable pub lengths_fit : Choice → Outcome (Unit {0})
lengths_fit choice = do
  validate_length choice.monthly_months max_monthly_months
  validate_length choice.yearly_years max_yearly_years
  validate_length choice.fravardin_roj_months max_monthly_months
  validate_length choice.parab_years max_parab_years
  validate_length choice.parab_count max_parab_count

unfoldable pub parabs_chosen : Choice → Outcome (Unit {0})
parabs_chosen choice = do
  let has_length = is_some choice.parab_years || is_some choice.parab_count
  demand (not (not (is_some choice.parabs) && has_length)) which_parabs
  demand (not (is_some choice.parabs && not has_length)) how_many_parabs
  demand (not (is_some choice.parab_years && is_some choice.parab_count)) parabs_given_once

-- For a death more than a year ago the opening and the named days are over, and everything runs from
-- today where no later start is given.
unfoldable pub with_start : Choice → Date → Outcome (Option Date)
with_start choice today =
    if choice.long_ago
    then (demand (is_no_opening choice.opening && has_none choice.day_counts) days_have_passed
        >> done (elim choice.start_from [ none ↦ some today | some day ↦ some day ]))
    else done choice.start_from

abbrev pub request_of : CalendarSystem → Choice → Option Date → Option (ℕ × ℕ) → Death → Request
request_of system choice start birthday death = record {
  death = death;
  system = system;
  opening = choice.opening;
  day_counts = choice.day_counts;
  monthly_months = or_zero choice.monthly_months;
  yearly_years = or_zero choice.yearly_years;
  parabs = choice.parabs;
  parab_years = or_zero choice.parab_years;
  birthday = birthday;
  birthday_years = or_zero choice.birthday_years;
  start_from = start;
  fravardin_roj_months = or_zero choice.fravardin_roj_months;
  parab_count = or_zero choice.parab_count;
  plain_labels = choice.long_ago;
}

unfoldable pub within_limit : Bool → List Observance → Outcome (Unit {0})
within_limit started schedule =
    demand (not (has_none schedule)) (if started then nothing_left else nothing_chosen)
    >> demand (not (ltb max_observances (length schedule))) too_many_observances

pub record Planned : Type 0 where
  pub schedule : List Observance
  pub death : Death
  pub death_date : Date

unfoldable pub planned_from :
    CalendarSystem → Choice → Option Date → Option (ℕ × ℕ) → Date → Death → Outcome Planned
planned_from system choice start birthday death_date death = do
  schedule ←
      caught_value bad_schedule (build_schedule (request_of system choice start birthday death))
  within_limit (is_some start) schedule
  done (record { schedule = schedule; death = death; death_date = death_date })

-- Whether a date is before another, and the date at which a code stands in a schedule.
unfoldable pub code_is_day : ℕ → Code → Bool
code_is_day n (day_code m) = n == m
code_is_day n _ = false

unfoldable pub date_of_day : ℕ → List Observance → Option Date
date_of_day n [] = none
date_of_day n (o ∷ os) =
    let rest = date_of_day n os in if code_is_day n o.code then some o.gregorian_date else rest

-- The keys that `named_days_passed` answers by: the days 5 to 9, or a named day.
pub data DayKey : Type 0 where
  five_to_nine : DayKey
  named : ℕ → DayKey

-- `tuple(NAMED_DAYS)`
abbrev pub named_days : List ℕ
named_days = 10 ∷ 29 ∷ 30 ∷ 59 ∷ 60 ∷ 179 ∷ 180 ∷ 359 ∷ 360 ∷ []

unfoldable pub each_passed : List ℕ → List (DayKey × Bool)
each_passed [] = []
each_passed (n ∷ ns) = (named n, true) ∷ each_passed ns

unfoldable pub passed_among : List Observance → Date → List ℕ → List (DayKey × Bool)
passed_among schedule today [] = []
passed_among schedule today (n ∷ ns) =
    let rest = passed_among schedule today ns in
    elim (date_of_day n schedule) [ none ↦ rest | some day ↦ (named n, ltb_date day today) ∷ rest ]

-- `when["day_9"]`, which raises KeyError where that day is not there.
unfoldable pub ninth_passed :
    Option Date → Date → List (DayKey × Bool) → Outcome (List (DayKey × Bool))
ninth_passed none today others = crashed
ninth_passed (some day) today others = done (others ++ (five_to_nine, ltb_date day today) ∷ [])

abbrev pub request_of_days : CalendarSystem → Death → Request
request_of_days system death = record {
  death = death;
  system = system;
  opening = days_5_to_9;
  day_counts = named_days;
  monthly_months = 0;
  yearly_years = 0;
  parabs = none;
  parab_years = 0;
  birthday = none;
  birthday_years = 0;
  start_from = none;
  fravardin_roj_months = 0;
  parab_count = 0;
  plain_labels = false;
}

unfoldable pub named_days_passed : CalendarSystem → Choice → Date → Outcome (List (DayKey × Bool))
named_days_passed system choice today =
    if choice.long_ago
    then done ((five_to_nine, true) ∷ each_passed named_days)
    else (resolve_death system choice today >>= λ day. death_fields system day >>= λ death.
        caught_value bad_schedule (build_schedule (request_of_days system death)) >>= λ schedule.
        ninth_passed (date_of_day 9 schedule) today (passed_among schedule today named_days))

unfoldable pub count_before : Date → List Observance → ℕ
count_before start [] = 0
count_before start (o ∷ os) =
    (if ltb_date o.gregorian_date start then 1 else 0) + count_before start os

-- `except MemorialError: return 0`
abbrev pub zero_if_refused : Outcome Planned → (Planned → ℕ) → Outcome ℕ
zero_if_refused (done planned) count = done (count planned)
zero_if_refused (refused e) count = done 0
zero_if_refused crashed count = crashed

module _ (is_word is_decimal : ℕ → Bool) (lower : ℕ → ℕ) where
  unfoldable pub name_fits : Text → Outcome (Unit {0})
  name_fits name =
      demand (not (has_none name)) no_name
      >> elim (check is_word is_decimal lower name departed_max) [
        | tidied t ↦ done tt
        | wrong p ↦ refused (bad_text p)
      ]

  unfoldable pub plan : CalendarSystem → Choice → Date → Outcome Planned
  plan system choice today = do
    name_fits (strip choice.departed_name)
    lengths_fit choice
    parabs_chosen choice
    birthday ← resolve_birthday system choice
    validate_length choice.birthday_years max_birthday_years
    start ← with_start choice today
    death_date ← resolve_death system choice today
    death ← death_fields system death_date
    planned_from system choice start birthday death_date death

  unfoldable pub passed_before_start : CalendarSystem → Choice → Date → Outcome ℕ
  passed_before_start system choice today = elim choice.start_from [
    | none ↦ done 0
    | some start ↦
        zero_if_refused (plan system (record choice { start_from = none }) today)
          (λ planned. count_before start planned.schedule)
  ]
