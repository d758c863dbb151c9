-- ===== src/Tests/Keeping.antt =====
-- A memorial that is planned, saved, marked and shown in the calendar.
use agyary.Memorials.Saving.{
  get_service_by_id, unique, with_service, found_services, validated_services, code_eq, code_in,
  without_codes, left_to_keep, is_anniversary, ids_of, resolve_overrides, override_of, or_usual,
  is_jashan, usual_services, chosen_services, kept_dates, Service, Book, KeptDate, KeptMemorial,
}
use agyary.Memorials.Plan.{
  has_none, stored_death, death_fields, lengths_fit, parabs_chosen, with_start, within_limit,
  planned_from, name_fits, plan, Planned,
}
use agyary.Memorials.Death.{
  resolve_birthday, death_by_parsi, death_given, in_year, is_roj_and_mah, keep_past, last_date,
  last_of, latest_allowed, latest_day, on_parsi_day, past_days, resolve_death,
}
use agyary.Memorials.{
  validate_length, reading_system, calendar_chosen, calendar_for, Choice, done, no_calendar,
}
use agyary.Memorial.Build.{
  known_opening, all_named, parabs_fit, birthday_fits, request_fits, date_of_death, series_start,
  is_past, resolve_wanted, chosen_parabs, chosen_fravardin, chosen_birthday, ranked_choices,
  all_choices, build_schedule,
}
use agyary.Memorial.Keep.{keep_best, best_of, kept_schedule, insert_sorted, sorted}
use agyary.Memorial.Schedule.{
  key_eq, named_span, canon, resolve_monthly, resolve_yearly, resolve, claimed, claim, overwrite,
  has_ten, claim_opening, claim_named, claim_all_named, claim_yearly, claim_monthly, series_keys,
  key_in,
}
use agyary.Memorial.{
  named_day, cycle_ordinal, start_of, count_from, by_roj_and_mah, on_date, literal, no_opening,
  day_code, year_code, named_label, year_label, Observance,
}
use agyary.Machis.{parsi_slot_fields}
use agyary.Common.{
  text_eq, number_in, ◌+ℤ◌, ◌-ℤ◌, ◌*ℤ◌, floor_div, floor_mod, is_space, drop_while, drop_end, strip,
  starts_with, ℕ, ◌+◌, ◌≡◌, ◌↔◌, refl, none, some, List, [], ◌∷◌, map, Bool, true, false, ◌&&◌,
  ◌||◌, leb, if◌then◌else◌, Among, Text, codes, pos, arith,
}
use agyary.Engine.Occurrence.{years_from}
use agyary.Engine.{
  build_parsi_date, day_of_year_from_gatha, day_of_year_from_mah_roj, decompose_day_of_year,
  fasli_cycle_start_year, fasli_from_gregorian, fasli_max_gatha, fasli_to_gregorian,
  gregorian_to_parsi, is_leap_year, kadmi_from_gregorian, kadmi_to_gregorian, parsi_to_gregorian,
  requested_day, shenshai_from_gregorian, shenshai_to_gregorian, to_gregorian, shenshai,
}
use agyary.TemplateText.{
  after_letters, finds_handle, finds_link, finds_run, is_address, is_host, problem, tidy, verdict,
  without_joints, check, tidied,
}
use agyary.Memorials.Reading.{
  feed_items, is_last_of, last_date_of, last_kept, rows_in, rows_of, set_paid, progress, Item,
  observance_item, closing_item, calendar_feed,
}
use agyary.Dates.{
  add_days, days_before_month, days_before_year, from_ordinal, leb_date, ltb_date, make_date,
  month_of, split_ordinal, year_of, Date, date, to_ordinal, is_leap, days_in_month,
}
use agyary.Dates.Ordinal.{IsDate}
use agyary.TemplateText.Passed.{Passed, check-Passed}
use agyary.Memorials.Closing.{Different, closing_ids, EndsIn, calendar_feed-closes}
use agyary.Memorials.Latest.{IsLatest, days_back, resolve_death-IsLatest}
use agyary.Memorials.Marks.{EachMarked, Balance, set_paid-Balance, IsNext, progress-IsNext}
use agyary.Memorials.Planned.{ValidDates, plan-CanBeSaved, CanBeSaved}
use agyary.Memorials.Saved.{Saved, create_memorial-Saved}
use agyary.Memorials.Creating.{Wish, create_memorial, memorial_of, add_memorial}

abbrev is_letter : ℕ → Bool
is_letter c = (leb b'a' c && leb c b'z') || (leb b'A' c && leb c b'Z') || (leb b'0' c && leb c b'9')

abbrev is_figure : ℕ → Bool
is_figure c = leb b'0' c && leb c b'9'

abbrev small : ℕ → ℕ
small c = if leb b'A' c && leb c b'Z' then c + 32 else c

abbrev spaced : Text
spaced = codes "  Rustam   Irani "

abbrev today : Date
today = date 2025 6 1

abbrev choice : Choice
choice = record {
  departed_name = spaced;
  death_date = none;
  opening = no_opening;
  day_counts = 10 ∷ 30 ∷ [];
  monthly_months = none;
  yearly_years = some 1;
  fravardin_roj_months = none;
  parabs = none;
  parab_years = none;
  parab_count = none;
  birthday_date = none;
  birthday_roj = none;
  birthday_mah = none;
  birthday_years = none;
  start_from = none;
  calendar = no_calendar;
  death_roj = some 5;
  death_mah = some 3;
  death_year = none;
  long_ago = false;
}

abbrev jashan_service : Service
jashan_service = record { id = 4; agyary_id = 1; name = codes "Jashan "; is_active = true }

abbrev other_service : Service
other_service = record { id = 6; agyary_id = 1; name = codes "Afargan"; is_active = true }

abbrev book : Book
book = record {
  services = jashan_service ∷ other_service ∷ [];
  memorials = [];
  next_id = 1;
  next_date_id = 11;
}

abbrev wish : Wish
wish = record {
  agyary_id = 1;
  user_id = 5;
  customer_id = 7;
  service_ids = 4 ∷ 6 ∷ 4 ∷ [];
  exclude_codes = day_code 10 ∷ [];
  service_overrides = [];
  all_paid = false;
}

abbrev death_day : Date
death_day = date 2024 10 18

today-IsDate : IsDate today
unfolding is_leap days_in_month
today-IsDate = record { year_in = omega arith; month_in = omega arith; day_in = omega arith }

death_run : resolve_death shenshai choice today ≡ done death_day
unfolding resolve_death death_given death_by_parsi is_roj_and_mah in_year latest_day latest_allowed
    gregorian_to_parsi shenshai_from_gregorian build_parsi_date decompose_day_of_year floor_mod ◌-ℤ◌
    to_ordinal days_before_year days_before_month is_leap past_days floor_div ◌*ℤ◌ ◌+ℤ◌ add_days
    days_in_month from_ordinal leb_date ltb_date make_date month_of split_ordinal year_of years_from
    day_of_year_from_gatha day_of_year_from_mah_roj fasli_cycle_start_year fasli_from_gregorian
    fasli_max_gatha fasli_to_gregorian is_leap_year kadmi_from_gregorian kadmi_to_gregorian
    parsi_to_gregorian requested_day shenshai_to_gregorian to_gregorian keep_past last_date last_of
    on_parsi_day
death_run = refl

resolve_death-IsLatest_example : IsLatest shenshai 5 3 (days_back choice.long_ago) today death_day
resolve_death-IsLatest_example =
    resolve_death-IsLatest shenshai choice today death_day 5 3 today-IsDate refl refl refl refl
      death_run

abbrev dasmi : Observance
dasmi = record {
  code = day_code 10;
  label = named_label "Dasmi";
  day_number = pos 10;
  roj = some 14;
  mah = some 3;
  year = pos 1394;
  gregorian_date = date 2024 10 27;
  gatha_index = none;
}

abbrev masiso : Observance
masiso = record {
  code = day_code 30;
  label = named_label "Masiso";
  day_number = pos 31;
  roj = some 5;
  mah = some 4;
  year = pos 1394;
  gregorian_date = date 2024 11 17;
  gatha_index = none;
}

abbrev first_year : Observance
first_year = record {
  code = year_code 1;
  label = year_label 1;
  day_number = pos 361;
  roj = some 5;
  mah = some 3;
  year = pos 1395;
  gregorian_date = date 2025 10 18;
  gatha_index = none;
}

abbrev planned : Planned
planned = record {
  schedule = dasmi ∷ masiso ∷ first_year ∷ [];
  death = record { roj = 5; mah = 3; year = pos 1394 };
  death_date = death_day;
}

dates_valid : ValidDates choice today
dates_valid = (λ day h. absurd (let k = h in (cc)), today-IsDate)

plan_run : plan is_letter is_figure small shenshai choice today ≡ done planned
unfolding is_space drop_while drop_end strip starts_with ◌+ℤ◌ ◌-ℤ◌ ◌*ℤ◌ floor_div floor_mod is_leap
    days_before_month days_before_year to_ordinal year_of month_of split_ordinal from_ordinal
    add_days leb_date ltb_date day_of_year_from_mah_roj decompose_day_of_year build_parsi_date
    shenshai_from_gregorian shenshai_to_gregorian gregorian_to_parsi requested_day to_gregorian
    parsi_to_gregorian parsi_slot_fields tidy verdict after_letters is_host is_address finds_link
    finds_handle without_joints finds_run problem check named_day cycle_ordinal start_of count_from
    by_roj_and_mah on_date literal key_eq named_span canon resolve_monthly resolve_yearly resolve
    claimed claim overwrite has_ten claim_opening claim_named claim_all_named claim_yearly
    claim_monthly series_keys key_in insert_sorted sorted keep_best best_of kept_schedule
    known_opening all_named parabs_fit birthday_fits request_fits date_of_death series_start is_past
    resolve_wanted chosen_parabs chosen_fravardin chosen_birthday ranked_choices all_choices
    build_schedule years_from validate_length on_parsi_day keep_past past_days last_date last_of
    latest_allowed latest_day is_roj_and_mah in_year death_by_parsi death_given resolve_death
    resolve_birthday has_none stored_death death_fields lengths_fit parabs_chosen with_start
    within_limit planned_from name_fits plan
plan_run = refl

plan-CanBeSaved_example : CanBeSaved shenshai choice today planned
plan-CanBeSaved_example =
    plan-CanBeSaved is_letter is_figure small shenshai choice today planned dates_valid plan_run

abbrev kept : ℕ → Observance → KeptDate
kept id o = record {
  id = id;
  observance = o;
  service_ids = 4 ∷ 6 ∷ [];
  time_of_day = none;
  notes = none;
  paid_at = none;
  reminded_by_hand_at = none;
}

abbrev memorial : KeptMemorial
memorial =
    memorial_of 1 wish choice shenshai planned none (kept 11 masiso ∷ kept 12 first_year ∷ [])

abbrev after : Book
after = add_memorial memorial book

create_run :
    create_memorial is_letter is_figure small
      (λ s. map small s)
      no_calendar
      wish
      choice
      today
      99
      book
    ≡ done (after, memorial)
unfolding calendar_for calendar_chosen reading_system has_none strip drop_end drop_while is_space
    number_in resolve_birthday text_eq get_service_by_id unique with_service found_services
    validated_services code_eq code_in without_codes left_to_keep is_anniversary ids_of
    resolve_overrides override_of or_usual is_jashan usual_services chosen_services kept_dates
    create_memorial
create_run = rw plan_run refl

create_memorial-Saved_example : Saved (λ s. map small s) book.services wish memorial
create_memorial-Saved_example =
    create_memorial-Saved is_letter is_figure small (λ s. map small s) no_calendar wish choice today
      99 book after memorial dates_valid create_run

-- The first date is paid, and then the rest.
set_paid-Balance_example :
    EachMarked true
      (some 11)
      memorial.observances
      (set_paid memorial true (some 11) 50).0.observances
    × Balance true
        (progress memorial today).paid_count
        (set_paid memorial true (some 11) 50).1
        (progress (set_paid memorial true (some 11) 50).0 today).paid_count
set_paid-Balance_example = set_paid-Balance memorial true (some 11) 50 today

progress-IsNext_example :
    IsNext memorial.observances (to_ordinal today) (progress memorial today).next
    × (((progress memorial today).running ≡ false)
        ↔ ((progress memorial today).past ≡ (progress memorial today).total))
progress-IsNext_example = progress-IsNext memorial today

abbrev items : List Item
items = observance_item 1 (kept 12 first_year) true ∷ closing_item 1 first_year.gregorian_date ∷ []

feed_run : calendar_feed 5 1 today (date 2025 12 31) after.memorials ≡ done items
unfolding calendar_feed ltb_date to_ordinal days_before_year days_before_month is_leap feed_items
    sorted rows_of rows_in leb_date insert_sorted is_last_of last_date_of last_kept number_in
feed_run = refl

calendar_feed-closes_example :
    Different (closing_ids items)
    × ((id : ℕ)
        → Among id (closing_ids items) ↔ EndsIn today (date 2025 12 31) 5 1 after.memorials id)
calendar_feed-closes_example =
    calendar_feed-closes today (date 2025 12 31) 5 1 after.memorials items feed_run

check_run : check is_letter is_figure small spaced 80 ≡ tidied (codes "Rustam Irani")
unfolding check verdict problem tidy is_space finds_link starts_with after_letters is_address
    is_host finds_handle finds_run without_joints
check_run = refl

check-Passed_example : Passed is_letter is_figure small spaced (codes "Rustam Irani") 80
check-Passed_example =
    check-Passed is_letter is_figure small spaced (codes "Rustam Irani") 80 check_run
