-- ===== src/Tests/Schedules.antt =====
-- Counting from a death, and a small schedule: the tenth day and the Masiso of a death on 19 July 2026.
use agyary.Common.{
  ◌+ℤ◌, ◌-ℤ◌, ◌*ℤ◌, floor_div, floor_mod, all_below, ◌↔◌, ◌≤◌, ◌+◌, ◌*◌, ◌≡◌, refl, some, none, [],
  ◌∷◌, false, pos, ok, ℤ, inl, inr, Among, arith,
}
use agyary.Dates.{
  is_leap, days_in_month, days_before_month, days_before_year, to_ordinal, year_of, month_of,
  split_ordinal, from_ordinal, add_days, make_date, leb_date, ltb_date, date,
}
use agyary.Engine.{
  day_of_year_from_mah_roj, day_of_year_from_gatha, decompose_day_of_year, build_parsi_date,
  shenshai_from_gregorian, shenshai_to_gregorian, kadmi_from_gregorian, kadmi_to_gregorian,
  fasli_cycle_start_year, is_leap_year, fasli_max_gatha, fasli_from_gregorian, fasli_to_gregorian,
  gregorian_to_parsi, requested_day, to_gregorian, parsi_to_gregorian, shenshai,
}
use agyary.Memorial.{
  named_day, index_of, parab_roj_for_mah, cycle_ordinal, start_of, count_from, by_roj_and_mah,
  on_date, literal, position, gatha_day, Death, tenth_only, Observance, day_code, named_label,
}
use agyary.Memorial.Series.{
  pairs, collect, parab_mahs, parab_observance, parab_observances, too_early, next_dates,
  fravardin_roj_observances, birthday_observances,
}
use agyary.Memorial.Schedule.{
  key_eq, named_span, span_of_deci, rank_of, canon, resolve_monthly, resolve_yearly, resolve_span,
  resolve, first_valid, claimed, claim, overwrite, claim_literal, has_ten, claim_opening,
  claim_named, claim_all_named, claim_yearly, claim_monthly, series_keys, key_in,
}
use agyary.Memorial.Keep.{
  insert_sorted, sorted, not_before, keep_best, best_of, kept_schedule, Ranked,
}
use agyary.Memorial.Build.{
  known_opening, all_named, parabs_fit, birthday_fits, request_fits, date_of_death, series_start,
  is_past, resolve_wanted, years_gone, from_start, chosen_parabs, chosen_fravardin, chosen_birthday,
  ranked_choices, all_choices, build_schedule, Request,
}
use agyary.Memorial.Counting.{position-count_from, count_from-months, start_of-IsDeath, IsDeath}
use agyary.Memorial.Kept.{Increasing, StandsFor}
use agyary.Memorial.Sorted.{build_schedule-Increasing, build_schedule-covers}

abbrev death : Death
death = record { roj = 9; mah = 12; year = pos 1395 }

start_run : start_of death ≡ ok (pos 338, pos 1395)
unfolding is_leap days_in_month days_before_month days_before_year to_ordinal year_of month_of
    split_ordinal from_ordinal add_days make_date leb_date ltb_date day_of_year_from_mah_roj
    day_of_year_from_gatha decompose_day_of_year build_parsi_date shenshai_from_gregorian
    shenshai_to_gregorian kadmi_from_gregorian kadmi_to_gregorian fasli_cycle_start_year
    is_leap_year fasli_max_gatha fasli_from_gregorian fasli_to_gregorian gregorian_to_parsi
    requested_day to_gregorian parsi_to_gregorian named_day index_of parab_roj_for_mah cycle_ordinal
    start_of count_from by_roj_and_mah on_date literal position gatha_day pairs collect parab_mahs
    parab_observance parab_observances too_early next_dates fravardin_roj_observances
    birthday_observances key_eq named_span span_of_deci rank_of canon resolve_monthly resolve_yearly
    resolve_span resolve first_valid claimed claim overwrite claim_literal has_ten claim_opening
    claim_named claim_all_named claim_yearly claim_monthly series_keys key_in insert_sorted sorted
    not_before keep_best best_of kept_schedule known_opening all_named parabs_fit birthday_fits
    request_fits date_of_death series_start is_past resolve_wanted years_gone from_start
    chosen_parabs chosen_fravardin chosen_birthday ranked_choices all_choices build_schedule ◌+ℤ◌
    ◌-ℤ◌ ◌*ℤ◌ floor_div floor_mod all_below
start_run = refl

thirtieth_run : count_from death 31 ≡ ok (9, 1, pos 1396)
unfolding is_leap days_in_month days_before_month days_before_year to_ordinal year_of month_of
    split_ordinal from_ordinal add_days make_date leb_date ltb_date day_of_year_from_mah_roj
    day_of_year_from_gatha decompose_day_of_year build_parsi_date shenshai_from_gregorian
    shenshai_to_gregorian kadmi_from_gregorian kadmi_to_gregorian fasli_cycle_start_year
    is_leap_year fasli_max_gatha fasli_from_gregorian fasli_to_gregorian gregorian_to_parsi
    requested_day to_gregorian parsi_to_gregorian named_day index_of parab_roj_for_mah cycle_ordinal
    start_of count_from by_roj_and_mah on_date literal position gatha_day pairs collect parab_mahs
    parab_observance parab_observances too_early next_dates fravardin_roj_observances
    birthday_observances key_eq named_span span_of_deci rank_of canon resolve_monthly resolve_yearly
    resolve_span resolve first_valid claimed claim overwrite claim_literal has_ten claim_opening
    claim_named claim_all_named claim_yearly claim_monthly series_keys key_in insert_sorted sorted
    not_before keep_best best_of kept_schedule known_opening all_named parabs_fit birthday_fits
    request_fits date_of_death series_start is_past resolve_wanted years_gone from_start
    chosen_parabs chosen_fravardin chosen_birthday ranked_choices all_choices build_schedule ◌+ℤ◌
    ◌-ℤ◌ ◌*ℤ◌ floor_div floor_mod all_below
thirtieth_run = refl

position-count_from_example :
    (1 ≤ 9)
    × (9 ≤ 30)
    × (1 ≤ 1)
    × (1 ≤ 12)
    × (position 9 1 (pos 1396) (pos 338) (pos 1395) ≡ pos 31)
position-count_from_example =
    position-count_from death 31 (pos 338) (pos 1395) start_run 9 1 (pos 1396) thirtieth_run

count_from-months_example : count_from death (1 + 30 * 2) ≡ ok (9, 2, pos 1395 +ℤ pos 1)
count_from-months_example =
    count_from-months death 2 (omega arith, omega arith, omega arith, omega arith)

start_of-IsDeath_example : ((r : ℤ × ℤ) × (start_of death ≡ ok r)) ↔ IsDeath death
start_of-IsDeath_example = start_of-IsDeath death

abbrev request : Request
request = record {
  death = death;
  system = shenshai;
  opening = tenth_only;
  day_counts = 30 ∷ [];
  monthly_months = 0;
  yearly_years = 0;
  parabs = none;
  parab_years = 0;
  birthday = none;
  birthday_years = 0;
  start_from = none;
  fravardin_roj_months = 0;
  parab_count = 0;
  plain_labels = false;
}

abbrev tenth : Observance
tenth = record {
  code = day_code 10;
  label = named_label "Dasmi";
  day_number = pos 10;
  roj = some 18;
  mah = some 12;
  year = pos 1395;
  gregorian_date = date 2026 7 28;
  gatha_index = none;
}

abbrev masiso : Observance
masiso = record {
  code = day_code 30;
  label = named_label "Masiso";
  day_number = pos 31;
  roj = some 9;
  mah = some 1;
  year = pos 1396;
  gregorian_date = date 2026 8 23;
  gatha_index = none;
}

choices_run : all_choices request ≡ ok ((0, tenth) ∷ (2, masiso) ∷ [])
unfolding is_leap days_in_month days_before_month days_before_year to_ordinal year_of month_of
    split_ordinal from_ordinal add_days make_date leb_date ltb_date day_of_year_from_mah_roj
    day_of_year_from_gatha decompose_day_of_year build_parsi_date shenshai_from_gregorian
    shenshai_to_gregorian kadmi_from_gregorian kadmi_to_gregorian fasli_cycle_start_year
    is_leap_year fasli_max_gatha fasli_from_gregorian fasli_to_gregorian gregorian_to_parsi
    requested_day to_gregorian parsi_to_gregorian named_day index_of parab_roj_for_mah cycle_ordinal
    start_of count_from by_roj_and_mah on_date literal position gatha_day pairs collect parab_mahs
    parab_observance parab_observances too_early next_dates fravardin_roj_observances
    birthday_observances key_eq named_span span_of_deci rank_of canon resolve_monthly resolve_yearly
    resolve_span resolve first_valid claimed claim overwrite claim_literal has_ten claim_opening
    claim_named claim_all_named claim_yearly claim_monthly series_keys key_in insert_sorted sorted
    not_before keep_best best_of kept_schedule known_opening all_named parabs_fit birthday_fits
    request_fits date_of_death series_start is_past resolve_wanted years_gone from_start
    chosen_parabs chosen_fravardin chosen_birthday ranked_choices all_choices build_schedule ◌+ℤ◌
    ◌-ℤ◌ ◌*ℤ◌ floor_div floor_mod all_below
choices_run = refl

schedule_run : build_schedule request ≡ ok (tenth ∷ masiso ∷ [])
unfolding is_leap days_in_month days_before_month days_before_year to_ordinal year_of month_of
    split_ordinal from_ordinal add_days make_date leb_date ltb_date day_of_year_from_mah_roj
    day_of_year_from_gatha decompose_day_of_year build_parsi_date shenshai_from_gregorian
    shenshai_to_gregorian kadmi_from_gregorian kadmi_to_gregorian fasli_cycle_start_year
    is_leap_year fasli_max_gatha fasli_from_gregorian fasli_to_gregorian gregorian_to_parsi
    requested_day to_gregorian parsi_to_gregorian named_day index_of parab_roj_for_mah cycle_ordinal
    start_of count_from by_roj_and_mah on_date literal position gatha_day pairs collect parab_mahs
    parab_observance parab_observances too_early next_dates fravardin_roj_observances
    birthday_observances key_eq named_span span_of_deci rank_of canon resolve_monthly resolve_yearly
    resolve_span resolve first_valid claimed claim overwrite claim_literal has_ten claim_opening
    claim_named claim_all_named claim_yearly claim_monthly series_keys key_in insert_sorted sorted
    not_before keep_best best_of kept_schedule known_opening all_named parabs_fit birthday_fits
    request_fits date_of_death series_start is_past resolve_wanted years_gone from_start
    chosen_parabs chosen_fravardin chosen_birthday ranked_choices all_choices build_schedule ◌+ℤ◌
    ◌-ℤ◌ ◌*ℤ◌ floor_div floor_mod all_below
schedule_run = refl

build_schedule-Increasing_example : Increasing (tenth ∷ masiso ∷ [])
build_schedule-Increasing_example =
    build_schedule-Increasing request (tenth ∷ masiso ∷ []) schedule_run

build_schedule-covers_example :
    (q : Ranked) × Among q ((0, tenth) ∷ (2, masiso) ∷ [])
    × StandsFor (2, masiso) q
    × Among q.1 (tenth ∷ masiso ∷ [])
build_schedule-covers_example =
    build_schedule-covers request (tenth ∷ masiso ∷ []) ((0, tenth) ∷ (2, masiso) ∷ []) (2, masiso)
      schedule_run choices_run (inr (inl refl))
