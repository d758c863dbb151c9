-- ===== src/Tests/Calendar.antt =====
-- The conversions at the anchor of the calendars, 19 July 2026, and at a sixth Fasli Gatha day.
use agyary.Common.{
  floor_mod, floor_div, ◌+ℤ◌, ◌*ℤ◌, ◌-ℤ◌, ◌≤◌, ◌≡◌, refl, some, none, true, pos, ok, arith,
}
use agyary.Dates.{
  ltb_date, days_before_year, days_before_month, from_ordinal, add_days, split_ordinal, year_of,
  make_date, month_of, Date, date, is_leap, days_in_month, to_ordinal, leb_date,
}
use agyary.Dates.Ordinal.{IsDate}
use agyary.Engine.{
  fasli_from_gregorian, fasli_cycle_start_year, day_of_year_from_gatha, fasli_to_gregorian,
  fasli_max_gatha, is_leap_year, shenshai_from_gregorian, build_parsi_date, decompose_day_of_year,
  requested_day, day_of_year_from_mah_roj, kadmi_to_gregorian, shenshai_to_gregorian, shenshai,
  kadmi, fasli, ParsiDate, parsi_date, gregorian_to_parsi, parsi_to_gregorian, to_gregorian,
}
use agyary.Engine.RoundTrip.{
  parsi_to_gregorian-gregorian_to_parsi, gregorian_to_parsi-parsi_to_gregorian,
  gregorian_to_parsi-gatha, gregorian_to_parsi-Shape, Shape,
}
use agyary.Engine.Occurrence.{
  candidates, keep_candidate, years_from, earliest, earliest_of, nearest_occurrence,
}
use agyary.Engine.Soonest.{nearest_occurrence-soonest}

abbrev today : Date
today = date 2026 7 19

today-IsDate : IsDate today
unfolding is_leap days_in_month
today-IsDate = record { year_in = omega arith; month_in = omega arith; day_in = omega arith }

abbrev anchor : ParsiDate
anchor = parsi_date shenshai (pos 1395) today (some 12, some 9, none)

anchor_run : gregorian_to_parsi today shenshai ≡ ok anchor
unfolding gregorian_to_parsi shenshai_from_gregorian build_parsi_date decompose_day_of_year
    floor_mod ◌-ℤ◌ to_ordinal days_before_year days_before_month is_leap ◌+ℤ◌ floor_div
anchor_run = refl

parsi_to_gregorian-gregorian_to_parsi_example :
    parsi_to_gregorian (pos 1395) shenshai (some 12) (some 9) none ≡ ok today
parsi_to_gregorian-gregorian_to_parsi_example =
    parsi_to_gregorian-gregorian_to_parsi shenshai today anchor today-IsDate anchor_run

gregorian_to_parsi-Shape_example : Shape anchor
gregorian_to_parsi-Shape_example =
    gregorian_to_parsi-Shape shenshai today anchor today-IsDate anchor_run

day_run : parsi_to_gregorian (pos 1395) kadmi (some 1) (some 9) none ≡ ok (date 2025 7 24)
unfolding parsi_to_gregorian gregorian_to_parsi requested_day day_of_year_from_mah_roj
    day_of_year_from_gatha to_gregorian kadmi_to_gregorian shenshai_to_gregorian fasli_to_gregorian
    fasli_max_gatha is_leap_year from_ordinal ◌+ℤ◌ ◌*ℤ◌ ◌-ℤ◌ to_ordinal days_before_year
    days_before_month is_leap add_days split_ordinal year_of floor_mod days_in_month make_date
    month_of
day_run = refl

gregorian_to_parsi-parsi_to_gregorian_example :
    gregorian_to_parsi (date 2025 7 24) kadmi
    ≡ ok (parsi_date kadmi (pos 1395) (date 2025 7 24) (some 1, some 9, none))
gregorian_to_parsi-parsi_to_gregorian_example =
    gregorian_to_parsi-parsi_to_gregorian kadmi (pos 1395) (date 2025 7 24) 1 9 day_run

gatha_run : parsi_to_gregorian (pos 1397) fasli none none (some 6) ≡ ok (date 2028 3 20)
unfolding parsi_to_gregorian gregorian_to_parsi requested_day day_of_year_from_mah_roj
    day_of_year_from_gatha to_gregorian kadmi_to_gregorian shenshai_to_gregorian fasli_to_gregorian
    fasli_max_gatha is_leap_year from_ordinal ◌+ℤ◌ ◌*ℤ◌ ◌-ℤ◌ to_ordinal days_before_year
    days_before_month is_leap add_days split_ordinal year_of floor_mod days_in_month make_date
    month_of
gatha_run = refl

gregorian_to_parsi-gatha_example :
    gregorian_to_parsi (date 2028 3 20) fasli
    ≡ ok (parsi_date fasli (pos 1397) (date 2028 3 20) (none, none, some 6))
gregorian_to_parsi-gatha_example =
    gregorian_to_parsi-gatha fasli (pos 1397) (date 2028 3 20) 6 gatha_run

leap_gatha_run : parsi_to_gregorian (pos 1401) fasli none none (some 6) ≡ ok (date 2032 3 20)
unfolding parsi_to_gregorian gregorian_to_parsi requested_day day_of_year_from_mah_roj
    day_of_year_from_gatha to_gregorian kadmi_to_gregorian shenshai_to_gregorian fasli_to_gregorian
    fasli_max_gatha is_leap_year from_ordinal ◌+ℤ◌ ◌*ℤ◌ ◌-ℤ◌ to_ordinal days_before_year
    days_before_month is_leap add_days split_ordinal year_of floor_mod days_in_month make_date
    month_of
leap_gatha_run = refl

soonest_run : nearest_occurrence fasli none none (some 6) (date 2025 1 1) ≡ ok (date 2028 3 20)
unfolding parsi_to_gregorian gregorian_to_parsi requested_day day_of_year_from_mah_roj
    day_of_year_from_gatha to_gregorian kadmi_to_gregorian shenshai_to_gregorian fasli_to_gregorian
    fasli_max_gatha is_leap_year from_ordinal ◌+ℤ◌ ◌*ℤ◌ ◌-ℤ◌ to_ordinal days_before_year
    days_before_month is_leap add_days split_ordinal year_of floor_mod days_in_month make_date
    month_of nearest_occurrence candidates keep_candidate years_from earliest earliest_of
    fasli_from_gregorian fasli_cycle_start_year build_parsi_date decompose_day_of_year ltb_date
    leb_date
soonest_run = refl

reference-IsDate : IsDate (date 2025 1 1)
unfolding is_leap days_in_month
reference-IsDate = record { year_in = omega arith; month_in = omega arith; day_in = omega arith }

later_fits : leb_date (date 2025 1 1) (date 2032 3 20) ≡ true
unfolding leb_date to_ordinal days_before_year days_before_month is_leap
later_fits = refl

nearest_occurrence-soonest_example : to_ordinal (date 2028 3 20) ≤ to_ordinal (date 2032 3 20)
nearest_occurrence-soonest_example =
    nearest_occurrence-soonest fasli none none (some 6) (date 2025 1 1) (date 2028 3 20) (pos 1401)
      (date 2032 3 20) reference-IsDate soonest_run leap_gatha_run later_fits

first_day_run : to_gregorian fasli (pos 1397) 366 ≡ ok (date 2028 3 20)
unfolding parsi_to_gregorian gregorian_to_parsi requested_day day_of_year_from_mah_roj
    day_of_year_from_gatha to_gregorian kadmi_to_gregorian shenshai_to_gregorian fasli_to_gregorian
    fasli_max_gatha is_leap_year from_ordinal ◌+ℤ◌ ◌*ℤ◌ ◌-ℤ◌ to_ordinal days_before_year
    days_before_month is_leap add_days split_ordinal year_of floor_mod days_in_month make_date
    month_of
first_day_run = refl

next_day_run : to_gregorian fasli (pos 1398) 1 ≡ ok (date 2028 3 21)
unfolding parsi_to_gregorian gregorian_to_parsi requested_day day_of_year_from_mah_roj
    day_of_year_from_gatha to_gregorian kadmi_to_gregorian shenshai_to_gregorian fasli_to_gregorian
    fasli_max_gatha is_leap_year from_ordinal ◌+ℤ◌ ◌*ℤ◌ ◌-ℤ◌ to_ordinal days_before_year
    days_before_month is_leap add_days split_ordinal year_of floor_mod days_in_month make_date
    month_of
next_day_run = refl

same_year_run : to_gregorian fasli (pos 1397) 365 ≡ ok (date 2028 3 19)
unfolding parsi_to_gregorian gregorian_to_parsi requested_day day_of_year_from_mah_roj
    day_of_year_from_gatha to_gregorian kadmi_to_gregorian shenshai_to_gregorian fasli_to_gregorian
    fasli_max_gatha is_leap_year from_ordinal ◌+ℤ◌ ◌*ℤ◌ ◌-ℤ◌ to_ordinal days_before_year
    days_before_month is_leap add_days split_ordinal year_of floor_mod days_in_month make_date
    month_of
same_year_run = refl
