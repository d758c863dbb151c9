-- ===== src/Tests/Repeating.antt =====
-- A machi of 19 July 2026 that repeats each month, three times in all.
use agyary.Common.{
  number_in, ◌+ℤ◌, ◌-ℤ◌, ◌*ℤ◌, floor_div, floor_mod, ℕ, ◌≡◌, refl, Option, some, List, [], ◌∷◌, All,
  Bool, true, false, ok, ℤ, pos, arith,
}
use agyary.Repeats.Generate.{
  names_of, anchor_of, after_booking, by_day, unless, book_round, rounds, save_rule, keep_run,
  needs_more, is_owned, rules_due, generate_from, generate_for, generate_all, Diary, Generated,
  find_machi, until_end, generate_recurrence_instances, ensure_recurrences_generated,
}
use agyary.Repeats.{
  next_parsi_month, step_for, and_then, last_or, same_roj_every_mah, Rule, Tie, series_dates,
  last_occurrence, steps, max_generate_months, place_of,
}
use agyary.Machis.Booking.{
  normalize_machi_names, attach_names, mark_first, ensure_agyary_customer, same_number, clashes,
  violates_index, insert_machi, create_machi_request, save_machi, confirm, book_machi_slot, Board,
  Link, machi_request, slot_keys,
}
use agyary.Machis.{
  same_day, geh_start, civil_date, at_start, machi_ceremony_datetime, drop_elapsed_gehs, is_on,
  booked_gehs, not_in, available_gehs, parsi_slot_fields, Machi, patet, confirmed,
}
use agyary.Engine.{
  day_of_year_from_mah_roj, decompose_day_of_year, build_parsi_date, shenshai_from_gregorian,
  shenshai_to_gregorian, gregorian_to_parsi, requested_day, to_gregorian, parsi_to_gregorian,
  CalendarSystem, shenshai,
}
use agyary.Dates.{
  is_leap, days_before_month, days_before_year, to_ordinal, year_of, month_of, split_ordinal,
  from_ordinal, ltb_date, Date, date, leb_date,
}
use agyary.Machis.Single.{Sound}
use agyary.Repeats.Kept.{ensure_recurrences_generated-Sound}
use agyary.Repeats.Due.{up_to, Generates, generate_recurrence_instances-Generates}
use agyary.Repeats.Places.{occurrence}
use agyary.Repeats.Ends.{WithinCount, generate_recurrence_instances-WithinCount}

abbrev calendar : ℕ → CalendarSystem
calendar agyary = shenshai

abbrev day : Date
day = date 2026 7 19

abbrev now : Date × ℕ
now = (date 2026 7 18, 30000)

abbrev key : Option ℕ × Option ℕ × ℤ
key = (some 9, some 12, pos 1395)

abbrev held : Machi
held = record (machi_request 0 1 7 key 2 day (day, 46800) patet (some 5)) { status = confirmed }

abbrev links : List Link
links = record { agyary_id = 1; customer_id = 7; first_booking_at = some now } ∷ []

abbrev board : Board
board = record { machis = held ∷ []; names = []; customers = links; next_id = 1 }

abbrev rule : Rule
rule = record {
  id = 1;
  agyary_id = 1;
  source_machi_id = 0;
  pattern = same_roj_every_mah;
  end_count = some 3;
  end_date = some (date 2026 9 22);
  last_generated_until = some day;
  is_active = true;
}

abbrev diary : Diary
diary = record {
  board = board;
  rules = rule ∷ [];
  ties = record { machi_id = 0; rule_id = 1; is_recurring_instance = false } ∷ [];
  next_rule_id = 2;
}

abbrev alone : ℕ → Board → Board
alone round b = b

abbrev everybody : ℕ → Bool
everybody id = true

abbrev second : Machi
second =
    record (machi_request 1 1 7 (some 9, some 1, pos 1396) 2 (date 2026 8 23)
      (date 2026 8 23, 46800) patet (some 5)) { status = confirmed }

abbrev third : Machi
third =
    record (machi_request 2 1 7 (some 9, some 2, pos 1396) 2 (date 2026 9 22)
      (date 2026 9 22, 46800) patet (some 5)) { status = confirmed }

abbrev tie : ℕ → Bool → Tie
tie id instance_of = record { machi_id = id; rule_id = 1; is_recurring_instance = instance_of }

abbrev after : Diary
after = record {
  board = record {
    machis = third ∷ second ∷ held ∷ [];
    names = [];
    customers = links;
    next_id = 3;
  };
  rules = record rule { last_generated_until = some (date 2026 9 22) } ∷ [];
  ties = tie 2 true ∷ tie 1 true ∷ tie 0 false ∷ [];
  next_rule_id = 2;
}

abbrev made : Generated
made = record { diary = after; created = 2; skipped = [] }

abbrev days : List Date
days =
    date 2026 8 23
    ∷ date 2026 9 22
    ∷ date 2026 10 22
    ∷ date 2026 11 21
    ∷ date 2026 12 21
    ∷ date 2027 1 20
    ∷ date 2027 2 19
    ∷ date 2027 3 21
    ∷ date 2027 4 20
    ∷ date 2027 5 20
    ∷ date 2027 6 19
    ∷ date 2027 7 19
    ∷ date 2027 8 23
    ∷ date 2027 9 22
    ∷ date 2027 10 22
    ∷ date 2027 11 21
    ∷ date 2027 12 21
    ∷ date 2028 1 20
    ∷ date 2028 2 19
    ∷ date 2028 3 20
    ∷ date 2028 4 19
    ∷ date 2028 5 19
    ∷ date 2028 6 18
    ∷ date 2028 7 18
    ∷ date 2028 8 22
    ∷ date 2028 9 21
    ∷ date 2028 10 21
    ∷ date 2028 11 20
    ∷ date 2028 12 20
    ∷ date 2029 1 19
    ∷ date 2029 2 18
    ∷ date 2029 3 20
    ∷ date 2029 4 19
    ∷ date 2029 5 19
    ∷ date 2029 6 18
    ∷ date 2029 7 18
    ∷ []

key_run : slot_keys shenshai day ≡ ok key
unfolding ◌+ℤ◌ ◌-ℤ◌ floor_div floor_mod is_leap days_before_month days_before_year to_ordinal
    decompose_day_of_year build_parsi_date shenshai_from_gregorian gregorian_to_parsi
    parsi_slot_fields slot_keys
key_run = refl

end_run :
    last_occurrence shenshai same_roj_every_mah (some 9) (12, pos 1395) 3
    ≡ ok (some (date 2026 9 22))
unfolding ◌+ℤ◌ ◌-ℤ◌ ◌*ℤ◌ is_leap days_before_month days_before_year to_ordinal year_of month_of
    split_ordinal from_ordinal day_of_year_from_mah_roj shenshai_to_gregorian requested_day
    to_gregorian parsi_to_gregorian next_parsi_month step_for and_then last_or series_dates
    last_occurrence
end_run = refl

series_run :
    series_dates shenshai same_roj_every_mah (some 9) (12, pos 1395) max_generate_months ≡ ok days
unfolding ◌+ℤ◌ ◌-ℤ◌ ◌*ℤ◌ is_leap days_before_month days_before_year to_ordinal year_of month_of
    split_ordinal from_ordinal day_of_year_from_mah_roj shenshai_to_gregorian requested_day
    to_gregorian parsi_to_gregorian next_parsi_month step_for and_then series_dates
series_run = refl

first_run : occurrence shenshai same_roj_every_mah (some 9) (12, pos 1395) 0 ≡ ok day
unfolding ◌+ℤ◌ ◌-ℤ◌ ◌*ℤ◌ is_leap days_before_month days_before_year to_ordinal year_of month_of
    split_ordinal from_ordinal day_of_year_from_mah_roj shenshai_to_gregorian requested_day
    to_gregorian parsi_to_gregorian steps
first_run = refl

made_run :
    generate_recurrence_instances calendar now alone 1 everybody rule (date 2026 12 31) diary
    ≡ ok made
unfolding ◌+ℤ◌ ◌-ℤ◌ ◌*ℤ◌ floor_div floor_mod is_leap days_before_month days_before_year to_ordinal
    year_of month_of split_ordinal from_ordinal leb_date ltb_date day_of_year_from_mah_roj
    decompose_day_of_year build_parsi_date shenshai_from_gregorian shenshai_to_gregorian
    gregorian_to_parsi requested_day to_gregorian parsi_to_gregorian same_day geh_start civil_date
    at_start machi_ceremony_datetime drop_elapsed_gehs is_on booked_gehs not_in available_gehs
    parsi_slot_fields normalize_machi_names attach_names mark_first ensure_agyary_customer
    same_number clashes violates_index insert_machi create_machi_request slot_keys save_machi
    confirm book_machi_slot next_parsi_month step_for place_of find_machi names_of until_end
    anchor_of after_booking by_day unless book_round rounds save_rule keep_run generate_from
    generate_for generate_recurrence_instances number_in
made_run = refl

ahead_run : leb_date (until_end rule.end_date (date 2026 12 31)) day ≡ false
unfolding until_end ltb_date leb_date to_ordinal days_before_year days_before_month is_leap
ahead_run = refl

source_run : find_machi 0 board.machis ≡ some held
unfolding find_machi
source_run = refl

place_run : place_of key ≡ ok (12, pos 1395)
unfolding place_of
place_run = refl

steps_run : place_of key ≡ ok (steps same_roj_every_mah 0 (12, pos 1395))
unfolding place_of steps
steps_run = refl

steps_series_run :
    series_dates shenshai same_roj_every_mah
      (some 9)
      (steps same_roj_every_mah 0 (12, pos 1395))
      max_generate_months
    ≡ ok days
unfolding steps
steps_series_run = series_run

board-Sound : Sound calendar board
board-Sound = record { keyed = (key_run, tt); apart = (tt, tt); below = (omega arith, tt) }

generate_recurrence_instances-Generates_example :
    Generates calendar now alone 1 rule held day diary made
      (up_to (until_end rule.end_date (date 2026 12 31)) days)
unfolding anchor_of
generate_recurrence_instances-Generates_example =
    generate_recurrence_instances-Generates calendar now alone 1 everybody (λ round b s. s) rule
      held (date 2026 12 31) diary made key (12, pos 1395) days board-Sound source_run refl
      ahead_run key_run place_run series_run made_run

generate_recurrence_instances-WithinCount_example :
    (due : List Date) × Generates calendar now alone 1 rule held day diary made due
    × All (WithinCount shenshai same_roj_every_mah (some 9) (12, pos 1395) 3) due
unfolding anchor_of
generate_recurrence_instances-WithinCount_example =
    generate_recurrence_instances-WithinCount calendar now alone 1 everybody rule held
      (date 2026 12 31) (date 2026 9 22) diary made key (12, pos 1395) 0 3 days (λ round b s. s)
      board-Sound source_run refl ahead_run key_run steps_run steps_series_run refl end_run
      first_run made_run

ensure_run :
    ensure_recurrences_generated calendar now alone 1 everybody (date 2026 12 31) (some 5) diary
    ≡ ok (after, 2)
unfolding ◌+ℤ◌ ◌-ℤ◌ ◌*ℤ◌ floor_div floor_mod is_leap days_before_month days_before_year to_ordinal
    year_of month_of split_ordinal from_ordinal leb_date ltb_date day_of_year_from_mah_roj
    decompose_day_of_year build_parsi_date shenshai_from_gregorian shenshai_to_gregorian
    gregorian_to_parsi requested_day to_gregorian parsi_to_gregorian same_day geh_start civil_date
    at_start machi_ceremony_datetime drop_elapsed_gehs is_on booked_gehs not_in available_gehs
    parsi_slot_fields normalize_machi_names attach_names mark_first ensure_agyary_customer
    same_number clashes violates_index insert_machi create_machi_request slot_keys save_machi
    confirm book_machi_slot next_parsi_month step_for place_of find_machi names_of until_end
    anchor_of after_booking by_day unless book_round rounds save_rule keep_run needs_more is_owned
    rules_due generate_from generate_for generate_recurrence_instances generate_all
    ensure_recurrences_generated number_in
ensure_run = refl

ensure_recurrences_generated-Sound_example : Sound calendar after.board
ensure_recurrences_generated-Sound_example =
    ensure_recurrences_generated-Sound calendar now alone 1 everybody (λ round b s. s)
      (date 2026 12 31) (some 5) diary after 2 board-Sound ensure_run
