-- ===== src/Tests/Boards.antt =====
-- A mobed who holds the second geh of 19 July 2026, another booking, and the days that are offered.
use agyary.Machis.Booking.{
  compute_machi_alternatives, each_in_farmayeshne, in_farmayeshne, offer, Board, Link,
  violates_index, clashes, same_number, same_year, machi_request, create_machi_request,
  insert_machi, normalize_machi_names, booked, slot_keys, confirm, book_machi_slot,
  rebook_machi_slot, finish_edit, replace_ceremony_names, drop_names, save_machi, attach_names,
  ensure_agyary_customer, mark_first, move_machi,
}
use agyary.Engine.{
  fasli_cycle_start_year, fasli_from_gregorian, fasli_max_gatha, is_leap_year, kadmi_from_gregorian,
  CalendarSystem, shenshai, gregorian_to_parsi, shenshai_from_gregorian, build_parsi_date,
  decompose_day_of_year,
}
use agyary.Dates.{
  make_date, Date, date, add_days, to_ordinal, days_before_year, days_before_month, is_leap,
  split_ordinal, year_of, month_of, days_in_month,
}
use agyary.Common.{
  ℕ, ◌≡◌, ◌↔◌, refl, inl, Option, some, List, [], ◌∷◌, true, number_in, Result, ok, ℤ, pos, arith,
  floor_mod, floor_div, ◌+ℤ◌, ◌-ℤ◌,
}
use agyary.Dates.Ordinal.{IsDate}
use agyary.Machis.{
  Machi, patet, confirmed, machi_ceremony_datetime, is_after, drop_elapsed_gehs, still_ahead,
  available_gehs, booked_gehs, not_in, same_day, is_on, parsi_slot_fields, slot_option, SlotOption,
  next_days_with_geh, geh_if_free, scan_days, geh_start, civil_date, at_start, releases_slot,
  owner_or_zero,
}
use agyary.Machis.Single.{Sound, Answer, rivals}
use agyary.Machis.Keys.{clashes_iff}
use agyary.Machis.Outcome.{book_machi_slot-Sound, book_machi_slot-Answer, book_machi_slot-succeeds}
use agyary.Machis.Rebook.{rebook_machi_slot-Sound}
use agyary.Machis.Scan.{every_offer}

abbrev calendar : ℕ → CalendarSystem
calendar agyary = shenshai

abbrev day : Date
day = date 2026 7 19

abbrev now : Date × ℕ
now = (date 2026 7 18, 30000)

abbrev key : Option ℕ × Option ℕ × ℤ
key = (some 9, some 12, pos 1395)

abbrev held : Machi
held = record (machi_request 0 1 7 key 2 day (day, 46800) patet (some 5)) { status = confirmed }

abbrev links : List Link
links = record { agyary_id = 1; customer_id = 7; first_booking_at = some now } ∷ []

abbrev board : Board
board = record { machis = held ∷ []; names = []; customers = links; next_id = 1 }

day-IsDate : IsDate day
unfolding is_leap days_in_month
day-IsDate = record { year_in = omega arith; month_in = omega arith; day_in = omega arith }

key_run : slot_keys shenshai day ≡ ok key
unfolding slot_keys gregorian_to_parsi shenshai_from_gregorian build_parsi_date
    decompose_day_of_year floor_mod ◌-ℤ◌ to_ordinal days_before_year days_before_month is_leap
    parsi_slot_fields ◌+ℤ◌ floor_div
key_run = refl

board-Sound : Sound calendar board
board-Sound = record { keyed = (key_run, tt); apart = (tt, tt); below = (omega arith, tt) }

free_run :
    drop_elapsed_gehs (available_gehs 1 day (some 5) board.machis) day now ≡ ok (1 ∷ 3 ∷ 4 ∷ 5 ∷ [])
unfolding drop_elapsed_gehs same_day available_gehs not_in number_in booked_gehs is_on releases_slot
    owner_or_zero
free_run = refl

start_run : machi_ceremony_datetime day 3 ≡ ok (day, 55800)
unfolding machi_ceremony_datetime at_start geh_start civil_date
start_run = refl

in_run : number_in 3 (1 ∷ 3 ∷ 4 ∷ 5 ∷ []) ≡ true
unfolding number_in
in_run = refl

abbrev new_machi : Machi
new_machi = record (machi_request 1 1 7 key 3 day (day, 55800) patet (some 5)) {
  status = confirmed;
}

abbrev after : Board
after = record { machis = new_machi ∷ held ∷ []; names = []; customers = links; next_id = 2 }

book_run :
    book_machi_slot calendar now 1 7 3 day patet [] (some 5) board board
    ≡ ok (after, booked new_machi)
unfolding book_machi_slot slot_keys gregorian_to_parsi shenshai_from_gregorian build_parsi_date
    decompose_day_of_year floor_mod ◌-ℤ◌ to_ordinal days_before_year days_before_month is_leap
    drop_elapsed_gehs same_day number_in available_gehs not_in booked_gehs floor_div ◌+ℤ◌ add_days
    days_in_month make_date month_of split_ordinal year_of fasli_cycle_start_year
    fasli_from_gregorian fasli_max_gatha is_leap_year kadmi_from_gregorian attach_names clashes
    compute_machi_alternatives confirm create_machi_request each_in_farmayeshne
    ensure_agyary_customer mark_first in_farmayeshne insert_machi normalize_machi_names offer
    same_number same_year save_machi violates_index at_start civil_date geh_if_free geh_start
    is_after is_on machi_ceremony_datetime next_days_with_geh owner_or_zero parsi_slot_fields
    releases_slot scan_days still_ahead
book_run = refl

book_machi_slot-Sound_example : Sound calendar after
book_machi_slot-Sound_example =
    book_machi_slot-Sound calendar now 1 7 3 day patet [] (some 5) board board after
      (booked new_machi) board-Sound book_run

book_machi_slot-Answer_example : Answer 3 day (some 5) board after (booked new_machi)
book_machi_slot-Answer_example =
    book_machi_slot-Answer calendar now 1 7 3 day patet [] (some 5) board board after
      (booked new_machi) board-Sound book_run

book_machi_slot-succeeds_example :
    (later : Board) × (m : Machi) × (book_machi_slot calendar now 1 7 3 day patet []
        (some 5)
        board
        board
      ≡ ok (later, booked m))
book_machi_slot-succeeds_example =
    book_machi_slot-succeeds calendar now 1 7 3 day patet [] (some 5) board key (day, 55800)
      (1 ∷ 3 ∷ 4 ∷ 5 ∷ []) board-Sound day-IsDate (day-IsDate, tt) key_run start_run free_run in_run

clashes_iff_example : (clashes held new_machi ≡ true) ↔ (rivals held new_machi ≡ true)
clashes_iff_example = clashes_iff calendar held new_machi day-IsDate day-IsDate key_run key_run

abbrev moved_machi : Machi
moved_machi = record held { geh = 4; ceremony_datetime = (day, 68400) }

abbrev moved : Board
moved = record board { machis = moved_machi ∷ [] }

move_run :
    rebook_machi_slot calendar now held 4 day patet [] board board ≡ ok (moved, booked moved_machi)
unfolding rebook_machi_slot slot_keys gregorian_to_parsi shenshai_from_gregorian build_parsi_date
    decompose_day_of_year floor_mod ◌-ℤ◌ to_ordinal days_before_year days_before_month is_leap
    same_day drop_elapsed_gehs number_in available_gehs not_in booked_gehs floor_div ◌+ℤ◌ add_days
    days_in_month make_date month_of split_ordinal year_of fasli_cycle_start_year
    fasli_from_gregorian fasli_max_gatha is_leap_year kadmi_from_gregorian attach_names clashes
    compute_machi_alternatives drop_names each_in_farmayeshne finish_edit in_farmayeshne move_machi
    normalize_machi_names offer replace_ceremony_names same_number same_year save_machi
    violates_index at_start civil_date geh_if_free geh_start is_after is_on machi_ceremony_datetime
    next_days_with_geh owner_or_zero parsi_slot_fields releases_slot scan_days still_ahead
move_run = refl

rebook_machi_slot-Sound_example : Sound calendar moved
rebook_machi_slot-Sound_example =
    rebook_machi_slot-Sound calendar now [] patet moved (booked moved_machi) held 4 day board board
      board-Sound (inl refl) move_run

abbrev offers : List SlotOption
offers =
    slot_option (some 10, some 12, pos 1395) 2 (date 2026 7 20)
    ∷ slot_option (some 11, some 12, pos 1395) 2 (date 2026 7 21)
    ∷ []

offers_run : next_days_with_geh 1 shenshai day 2 2 (some 5) board.machis ≡ ok offers
unfolding next_days_with_geh scan_days add_days ◌+ℤ◌ to_ordinal days_before_year days_before_month
    is_leap gregorian_to_parsi shenshai_from_gregorian build_parsi_date decompose_day_of_year
    floor_mod ◌-ℤ◌ split_ordinal year_of month_of geh_if_free floor_div number_in days_in_month
    make_date fasli_cycle_start_year fasli_from_gregorian fasli_max_gatha is_leap_year
    kadmi_from_gregorian booked_gehs is_on owner_or_zero parsi_slot_fields releases_slot same_day
offers_run = refl

-- The offers of a scan, where it returns.
abbrev offers_of : Result (List SlotOption) → List SlotOption
offers_of (ok found) = found
offers_of _ = []

abbrev all_offers : List SlotOption
all_offers = offers_of (every_offer shenshai day (geh_if_free 1 2 (some 5) board.machis) 1 90)

all_run : every_offer shenshai day (geh_if_free 1 2 (some 5) board.machis) 1 90 ≡ ok all_offers
unfolding every_offer add_days ◌+ℤ◌ to_ordinal days_before_year days_before_month is_leap slot_keys
    gregorian_to_parsi shenshai_from_gregorian build_parsi_date decompose_day_of_year floor_mod ◌-ℤ◌
    split_ordinal year_of month_of
all_run = refl
