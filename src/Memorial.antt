-- ===== src/Memorial.antt =====
-- calendar/memorial.py: the observances that follow a death, and the two ways of counting days.
-- The codes and labels, which the source writes as formatted strings, are constructors here; a
-- Roj, a Mah and a count of days are natural numbers, and positions and years are integers.
pub mod Counting
pub mod Series
pub mod Schedule
pub mod Keep
pub mod Build
pub mod Kept
pub mod Sorted
use text.Mathlib.Text.{◌==◌ as str_eq}
use agyary.Common.{
  ℕ, zero, suc, ◌+◌, ◌-◌, ◌*◌, ◌/◌, ◌%◌, String, Option, none, some, List, [], ◌∷◌, get_or, Bool,
  true, false, not, ◌&&◌, ◌||◌, ltb, leb, ◌==◌, if◌then◌else◌, Result, ok, value_error,
  overflow_error, ◌>>=◌, ◌>>◌, guard, ℤ, pos, negsuc, ◌+ℤ◌, ◌-ℤ◌, ◌*ℤ◌, floor_div, floor_mod,
}
use agyary.Dates.{Date, add_days}
use agyary.Engine.{
  CalendarSystem, days_per_month, months_per_year, mah_names, roj_names, gregorian_to_parsi,
  parsi_to_gregorian,
}

abbrev pub cycle_days : ℕ
cycle_days = 360

-- OPENING_ALL, OPENING_TENTH, OPENING_NONE, OPENING_5_TO_9, and any other text.
pub data Opening : Type 0 where
  days_1_to_10 tenth_only no_opening days_5_to_9 unknown_opening : Opening

-- PARAB_ALL, PARAB_FRAVARDIN_TIR, and any other text.
pub data Parabs : Type 0 where
  all_parabs fravardin_tir unknown_parabs : Parabs

pub data Code : Type 0 where
  blank_code : Code
  day_code year_code month_code : ℕ → Code
  parab_code : ℕ → ℤ → Code
  fravroj_code : ℤ → ℕ → Code
  birthday_code : ℤ → Code

pub data Label : Type 0 where
  blank_label yearly_label monthly_label roj_fravardin_label birthday_label : Label
  day_label year_label month_label : ℕ → Label
  named_label parab_label : String → Label

abbrev pub dasmi_name : String
dasmi_name = "Dasmi"

-- NAMED_DAYS
unfoldable pub named_day : ℕ → Option String
named_day n =
    if n == 10
    then some dasmi_name
    else if (n == 29) || (n == 59) || (n == 179) || (n == 359)
    then some "Deci"
    else if n == 30
    then some "Masiso"
    else if n == 60
    then some "Bamsi"
    else if n == 180
    then some "Chamsi"
    else if n == 360
    then some "Varsi"
    else none

-- `ROJ_NAMES.index(name)`; every name asked for is there.
unfoldable pub index_of : String → List String → ℕ
index_of name [] = 0
index_of name (x ∷ xs) = if str_eq x name then 0 else suc (index_of name xs)

abbrev pub dae_dadar_roj : ℕ
dae_dadar_roj = 1

unfoldable pub parab_roj_for_mah : ℕ → ℕ
unfolding index_of
parab_roj_for_mah mah =
    let name = get_or mah_names (mah - 1) "" in
    if str_eq name "Dae-Dadar" then dae_dadar_roj else index_of name roj_names + 1

pub record Observance : Type 0 where
  pub code : Code
  pub label : Label
  pub day_number : ℤ
  pub roj : Option ℕ
  pub mah : Option ℕ
  pub year : ℤ
  pub gregorian_date : Date
  pub gatha_index : Option ℕ

-- `_ordinal`
unfoldable pub cycle_ordinal : ℕ → ℕ → ℕ
cycle_ordinal mah roj = (mah - 1) * days_per_month + (roj - 1)

abbrev pub gatha_mah : ℕ
gatha_mah = 13

pub record Death : Type 0 where
  pub roj : ℕ
  pub mah : ℕ
  pub year : ℤ

-- `_start`: the position in the 360-day cycle, and the year which that cycle belongs to.
unfoldable pub start_of : Death → Result (ℤ × ℤ)
start_of death =
    if death.mah == gatha_mah
    then (guard (leb 1 death.roj && leb death.roj 6) >> ok (negsuc 0, death.year +ℤ pos 1))
    else do
      guard (leb 1 death.mah && leb death.mah months_per_year)
      guard (leb 1 death.roj && leb death.roj days_per_month)
      ok (pos (cycle_ordinal death.mah death.roj), death.year)

-- (roj, mah, year)
unfoldable pub count_from : Death → ℕ → Result (ℕ × ℕ × ℤ)
count_from death day_number = do
  guard (leb 1 day_number)
  (start, base_year) ← start_of death
  guard (not (death.mah == gatha_mah && day_number == 1))
  let steps = start +ℤ pos (day_number - 1)
  let within = floor_mod steps cycle_days
  ok (
    within % days_per_month + 1,
    within / days_per_month + 1,
    base_year +ℤ floor_div steps cycle_days,
  )

-- `_by_roj_and_mah`
unfoldable pub by_roj_and_mah : Code → Label → ℕ → Death → CalendarSystem → Result Observance
by_roj_and_mah code label day_number death system = do
  (roj, mah, year) ← count_from death day_number
  when ← parsi_to_gregorian year system (some mah) (some roj) none
  ok (record {
    code = code;
    label = label;
    day_number = pos day_number;
    roj = some roj;
    mah = some mah;
    year = year;
    gregorian_date = when;
    gatha_index = none;
  })

-- `_on_date`
unfoldable pub on_date : Code → Label → ℤ → Date → CalendarSystem → Result Observance
on_date code label day_number when system = do
  p ← gregorian_to_parsi when system
  ok (record {
    code = code;
    label = label;
    day_number = day_number;
    roj = p.roj;
    mah = p.mah;
    year = p.year;
    gregorian_date = when;
    gatha_index = p.gatha_index;
  })

-- `_literal`: the same reading of the calendar, on the n-th day from the death.
unfoldable pub literal : Code → Label → ℕ → Date → CalendarSystem → Result Observance
literal code label day_number death_date system = do
  when ← add_days death_date (pos day_number -ℤ pos 1)
  on_date code label (pos day_number) when system

-- `_position`
unfoldable pub position : ℕ → ℕ → ℤ → ℤ → ℤ → ℤ
position roj mah year start base_year =
    (year -ℤ base_year) *ℤ cycle_days +ℤ pos (cycle_ordinal mah roj) -ℤ start +ℤ pos 1

-- `_gatha_day`: a year without that Gatha day keeps the last one that it has.
unfoldable pub gatha_day : ℤ → CalendarSystem → ℕ → Result Date
gatha_day year system zero = value_error
gatha_day year system (suc g) =
    let fewer = gatha_day year system g in
    elim (parsi_to_gregorian year system none none (some (suc g))) [
      | ok when ↦ ok when
      | value_error ↦ fewer
      | overflow_error ↦ overflow_error
    ]
