-- ===== src/Engine.antt =====
-- calendar/engine.py: the three Parsi calendars and their conversions. A Roj, a Mah and a Gatha
-- index are natural numbers here; the source's tests refuse a negative one as they refuse 0.
-- Parsi years are integers. `ValueError` and `OverflowError` are cases of `Result`.
pub mod Days
pub mod Order
pub mod Occurrence
pub mod Soonest
pub mod RoundTrip
pub mod Fasli
use agyary.Common.{
  ℕ, zero, suc, ◌+◌, ◌-◌, ◌*◌, ◌/◌, ◌%◌, String, Option, none, some, List, [], ◌∷◌, get_elem?,
  is_some, Bool, true, false, not, ◌&&◌, ◌||◌, ltb, leb, ◌==◌, if◌then◌else◌, Result, ok,
  value_error, overflow_error, ◌>>=◌, ◌>>◌, guard, ℤ, pos, negsuc, ◌+ℤ◌, ◌-ℤ◌, ◌*ℤ◌, floor_div,
  floor_mod,
}
use agyary.Dates.{Date, date, to_ordinal, from_ordinal, add_days, make_date, leb_date}

abbrev pub roj_names : List String
roj_names =
    "Hormazd" ∷ "Bahman" ∷ "Ardibehesht" ∷ "Shahrevar" ∷ "Aspandard" ∷ "Khordad" ∷ "Amardad"
    ∷ "Dae-Pa-Adar" ∷ "Adar" ∷ "Avan" ∷ "Khorshed" ∷ "Mohor" ∷ "Tir" ∷ "Gosh" ∷ "Dae-Pa-Meher"
    ∷ "Meher" ∷ "Sarosh" ∷ "Rashne" ∷ "Fravardin" ∷ "Behram" ∷ "Ram" ∷ "Govad" ∷ "Dae-Pa-Din"
    ∷ "Din" ∷ "Ashishvangh" ∷ "Ashtad" ∷ "Asman" ∷ "Zamyad" ∷ "Mareshpand" ∷ "Aneran" ∷ []

abbrev pub mah_names : List String
mah_names =
    "Fravardin" ∷ "Ardibehesht" ∷ "Khordad" ∷ "Tir" ∷ "Amardad" ∷ "Shahrevar" ∷ "Meher" ∷ "Avan"
    ∷ "Adar" ∷ "Dae-Dadar" ∷ "Bahman" ∷ "Aspandard" ∷ []

abbrev pub gatha_names : List String
gatha_names = "Ahunavad" ∷ "Ushtavad" ∷ "Spentamad" ∷ "Vohukhshathra" ∷ "Vahishtoisht" ∷ []

abbrev pub days_per_month : ℕ
days_per_month = 30

abbrev pub months_per_year : ℕ
months_per_year = 12

abbrev pub days_before_gatha : ℕ
days_before_gatha = 360

abbrev pub base_gatha_count : ℕ
base_gatha_count = 5

abbrev pub year_length : ℕ
year_length = 365

abbrev pub yz_era_offset : ℕ
yz_era_offset = 630

abbrev pub kadmi_shenshai_offset_days : ℕ
kadmi_shenshai_offset_days = 30

pub data CalendarSystem : Type 0 where
  shenshai kadmi fasli : CalendarSystem

pub record ParsiDate : Type 0 where
  pub calendar : CalendarSystem
  pub year : ℤ
  pub gregorian_date : Date
  pub is_gatha : Bool
  pub mah : Option ℕ
  pub mah_name : Option String
  pub roj : Option ℕ
  pub roj_name : Option String
  pub gatha_index : Option ℕ
  pub gatha_name : Option String

abbrev pub shenshai_anchor_navroze : Date
shenshai_anchor_navroze = date 2025 8 15

abbrev pub shenshai_anchor_yz_year : ℤ
shenshai_anchor_yz_year = pos (2025 - yz_era_offset)

unfoldable pub day_of_year_from_mah_roj : ℕ → ℕ → Result ℕ
day_of_year_from_mah_roj mah roj = do
  guard (leb 1 mah && leb mah months_per_year)
  guard (leb 1 roj && leb roj days_per_month)
  ok ((mah - 1) * days_per_month + roj)

unfoldable pub day_of_year_from_gatha : ℕ → ℕ → Result ℕ
day_of_year_from_gatha gatha_index max_gatha = do
  guard (leb 1 gatha_index && leb gatha_index max_gatha)
  ok (days_before_gatha + gatha_index)

-- (mah, roj, gatha_index)
unfoldable pub decompose_day_of_year : ℕ → ℕ → Result (Option ℕ × Option ℕ × Option ℕ)
decompose_day_of_year day_of_year max_gatha = do
  guard (leb 1 day_of_year && leb day_of_year (days_before_gatha + max_gatha))
  ok (
      if leb day_of_year days_before_gatha
      then (
        some ((day_of_year - 1) / days_per_month + 1),
        some ((day_of_year - 1) % days_per_month + 1),
        none,
      )
      else (none, none, some (day_of_year - days_before_gatha)))

-- `NAMES[n - 1]`, for a number that may be absent.
abbrev pub name_of : List String → Option ℕ → Option String
name_of names none = none
name_of names (some n) = get_elem? names (n - 1)

-- The sixth Gatha has no name: `get_elem?` is `none` there.
abbrev pub parsi_date : CalendarSystem → ℤ → Date → Option ℕ × Option ℕ × Option ℕ → ParsiDate
parsi_date system yz_year gregorian_date (mah, roj, gatha_index) = record {
  calendar = system;
  year = yz_year;
  gregorian_date = gregorian_date;
  is_gatha = is_some gatha_index;
  mah = mah;
  mah_name = name_of mah_names mah;
  roj = roj;
  roj_name = name_of roj_names roj;
  gatha_index = gatha_index;
  gatha_name = name_of gatha_names gatha_index;
}

unfoldable pub build_parsi_date : CalendarSystem → ℤ → ℕ → Date → ℕ → Result ParsiDate
build_parsi_date system yz_year day_of_year gregorian_date max_gatha = do
  parts ← decompose_day_of_year day_of_year max_gatha
  ok (parsi_date system yz_year gregorian_date parts)

unfoldable pub shenshai_from_gregorian : Date → Result ParsiDate
shenshai_from_gregorian g_date =
    let delta = pos (to_ordinal g_date) -ℤ pos (to_ordinal shenshai_anchor_navroze) in
    let yz_year = shenshai_anchor_yz_year +ℤ floor_div delta year_length in
    build_parsi_date shenshai yz_year (floor_mod delta year_length + 1) g_date base_gatha_count

unfoldable pub shenshai_to_gregorian : ℤ → ℕ → Result Date
shenshai_to_gregorian yz_year day_of_year = do
  guard (leb 1 day_of_year && leb day_of_year year_length)
  let year_offset = yz_year -ℤ shenshai_anchor_yz_year
  let delta = year_offset *ℤ year_length +ℤ pos (day_of_year - 1)
  from_ordinal (pos (to_ordinal shenshai_anchor_navroze) +ℤ delta)

unfoldable pub kadmi_from_gregorian : Date → Result ParsiDate
kadmi_from_gregorian g_date = do
  shifted ← add_days g_date (pos kadmi_shenshai_offset_days)
  shenshai_equivalent ← shenshai_from_gregorian shifted
  ok (record shenshai_equivalent { calendar = kadmi; gregorian_date = g_date })

unfoldable pub kadmi_to_gregorian : ℤ → ℕ → Result Date
kadmi_to_gregorian yz_year day_of_year = do
  shenshai_equivalent_date ← shenshai_to_gregorian yz_year day_of_year
  add_days shenshai_equivalent_date (pos 0 -ℤ pos kadmi_shenshai_offset_days)

unfoldable pub fasli_cycle_start_year : Date → ℤ
fasli_cycle_start_year g_date =
    if ltb 3 g_date.month || (g_date.month == 3 && leb 21 g_date.day)
    then pos g_date.year
    else pos g_date.year -ℤ pos 1

-- `calendar.isleap` of an integer
unfoldable pub is_leap_year : ℤ → Bool
is_leap_year y = floor_mod y 4 == 0 && (not (floor_mod y 100 == 0) || floor_mod y 400 == 0)

unfoldable pub fasli_max_gatha : ℤ → ℕ
fasli_max_gatha cycle_start_year = if is_leap_year (cycle_start_year +ℤ pos 1) then 6 else 5

-- A cycle starts on or before each of its dates; a negative day would be refused just as 0 is.
unfoldable pub fasli_from_gregorian : Date → Result ParsiDate
fasli_from_gregorian g_date = do
  let cycle_start_year = fasli_cycle_start_year g_date
  cycle_start ← make_date cycle_start_year 3 21
  let day_of_year = to_ordinal g_date + 1 - to_ordinal cycle_start
  let yz_year = cycle_start_year -ℤ pos yz_era_offset
  build_parsi_date fasli yz_year day_of_year g_date (fasli_max_gatha cycle_start_year)

unfoldable pub fasli_to_gregorian : ℤ → ℕ → Result Date
fasli_to_gregorian yz_year day_of_year = do
  let cycle_start_year = yz_year +ℤ pos yz_era_offset
  let total_days = days_before_gatha + fasli_max_gatha cycle_start_year
  guard (leb 1 day_of_year && leb day_of_year total_days)
  cycle_start ← make_date cycle_start_year 3 21
  add_days cycle_start (pos (day_of_year - 1))

unfoldable pub gregorian_to_parsi : Date → CalendarSystem → Result ParsiDate
gregorian_to_parsi g_date shenshai = shenshai_from_gregorian g_date
gregorian_to_parsi g_date kadmi = kadmi_from_gregorian g_date
gregorian_to_parsi g_date fasli = fasli_from_gregorian g_date

abbrev pub max_gatha_of : CalendarSystem → ℤ → ℕ
max_gatha_of fasli year = fasli_max_gatha (year +ℤ pos yz_era_offset)
max_gatha_of shenshai year = base_gatha_count
max_gatha_of kadmi year = base_gatha_count

-- Exactly one of (mah, roj) and gatha_index must be given.
unfoldable pub requested_day : ℕ → Option ℕ → Option ℕ → Option ℕ → Result ℕ
requested_day max_gatha (some mah) (some roj) (some gatha_index) = value_error
requested_day max_gatha mah roj (some gatha_index) = day_of_year_from_gatha gatha_index max_gatha
requested_day max_gatha (some mah) (some roj) none = day_of_year_from_mah_roj mah roj
requested_day max_gatha mah roj none = value_error

unfoldable pub to_gregorian : CalendarSystem → ℤ → ℕ → Result Date
to_gregorian shenshai = shenshai_to_gregorian
to_gregorian kadmi = kadmi_to_gregorian
to_gregorian fasli = fasli_to_gregorian

unfoldable pub parsi_to_gregorian :
    ℤ → CalendarSystem → Option ℕ → Option ℕ → Option ℕ → Result Date
parsi_to_gregorian year system mah roj gatha_index = do
  day_of_year ← requested_day (max_gatha_of system year) mah roj gatha_index
  to_gregorian system year day_of_year
