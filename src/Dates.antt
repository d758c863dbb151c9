-- ===== src/Dates.antt =====
-- Python's `datetime.date`, as far as the calendar code uses it: the proleptic Gregorian calendar
-- of the years 1 to 9999, ordinals with 0001-01-01 as day 1, `date + timedelta(days)` and the
-- order of dates, which the Python documentation states by ordinals. Ordinals outside the range
-- of the class raise ValueError in `date.fromordinal` and OverflowError in `date + timedelta`.
pub mod Ordinal
pub mod Shift
use agyary.Common.{
  ℕ, zero, suc, ◌+◌, ◌-◌, ◌*◌, ◌/◌, ◌%◌, List, [], ◌∷◌, get_or, Bool, true, false, not, ◌&&◌, ◌||◌,
  ltb, leb, ◌==◌, if◌then◌else◌, Result, ok, value_error, overflow_error, ℤ, pos, pos_part, ◌+ℤ◌,
  ltb_ℤ,
}

pub record Date : Type 0 where
  pub year : ℕ
  pub month : ℕ
  pub day : ℕ

abbrev pub date : ℕ → ℕ → ℕ → Date
date of_year of_month on_day = record { year = of_year; month = of_month; day = on_day }

-- `calendar.isleap`
unfoldable pub is_leap : ℕ → Bool
is_leap y = y % 4 == 0 && (not (y % 100 == 0) || y % 400 == 0)

abbrev pub leap_day : Bool → ℕ
leap_day b = if b then 1 else 0

unfoldable pub days_in_month : Bool → ℕ → ℕ
days_in_month leap m =
    get_or (0 ∷ 31 ∷ 28 ∷ 31 ∷ 30 ∷ 31 ∷ 30 ∷ 31 ∷ 31 ∷ 30 ∷ 31 ∷ 30 ∷ 31 ∷ []) m 0
    + (if m == 2 then leap_day leap else 0)

unfoldable pub days_before_month : Bool → ℕ → ℕ
days_before_month leap m =
    get_or (0 ∷ 0 ∷ 31 ∷ 59 ∷ 90 ∷ 120 ∷ 151 ∷ 181 ∷ 212 ∷ 243 ∷ 273 ∷ 304 ∷ 334 ∷ []) m 0
    + (if ltb 2 m then leap_day leap else 0)

unfoldable pub days_before_year : ℕ → ℕ
days_before_year y = let p = y - 1 in p * 365 + p / 4 - p / 100 + p / 400

unfoldable pub to_ordinal : Date → ℕ
to_ordinal t = days_before_year t.year + days_before_month (is_leap t.year) t.month + t.day

-- The year of an ordinal: 400-year, 100-year, 4-year and single-year cycles, the last day of the
-- longer cycles apart.
unfoldable pub year_of : ℕ → ℕ
year_of n =
    let n0 = n - 1 in
    let r400 = n0 % 146097 in
    let r100 = r400 % 36524 in
    let r4 = r100 % 1461 in
    let whole = n0 / 146097 * 400 + r400 / 36524 * 100 + r100 / 1461 * 4 + r4 / 365 in
    if r4 / 365 == 4 || r400 / 36524 == 4 then whole else whole + 1

-- The month of a day of the year, counted from 0: an estimate that is at most one too high.
unfoldable pub month_of : Bool → ℕ → ℕ
month_of leap n = let m = (n + 50) / 32 in if ltb n (days_before_month leap m) then m - 1 else m

unfoldable pub split_ordinal : ℕ → Date
split_ordinal n =
    let y = year_of n in
    let k = n - days_before_year y - 1 in
    let m = month_of (is_leap y) k in date y m (k + 1 - days_before_month (is_leap y) m)

abbrev pub max_ordinal : ℕ
max_ordinal = 3652059

-- `date.fromordinal`
unfoldable pub from_ordinal : ℤ → Result Date
from_ordinal z =
    if ltb_ℤ z (pos 1) || ltb_ℤ (pos max_ordinal) z
    then value_error
    else ok (split_ordinal (pos_part z))

-- `t + timedelta(days=n)`
unfoldable pub add_days : Date → ℤ → Result Date
add_days t n =
    let z = pos (to_ordinal t) +ℤ n in
    if ltb_ℤ z (pos 1) || ltb_ℤ (pos max_ordinal) z
    then overflow_error
    else ok (split_ordinal (pos_part z))

-- `date(y, m, d)`, for a year that may be out of range.
unfoldable pub make_date : ℤ → ℕ → ℕ → Result Date
make_date y m d =
    if ltb_ℤ y (pos 1) || ltb_ℤ (pos 9999) y
    then value_error
    else if ltb m 1 || ltb 12 m
    then value_error
    else if ltb d 1 || ltb (days_in_month (is_leap (pos_part y)) m) d
    then value_error
    else ok (date (pos_part y) m d)

-- `s <= t` and `s < t`
unfoldable pub leb_date : Date → Date → Bool
leb_date s t = leb (to_ordinal s) (to_ordinal t)

unfoldable pub ltb_date : Date → Date → Bool
ltb_date s t = ltb (to_ordinal s) (to_ordinal t)
