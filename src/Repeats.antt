-- ===== src/Repeats.antt =====
-- The repeating machis of services/mobed_dashboard.py: the dates of a series, its end, and the
-- generator that books them. The rules stand in a table beside the board, with the machis that they
-- made. `agyary` is the fire temple that a call is for, `has_customer` says which families there are,
-- and `meanwhile` is what others book between the check and the insert of a round.
pub mod Generate
pub mod Kept
pub mod Tries
pub mod Due
pub mod Places
pub mod Ends
use agyary.Common.{
  ℕ, zero, suc, ◌+◌, ◌-◌, Option, none, some, List, [], ◌∷◌, ◌++◌, length, Bool, true, false, not,
  ◌&&◌, ◌||◌, ltb, leb, ◌==◌, if◌then◌else◌, is_some, number_in, Result, ok, value_error,
  overflow_error, ◌>>=◌, ◌>>◌, guard, ℤ, pos, ◌+ℤ◌, ◌-ℤ◌,
}
use agyary.Dates.{Date, to_ordinal, leb_date, ltb_date}
use agyary.Engine.{CalendarSystem, gregorian_to_parsi, parsi_to_gregorian}
use agyary.Machis.{Machi, Name, Purpose, booked_gehs}
use agyary.Machis.Booking.{
  Board, Booked, booked, taken, Alternatives, CeremonyName, slot_keys, book_machi_slot,
}

-- RECURRENCE_PATTERN_CHOICES: "monthly" and "yearly"
pub data Pattern : Type 0 where
  same_roj_every_mah same_roj_mah_every_year : Pattern

unfoldable pub next_parsi_month : ℕ × ℤ → ℕ × ℤ
next_parsi_month (mah, year) = if leb 12 mah then (1, year +ℤ pos 1) else (suc mah, year)

unfoldable pub next_parsi_year : ℕ × ℤ → ℕ × ℤ
next_parsi_year (mah, year) = (mah, year +ℤ pos 1)

unfoldable pub step_for : Pattern → ℕ × ℤ → ℕ × ℤ
step_for same_roj_every_mah at = next_parsi_month at
step_for same_roj_mah_every_year at = next_parsi_year at

abbrev pub recurrence_horizon_periods : ℕ
recurrence_horizon_periods = 3

abbrev pub max_generate_months : ℕ
max_generate_months = 36

-- SERIES_PREVIEW_PERIODS
unfoldable pub preview_periods : Pattern → ℕ
preview_periods same_roj_every_mah = 12
preview_periods same_roj_mah_every_year = 5

-- The day of a Roj at a place in the calendar, its Mah and year.
abbrev pub day_at : CalendarSystem → Option ℕ → ℕ × ℤ → Result Date
day_at system roj (mah, year) = parsi_to_gregorian year system (some mah) roj none

-- A day that the calendar does not have is passed over.
unfoldable pub and_then : Result Date → Result (List Date) → Result (List Date)
and_then (ok day) later = later >>= λ days. ok (day ∷ days)
and_then value_error later = later
and_then overflow_error later = overflow_error

unfoldable pub last_or : Option Date → List Date → Option Date
last_or last [] = last
last_or last (day ∷ days) = last_or (some day) days

-- The place after some periods.
unfoldable pub steps : Pattern → ℕ → ℕ × ℤ → ℕ × ℤ
steps pattern zero at = at
steps pattern (suc n) at = steps pattern n (step_for pattern at)

module _ (system : CalendarSystem) (pattern : Pattern) (roj : Option ℕ) where
  unfoldable pub series_dates : ℕ × ℤ → ℕ → Result (List Date)
  series_dates at zero = ok []
  series_dates at (suc periods) =
      let next = step_for pattern at in
      and_then (day_at system roj next) (series_dates next periods)

  -- The day of the count-th occurrence of a repeat, the first counted.
  unfoldable pub last_occurrence : ℕ × ℤ → ℕ → Result (Option Date)
  last_occurrence at count = series_dates at (count - 1) >>= λ days. ok (last_or none days)

pub record Rule : Type 0 where
  pub id : ℕ
  pub agyary_id : ℕ
  pub source_machi_id : ℕ
  pub pattern : Pattern
  pub end_count : Option ℕ
  pub end_date : Option Date
  pub last_generated_until : Option Date
  pub is_active : Bool

-- The columns of a machi that tie it to its rule.
pub record Tie : Type 0 where
  pub machi_id : ℕ
  pub rule_id : ℕ
  pub is_recurring_instance : Bool

-- (mah, year) of a date as slots are stored; each date has a Mah, with 13 for the Gatha days.
unfoldable pub place_of : Option ℕ × Option ℕ × ℤ → Result (ℕ × ℤ)
place_of (roj, some mah, year) = ok (mah, year)
place_of (roj, none, year) = value_error

-- The dates of the next stretch of a series at which the geh is booked: the warning before a repeat.
unfoldable pub with_geh : ℕ → ℕ → Option ℕ → List Machi → List Date → List Date
with_geh agyary geh owner machis [] = []
with_geh agyary geh owner machis (day ∷ days) =
    let rest = with_geh agyary geh owner machis days in
    if number_in geh (booked_gehs agyary day owner machis) then day ∷ rest else rest

-- `min(periods, count - 1)` where a count is given that is not 0.
unfoldable pub previewed : Pattern → Option ℕ → ℕ
previewed pattern none = preview_periods pattern
previewed pattern (some zero) = preview_periods pattern
previewed pattern (some (suc n)) =
    if ltb n (preview_periods pattern) then n else preview_periods pattern

unfoldable pub series_conflicts :
    ℕ → CalendarSystem → Date → ℕ → Pattern → Option ℕ → Option ℕ → List Machi → Result (List Date)
series_conflicts agyary system gregorian geh pattern owner count machis = do
  (roj, mah, year) ← slot_keys system gregorian
  at ← place_of (roj, mah, year)
  days ← series_dates system pattern roj at (previewed pattern count)
  ok (with_geh agyary geh owner machis days)

-- `check_board_range`: a range that is not turned round, of at most 366 days.
unfoldable pub check_board_range : Date → Date → Result (Unit {0})
check_board_range start end =
    guard (not (ltb_date end start)) >> guard (leb (to_ordinal end - to_ordinal start + 1) 366)
