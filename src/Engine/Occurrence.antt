-- ===== src/Engine/Occurrence.antt =====
-- `nearest_occurrence` of calendar/engine.py: the soonest date of a Roj and Mah, or Gatha day.
use agyary.Common.{
  ℕ, zero, suc, ◌+◌, Option, List, [], ◌∷◌, if◌then◌else◌, Result, ok, value_error, overflow_error,
  ◌>>=◌, ℤ, pos, ◌+ℤ◌, ◌-ℤ◌,
}
use agyary.Dates.{Date, leb_date, ltb_date}
use agyary.Engine.{CalendarSystem, gregorian_to_parsi, parsi_to_gregorian}

abbrev pub occurrence_scan_years : ℕ
occurrence_scan_years = 5

-- `range(first, first + n)`
unfoldable pub years_from : ℤ → ℕ → List ℤ
years_from first zero = []
years_from first (suc n) = first ∷ years_from (first +ℤ pos 1) n

-- One round of the loop: a ValueError goes on with the next year, an OverflowError does not.
unfoldable pub keep_candidate : Date → Result Date → Result (List Date) → Result (List Date)
keep_candidate reference (ok candidate) later =
    if leb_date reference candidate then later >>= (λ found. ok (candidate ∷ found)) else later
keep_candidate reference value_error later = later
keep_candidate reference overflow_error later = overflow_error

unfoldable pub candidates :
    CalendarSystem → Option ℕ → Option ℕ → Option ℕ → Date → List ℤ → Result (List Date)
candidates system mah roj gatha_index reference [] = ok []
candidates system mah roj gatha_index reference (year ∷ years) =
    keep_candidate reference (parsi_to_gregorian year system mah roj gatha_index)
      (candidates system mah roj gatha_index reference years)

-- `min` of the dates
unfoldable pub earliest : Date → List Date → Date
earliest d [] = d
earliest d (c ∷ cs) = earliest (if ltb_date c d then c else d) cs

unfoldable pub earliest_of : List Date → Result Date
earliest_of [] = value_error
earliest_of (d ∷ ds) = ok (earliest d ds)

-- The reference is given: today in India where the caller gives none.
unfoldable pub nearest_occurrence :
    CalendarSystem → Option ℕ → Option ℕ → Option ℕ → Date → Result Date
nearest_occurrence system mah roj gatha_index reference = do
  current ← gregorian_to_parsi reference system
  found ←
      candidates system mah roj gatha_index reference
        (years_from (current.year -ℤ pos 1) (occurrence_scan_years + 2))
  earliest_of found
