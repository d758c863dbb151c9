-- ===== src/Memorials/Death.antt =====
-- `resolve_death` and `resolve_birthday` of services/memorials.py.
use agyary.Common.{
  ℕ, ◌==◌, Option, none, some, List, [], ◌∷◌, is_some, Bool, true, false, not, ◌&&◌, ◌||◌, leb,
  if◌then◌else◌, Result, ok, value_error, overflow_error, ℤ, pos, ◌-ℤ◌,
}
use agyary.Dates.{Date, add_days, leb_date, ltb_date}
use agyary.Engine.{CalendarSystem, ParsiDate, gregorian_to_parsi, parsi_to_gregorian}
use agyary.Engine.Occurrence.{years_from}
use agyary.Memorials.{
  Choice, Outcome, done, refused, crashed, ◌>>=◌, ◌>>◌, demand, caught, only_roj_and_mah,
  death_given_once, death_needs_both, no_such_roj_and_mah, not_come_round, not_in_calendar,
  no_birthday, no_birthday_years, birthday_given_once, gatha_birthday, birthday_needs_both,
  no_such_birthday, old_death_days,
}

-- `_on_parsi_day`: Mah 13 is a Gatha day, with its number as the Roj.
unfoldable pub on_parsi_day : ℤ → CalendarSystem → ℕ → ℕ → Result Date
on_parsi_day year system roj mah =
    if mah == 13
    then parsi_to_gregorian year system none none (some roj)
    else parsi_to_gregorian year system (some mah) (some roj) none

-- One round of the loop over the years: a day that the year does not have is passed over.
unfoldable pub keep_past : Date → Result Date → Outcome (List Date) → Outcome (List Date)
keep_past latest (ok when) later =
    later >>= λ found. done (if leb_date when latest then when ∷ found else found)
keep_past latest value_error later = later
keep_past latest overflow_error later = refused not_in_calendar

unfoldable pub past_days : CalendarSystem → ℕ → ℕ → Date → List ℤ → Outcome (List Date)
past_days system roj mah latest [] = done []
past_days system roj mah latest (year ∷ years) =
    keep_past latest (on_parsi_day year system roj mah) (past_days system roj mah latest years)

-- `max(candidates)`
unfoldable pub last_date : Date → List Date → Date
last_date d [] = d
last_date d (c ∷ cs) = last_date (if ltb_date d c then c else d) cs

unfoldable pub last_of : List Date → Outcome Date
last_of [] = refused not_come_round
last_of (d ∷ ds) = done (last_date d ds)

unfoldable pub latest_allowed : Bool → Date → Outcome Date
latest_allowed long_ago today =
    if long_ago
    then caught not_in_calendar (add_days today (pos 0 -ℤ pos old_death_days))
    else done today

-- The most recent such day, among those of this Parsi year and the four before it.
unfoldable pub latest_day : CalendarSystem → Bool → ℕ → ℕ → Date → Outcome Date
latest_day system long_ago roj mah today = do
  latest ← latest_allowed long_ago today
  current ← caught not_in_calendar (gregorian_to_parsi today system)
  found ← past_days system roj mah latest (years_from (current.year -ℤ pos 4) 5)
  last_of found

unfoldable pub is_roj_and_mah : ℕ → ℕ → Bool
is_roj_and_mah roj mah =
    leb 1 mah && leb mah 13 && leb 1 roj && leb roj (if mah == 13 then 6 else 30)

unfoldable pub in_year : CalendarSystem → Bool → ℕ → ℕ → Option ℤ → Date → Outcome Date
in_year system long_ago roj mah (some year) today =
    caught not_in_calendar (on_parsi_day year system roj mah)
in_year system long_ago roj mah none today = latest_day system long_ago roj mah today

unfoldable pub death_by_parsi :
    CalendarSystem → Bool → Option ℕ → Option ℕ → Option ℤ → Date → Outcome Date
death_by_parsi system long_ago (some roj) (some mah) year today =
    demand (is_roj_and_mah roj mah) no_such_roj_and_mah
    >> in_year system long_ago roj mah year today
death_by_parsi system long_ago _ _ year today = refused death_needs_both

-- The death is given in one of the two ways.
unfoldable pub death_given : Option Date → Bool → Outcome Date → Outcome Date
death_given (some day) by_parsi other = demand (not by_parsi) death_given_once >> done day
death_given none by_parsi other = demand by_parsi death_given_once >> other

abbrev pub by_its_date_or_year : Choice → Bool
by_its_date_or_year choice = is_some choice.death_date || is_some choice.death_year

abbrev pub by_parsi : Choice → Bool
by_parsi choice = is_some choice.death_roj || is_some choice.death_mah || is_some choice.death_year

unfoldable pub resolve_death : CalendarSystem → Choice → Date → Outcome Date
resolve_death system choice today =
    demand (not (choice.long_ago && by_its_date_or_year choice)) only_roj_and_mah
    >> death_given choice.death_date (by_parsi choice) (
        death_by_parsi system choice.long_ago choice.death_roj choice.death_mah choice.death_year
          today)

-- A birthday that is given by its date: a Gatha day has no Roj and Mah to come round on. A Roj of
-- None beside a Mah, which no day has, would end in a TypeError of the schedule.
unfoldable pub birthday_on : ParsiDate → Outcome (Option (ℕ × ℕ))
birthday_on p = elim p.mah [
  | none ↦ refused gatha_birthday
  | some mah ↦
      demand (not (mah == 13)) gatha_birthday
      >> elim p.roj [ none ↦ crashed | some roj ↦ done (some (roj, mah)) ]
]

unfoldable pub birthday_of : Option ℕ → Option ℕ → Outcome (Option (ℕ × ℕ))
birthday_of (some roj) (some mah) =
    demand (leb 1 mah && leb mah 12 && leb 1 roj && leb roj 30) no_such_birthday
    >> done (some (roj, mah))
birthday_of _ _ = refused birthday_needs_both

-- (roj, mah), where a birthday was chosen.
unfoldable pub resolve_birthday : CalendarSystem → Choice → Outcome (Option (ℕ × ℕ))
resolve_birthday system choice =
    let in_parts = is_some choice.birthday_roj || is_some choice.birthday_mah in
    elim (is_some choice.birthday_date || in_parts) [
      | false ↦ demand (not (is_some choice.birthday_years)) no_birthday >> done none
      | true ↦
          demand (is_some choice.birthday_years) no_birthday_years >> elim choice.birthday_date [
            | some day ↦
                demand (not in_parts) birthday_given_once
                >> caught not_in_calendar (gregorian_to_parsi day system)
                >>= λ p. birthday_on p
            | none ↦ birthday_of choice.birthday_roj choice.birthday_mah
          ]
    ]
