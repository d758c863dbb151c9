-- ===== src/Machis.antt =====
-- messaging/geh_times.py and messaging/availability.py: the gehs of a day, and the machis that hold them.
pub mod Booking
pub mod Single
pub mod Keys
pub mod Outcome
pub mod Rebook
pub mod Scan
use agyary.Common.{
  ℕ, zero, suc, ◌+◌, ◌-◌, Option, none, some, List, [], ◌∷◌, length, Bool, true, false, not, ◌&&◌,
  ◌||◌, ltb, leb, ◌==◌, if◌then◌else◌, number_in, Result, ok, value_error, ◌>>=◌, ℤ, pos, Text,
}
use agyary.Dates.{Date, date, add_days, to_ordinal}
use agyary.Engine.{CalendarSystem, ParsiDate, gregorian_to_parsi}

-- The status of a ceremony.
pub data Status : Type 0 where
  requested approved assigned mobed_declined confirmed completed : Status
  cancelled declined rescheduled : Status

-- `SLOT_RELEASING_STATUSES`
unfoldable pub releases_slot : Status → Bool
releases_slot cancelled = true
releases_slot declined = true
releases_slot rescheduled = true
releases_slot _ = false

pub data Purpose : Type 0 where
  patet tandarosti : Purpose

pub data Section : Type 0 where
  pair farmayeshne : Section

-- A name of a ceremony, as the caller gives it.
pub record Name : Type 0 where
  pub section : Section
  pub title : Text
  pub name : Text
  pub is_departed : Bool
  pub pair_group : Option ℕ

-- A row of the table of machis. The time of the ceremony is a date and the seconds of the day.
pub record Machi : Type 0 where
  pub id : ℕ
  pub agyary_id : ℕ
  pub customer_id : ℕ
  pub parsi_roj : Option ℕ
  pub parsi_mah : Option ℕ
  pub parsi_year : ℤ
  pub geh : ℕ
  pub gregorian_date : Date
  pub ceremony_datetime : Date × ℕ
  pub purpose : Purpose
  pub created_by_user_id : Option ℕ
  pub status : Status

-- `==` of two dates
unfoldable pub same_day : Date → Date → Bool
same_day a b = a.year == b.year && a.month == b.month && a.day == b.day

-- `GEH_START_TIMES`, in seconds of the day
unfoldable pub geh_start : ℕ → Option ℕ
geh_start geh =
    if geh == 1
    then some 25200
    else if geh == 2
    then some 46800
    else if geh == 3
    then some 55800
    else if geh == 4
    then some 68400
    else if geh == 5
    then some 14400
    else none

-- The fifth geh is in the morning of the next civil day.
unfoldable pub civil_date : Date → ℕ → Result Date
civil_date gregorian_date geh =
    if geh == 5 then add_days gregorian_date (pos 1) else ok gregorian_date

unfoldable pub at_start : Date → ℕ → Option ℕ → Result (Date × ℕ)
at_start gregorian_date geh none = value_error
at_start gregorian_date geh (some start) = civil_date gregorian_date geh >>= λ day. ok (day, start)

unfoldable pub machi_ceremony_datetime : Date → ℕ → Result (Date × ℕ)
machi_ceremony_datetime gregorian_date geh = at_start gregorian_date geh (geh_start geh)

-- `a > b` of two times
unfoldable pub is_after : Date × ℕ → Date × ℕ → Bool
is_after (d, s) (e, t) =
    ltb (to_ordinal e) (to_ordinal d) || (to_ordinal e == to_ordinal d && ltb t s)

abbrev pub all_gehs : List ℕ
all_gehs = 1 ∷ 2 ∷ 3 ∷ 4 ∷ 5 ∷ []

unfoldable pub still_ahead : Date → Date × ℕ → List ℕ → Result (List ℕ)
still_ahead gregorian now [] = ok []
still_ahead gregorian now (geh ∷ gehs) = do
  start ← machi_ceremony_datetime gregorian geh
  rest ← still_ahead gregorian now gehs
  ok (if is_after start now then geh ∷ rest else rest)

unfoldable pub drop_elapsed_gehs : List ℕ → Date → Date × ℕ → Result (List ℕ)
drop_elapsed_gehs gehs gregorian now =
    if not (same_day gregorian now.0) then ok gehs else still_ahead gregorian now gehs

-- `owner or 0`, and `coalesce(created_by_user_id, 0)`
unfoldable pub owner_or_zero : Option ℕ → ℕ
owner_or_zero none = 0
owner_or_zero (some owner) = owner

-- The query's condition: the machi holds a geh of this day for this mobed.
unfoldable pub is_on : ℕ → Date → Option ℕ → Machi → Bool
is_on agyary gregorian owner m =
    m.agyary_id == agyary
    && same_day m.gregorian_date gregorian
    && not (releases_slot m.status)
    && owner_or_zero m.created_by_user_id == owner_or_zero owner

unfoldable pub booked_gehs : ℕ → Date → Option ℕ → List Machi → List ℕ
booked_gehs agyary gregorian owner [] = []
booked_gehs agyary gregorian owner (m ∷ machis) =
    let rest = booked_gehs agyary gregorian owner machis in
    if is_on agyary gregorian owner m then m.geh ∷ rest else rest

unfoldable pub not_in : List ℕ → List ℕ → List ℕ
not_in booked [] = []
not_in booked (geh ∷ gehs) =
    let rest = not_in booked gehs in if number_in geh booked then rest else geh ∷ rest

unfoldable pub available_gehs : ℕ → Date → Option ℕ → List Machi → List ℕ
available_gehs agyary gregorian owner machis =
    not_in (booked_gehs agyary gregorian owner machis) all_gehs

-- `(roj, mah, year)` as machis store them: a Gatha day is Mah 13.
unfoldable pub parsi_slot_fields : ParsiDate → Option ℕ × Option ℕ × ℤ
parsi_slot_fields p =
    if p.is_gatha then (p.gatha_index, some 13, p.year) else (p.roj, p.mah, p.year)

pub record SlotOption : Type 0 where
  pub roj : Option ℕ
  pub mah : Option ℕ
  pub year : ℤ
  pub geh : ℕ
  pub gregorian : Date

abbrev pub scan_limit_days : ℕ
scan_limit_days = 90

abbrev pub slot_option : Option ℕ × Option ℕ × ℤ → ℕ → Date → SlotOption
slot_option fields geh day = record {
  roj = fields.0;
  mah = fields.1;
  year = fields.2;
  geh = geh;
  gregorian = day;
}

-- The scan over the days after a date, on the days that are left; `found` counts the options so far.
-- `first_free` gives the geh that a day offers, where it has one.
unfoldable pub scan_days :
    CalendarSystem → Date → (Date → Option ℕ) → ℕ → ℕ → ℕ → ℕ → Result (List SlotOption)
scan_days system after first_free count offset zero found = ok []
scan_days system after first_free count offset (suc left) found = do
  day ← add_days after (pos offset)
  parsi ← gregorian_to_parsi day system
  elim (first_free day) [
    | none ↦ scan_days system after first_free count (suc offset) left found
    | some geh ↦ elim (leb count (suc found)) [
      | true ↦ ok (slot_option (parsi_slot_fields parsi) geh day ∷ [])
      | false ↦ scan_days system after first_free count (suc offset) left (suc found) >>= λ more.
          ok (slot_option (parsi_slot_fields parsi) geh day ∷ more)
    ]
  ]

unfoldable pub geh_if_free : ℕ → ℕ → Option ℕ → List Machi → Date → Option ℕ
geh_if_free agyary geh owner machis day =
    if number_in geh (booked_gehs agyary day owner machis) then none else some geh

-- `free[0]` where a geh is free
unfoldable pub first_of : List ℕ → Option ℕ
first_of [] = none
first_of (geh ∷ gehs) = some geh

unfoldable pub first_available : ℕ → Option ℕ → List Machi → Date → Option ℕ
first_available agyary owner machis day = first_of (available_gehs agyary day owner machis)

unfoldable pub next_days_with_geh :
    ℕ → CalendarSystem → Date → ℕ → ℕ → Option ℕ → List Machi → Result (List SlotOption)
next_days_with_geh agyary system after geh count owner machis =
    scan_days system after (geh_if_free agyary geh owner machis) count 1 scan_limit_days 0

unfoldable pub next_days_with_any_geh :
    ℕ → CalendarSystem → Date → ℕ → Option ℕ → List Machi → Result (List SlotOption)
next_days_with_any_geh agyary system after count owner machis =
    scan_days system after (first_available agyary owner machis) count 1 scan_limit_days 0
