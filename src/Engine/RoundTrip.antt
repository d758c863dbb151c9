-- ===== src/Engine/RoundTrip.antt =====
-- The conversions between the Gregorian calendar and the three Parsi calendars undo one another.
use agyary.Common.{
  ℕ, ◌+◌, ◌-◌, ◌/◌, ◌%◌, ◌≤◌, ◌<◌, ◌≡◌, refl, ◌∙◌, ◌⊎◌, inl, inr, Option, none, some, true, false,
  ok, >>=-eq-ok, ok_injective, ℤ, arith,
}
use agyary.Dates.{Date}
use agyary.Dates.Ordinal.{IsDate}
use agyary.Engine.{
  parsi_date, CalendarSystem, shenshai, kadmi, fasli, ParsiDate, build_parsi_date,
  decompose_day_of_year, day_of_year_from_gatha, day_of_year_from_mah_roj, gregorian_to_parsi,
  to_gregorian, parsi_to_gregorian, requested_day, max_gatha_of, shenshai_from_gregorian,
  fasli_max_gatha,
}
use agyary.Engine.Days.{
  DayOf, shenshai_parts, shenshai_from_gregorian-to, kadmi_from_gregorian-to, kadmi_parts,
  shenshai_to_gregorian-parts,
}
use agyary.Engine.Fasli.{fasli_from_gregorian-to, fasli_parts}

-- The parts of a day number, put together again.
requested_day-decompose :
    (n max : ℕ) (mah roj gatha_index : Option ℕ)
    → decompose_day_of_year n max ≡ ok (mah, roj, gatha_index)
    → requested_day max mah roj gatha_index ≡ ok n
unfolding requested_day decompose_day_of_year day_of_year_from_gatha day_of_year_from_mah_roj
requested_day-decompose n max mah roj gatha_index e = ground arith

-- The Roj and the Mah that a day number was made of.
decompose-mah_roj :
    (n max mah roj : ℕ)
    → requested_day max (some mah) (some roj) none ≡ ok n
    → decompose_day_of_year n max ≡ ok (some mah, some roj, none)
unfolding requested_day decompose_day_of_year day_of_year_from_mah_roj
decompose-mah_roj n max mah roj e = ground arith

decompose-gatha :
    (n max gatha_index : ℕ)
    → requested_day max none none (some gatha_index) ≡ ok n
    → decompose_day_of_year n max ≡ ok (none, none, some gatha_index)
unfolding requested_day decompose_day_of_year day_of_year_from_gatha
decompose-gatha n max gatha_index e = ground arith

built_parts :
    (s : CalendarSystem) (y : ℤ) (n : ℕ) (d : Date) (max : ℕ) {p : ParsiDate}
    → build_parsi_date s y n d max ≡ ok p
    → (p.year ≡ y) × (decompose_day_of_year n max ≡ ok (p.mah, p.roj, p.gatha_index))
unfolding build_parsi_date
built_parts s y n d max {p} e =
    let (parts, found, made) = >>=-eq-ok (decompose_day_of_year n max) _ e in
    rw (← ok_injective made) (refl, found)

-- In every calendar, a day number of a year is that of the date which it converts to.
pub gregorian_to_parsi-to :
    (s : CalendarSystem) (y : ℤ) (n : ℕ) (d : Date)
    → to_gregorian s y n ≡ ok d
    → gregorian_to_parsi d s ≡ build_parsi_date s y n d (max_gatha_of s y)
unfolding to_gregorian gregorian_to_parsi
gregorian_to_parsi-to shenshai y n d e = shenshai_from_gregorian-to y n d e
gregorian_to_parsi-to kadmi y n d e = kadmi_from_gregorian-to y n d e
gregorian_to_parsi-to fasli y n d e = fasli_from_gregorian-to y n d e

DayOf-built :
    (s : CalendarSystem) (d : Date) (p : ParsiDate)
    → (y : ℤ) × (n : ℕ) × (to_gregorian s y n ≡ ok d)
      × (build_parsi_date s y n d (max_gatha_of s y) ≡ ok p)
    → DayOf s d p
DayOf-built s d p (y, n, back, built) =
    let year = (built_parts s y n d (max_gatha_of s y) built).0 in
    record { day = n; back = simp year back; built = simp year built }

-- Every date that has a Parsi date is a numbered day of its Parsi year.
pub gregorian_to_parsi-DayOf :
    (s : CalendarSystem) (d : Date) (p : ParsiDate)
    → IsDate d
    → gregorian_to_parsi d s ≡ ok p
    → DayOf s d p
unfolding to_gregorian gregorian_to_parsi
gregorian_to_parsi-DayOf shenshai d p v e =
    let (y, n) = shenshai_parts d in
    DayOf-built shenshai d p
      (y, n, shenshai_to_gregorian-parts d v, (unfold shenshai_from_gregorian in e))
gregorian_to_parsi-DayOf kadmi d p v e = DayOf-built kadmi d p (kadmi_parts d p v e)
gregorian_to_parsi-DayOf fasli d p v e = DayOf-built fasli d p (fasli_parts d p v e)

-- Converting a date to a Parsi date and back gives the date: the Parsi date that
-- `gregorian_to_parsi` answers for a valid date, in any of the three calendars, is one that
-- `parsi_to_gregorian` answers with that date.
pub parsi_to_gregorian-gregorian_to_parsi :
    (s : CalendarSystem) (d : Date) (p : ParsiDate)
    → IsDate d
    → gregorian_to_parsi d s ≡ ok p
    → parsi_to_gregorian p.year s p.mah p.roj p.gatha_index ≡ ok d
unfolding parsi_to_gregorian
parsi_to_gregorian-gregorian_to_parsi s d p v e =
    let o = gregorian_to_parsi-DayOf s d p v e in
    let parts = (built_parts s p.year o.day d (max_gatha_of s p.year) o.built).1 in
    rw (requested_day-decompose o.day (max_gatha_of s p.year) p.mah p.roj p.gatha_index parts)
      o.back

-- The Roj, Mah and year of an answer come back from its date.
module _ (s : CalendarSystem) (y : ℤ) (d : Date) where
  -- A date that `parsi_to_gregorian` answers for a Roj and a Mah of the year y converts back to a
  -- Parsi date with that year, that Roj and that Mah, and with no Gatha day.
  pub gregorian_to_parsi-parsi_to_gregorian :
      (mah roj : ℕ)
      → parsi_to_gregorian y s (some mah) (some roj) none ≡ ok d
      → gregorian_to_parsi d s ≡ ok (parsi_date s y d (some mah, some roj, none))
  unfolding parsi_to_gregorian build_parsi_date
  gregorian_to_parsi-parsi_to_gregorian mah roj e =
      let (n, asked, found) =
        >>=-eq-ok (requested_day (max_gatha_of s y) (some mah) (some roj) none) _ e in
      gregorian_to_parsi-to s y n d found
      ∙ rw (decompose-mah_roj n (max_gatha_of s y) mah roj asked)

  -- A date that `parsi_to_gregorian` answers for a Gatha day of the year y converts back to a Parsi
  -- date with that year and that Gatha day, and with no Roj and no Mah.
  pub gregorian_to_parsi-gatha :
      (gatha_index : ℕ)
      → parsi_to_gregorian y s none none (some gatha_index) ≡ ok d
      → gregorian_to_parsi d s ≡ ok (parsi_date s y d (none, none, some gatha_index))
  unfolding parsi_to_gregorian build_parsi_date
  gregorian_to_parsi-gatha g e =
      let (n, asked, found) = >>=-eq-ok (requested_day (max_gatha_of s y) none none (some g)) _ e in
      gregorian_to_parsi-to s y n d found ∙ rw (decompose-gatha n (max_gatha_of s y) g asked)

-- What a Parsi date is: a Roj and a Mah, or one of the five Gatha days. The Fasli calendar alone
-- has a sixth.
pub data Shape (p : ParsiDate) : Type 0 where
  ordinary :
      (mah roj : ℕ)
      → (1 ≤ mah) × (mah ≤ 12) × (1 ≤ roj) × (roj ≤ 30)
      → (p.is_gatha ≡ false) × (p.mah ≡ some mah) × (p.roj ≡ some roj) × (p.gatha_index ≡ none)
      → Shape p
  gatha :
      (g : ℕ)
      → (1 ≤ g) × (g ≤ 6) × ((p.calendar ≡ fasli) ⊎ (g ≤ 5))
      → (p.is_gatha ≡ true) × (p.mah ≡ none) × (p.roj ≡ none) × (p.gatha_index ≡ some g)
      → Shape p

max_gatha_range :
    (s : CalendarSystem) (y : ℤ) → (max_gatha_of s y ≤ 6) × ((s ≡ fasli) ⊎ (max_gatha_of s y ≤ 5))
unfolding fasli_max_gatha
max_gatha_range shenshai y = ground arith
max_gatha_range kadmi y = ground arith
max_gatha_range fasli y = (ground arith, inl refl)

decompose-cases :
    (n max : ℕ) {x : Option ℕ × Option ℕ × Option ℕ}
    → decompose_day_of_year n max ≡ ok x
    → ((1 ≤ n) × (n ≤ 360) × (x ≡ (some ((n - 1) / 30 + 1), some ((n - 1) % 30 + 1), none)))
      ⊎ ((360 < n) × (n ≤ 360 + max) × (x ≡ (none, none, some (n - 360))))
unfolding decompose_day_of_year
decompose-cases n max e = ground arith

built_Shape :
    (s : CalendarSystem) (y : ℤ) (n max : ℕ) (d : Date) {p : ParsiDate}
    → (max ≤ 6) × ((s ≡ fasli) ⊎ (max ≤ 5))
    → build_parsi_date s y n d max ≡ ok p
    → Shape p
unfolding build_parsi_date
built_Shape s y n max d h e =
    let (x, found, made) = >>=-eq-ok (decompose_day_of_year n max) _ e in
    rw (← ok_injective made) (elim (decompose-cases n max found) [
      | inl (lo, hi, is) ↦
          rw is
            (ordinary ((n - 1) / 30 + 1) ((n - 1) % 30 + 1) (omega arith) (refl, refl, refl, refl))
      | inr (lo, hi, is) ↦ rw is (
          gatha (n - 360)
            (
              omega (arith, h.0),
              omega (arith, h.0),
              elim h.1 [ inl f ↦ inl f | inr b ↦ inr (omega (arith, b)) ],
            )
            (refl, refl, refl, refl))
    ])

-- Whatever date is converted, and to whichever calendar, the answer is either a Roj (1 to 30) and a
-- Mah (1 to 12), or a Gatha day (1 to 5, or 6 in the Fasli calendar), never both and never neither.
pub gregorian_to_parsi-Shape :
    (s : CalendarSystem) (d : Date) (p : ParsiDate)
    → IsDate d
    → gregorian_to_parsi d s ≡ ok p
    → Shape p
gregorian_to_parsi-Shape s d p v e =
    let o = gregorian_to_parsi-DayOf s d p v e in
    built_Shape s p.year o.day (max_gatha_of s p.year) d (max_gatha_range s p.year) o.built
