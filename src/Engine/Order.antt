-- ===== src/Engine/Order.antt =====
-- A date of an earlier Parsi year is an earlier date, in every calendar.
use agyary.Common.{ℕ, ◌+◌, ◌≤◌, ◌<◌, ◌≡◌, ap, ok, >>=-eq-ok, ℤ, ◌<ℤ◌, parts_of_eq, int_laws, arith}
use agyary.Dates.{Date, date, to_ordinal}
use agyary.Dates.Ordinal.{days_before_year_mono}
use agyary.Dates.Shift.{from_ordinal-eq-ok, add_days-eq-ok}
use agyary.Engine.{
  CalendarSystem, shenshai, kadmi, fasli, shenshai_to_gregorian, kadmi_to_gregorian,
  fasli_to_gregorian, to_gregorian,
}
use agyary.Engine.Days.{shenshai_day, shenshai_to_gregorian-eq-ok}
use agyary.Engine.Fasli.{fasli_to_gregorian-IsFasliDay, cycle_start_ordinal, days_before_year_next}

shenshai_order :
    (y y' : ℤ) (n n' : ℕ) (k k' : ℤ)
    → y <ℤ y'
    → (1 ≤ n) × (n ≤ 365)
    → (1 ≤ n') × (n' ≤ 365)
    → shenshai_day y n ≡ k
    → shenshai_day y' n' ≡ k'
    → k <ℤ k'
shenshai_order y y' n n' k k' h r r' e e' = omega (int_laws, parts_of_eq _ _ e, parts_of_eq _ _ e')

module _ (y y' : ℤ) (n n' : ℕ) (d d' : Date) (h : y <ℤ y') where
  shenshai_year_order :
      shenshai_to_gregorian y n ≡ ok d
      → shenshai_to_gregorian y' n' ≡ ok d'
      → to_ordinal d < to_ordinal d'
  shenshai_year_order e e' =
      let (lo, hi, is) = shenshai_to_gregorian-eq-ok y n e in
      let (lo', hi', is') = shenshai_to_gregorian-eq-ok y' n' e' in
      omega (
        arith,
        shenshai_order y y' n n' _ _ h (lo, hi) (lo', hi') (from_ordinal-eq-ok _ is).1
            (from_ordinal-eq-ok _ is').1,
      )

  fasli_year_order :
      fasli_to_gregorian y n ≡ ok d
      → fasli_to_gregorian y' n' ≡ ok d'
      → to_ordinal d < to_ordinal d'
  fasli_year_order e e' =
      let a = fasli_to_gregorian-IsFasliDay y n d e in
      let b = fasli_to_gregorian-IsFasliDay y' n' d' e' in
      let later : a.start < b.start =
        omega (int_laws, parts_of_eq _ _ a.start_is, parts_of_eq _ _ b.start_is) in
      omega (
        arith,
        cycle_start_ordinal a.start a.start_valid.year_in.0,
        cycle_start_ordinal b.start b.start_valid.year_in.0,
        days_before_year_next a.start,
        days_before_year_mono (a.start + 2) (b.start + 1) (omega arith),
        a.day_hi,
        a.ordinal_is,
        b.day_lo,
        b.ordinal_is,
      )

kadmi_year_order :
    (y y' : ℤ) (n n' : ℕ) (d d' : Date)
    → y <ℤ y'
    → kadmi_to_gregorian y n ≡ ok d
    → kadmi_to_gregorian y' n' ≡ ok d'
    → to_ordinal d < to_ordinal d'
unfolding kadmi_to_gregorian
kadmi_year_order y y' n n' d d' h e e' =
    let (s, found, back) = >>=-eq-ok (shenshai_to_gregorian y n) _ e in
    let (s', found', back') = >>=-eq-ok (shenshai_to_gregorian y' n') _ e' in
    omega (
      int_laws,
      shenshai_year_order y y' n n' s s' h found found',
      parts_of_eq _ _ (add_days-eq-ok s _ back).1,
      parts_of_eq _ _ (add_days-eq-ok s' _ back').1,
    )

-- Of two dates of different Parsi years, in one calendar, the one of the earlier year is the earlier
-- date.
pub year_order :
    (s : CalendarSystem) (y y' : ℤ) (n n' : ℕ) (d d' : Date)
    → y <ℤ y'
    → to_gregorian s y n ≡ ok d
    → to_gregorian s y' n' ≡ ok d'
    → to_ordinal d < to_ordinal d'
unfolding to_gregorian
year_order shenshai = shenshai_year_order
year_order kadmi = kadmi_year_order
year_order fasli = fasli_year_order

module _ (y : ℤ) (n n' : ℕ) (d d' : Date) (h : n < n') where
  shenshai_day_order :
      shenshai_to_gregorian y n ≡ ok d
      → shenshai_to_gregorian y n' ≡ ok d'
      → to_ordinal d < to_ordinal d'
  shenshai_day_order e e' =
      let (lo, hi, is) = shenshai_to_gregorian-eq-ok y n e in
      let (lo', hi', is') = shenshai_to_gregorian-eq-ok y n' e' in
      omega (
        int_laws,
        parts_of_eq _ _ (from_ordinal-eq-ok _ is).1,
        parts_of_eq _ _ (from_ordinal-eq-ok _ is').1,
      )

  fasli_day_order :
      fasli_to_gregorian y n ≡ ok d → fasli_to_gregorian y n' ≡ ok d' → to_ordinal d < to_ordinal d'
  fasli_day_order e e' =
      let a = fasli_to_gregorian-IsFasliDay y n d e in
      let b = fasli_to_gregorian-IsFasliDay y n' d' e' in
      let same : a.start ≡ b.start =
        omega (int_laws, parts_of_eq _ _ a.start_is, parts_of_eq _ _ b.start_is) in
      omega (arith, ap (λ (t : ℕ). to_ordinal (date t 3 21)) same, a.ordinal_is, b.ordinal_is)

kadmi_day_order :
    (y : ℤ) (n n' : ℕ) (d d' : Date)
    → n < n'
    → kadmi_to_gregorian y n ≡ ok d
    → kadmi_to_gregorian y n' ≡ ok d'
    → to_ordinal d < to_ordinal d'
unfolding kadmi_to_gregorian
kadmi_day_order y n n' d d' h e e' =
    let (s, found, back) = >>=-eq-ok (shenshai_to_gregorian y n) _ e in
    let (s', found', back') = >>=-eq-ok (shenshai_to_gregorian y n') _ e' in
    omega (
      int_laws,
      shenshai_day_order y n n' s s' h found found',
      parts_of_eq _ _ (add_days-eq-ok s _ back).1,
      parts_of_eq _ _ (add_days-eq-ok s' _ back').1,
    )

-- Of two day numbers of one Parsi year that convert to dates, the lower has the earlier date.
pub day_order :
    (s : CalendarSystem) (y : ℤ) (n n' : ℕ) (d d' : Date)
    → n < n'
    → to_gregorian s y n ≡ ok d
    → to_gregorian s y n' ≡ ok d'
    → to_ordinal d < to_ordinal d'
unfolding to_gregorian
day_order shenshai = shenshai_day_order
day_order kadmi = kadmi_day_order
day_order fasli = fasli_day_order
