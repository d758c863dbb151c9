-- ===== src/Engine/Fasli.antt =====
-- The cycles of the Fasli calendar, which start on March 21: the two conversions undo one another.
use agyary.Common.{
  ℕ, ◌+◌, ◌-◌, ◌≤◌, ◌<◌, ◌≡◌, refl, sym, ap, ◌∙◌, inl, inr, Bool-cases, Bool, true, false, ltb, leb,
  ◌==◌, ◌&&◌, ◌||◌, ok, ◌>>=◌, >>=-eq-ok, ℤ, pos, ◌+ℤ◌, ◌-ℤ◌, floor_mod, parts_of_eq, eq_of_parts,
  int_laws, arith,
}
use agyary.Dates.{
  Date, date, to_ordinal, add_days, make_date, is_leap, leap_day, days_before_year,
  days_before_month, days_in_month,
}
use agyary.Dates.Ordinal.{
  IsDate, days_before_year-suc, days_before_year_mono, month_order, day_fits,
}
use agyary.Dates.Shift.{add_days-eq-ok, add_days-to_ordinal, make_date-eq-ok, make_date-IsDate}
use agyary.Engine.{
  fasli, ParsiDate, build_parsi_date, fasli_from_gregorian, fasli_to_gregorian,
  fasli_cycle_start_year, fasli_max_gatha, is_leap_year,
}

pub cycle_start_ordinal :
    (y : ℕ) → 1 ≤ y → to_ordinal (date y 3 21) + 285 ≡ days_before_year (y + 1)
unfolding to_ordinal days_before_month
cycle_start_ordinal y h = omega (arith, days_before_year-suc y h)

-- The day lies in the cycle that starts in year y.
abbrev pub InCycle : ℕ → ℕ → Type 0
InCycle y n = (days_before_year (y + 1) ≤ n + 285) × (n + 285 < days_before_year (y + 2))

InCycle-unique : (y z n : ℕ) → InCycle y n → InCycle z n → y ≡ z
InCycle-unique y z n h k =
    ground (arith, days_before_year_mono (y + 2) (z + 1), days_before_year_mono (z + 2) (y + 1))

-- The test `(month, day) >= (3, 21)`.
abbrev from_march : ℕ → ℕ → Bool
from_march m d = ltb 3 m || (m == 3 && leb 21 d)

before_march : (leap : Bool) → days_before_month leap 3 ≡ 59 + leap_day leap
unfolding days_before_month
before_march true = refl
before_march false = refl

in_march : (leap : Bool) → days_in_month leap 3 ≡ 31
unfolding days_in_month
in_march leap = refl

march_21 :
    (leap : Bool) (m d : ℕ)
    → 1 ≤ m
    → m ≤ 12
    → 1 ≤ d
    → d ≤ days_in_month leap m
    → (from_march m d ≡ true → 80 + leap_day leap ≤ days_before_month leap m + d)
      × (from_march m d ≡ false → days_before_month leap m + d < 80 + leap_day leap)
march_21 leap m d a b c h = (
  λ t. ground (arith, before_march leap, in_march leap, month_order leap 3 m),
  λ f. ground (arith, before_march leap, month_order leap m 3),
)

pub days_before_year_next :
    (y : ℕ) → days_before_year (y + 2) ≡ days_before_year (y + 1) + 365 + leap_day (is_leap (y + 1))
days_before_year_next y =
    let e : y + 1 + 1 ≡ y + 2 = omega arith in rw (← e) (days_before_year-suc (y + 1) (omega arith))

-- The year found is that of the cycle.
fasli_cycle_start_year-InCycle :
    (d : Date) → IsDate d → (y : ℕ) × (fasli_cycle_start_year d ≡ pos y) × InCycle y (to_ordinal d)
unfolding fasli_cycle_start_year to_ordinal
fasli_cycle_start_year-InCycle d v =
    let index =
      march_21 (is_leap d.year) d.month d.day v.month_in.0 v.month_in.1 v.day_in.0 v.day_in.1 in
    let this = days_before_year-suc d.year v.year_in.0 in
    let e0 : d.year - 1 + 1 ≡ d.year = omega arith in
    let e1 : d.year - 1 + 2 ≡ d.year + 1 = omega arith in
    elim (Bool-cases (from_march d.month d.day)) [
      | inl t ↦ (
        d.year,
        rw t,
        (
          omega (arith, this, index.0 t),
          omega (arith, this, day_fits d v, days_before_year_next d.year),
        ),
      )
      | inr f ↦ (
        d.year - 1,
        rw f (eq_of_parts _ _ (omega int_laws)),
        (rw e0 (omega (arith, v.day_in)), rw e1 (omega (arith, this, index.1 f))),
      )
    ]

-- The number of Gathas is that of the days up to the next start.
fasli_max_gatha-leap : (y : ℕ) → fasli_max_gatha (pos y) ≡ 5 + leap_day (is_leap (y + 1))
unfolding fasli_max_gatha is_leap_year is_leap floor_mod ◌+ℤ◌
fasli_max_gatha-leap y = ground arith

-- d is day n of the cycle that starts in the Gregorian year `start`, 630 years after y.
pub record IsFasliDay (y : ℤ) (n : ℕ) (d : Date) : Type 0 where
  pub start : ℕ
  pub start_is : y +ℤ pos 630 ≡ pos start
  pub start_valid : IsDate (date start 3 21)
  pub day_lo : 1 ≤ n
  pub day_hi : n ≤ 365 + leap_day (is_leap (start + 1))
  pub valid : IsDate d
  pub ordinal_is : to_ordinal d + 1 ≡ to_ordinal (date start 3 21) + n

module _ (y : ℤ) (n : ℕ) (d : Date) where
  fasli_steps :
      fasli_to_gregorian y n ≡ ok d
      → (1 ≤ n)
        × (n ≤ 360 + fasli_max_gatha (y +ℤ pos 630))
        × ((make_date (y +ℤ pos 630) 3 21 >>= λ s. add_days s (pos (n - 1))) ≡ ok d)
  unfolding fasli_to_gregorian
  fasli_steps e = ground arith

  fasli_start :
      (s : Date)
      → make_date (y +ℤ pos 630) 3 21 ≡ ok s
      → IsDate (date s.year 3 21) × (y +ℤ pos 630 ≡ pos s.year) × (s ≡ date s.year 3 21)
  fasli_start s e =
      let (v, ye, m, k) = make_date-eq-ok (y +ℤ pos 630) 3 21 e in
      let se : s ≡ date s.year 3 21 = ground arith in (rw se at v, ye, se)

  pub fasli_to_gregorian-IsFasliDay : fasli_to_gregorian y n ≡ ok d → IsFasliDay y n d
  fasli_to_gregorian-IsFasliDay e =
      let (lo, hi, rest) = fasli_steps e in
      let (s, made, added) = >>=-eq-ok (make_date (y +ℤ pos 630) 3 21) _ rest in
      let (v, ye, se) = fasli_start s made in
      let there = add_days-eq-ok s (pos (n - 1)) added in
      record {
        start = s.year;
        start_is = ye;
        start_valid = v;
        day_lo = lo;
        day_hi = omega (arith, hi, ap fasli_max_gatha ye, fasli_max_gatha-leap s.year);
        valid = there.0;
        ordinal_is = omega (int_laws, parts_of_eq _ _ there.1, ap to_ordinal se);
      }

  fasli_to_gregorian-of : IsFasliDay y n d → fasli_to_gregorian y n ≡ ok d
  unfolding fasli_to_gregorian
  fasli_to_gregorian-of h =
      let made = make_date-IsDate (date h.start 3 21) h.start_valid in
      let added =
        add_days-to_ordinal (date h.start 3 21) d (pos (n - 1)) h.valid
          (eq_of_parts _ _ (omega int_laws)) in
      let room : n ≤ 360 + fasli_max_gatha (pos h.start) =
        omega (arith, fasli_max_gatha-leap h.start) in
      rw (h.start_is, made, added) (ground arith)

  -- Such a day lies in its cycle, and the cycle found for it is that one.
  IsFasliDay-cycle : (h : IsFasliDay y n d) → fasli_cycle_start_year d ≡ pos h.start
  IsFasliDay-cycle h =
      let (found, found_is, inside) = fasli_cycle_start_year-InCycle d h.valid in
      let next : days_before_year (h.start + 2)
          ≡ days_before_year (h.start + 1) + 365 + leap_day (is_leap (h.start + 1)) =
        days_before_year_next h.start in
      let mine : InCycle h.start (to_ordinal d) = (
        omega (arith, cycle_start_ordinal h.start (h.start_valid.year_in.0)),
        omega (arith, cycle_start_ordinal h.start (h.start_valid.year_in.0), next),
      ) in
      found_is ∙ ap pos (InCycle-unique found h.start (to_ordinal d) inside mine)

  fasli_from_gregorian-of :
      IsFasliDay y n d
      → fasli_from_gregorian d ≡ build_parsi_date fasli y n d (fasli_max_gatha (y +ℤ pos 630))
  unfolding fasli_from_gregorian
  fasli_from_gregorian-of h =
      let made = make_date-IsDate (date h.start 3 21) h.start_valid in
      let day : to_ordinal d + 1 - to_ordinal (date h.start 3 21) ≡ n = omega arith in
      let year : pos h.start -ℤ pos 630 ≡ y =
        eq_of_parts _ _ (omega (int_laws, parts_of_eq _ _ h.start_is)) in
      rw (IsFasliDay-cycle h, made, h.start_is) (rw (day, year))

pub fasli_from_gregorian-to :
    (y : ℤ) (n : ℕ) (d : Date)
    → fasli_to_gregorian y n ≡ ok d
    → fasli_from_gregorian d ≡ build_parsi_date fasli y n d (fasli_max_gatha (y +ℤ pos 630))
fasli_from_gregorian-to y n d e =
    fasli_from_gregorian-of y n d (fasli_to_gregorian-IsFasliDay y n d e)

-- The first cycle is that of the year 1, and the first date of all that has a Fasli date.
fasli_start_valid :
    (d : Date) (p : ParsiDate) (c : ℕ)
    → fasli_from_gregorian d ≡ ok p
    → fasli_cycle_start_year d ≡ pos c
    → IsDate (date c 3 21)
unfolding fasli_from_gregorian
fasli_start_valid d p c e c_is =
    let (s, made, built) = >>=-eq-ok (make_date (fasli_cycle_start_year d) 3 21) _ e in
    let (v, ye, m, k) = make_date-eq-ok (fasli_cycle_start_year d) 3 21 made in
    let year : c ≡ s.year = omega (arith, parts_of_eq _ _ (sym c_is ∙ ye)) in
    let se : s ≡ date c 3 21 = ground arith in rw se at v

pub fasli_parts :
    (d : Date) (p : ParsiDate)
    → IsDate d
    → fasli_from_gregorian d ≡ ok p
    → (y : ℤ) × (n : ℕ) × (fasli_to_gregorian y n ≡ ok d)
      × (build_parsi_date fasli y n d (fasli_max_gatha (y +ℤ pos 630)) ≡ ok p)
fasli_parts d p v e =
    let (c, c_is, inside) = fasli_cycle_start_year-InCycle d v in
    let sv = fasli_start_valid d p c e c_is in
    let first = cycle_start_ordinal c sv.year_in.0 in
    let y = pos c -ℤ pos 630 in
    let n = to_ordinal d + 1 - to_ordinal (date c 3 21) in
    let h : IsFasliDay y n d = record {
      start = c;
      start_is = eq_of_parts _ _ (omega int_laws);
      start_valid = sv;
      day_lo = omega (arith, inside);
      day_hi = omega (arith, inside, days_before_year_next c);
      valid = v;
      ordinal_is = omega (arith, inside);
    } in
    (y, n, fasli_to_gregorian-of y n d h, sym (fasli_from_gregorian-of y n d h) ∙ e)
