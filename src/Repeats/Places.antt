-- ===== src/Repeats/Places.antt =====
-- The places of a series in the calendar, its occurrences, and their order.
use agyary.Common.{
  ℕ, zero, suc, ◌+◌, ◌-◌, ◌*◌, ◌≤◌, ◌<◌, ◌≡◌, ◌⊎◌, refl, sym, ap, ◌∙◌, subst, inl, inr, Option,
  none, some, List, [], ◌∷◌, Bool-cases, leb, All, Result, ok, overflow_error, >>=-eq-ok,
  ok_injective, some_injective, ℤ, ◌<ℤ◌, int_laws, arith, parts_of_eq,
}
use agyary.Dates.{Date, to_ordinal}
use agyary.Engine.{
  CalendarSystem, to_gregorian, parsi_to_gregorian, requested_day, max_gatha_of,
  day_of_year_from_mah_roj, days_per_month,
}
use agyary.Engine.Order.{year_order, day_order}
use agyary.Repeats.{
  Pattern, same_roj_every_mah, same_roj_mah_every_year, step_for, next_parsi_month, next_parsi_year,
  day_at, and_then, series_dates, last_or, last_occurrence, steps,
}
use agyary.Repeats.Due.{and_then-eq-ok}
use agyary.Repeats.Kept.{Result-cases}

-- One place of the calendar is before another.
abbrev pub Before : ℕ × ℤ → ℕ × ℤ → Type 0
Before (mah, year) (mah', year') = (year <ℤ year') ⊎ ((year ≡ year') × (mah < mah'))

Before-trans : (p q r : ℕ × ℤ) → Before p q → Before q r → Before p r
Before-trans (a, x) (b, y) (c, z) (inl h) (inl k) = inl (omega int_laws)
Before-trans (a, x) (b, y) (c, z) (inl h) (inr k) = inl (omega (int_laws, parts_of_eq _ _ k.0))
Before-trans (a, x) (b, y) (c, z) (inr h) (inl k) = inl (omega (int_laws, parts_of_eq _ _ h.0))
Before-trans (a, x) (b, y) (c, z) (inr h) (inr k) = inr (h.0 ∙ k.0, omega arith)

step_for-Before : (pattern : Pattern) (p : ℕ × ℤ) → Before p (step_for pattern p)
unfolding step_for next_parsi_month next_parsi_year
step_for-Before same_roj_every_mah (mah, year) = elim (Bool-cases (leb 12 mah)) [
  | inl last ↦ rw last (inl (omega int_laws))
  | inr within ↦ rw within (inr (refl, omega arith))
]
step_for-Before same_roj_mah_every_year (mah, year) = inl (omega int_laws)

steps-step :
    (pattern : Pattern) (n : ℕ) (p : ℕ × ℤ)
    → steps pattern n (step_for pattern p) ≡ step_for pattern (steps pattern n p)
unfolding steps
steps-step pattern zero p = refl
steps-step pattern (suc n) p = steps-step pattern n (step_for pattern p)

pub steps-add :
    (pattern : Pattern) (m n : ℕ) (p : ℕ × ℤ)
    → steps pattern n (steps pattern m p) ≡ steps pattern (m + n) p
unfolding steps
steps-add pattern zero n p = let e : n ≡ 0 + n = omega arith in ap (λ k. steps pattern k p) e
steps-add pattern (suc m) n p =
    let e : suc (m + n) ≡ suc m + n = omega arith in
    steps-add pattern m n (step_for pattern p) ∙ ap (λ k. steps pattern k p) e

pub steps-Before : (pattern : Pattern) (n : ℕ) (p : ℕ × ℤ) → Before p (steps pattern (suc n) p)
unfolding steps
steps-Before pattern zero p = step_for-Before pattern p
steps-Before pattern (suc n) p =
    Before-trans p (step_for pattern p) (steps pattern (suc n) (step_for pattern p))
      (step_for-Before pattern p) (steps-Before pattern n (step_for pattern p))

number_of : ℕ → ℕ → ℕ
number_of mah roj = (mah - 1) * days_per_month + roj

-- The day number of a Roj and a Mah.
requested_day-number :
    (max mah roj n : ℕ)
    → requested_day max (some mah) (some roj) none ≡ ok n
    → (n ≡ number_of mah roj) × (1 ≤ mah)
unfolding requested_day day_of_year_from_mah_roj number_of
requested_day-number max mah roj n e = (ground arith, ground arith)

day_at-parts :
    (system : CalendarSystem) (roj : Option ℕ) (mah : ℕ) (year : ℤ) (d : Date)
    → parsi_to_gregorian year system (some mah) roj none ≡ ok d
    → (r : ℕ) × (n : ℕ) × (roj ≡ some r)
      × (n ≡ number_of mah r)
      × (1 ≤ mah)
      × (to_gregorian system year n ≡ ok d)
unfolding parsi_to_gregorian requested_day
day_at-parts system none mah year d e = absurd (cc)
day_at-parts system (some r) mah year d e =
    let (n, asked, found) =
      >>=-eq-ok (requested_day (max_gatha_of system year) (some mah) (some r) none) _ e in
    let (is, low) = requested_day-number (max_gatha_of system year) mah r n asked in
    (r, n, refl, is, low, found)

-- A Roj comes round later at a later place.
pub day_at-lt :
    (system : CalendarSystem) (roj : Option ℕ) (p q : ℕ × ℤ) (a b : Date)
    → Before p q
    → day_at system roj p ≡ ok a
    → day_at system roj q ≡ ok b
    → to_ordinal a < to_ordinal b
unfolding number_of
day_at-lt system roj (mah, year) (mah', year') a b h is is' =
    let (r, n, r_is, n_is, low, found) = day_at-parts system roj mah year a is in
    let (s, m, s_is, m_is, low', found') = day_at-parts system roj mah' year' b is' in
    let same : r ≡ s = some_injective (sym r_is ∙ s_is) in
    elim h [
      | inl years ↦ year_order system year year' n m a b years found found'
      | inr (same_year, mahs) ↦
          let found₂ : to_gregorian system year m ≡ ok b =
            subst (λ y. to_gregorian system y m ≡ ok b) (sym same_year) found' in
          day_order system year n m a b (omega (arith, n_is, m_is, same)) found found₂
    ]

module _ (system : CalendarSystem) (pattern : Pattern) (roj : Option ℕ) where
  -- The n-th occurrence after a place, which is counted from 0.
  abbrev pub occurrence : ℕ × ℤ → ℕ → Result Date
  occurrence at n = day_at system roj (steps pattern n at)

  pub occurrence-lt :
      (at : ℕ × ℤ) (m n : ℕ) (a b : Date)
      → m < n
      → occurrence at m ≡ ok a
      → occurrence at n ≡ ok b
      → to_ordinal a < to_ordinal b
  occurrence-lt at m n a b h is is' =
      let gap : m + suc (n - m - 1) ≡ n = omega arith in
      let there : steps pattern (suc (n - m - 1)) (steps pattern m at) ≡ steps pattern n at =
        steps-add pattern m (suc (n - m - 1)) at ∙ ap (λ k. steps pattern k at) gap in
      day_at-lt system roj (steps pattern m at) (steps pattern n at) a b
        (subst (Before (steps pattern m at)) there
          (steps-Before pattern (n - m - 1) (steps pattern m at)))
        is is'

  -- Each day of a series is one of the occurrences after the place.
  abbrev pub IsOccurrence : ℕ × ℤ → ℕ → Date → Type 0
  IsOccurrence at limit d = (n : ℕ) × (n < limit) × (occurrence at (suc n) ≡ ok d)

  All-later_place :
      (at : ℕ × ℤ) (limit : ℕ) (days : List Date)
      → All (IsOccurrence (step_for pattern at) limit) days
      → All (IsOccurrence at (suc limit)) days
  unfolding steps
  All-later_place at limit [] h = tt
  All-later_place at limit (d ∷ days) ((n, lt, is), hs) =
      ((suc n, omega arith, is), All-later_place at limit days hs)

  pub series_dates-IsOccurrence :
      (at : ℕ × ℤ) (n : ℕ) (days : List Date)
      → series_dates system pattern roj at n ≡ ok days
      → All (IsOccurrence at n) days
  unfolding series_dates and_then steps
  series_dates-IsOccurrence at zero days e = subst (All (IsOccurrence at zero)) (ok_injective e) tt
  series_dates-IsOccurrence at (suc n) days e =
      let next = step_for pattern at in
      elim (Result-cases (day_at system roj next)) [
        | inl (day, is) ↦
            let (rest, later, all) =
              and_then-eq-ok day (series_dates system pattern roj next n) days (rw is at e) in
            subst (All (IsOccurrence at (suc n))) all (
              (
                (zero, omega arith, is),
                All-later_place at n rest (series_dates-IsOccurrence next n rest later),
              ))
        | inr (inl none') ↦
            All-later_place at n days (series_dates-IsOccurrence next n days (rw none' at e))
        | inr (inr bad) ↦ absurd (let k : overflow_error ≡ ok days = rw bad at e in (cc))
      ]

  last_or-All :
      (P : Date → Type 0) (days : List Date) (last : Option Date) (d : Date)
      → All P days
      → (last ≡ some d → P d)
      → last_or last days ≡ some d
      → P d
  unfolding last_or
  last_or-All P [] last d h w e = w e
  last_or-All P (c ∷ days) last d h w e =
      last_or-All P days (some c) d h.1 (λ is. subst P (some_injective is) h.0) e

  pub last_occurrence-IsOccurrence :
      (at : ℕ × ℤ) (count : ℕ) (end : Date)
      → last_occurrence system pattern roj at count ≡ ok (some end)
      → IsOccurrence at (count - 1) end
  unfolding last_occurrence
  last_occurrence-IsOccurrence at count end e =
      let (days, found, is) = >>=-eq-ok (series_dates system pattern roj at (count - 1)) _ e in
      last_or-All (IsOccurrence at (count - 1)) days none end
        (series_dates-IsOccurrence at (count - 1) days found) (λ h. absurd (let k = h in (cc)))
        (ok_injective is)
