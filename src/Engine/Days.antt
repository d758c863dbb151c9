-- ===== src/Engine/Days.antt =====
-- Each calendar numbers the days of its years: the two directions of the conversions of
-- calendar/engine.py undo one another on such numbers.
use agyary.Common.{
  ℕ, ◌+◌, ◌-◌, ◌≤◌, ◌≡◌, refl, sym, ap, ◌∙◌, Option, Result, ok, value_error, overflow_error, ◌>>=◌,
  >>=-eq-ok, ℤ, pos, pos_part, neg_part, ◌+ℤ◌, ◌-ℤ◌, ◌*ℤ◌, floor_div, floor_mod, floor_mod-lt,
  floor_div_parts, parts_of_eq, int_laws, arith,
}
use agyary.Dates.{Date, to_ordinal, from_ordinal, add_days}
use agyary.Dates.Ordinal.{IsDate}
use agyary.Dates.Shift.{
  from_ordinal-eq-ok, from_ordinal-to_ordinal, add_days-eq-ok, add_days-to_ordinal,
}
use agyary.Engine.{
  parsi_date, CalendarSystem, shenshai, kadmi, ParsiDate, build_parsi_date, decompose_day_of_year,
  shenshai_from_gregorian, shenshai_to_gregorian, kadmi_from_gregorian, kadmi_to_gregorian,
  to_gregorian, max_gatha_of, year_length, shenshai_anchor_navroze, shenshai_anchor_yz_year,
}

abbrev pub anchor : ℤ
anchor = pos (to_ordinal shenshai_anchor_navroze)

-- Day n of the Shenshai year y has this day number.
abbrev pub shenshai_day : ℤ → ℕ → ℤ
shenshai_day y n = anchor +ℤ ((y -ℤ shenshai_anchor_yz_year) *ℤ year_length +ℤ pos (n - 1))

pub shenshai_to_gregorian-eq-ok :
    (y : ℤ) (n : ℕ) {d : Date}
    → shenshai_to_gregorian y n ≡ ok d
    → (1 ≤ n) × (n ≤ 365) × (from_ordinal (shenshai_day y n) ≡ ok d)
unfolding shenshai_to_gregorian
shenshai_to_gregorian-eq-ok y n e = ground arith

-- The division by 365 finds the year and the day again.
shenshai_year :
    (y : ℤ) (n : ℕ) (k : ℤ)
    → 1 ≤ n
    → n ≤ 365
    → shenshai_day y n ≡ k
    → (shenshai_anchor_yz_year +ℤ floor_div (k -ℤ anchor) 365 ≡ y)
      × (floor_mod (k -ℤ anchor) 365 + 1 ≡ n)
shenshai_year y n k lo hi e =
    let z = k -ℤ anchor in
    let q = floor_div_parts z 365 (omega arith) in
    let r = floor_mod-lt z 365 (omega arith) in
    let e1 = ap pos_part e in let e2 = ap neg_part e in (omega int_laws, omega int_laws)

pub shenshai_from_gregorian-to :
    (y : ℤ) (n : ℕ) (d : Date)
    → shenshai_to_gregorian y n ≡ ok d
    → shenshai_from_gregorian d ≡ build_parsi_date shenshai y n d 5
unfolding shenshai_from_gregorian
shenshai_from_gregorian-to y n d e =
    let (lo, hi, built) = shenshai_to_gregorian-eq-ok y n e in
    let (year_is, day_is) =
      shenshai_year y n (pos (to_ordinal d)) lo hi (from_ordinal-eq-ok _ built).1 in
    rw (year_is, day_is)

shenshai_to_gregorian-from_ordinal :
    (y : ℤ) (n : ℕ) → 1 ≤ n → n ≤ 365 → shenshai_to_gregorian y n ≡ from_ordinal (shenshai_day y n)
unfolding shenshai_to_gregorian
shenshai_to_gregorian-from_ordinal y n lo hi = ground arith

shenshai_day_of :
    (k : ℤ)
    → shenshai_day
        (shenshai_anchor_yz_year +ℤ floor_div (k -ℤ anchor) 365)
        (floor_mod (k -ℤ anchor) 365 + 1)
      ≡ k
shenshai_day_of k =
    let z = k -ℤ anchor in
    let q = floor_div_parts z 365 (omega arith) in
    let r = floor_mod-lt z 365 (omega arith) in omega int_laws

-- The year and the day of the year of a date.
abbrev pub shenshai_parts : Date → ℤ × ℕ
shenshai_parts d =
    let z = pos (to_ordinal d) -ℤ anchor in
    (shenshai_anchor_yz_year +ℤ floor_div z 365, floor_mod z 365 + 1)

pub shenshai_to_gregorian-parts :
    (d : Date) → IsDate d → shenshai_to_gregorian (shenshai_parts d).0 (shenshai_parts d).1 ≡ ok d
shenshai_to_gregorian-parts d v =
    let r = floor_mod-lt (pos (to_ordinal d) -ℤ anchor) 365 (omega arith) in
    shenshai_to_gregorian-from_ordinal _ _ (omega arith) (omega arith)
    ∙ ap from_ordinal (shenshai_day_of (pos (to_ordinal d)))
    ∙ from_ordinal-to_ordinal d v

-- The Parsi date read under another calendar's name.
relabel_parts :
    (s s' : CalendarSystem) (y : ℤ) (d d' : Date) (r : Result (Option ℕ × Option ℕ × Option ℕ))
    → ((r >>= λ x. ok (parsi_date s y d x)) >>= λ p.
        ok (record p { calendar = s'; gregorian_date = d' }))
      ≡ (r >>= λ x. ok (parsi_date s' y d' x))
relabel_parts s s' y d d' (ok x) = refl
relabel_parts s s' y d d' value_error = refl
relabel_parts s s' y d d' overflow_error = refl

build_relabelled :
    (s s' : CalendarSystem) (y : ℤ) (n : ℕ) (d d' : Date) (max : ℕ)
    → (build_parsi_date s y n d max >>= λ p. ok (record p { calendar = s'; gregorian_date = d' }))
      ≡ build_parsi_date s' y n d' max
unfolding build_parsi_date
build_relabelled s s' y n d d' max = relabel_parts s s' y d d' (decompose_day_of_year n max)

pub shenshai_to_gregorian-IsDate :
    (y : ℤ) (n : ℕ) {d : Date} → shenshai_to_gregorian y n ≡ ok d → IsDate d
shenshai_to_gregorian-IsDate y n e = (from_ordinal-eq-ok _ (shenshai_to_gregorian-eq-ok y n e).2).0

pub kadmi_from_gregorian-to :
    (y : ℤ) (n : ℕ) (d : Date)
    → kadmi_to_gregorian y n ≡ ok d
    → kadmi_from_gregorian d ≡ build_parsi_date kadmi y n d 5
unfolding kadmi_from_gregorian kadmi_to_gregorian
kadmi_from_gregorian-to y n d e =
    let (s, found, back) = >>=-eq-ok (shenshai_to_gregorian y n) _ e in
    let there = (add_days-eq-ok s (pos 0 -ℤ pos 30) back).1 in
    let forth =
      add_days-to_ordinal d s (pos 30) (shenshai_to_gregorian-IsDate y n found)
        (omega (int_laws, parts_of_eq _ _ there)) in
    rw (forth, shenshai_from_gregorian-to y n s found) (build_relabelled shenshai kadmi y n s d 5)

pub kadmi_parts :
    (d : Date) (p : ParsiDate)
    → IsDate d
    → kadmi_from_gregorian d ≡ ok p
    → (y : ℤ) × (n : ℕ) × (kadmi_to_gregorian y n ≡ ok d) × (build_parsi_date kadmi y n d 5 ≡ ok p)
unfolding kadmi_from_gregorian kadmi_to_gregorian
kadmi_parts d p v e =
    let (s, forth, found) = >>=-eq-ok (add_days d (pos 30)) _ e in
    let there = add_days-eq-ok d (pos 30) forth in
    let (y, n) = shenshai_parts s in
    (
      y,
      n,
      rw (shenshai_to_gregorian-parts s there.0)
          (add_days-to_ordinal s d (pos 0 -ℤ pos 30) v (omega (int_laws, parts_of_eq _ _ there.1))),
      sym (build_relabelled shenshai kadmi y n s d 5) ∙ (unfold shenshai_from_gregorian in found),
    )

-- A date that has its Parsi date: the day number of its year leads back to it.
pub record DayOf (s : CalendarSystem) (d : Date) (p : ParsiDate) : Type 0 where
  pub day : ℕ
  pub back : to_gregorian s p.year day ≡ ok d
  pub built : build_parsi_date s p.year day d (max_gatha_of s p.year) ≡ ok p
