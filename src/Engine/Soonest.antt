-- ===== src/Engine/Soonest.antt =====
-- `nearest_occurrence` answers the soonest date that fits, of all years and not just those scanned.
use agyary.Common.{
  ℕ, zero, suc, ◌≤◌, ◌<◌, ◌≡◌, refl, sym, ap, ◌∙◌, ◌⊎◌, inl, inr, Option, List, [], ◌∷◌, Bool, true,
  false, leb_ℤ, ltb_ℤ, ltb_ℤ→lt, le_of_ltb_ℤ, leb→le, subst, Bool-cases, if◌then◌else◌, Among,
  Result, ok, value_error, overflow_error, >>=-eq-ok, ok_injective, ℤ, pos, ◌+ℤ◌, ◌-ℤ◌, ◌≤ℤ◌, ◌<ℤ◌,
  parts_of_eq, eq_of_parts, int_laws, arith,
}
use agyary.Dates.{Date, to_ordinal, leb_date, ltb_date}
use agyary.Dates.Ordinal.{IsDate}
use agyary.Engine.{
  CalendarSystem, ParsiDate, gregorian_to_parsi, to_gregorian, parsi_to_gregorian, requested_day,
  max_gatha_of,
}
use agyary.Engine.RoundTrip.{gregorian_to_parsi-DayOf}
use agyary.Engine.Order.{year_order}
use agyary.Engine.Occurrence.{
  years_from, keep_candidate, candidates, earliest, earliest_of, nearest_occurrence,
}

-- The years of a range stand in the list.
pub Among-years_from :
    (first y : ℤ) (n : ℕ) → first ≤ℤ y → y <ℤ first +ℤ pos n → Among y (years_from first n)
unfolding years_from
Among-years_from first y zero lo hi = absurd (omega int_laws)
Among-years_from first y (suc n) lo hi = elim (Bool-cases (leb_ℤ y first)) [
  | inl same ↦ inl (eq_of_parts y first (ground arith))
  | inr later ↦
      let above : first <ℤ y = ground arith in
      inr (Among-years_from (first +ℤ pos 1) y n (omega int_laws) (omega int_laws))
]

years_from-lt : (first y : ℤ) (n : ℕ) → Among y (years_from first n) → y <ℤ first +ℤ pos n
unfolding years_from
years_from-lt first y zero h = absurd h
years_from-lt first y (suc n) (inl e) = omega (int_laws, parts_of_eq _ _ e)
years_from-lt first y (suc n) (inr h) = omega (int_laws, years_from-lt (first +ℤ pos 1) y n h)

skip_second : (d c : Date) (cs : List Date) {x : Date} → Among x (d ∷ cs) → Among x (d ∷ c ∷ cs)
skip_second d c cs (inl e) = inl e
skip_second d c cs (inr h) = inr (inr h)

choose :
    (d c : Date) (cs : List Date) (b : Bool)
    → Among (earliest c cs) (c ∷ cs)
    → Among (earliest d cs) (d ∷ cs)
    → Among (earliest (if b then c else d) cs) (d ∷ c ∷ cs)
choose d c cs true h k = inr h
choose d c cs false h k = skip_second d c cs k

earliest-Among : (d : Date) (cs : List Date) → Among (earliest d cs) (d ∷ cs)
unfolding earliest
earliest-Among d [] = inl refl
earliest-Among d (c ∷ cs) = choose d c cs (ltb_date c d) (earliest-Among c cs) (earliest-Among d cs)

earliest-le_first : (d : Date) (cs : List Date) → to_ordinal (earliest d cs) ≤ to_ordinal d
unfolding earliest ltb_date
earliest-le_first d [] = omega arith
earliest-le_first d (b ∷ cs) = ground (arith, earliest-le_first b cs, earliest-le_first d cs)

earliest-le :
    (d c : Date) (cs : List Date) → Among c (d ∷ cs) → to_ordinal (earliest d cs) ≤ to_ordinal c
unfolding earliest ltb_date
earliest-le d c cs (inl e) = rw e (earliest-le_first d cs)
earliest-le d c [] (inr h) = absurd h
earliest-le d c (b ∷ cs) (inr (inl e)) =
    rw e (ground (arith, earliest-le_first b cs, earliest-le_first d cs))
earliest-le d c (b ∷ cs) (inr (inr h)) =
    ground (arith, earliest-le b c cs (inr h), earliest-le d c cs (inr h))

-- One round of the scan: what it finds is what the later rounds find, and perhaps its own answer.
record Round (reference : Date) (r : Result Date) (later : Result (List Date)) (cs : List Date)
    : Type 0 where
  rest : List Date
  rest_found : later ≡ ok rest
  own : (cs ≡ rest) ⊎ ((c : Date) × (r ≡ ok c) × (leb_date reference c ≡ true) × (cs ≡ c ∷ rest))
  kept : (c : Date) → r ≡ ok c → leb_date reference c ≡ true → cs ≡ c ∷ rest

round :
    (reference : Date) (r : Result Date) (later : Result (List Date)) (cs : List Date)
    → keep_candidate reference r later ≡ ok cs
    → Round reference r later cs
unfolding keep_candidate
round reference value_error later cs e = record {
  rest = cs;
  rest_found = e;
  own = inl refl;
  kept = λ c n. cc;
}
round reference overflow_error later cs e = absurd (cc)
round reference (ok c) later cs e = elim (Bool-cases (leb_date reference c)) [
  | inl fits ↦
      let (rest, found, made) = >>=-eq-ok later _ (rw fits at e) in
      record {
        rest = rest;
        rest_found = found;
        own = inr (c, refl, fits, sym (ok_injective made));
        kept = λ b n h. sym (ok_injective made) ∙ ap (λ x. x ∷ rest) (ok_injective n);
      }
  | inr past ↦ record {
    rest = cs;
    rest_found = rw past at e;
    own = inl refl;
    kept = λ b n h. cc (ok_injective n);
  }
]

module _ (system : CalendarSystem) (mah roj gatha_index : Option ℕ) (reference : Date) where
  -- The request, asked in one year.
  abbrev answer : ℤ → Result Date
  answer y = parsi_to_gregorian y system mah roj gatha_index

  abbrev scan : List ℤ → Result (List Date)
  scan = candidates system mah roj gatha_index reference

  -- What the scan finds are answers on or after the reference.
  scan_sound :
      (ys : List ℤ) (cs : List Date) (d : Date)
      → scan ys ≡ ok cs
      → Among d cs
      → (y : ℤ) × Among y ys × (answer y ≡ ok d) × (leb_date reference d ≡ true)
  unfolding candidates
  scan_sound [] cs d e h = absurd (rw (← ok_injective e) at h)
  scan_sound (y ∷ ys) cs d e h =
      let r = round reference (answer y) (scan ys) cs e in
      let later : Among d r.rest
          → (z : ℤ) × Among z (y ∷ ys) × (answer z ≡ ok d) × (leb_date reference d ≡ true) =
        λ k.
          let (z, at, is, fits) = scan_sound ys r.rest d r.rest_found k in (z, inr at, is, fits) in
      elim r.own [
        | inl same ↦ later (rw same at h)
        | inr (c, is, fits, made) ↦ elim (let k : Among d (c ∷ r.rest) = rw made at h in k) [
          | inl own ↦ (y, inl refl, rw own is, rw own fits)
          | inr old ↦ later old
        ]
      ]

  -- It leaves none of them out.
  scan_complete :
      (ys : List ℤ) (cs : List Date) (y : ℤ) (d : Date)
      → scan ys ≡ ok cs
      → Among y ys
      → answer y ≡ ok d
      → leb_date reference d ≡ true
      → Among d cs
  unfolding candidates
  scan_complete [] cs y d e h is fits = absurd h
  scan_complete (x ∷ ys) cs y d e (inl same) is fits =
      let r = round reference (answer x) (scan ys) cs e in
      rw (r.kept d (rw same at is) fits) (inl refl)
  scan_complete (x ∷ ys) cs y d e (inr h) is fits =
      let r = round reference (answer x) (scan ys) cs e in
      let later = scan_complete ys r.rest y d r.rest_found h is fits in
      elim r.own [ inl same ↦ rw same later | inr (c, own, own_fits, made) ↦ rw made (inr later) ]

  -- An answer is a numbered day of its year.
  pub answer-day : (y : ℤ) (d : Date) → answer y ≡ ok d → (n : ℕ) × (to_gregorian system y n ≡ ok d)
  unfolding parsi_to_gregorian
  answer-day y d e =
      let (n, asked, found) =
        >>=-eq-ok (requested_day (max_gatha_of system y) mah roj gatha_index) _ e in
      (n, found)

  earliest_of-eq-ok :
      (cs : List Date) (d : Date)
      → earliest_of cs ≡ ok d
      → Among d cs × ((c : Date) → Among c cs → to_ordinal d ≤ to_ordinal c)
  unfolding earliest_of
  earliest_of-eq-ok [] d e = absurd (cc)
  earliest_of-eq-ok (x ∷ xs) d e =
      let is : earliest x xs ≡ d = ok_injective e in
      (
        subst (λ k. Among k (x ∷ xs)) is (earliest-Among x xs),
        λ c h. subst (λ k. to_ordinal k ≤ to_ordinal c) is (earliest-le x c xs h),
      )

  -- The parts of a successful search.
  record Searched (d : Date) : Type 0 where
    current : ParsiDate
    current_is : gregorian_to_parsi reference system ≡ ok current
    found : List Date
    scanned : scan (years_from (current.year -ℤ pos 1) 7) ≡ ok found
    among : Among d found
    least : (c : Date) → Among c found → to_ordinal d ≤ to_ordinal c

  searched :
      (d : Date) → nearest_occurrence system mah roj gatha_index reference ≡ ok d → Searched d
  unfolding nearest_occurrence
  searched d e =
      let (p, p_is, rest) = >>=-eq-ok (gregorian_to_parsi reference system) _ e in
      let (cs, cs_is, last) = >>=-eq-ok (scan (years_from (p.year -ℤ pos 1) 7)) _ rest in
      let (a, l) = earliest_of-eq-ok cs d last in
      record { current = p; current_is = p_is; found = cs; scanned = cs_is; among = a; least = l }

  -- What `nearest_occurrence` answers is an answer of `parsi_to_gregorian` to the same request, in
  -- some year, and it is not before the reference date.
  pub nearest_occurrence-answers :
      (d : Date)
      → nearest_occurrence system mah roj gatha_index reference ≡ ok d
      → (y : ℤ) × (parsi_to_gregorian y system mah roj gatha_index ≡ ok d)
        × (leb_date reference d ≡ true)
  nearest_occurrence-answers d e =
      let h = searched d e in
      let (y, at, is, fits) = scan_sound _ h.found d h.scanned h.among in (y, is, fits)

  -- The date that `nearest_occurrence` answers for a valid reference date is the soonest: no answer to
  -- the same request in any year at all, scanned or not, that is on or after the reference date comes
  -- before it.
  pub nearest_occurrence-soonest :
      (d : Date) (y : ℤ) (c : Date)
      → IsDate reference
      → nearest_occurrence system mah roj gatha_index reference ≡ ok d
      → parsi_to_gregorian y system mah roj gatha_index ≡ ok c
      → leb_date reference c ≡ true
      → to_ordinal d ≤ to_ordinal c
  unfolding leb_date
  nearest_occurrence-soonest d y c v e is fits =
      let h = searched d e in
      let now = gregorian_to_parsi-DayOf system reference h.current v h.current_is in
      let (n, day) = answer-day y c is in
      let (z, at, z_is, z_fits) = scan_sound _ h.found d h.scanned h.among in
      let (m, day') = answer-day z d z_is in
      let bound = years_from-lt (h.current.year -ℤ pos 1) z 7 at in
      elim (Bool-cases (ltb_ℤ y h.current.year)) [
        | inl past ↦
            let before : to_ordinal c < to_ordinal reference =
              year_order system y h.current.year n now.day c reference
                (ltb_ℤ→lt y h.current.year past) day now.back in
            absurd (omega (arith, before, leb→le _ _ fits))
        | inr current ↦ elim (Bool-cases (ltb_ℤ z y)) [
          | inl far ↦
              let after : to_ordinal d < to_ordinal c =
                year_order system z y m n d c (ltb_ℤ→lt z y far) day' day in
              omega (arith, after)
          | inr near ↦
              let lo : h.current.year ≤ℤ y = le_of_ltb_ℤ y h.current.year current in
              let hi : y ≤ℤ z = le_of_ltb_ℤ z y near in
              h.least c (
                scan_complete _ h.found y c h.scanned
                  (Among-years_from (h.current.year -ℤ pos 1) y 7 (omega int_laws) (omega int_laws))
                  is fits)
        ]
      ]
