-- ===== src/Memorials/Latest.antt =====
-- The day of a death that is given by its Roj and Mah alone: the most recent such day.
use agyary.Common.{
  ℕ, zero, suc, ◌+◌, ◌≤◌, ◌<◌, ◌≡◌, refl, sym, ap, ◌∙◌, subst, ◌⊎◌, inl, inr, none, some, List, [],
  ◌∷◌, Bool, true, false, Bool-cases, leb, leb→le, if◌then◌else◌, Among, ltb_ℤ, ltb_ℤ→lt,
  le_of_ltb_ℤ, Result, ok, value_error, overflow_error, ok_injective, ℤ, pos, ◌+ℤ◌, ◌-ℤ◌, ◌≤ℤ◌,
  parts_of_eq, int_laws, arith, ◌==◌, ◌&&◌, not,
}
use agyary.Dates.{Date, to_ordinal, leb_date, ltb_date}
use agyary.Dates.Ordinal.{IsDate}
use agyary.Dates.Shift.{add_days-eq-ok}
use agyary.Engine.{CalendarSystem, gregorian_to_parsi, to_gregorian}
use agyary.Engine.Order.{year_order}
use agyary.Engine.Occurrence.{years_from}
use agyary.Engine.RoundTrip.{gregorian_to_parsi-DayOf}
use agyary.Engine.Soonest.{Among-years_from, answer-day}
use agyary.Memorials.{
  Choice, Outcome, done, >>=-eq-done, done_injective, caught-ok, old_death_days, not_in_calendar,
  caught, demanded, death_given_once, no_such_roj_and_mah,
}
use agyary.Memorials.Death.{
  on_parsi_day, keep_past, past_days, last_date, last_of, latest_allowed, latest_day,
  is_roj_and_mah, death_by_parsi, death_given, in_year, by_parsi, by_its_date_or_year,
  resolve_death,
}

years_from-ge : (first y : ℤ) (n : ℕ) → Among y (years_from first n) → first ≤ℤ y
unfolding years_from
years_from-ge first y zero h = absurd h
years_from-ge first y (suc n) (inl e) = omega (int_laws, parts_of_eq _ _ e)
years_from-ge first y (suc n) (inr h) = omega (int_laws, years_from-ge (first +ℤ pos 1) y n h)

skip_second : (d c : Date) (cs : List Date) {x : Date} → Among x (d ∷ cs) → Among x (d ∷ c ∷ cs)
skip_second d c cs (inl e) = inl e
skip_second d c cs (inr h) = inr (inr h)

last_date-Among : (d : Date) (cs : List Date) → Among (last_date d cs) (d ∷ cs)
unfolding last_date
last_date-Among d [] = inl refl
last_date-Among d (c ∷ cs) = elim (Bool-cases (ltb_date d c)) [
  | inl later ↦
      subst (λ x. Among (last_date x cs) (d ∷ c ∷ cs)) (ap (λ b. if b then c else d) (sym later))
        (inr (last_date-Among c cs))
  | inr not_later ↦
      subst (λ x. Among (last_date x cs) (d ∷ c ∷ cs))
        (ap (λ b. if b then c else d) (sym not_later)) (skip_second d c cs (last_date-Among d cs))
]

last_date-ge_first : (d : Date) (cs : List Date) → to_ordinal d ≤ to_ordinal (last_date d cs)
unfolding last_date ltb_date
last_date-ge_first d [] = omega arith
last_date-ge_first d (b ∷ cs) = ground (arith, last_date-ge_first b cs, last_date-ge_first d cs)

last_date-ge :
    (d c : Date) (cs : List Date) → Among c (d ∷ cs) → to_ordinal c ≤ to_ordinal (last_date d cs)
unfolding last_date ltb_date
last_date-ge d c cs (inl e) = rw e (last_date-ge_first d cs)
last_date-ge d c [] (inr h) = absurd h
last_date-ge d c (b ∷ cs) (inr (inl e)) =
    rw e (ground (arith, last_date-ge_first b cs, last_date-ge_first d cs))
last_date-ge d c (b ∷ cs) (inr (inr h)) =
    ground (arith, last_date-ge b c cs (inr h), last_date-ge d c cs (inr h))

last_of-eq-done :
    (cs : List Date) (d : Date)
    → last_of cs ≡ done d
    → Among d cs × ((c : Date) → Among c cs → to_ordinal c ≤ to_ordinal d)
unfolding last_of
last_of-eq-done [] d e = absurd (cc)
last_of-eq-done (x ∷ xs) d e =
    let is : last_date x xs ≡ d = done_injective e in
    (
      subst (λ k. Among k (x ∷ xs)) is (last_date-Among x xs),
      λ c h. subst (λ k. to_ordinal c ≤ to_ordinal k) is (last_date-ge x c xs h),
    )

-- One round of the loop: what it finds is what the later rounds find, and perhaps its own day.
record Round (latest : Date) (r : Result Date) (later : Outcome (List Date)) (cs : List Date)
    : Type 0 where
  rest : List Date
  rest_found : later ≡ done rest
  own : (cs ≡ rest) ⊎ ((c : Date) × (r ≡ ok c) × (leb_date c latest ≡ true) × (cs ≡ c ∷ rest))
  kept : (c : Date) → r ≡ ok c → leb_date c latest ≡ true → cs ≡ c ∷ rest

round :
    (latest : Date) (r : Result Date) (later : Outcome (List Date)) (cs : List Date)
    → keep_past latest r later ≡ done cs
    → Round latest r later cs
unfolding keep_past
round latest value_error later cs e = record {
  rest = cs;
  rest_found = e;
  own = inl refl;
  kept = λ c n. cc;
}
round latest overflow_error later cs e = absurd (cc)
round latest (ok c) later cs e =
    let (rest, found, made) = >>=-eq-done later _ e in
    elim (Bool-cases (leb_date c latest)) [
      | inl fits ↦
          let is : cs ≡ c ∷ rest = sym (done_injective (rw fits at made)) in
          record {
            rest = rest;
            rest_found = found;
            own = inr (c, refl, fits, is);
            kept = λ b n h. is ∙ ap (λ x. x ∷ rest) (ok_injective n);
          }
      | inr ahead ↦ record {
        rest = rest;
        rest_found = found;
        own = inl (sym (done_injective (rw ahead at made)));
        kept = λ b n h. cc (ok_injective n);
      }
    ]

module _ (system : CalendarSystem) (roj mah : ℕ) (latest : Date) where
  past_days_sound :
      (ys : List ℤ) (cs : List Date) (d : Date)
      → past_days system roj mah latest ys ≡ done cs
      → Among d cs
      → (y : ℤ) × Among y ys × (on_parsi_day y system roj mah ≡ ok d) × (leb_date d latest ≡ true)
  unfolding past_days
  past_days_sound [] cs d e h = absurd (rw (← done_injective e) at h)
  past_days_sound (y ∷ ys) cs d e h =
      let r =
        round latest (on_parsi_day y system roj mah) (past_days system roj mah latest ys) cs e in
      let later : Among d r.rest
          → (z : ℤ) × Among z (y ∷ ys)
            × (on_parsi_day z system roj mah ≡ ok d)
            × (leb_date d latest ≡ true) =
        λ k.
          let (z, at, is, fits) = past_days_sound ys r.rest d r.rest_found k in
          (z, inr at, is, fits) in
      elim r.own [
        | inl same ↦ later (rw same at h)
        | inr (c, is, fits, made) ↦ elim (let k : Among d (c ∷ r.rest) = rw made at h in k) [
          | inl own ↦ (y, inl refl, rw own is, rw own fits)
          | inr old ↦ later old
        ]
      ]

  past_days-complete :
      (ys : List ℤ) (cs : List Date) (y : ℤ) (d : Date)
      → past_days system roj mah latest ys ≡ done cs
      → Among y ys
      → on_parsi_day y system roj mah ≡ ok d
      → leb_date d latest ≡ true
      → Among d cs
  unfolding past_days
  past_days-complete [] cs y d e h is fits = absurd h
  past_days-complete (x ∷ ys) cs y d e (inl same) is fits =
      let r =
        round latest (on_parsi_day x system roj mah) (past_days system roj mah latest ys) cs e in
      rw (r.kept d (rw same at is) fits) (inl refl)
  past_days-complete (x ∷ ys) cs y d e (inr h) is fits =
      let r =
        round latest (on_parsi_day x system roj mah) (past_days system roj mah latest ys) cs e in
      let later = past_days-complete ys r.rest y d r.rest_found h is fits in
      elim r.own [ inl same ↦ rw same later | inr (c, own, own_fits, made) ↦ rw made (inr later) ]

-- The day is a numbered day of its year.
pub on_parsi_day-day :
    (system : CalendarSystem) (roj mah : ℕ) (y : ℤ) (d : Date)
    → on_parsi_day y system roj mah ≡ ok d
    → (n : ℕ) × (to_gregorian system y n ≡ ok d)
unfolding on_parsi_day
on_parsi_day-day system roj mah y d e = elim (Bool-cases (mah == 13)) [
  | inl special ↦ answer-day system none none (some roj) d y d (rw special at e)
  | inr plain ↦ answer-day system (some mah) (some roj) none d y d (rw plain at e)
]

-- A death more than a year ago is at least 361 days back.
abbrev pub days_back : Bool → ℕ
days_back long_ago = if long_ago then old_death_days else 0

latest_allowed-eq-done :
    (long_ago : Bool) (today latest : Date)
    → latest_allowed long_ago today ≡ done latest
    → to_ordinal latest + days_back long_ago ≡ to_ordinal today
unfolding latest_allowed
latest_allowed-eq-done true today latest e =
    let (v, moved) = add_days-eq-ok today (pos 0 -ℤ pos old_death_days) (caught-ok _ _ e) in
    omega (int_laws, parts_of_eq _ _ moved)
latest_allowed-eq-done false today latest e = omega (arith, ap to_ordinal (done_injective e))

leb_of_le : (a b : ℕ) → a ≤ b → leb a b ≡ true
leb_of_le a b h = ground arith

-- d is such a day, early enough, and no later one of any year is.
pub record IsLatest (system : CalendarSystem) (roj mah : ℕ) (back : ℕ) (today d : Date)
    : Type 0 where
  pub year : ℤ
  pub its_day : on_parsi_day year system roj mah ≡ ok d
  pub early : to_ordinal d + back ≤ to_ordinal today
  pub latest :
      (y : ℤ) (c : Date)
      → on_parsi_day y system roj mah ≡ ok c
      → to_ordinal c + back ≤ to_ordinal today
      → to_ordinal c ≤ to_ordinal d

-- The day that the scan answers is the most recent one of all years.
pub latest_day-IsLatest :
    (system : CalendarSystem) (long_ago : Bool) (roj mah : ℕ) (today d : Date)
    → IsDate today
    → latest_day system long_ago roj mah today ≡ done d
    → IsLatest system roj mah (days_back long_ago) today d
unfolding latest_day leb_date
latest_day-IsLatest system long_ago roj mah today d v e =
    let (latest, allowed, e1) = >>=-eq-done (latest_allowed long_ago today) _ e in
    let (p, read, e2) =
      >>=-eq-done (caught not_in_calendar (gregorian_to_parsi today system)) _ e1 in
    let years = years_from (p.year -ℤ pos 4) 5 in
    let (found, scanned, e3) = >>=-eq-done (past_days system roj mah latest years) _ e2 in
    let (among, least) = last_of-eq-done found d e3 in
    let (z, at, is, fits) = past_days_sound system roj mah latest years found d scanned among in
    let now = gregorian_to_parsi-DayOf system today p v (caught-ok _ _ read) in
    let (m, day) = on_parsi_day-day system roj mah z d is in
    let back = latest_allowed-eq-done long_ago today latest allowed in
    record {
      year = z;
      its_day = is;
      early = omega (arith, leb→le _ _ fits);
      latest = λ y c c_is c_early.
          let (n, c_day) = on_parsi_day-day system roj mah y c c_is in
          elim (Bool-cases (ltb_ℤ p.year y)) [
            | inl ahead ↦
                let after : to_ordinal today < to_ordinal c =
                  year_order system p.year y now.day n today c (ltb_ℤ→lt p.year y ahead) now.back
                    c_day in
                absurd (omega (arith, after))
            | inr now_or_past ↦ elim (Bool-cases (ltb_ℤ y z)) [
              | inl far ↦
                  let before : to_ordinal c < to_ordinal d =
                    year_order system y z n m c d (ltb_ℤ→lt y z far) c_day day in
                  omega (arith, before)
              | inr near ↦
                  let lo : z ≤ℤ y = le_of_ltb_ℤ y z near in
                  let hi : y ≤ℤ p.year = le_of_ltb_ℤ p.year y now_or_past in
                  let from : p.year -ℤ pos 4 ≤ℤ z = years_from-ge _ z 5 at in
                  let scanned_year : Among y years =
                    Among-years_from (p.year -ℤ pos 4) y 5 (omega int_laws) (omega int_laws) in
                  least c (
                    past_days-complete system roj mah latest years found y c scanned scanned_year
                      c_is (leb_of_le _ _ (omega arith)))
            ]
          ];
    }

-- A death that is given by its Roj and Mah alone is placed on the most recent such day: on that Roj
-- and Mah of some Parsi year, today or before, or at least 361 days back where it was more than a
-- year ago, and no such day of any year, looked at or not, is later and early enough.
pub resolve_death-IsLatest :
    (system : CalendarSystem) (choice : Choice) (today d : Date) (roj mah : ℕ)
    → IsDate today
    → choice.death_date ≡ none
    → choice.death_year ≡ none
    → choice.death_roj ≡ some roj
    → choice.death_mah ≡ some mah
    → resolve_death system choice today ≡ done d
    → IsLatest system roj mah (days_back choice.long_ago) today d
unfolding resolve_death death_given death_by_parsi in_year
resolve_death-IsLatest system choice today d roj mah v no_date no_year its_roj its_mah e =
    let (one_way, e1) = demanded (not (choice.long_ago && by_its_date_or_year choice)) _ _ e in
    let (parsi, e2) = demanded (by_parsi choice) death_given_once _ (rw no_date at e1) in
    let (fits, e3) =
      demanded (is_roj_and_mah roj mah) no_such_roj_and_mah _ (rw (its_roj, its_mah) at e2) in
    latest_day-IsLatest system choice.long_ago roj mah today d v (rw no_year at e3)
