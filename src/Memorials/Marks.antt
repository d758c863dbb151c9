-- ===== src/Memorials/Marks.antt =====
-- The paid marks of a memorial, and how far it has got.
use agyary.Common.{
  ℕ, ◌+◌, ◌≤◌, ◌<◌, ◌≡◌, ◌↔◌, ◌⊎◌, refl, inl, inr, Option, none, some, List, [], ◌∷◌, Bool, true,
  false, Bool-cases, is_some, Among, All, arith,
}
use agyary.Dates.{Date, to_ordinal, leb_date, ltb_date}
use agyary.Memorial.Keep.{insert_sorted, sorted}
use agyary.Memorials.Saving.{KeptDate, KeptMemorial, count_dates}
use agyary.Memorials.Reading.{
  by_kept, still_to_come, count_past, count_paid, head_of, progress, mark_paid, is_meant,
  set_paid_dates, set_paid,
}
use agyary.Memorials.Closing.{kept_day}
use agyary.Memorials.Rows.{both_ways}

-- A date is as it was, or is meant and marked as asked.
abbrev pub Marked : Bool → Option ℕ → KeptDate → KeptDate → Type 0
Marked paid only d e =
    (e.id ≡ d.id)
    × (is_meant only d.id ≡ true → is_some e.paid_at ≡ paid)
    × (is_meant only d.id ≡ false → e ≡ d)

abbrev pub EachMarked : Bool → Option ℕ → List KeptDate → List KeptDate → Type 0
EachMarked paid only [] [] = Unit
EachMarked paid only (d ∷ ds) (e ∷ es) = Marked paid only d e × EachMarked paid only ds es
EachMarked paid only _ _ = ⊥

-- The paid dates before and after, by the number that changed.
abbrev pub Balance : Bool → ℕ → ℕ → ℕ → Type 0
Balance true before changed after = after ≡ before + changed
Balance false before changed after = after + changed ≡ before

mark_paid-Marked :
    (paid : Bool) (only : Option ℕ) (now : ℕ) (d : KeptDate)
    → is_meant only d.id ≡ true
    → Marked paid only d (mark_paid paid now d).0
unfolding mark_paid
mark_paid-Marked true only now d meant = elim (Bool-cases (is_some d.paid_at)) [
  | inl is ↦ rw is (refl, λ h. is, λ h. refl)
  | inr isnt ↦ rw isnt (refl, λ h. refl, λ h. absurd (both_ways _ meant h))
]
mark_paid-Marked false only now d meant = elim (Bool-cases (is_some d.paid_at)) [
  | inl is ↦ rw is (refl, λ h. refl, λ h. absurd (both_ways _ meant h))
  | inr isnt ↦ rw isnt (refl, λ h. isnt, λ h. refl)
]

set_paid_dates-EachMarked :
    (paid : Bool) (only : Option ℕ) (now : ℕ) (ds : List KeptDate)
    → EachMarked paid only ds (set_paid_dates paid only now ds).0
unfolding set_paid_dates mark_paid
set_paid_dates-EachMarked paid only now [] = tt
set_paid_dates-EachMarked paid only now (d ∷ ds) = elim (Bool-cases (is_meant only d.id)) [
  | inl meant ↦
      rw meant (mark_paid-Marked paid only now d meant, set_paid_dates-EachMarked paid only now ds)
  | inr other ↦ rw other ((refl, λ h. cc h, λ h. refl), set_paid_dates-EachMarked paid only now ds)
]

set_paid_dates-Balance :
    (paid : Bool) (only : Option ℕ) (now : ℕ) (ds : List KeptDate)
    → Balance paid
        (count_paid ds)
        (set_paid_dates paid only now ds).1
        (count_paid (set_paid_dates paid only now ds).0)
unfolding set_paid_dates mark_paid count_paid
set_paid_dates-Balance true only now [] = refl
set_paid_dates-Balance false only now [] = refl
set_paid_dates-Balance true only now (d ∷ ds) =
    ground (arith, set_paid_dates-Balance true only now ds)
set_paid_dates-Balance false only now (d ∷ ds) =
    ground (arith, set_paid_dates-Balance false only now ds)

-- Ticking or unticking leaves every date but those meant as it was, each of those meant is marked as
-- asked, and the number answered is by how many the count of paid dates has changed.
pub set_paid-Balance :
    (m : KeptMemorial) (paid : Bool) (only : Option ℕ) (now : ℕ) (today : Date)
    → EachMarked paid only m.observances (set_paid m paid only now).0.observances
      × Balance paid
          (progress m today).paid_count
          (set_paid m paid only now).1
          (progress (set_paid m paid only now).0 today).paid_count
unfolding set_paid progress
set_paid-Balance m paid only now today = (
  set_paid_dates-EachMarked paid only now m.observances,
  set_paid_dates-Balance paid only now m.observances,
)

-- The first date of what is sorted: no date is before it.
record First (ds : List KeptDate) (d : KeptDate) : Type 0 where
  stands : Among d ds
  least : All (λ c. kept_day d ≤ kept_day c) ds

All-later :
    (n k : ℕ) (ds : List KeptDate)
    → n ≤ k
    → All (λ c. k ≤ kept_day c) ds
    → All (λ c. n ≤ kept_day c) ds
All-later n k [] h hs = tt
All-later n k (d ∷ ds) h hs = (omega arith, All-later n k ds h hs.1)

by_kept_cases :
    (a b : KeptDate)
    → ((by_kept a b ≡ true) × (kept_day a ≤ kept_day b))
      ⊎ ((by_kept a b ≡ false) × (kept_day b ≤ kept_day a))
unfolding ltb_date leb_date
by_kept_cases a b = ground arith

sorted-First :
    (ds : List KeptDate)
    → ((sorted by_kept ds ≡ []) × (ds ≡ []))
      ⊎ ((d : KeptDate) × (rest : List KeptDate) × (sorted by_kept ds ≡ d ∷ rest) × First ds d)
unfolding sorted insert_sorted
sorted-First [] = inl (refl, refl)
sorted-First (d ∷ ds) = elim (sorted-First ds) [
  | inl (empty, none') ↦
      inr (d, [], rw empty refl, rw none' (record { stands = inl refl; least = (omega arith, tt) }))
  | inr (e, rest, is, first) ↦ elim (by_kept_cases d e) [
    | inl (before, le) ↦ inr (
      d,
      e ∷ rest,
      rw is (rw before refl),
      record {
        stands = inl refl;
        least = (omega arith, All-later (kept_day d) (kept_day e) ds le first.least);
      },
    )
    | inr (after, ge) ↦ inr (
      e,
      insert_sorted by_kept d rest,
      rw is (rw after refl),
      record { stands = inr first.stands; least = (ge, first.least) },
    )
  ]
]

-- What is still to come of the dates, and the others.
still_to_come-parts :
    (today : Date) (ds : List KeptDate) (n : ℕ)
    → All (λ c. n ≤ kept_day c) (still_to_come today ds)
    → All (λ c. to_ordinal today ≤ kept_day c → n ≤ kept_day c) ds
unfolding still_to_come leb_date
still_to_come-parts today [] n h = tt
still_to_come-parts today (d ∷ ds) n h =
    elim (Bool-cases (leb_date today d.observance.gregorian_date)) [
      | inl ahead ↦
          let (first, others) =
            (let k : All (λ c. n ≤ kept_day c) (d ∷ still_to_come today ds) = rw ahead at h in k) in
          (λ le. first, still_to_come-parts today ds n others)
      | inr past ↦ (
        λ le. absurd (both_ways _ (ground arith) past),
        still_to_come-parts today ds n (rw past at h),
      )
    ]

Among-still_to_come :
    (today : Date) (ds : List KeptDate) (d : KeptDate)
    → Among d (still_to_come today ds)
    → Among d ds × (to_ordinal today ≤ kept_day d)
unfolding still_to_come leb_date
Among-still_to_come today [] d h = absurd h
Among-still_to_come today (c ∷ ds) d h =
    elim (Bool-cases (leb_date today c.observance.gregorian_date)) [
      | inl ahead ↦ elim (let k : Among d (c ∷ still_to_come today ds) = rw ahead at h in k) [
        | inl it ↦ (inl it, rw it (ground arith))
        | inr later ↦ let (at, le) = Among-still_to_come today ds d later in (inr at, le)
      ]
      | inr past ↦ let (at, le) = Among-still_to_come today ds d (rw past at h) in (inr at, le)
    ]

count_past-parts :
    (today : Date) (ds : List KeptDate)
    → count_past today ds + count_dates (still_to_come today ds) ≡ count_dates ds
unfolding count_past still_to_come count_dates leb_date ltb_date
count_past-parts today [] = refl
count_past-parts today (d ∷ ds) = ground (arith, count_past-parts today ds)

-- The next date is the soonest that is still to come; with none to come all are past.
abbrev pub IsNext : List KeptDate → ℕ → Option KeptDate → Type 0
IsNext ds today none = All (λ c. kept_day c < today) ds
IsNext ds today (some d) =
    Among d ds × (today ≤ kept_day d) × All (λ c. today ≤ kept_day c → kept_day d ≤ kept_day c) ds

none_to_come :
    (today : Date) (ds : List KeptDate)
    → still_to_come today ds ≡ []
    → All (λ c. kept_day c < to_ordinal today) ds
unfolding still_to_come leb_date
none_to_come today [] e = tt
none_to_come today (d ∷ ds) e = elim (Bool-cases (leb_date today d.observance.gregorian_date)) [
  | inl ahead ↦ absurd (let k : d ∷ still_to_come today ds ≡ [] = rw ahead at e in (cc))
  | inr past ↦ (ground arith, none_to_come today ds (rw past at e))
]

head_of-IsNext :
    (today : Date) (ds : List KeptDate)
    → IsNext ds (to_ordinal today) (head_of (sorted by_kept (still_to_come today ds)))
unfolding head_of
head_of-IsNext today ds = elim (sorted-First (still_to_come today ds)) [
  | inl (empty, nothing) ↦ rw empty (none_to_come today ds nothing)
  | inr (d, rest, is, first) ↦
      let (at, le) = Among-still_to_come today ds d first.stands in
      rw is (at, le, still_to_come-parts today ds (kept_day d) first.least)
]

count_dates-pos : (ds : List KeptDate) (d : KeptDate) → Among d ds → 0 < count_dates ds
unfolding count_dates
count_dates-pos [] d h = absurd h
count_dates-pos (c ∷ ds) d h = omega arith

running_parts :
    (today : Date) (ds : List KeptDate)
    → (is_some (head_of (sorted by_kept (still_to_come today ds))) ≡ false)
      ↔ (count_past today ds ≡ count_dates ds)
unfolding head_of count_dates
running_parts today ds =
    let parts = count_past-parts today ds in
    elim (sorted-First (still_to_come today ds)) [
      | inl (empty, nothing) ↦
          let zero_left : count_dates (still_to_come today ds) ≡ 0 = rw nothing refl in
          rw empty (λ h. omega (arith, parts, zero_left), λ h. refl)
      | inr (d, rest, is, first) ↦
          let one_left = count_dates-pos (still_to_come today ds) d first.stands in
          rw is (
            λ h. absurd (let k : true ≡ false = h in (cc)),
            λ h. absurd (omega (arith, parts, one_left)),
          )
    ]

-- The next date of a memorial is one of its dates that is not past and the soonest of those, or
-- there is none and all its dates are past; and it is completed, not running, exactly where as many
-- of its dates are past as there are.
pub progress-IsNext :
    (m : KeptMemorial) (today : Date)
    → IsNext m.observances (to_ordinal today) (progress m today).next
      × (((progress m today).running ≡ false)
          ↔ ((progress m today).past ≡ (progress m today).total))
unfolding progress
progress-IsNext m today = (head_of-IsNext today m.observances, running_parts today m.observances)
