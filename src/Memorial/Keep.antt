-- ===== src/Memorial/Keep.antt =====
-- The end of `build_schedule` in calendar/memorial.py: one observance to a date, soonest first.
use agyary.Common.{ℕ, List, [], ◌∷◌, map, Bool, ◌&&◌, ◌||◌, ltb, leb_ℤ, ◌==◌, if◌then◌else◌}
use agyary.Dates.{Date, to_ordinal, leb_date, ltb_date}
use agyary.Memorial.{Observance}

abbrev pub Ranked : Type 0
Ranked = ℕ × Observance

-- `sorted(..., key=...)`: stable, by a test that says when the first may stay before the second.
module _ {A : Type 0} (before : A → A → Bool) where
  unfoldable pub insert_sorted : A → List A → List A
  insert_sorted a [] = a ∷ []
  insert_sorted a (b ∷ bs) =
      let rest = insert_sorted a bs in if before a b then a ∷ b ∷ bs else b ∷ rest

  unfoldable pub sorted : List A → List A
  sorted [] = []
  sorted (a ∷ as') = insert_sorted a (sorted as')

abbrev pub by_date : Observance → Observance → Bool
by_date a b = leb_date a.gregorian_date b.gregorian_date

-- `key=lambda o: (o.gregorian_date, o.day_number)`
abbrev pub by_date_and_number : Observance → Observance → Bool
by_date_and_number a b =
    ltb_date a.gregorian_date b.gregorian_date
    || (leb_date a.gregorian_date b.gregorian_date && leb_ℤ a.day_number b.day_number)

-- `[o for o in found if o.gregorian_date >= start_from]`
unfoldable pub not_before : Date → List Observance → List Observance
not_before start_from [] = []
not_before start_from (o ∷ os) =
    let rest = not_before start_from os in
    if leb_date start_from o.gregorian_date then o ∷ rest else rest

-- Dates are compared as keys of a dict.
abbrev pub same_date : Date → Date → Bool
same_date a b = to_ordinal a == to_ordinal b

-- One round of the last loop: the first of the lowest rank stays.
unfoldable pub keep_best : Ranked → List Ranked → List Ranked
keep_best (rank, o) [] = (rank, o) ∷ []
keep_best (rank, o) ((r, p) ∷ rest) =
    let others = keep_best (rank, o) rest in
    if same_date o.gregorian_date p.gregorian_date
    then (if ltb rank r then (rank, o) ∷ rest else (r, p) ∷ rest)
    else (r, p) ∷ others

unfoldable pub best_of : List Ranked → List Ranked → List Ranked
best_of best [] = best
best_of best (r ∷ rs) = best_of (keep_best r best) rs

abbrev pub second : Ranked → Observance
second r = r.1

-- The end of the function: one observance to a date, soonest first.
unfoldable pub kept_schedule : List Ranked → List Observance
kept_schedule ranked = sorted by_date_and_number (map second (best_of [] ranked))
