-- ===== src/Memorials/Reading.antt =====
-- Reading and editing what is saved, of services/memorials.py: how far a memorial has got, the paid
-- and reminded marks, one date's edit, the deletion, and the calendar's feed. Names and texts for
-- people are left out of what is answered.
use agyary.Common.{
  ℕ, suc, ◌+◌, Option, none, some, List, [], ◌∷◌, ◌++◌, Bool, true, false, not, ◌&&◌, ◌==◌,
  if◌then◌else◌, is_some, number_in, Text, strip,
}
use agyary.Dates.{Date, to_ordinal, leb_date, ltb_date}
use agyary.Memorial.Keep.{sorted, by_date_and_number}
use agyary.Memorials.{Outcome, done, ◌>>=◌, ◌>>◌, demand, bad_range}
use agyary.Memorials.Saving.{
  Service, KeptDate, KeptMemorial, ids_of, validated_services, count_dates,
}

-- A memorial, but only the caller's own.
unfoldable pub get_for_user : ℕ → ℕ → List KeptMemorial → Option KeptMemorial
get_for_user user id [] = none
get_for_user user id (m ∷ memorials) =
    let others = get_for_user user id memorials in
    if m.id == id && m.created_by_user_id == user then some m else others

abbrev pub by_kept : KeptDate → KeptDate → Bool
by_kept a b = by_date_and_number a.observance b.observance

-- `[o for o in memorial.observances if o.gregorian_date >= today]`
unfoldable pub still_to_come : Date → List KeptDate → List KeptDate
still_to_come today [] = []
still_to_come today (d ∷ ds) =
    let rest = still_to_come today ds in
    if leb_date today d.observance.gregorian_date then d ∷ rest else rest

unfoldable pub count_past : Date → List KeptDate → ℕ
count_past today [] = 0
count_past today (d ∷ ds) =
    (if ltb_date d.observance.gregorian_date today then 1 else 0) + count_past today ds

unfoldable pub count_paid : List KeptDate → ℕ
count_paid [] = 0
count_paid (d ∷ ds) = (if is_some d.paid_at then 1 else 0) + count_paid ds

unfoldable pub last_kept : Date → List KeptDate → Date
last_kept day [] = day
last_kept day (d ∷ ds) =
    last_kept
      (if ltb_date day d.observance.gregorian_date then d.observance.gregorian_date else day) ds

unfoldable pub last_date_of : List KeptDate → Option Date
last_date_of [] = none
last_date_of (d ∷ ds) = some (last_kept d.observance.gregorian_date ds)

unfoldable pub head_of {ℓ} : {A : Type ℓ} → List A → Option A
head_of [] = none
head_of (x ∷ xs) = some x

pub record Progress : Type 0 where
  pub total : ℕ
  pub past : ℕ
  pub next : Option KeptDate
  pub last_date : Option Date
  pub running : Bool
  pub paid_count : ℕ

unfoldable pub progress : KeptMemorial → Date → Progress
progress memorial today =
    let upcoming = sorted by_kept (still_to_come today memorial.observances) in
    record {
      total = count_dates memorial.observances;
      past = count_past today memorial.observances;
      next = head_of upcoming;
      last_date = last_date_of memorial.observances;
      running = is_some (head_of upcoming);
      paid_count = count_paid memorial.observances;
    }

-- The mark of one date, and whether it changed.
unfoldable pub mark_paid : Bool → ℕ → KeptDate → KeptDate × Bool
mark_paid paid now d =
    if paid && not (is_some d.paid_at)
    then (record d { paid_at = some now }, true)
    else if not paid && is_some d.paid_at
    then (record d { paid_at = none }, true)
    else (d, false)

-- The dates that are meant: one of them, or all.
abbrev pub is_meant : Option ℕ → ℕ → Bool
is_meant none id = true
is_meant (some only) id = id == only

unfoldable pub set_paid_dates : Bool → Option ℕ → ℕ → List KeptDate → List KeptDate × ℕ
set_paid_dates paid only now [] = ([], 0)
set_paid_dates paid only now (d ∷ ds) =
    let (rest, changed) = set_paid_dates paid only now ds in
    let (marked, change) = mark_paid paid now d in
    if is_meant only d.id
    then (marked ∷ rest, (if change then suc changed else changed))
    else (d ∷ rest, changed)

-- The row with the id of m becomes m.
unfoldable pub save_memorial : KeptMemorial → List KeptMemorial → List KeptMemorial
save_memorial m [] = []
save_memorial m (n ∷ memorials) = (if n.id == m.id then m else n) ∷ save_memorial m memorials

unfoldable pub set_paid : KeptMemorial → Bool → Option ℕ → ℕ → KeptMemorial × ℕ
set_paid memorial paid only now =
    let (dates, changed) = set_paid_dates paid only now memorial.observances in
    (record memorial { observances = dates }, changed)

-- `notes.strip() or None`
unfoldable pub text_or_none : Text → Option Text
text_or_none [] = none
text_or_none (c ∷ s) = some (c ∷ s)

abbrev pub or_keep {ℓ} : {A : Type ℓ} → Option A → Option A → Option A
or_keep none old = old
or_keep (some new) old = some new

abbrev pub new_notes : Option Text → Option Text → Option Text
new_notes none old = old
new_notes (some notes) old = text_or_none (strip notes)

unfoldable pub new_services : ℕ → List Service → Option (List ℕ) → List ℕ → Outcome (List ℕ)
new_services agyary services none old = done old
new_services agyary services (some ids) old =
    validated_services agyary services ids >>= λ found. done (ids_of found)

unfoldable pub update_observance :
    ℕ
    → List Service
    → KeptDate
    → Option (List ℕ)
    → Option ℕ
    → Bool
    → Option Text
    → Bool
    → Outcome KeptDate
update_observance agyary services d ids time clear_time notes clear_notes =
    new_services agyary services ids d.service_ids >>= λ its_services. done (record d {
      service_ids = its_services;
      time_of_day = if clear_time then none else or_keep time d.time_of_day;
      notes = if clear_notes then none else new_notes notes d.notes;
    })

unfoldable pub delete_memorial : ℕ → List KeptMemorial → List KeptMemorial
delete_memorial id [] = []
delete_memorial id (m ∷ memorials) =
    let rest = delete_memorial id memorials in if m.id == id then rest else m ∷ rest

-- `mark_reminded`, on the dates of the mobed's own memorials.
unfoldable pub mark_date : ℕ → Option ℕ → List KeptDate → List KeptDate
mark_date id at [] = []
mark_date id at (d ∷ ds) =
    (if d.id == id then record d { reminded_by_hand_at = at } else d) ∷ mark_date id at ds

abbrev pub is_of : ℕ → ℕ → KeptMemorial → Bool
is_of user agyary m = m.created_by_user_id == user && m.agyary_id == agyary

unfoldable pub mark_reminded : ℕ → ℕ → ℕ → Bool → ℕ → List KeptMemorial → List KeptMemorial
mark_reminded user agyary id reminded now [] = []
mark_reminded user agyary id reminded now (m ∷ memorials) =
    (if is_of user agyary m
      then record m {
        observances = mark_date id (if reminded then some now else none) m.observances;
      }
      else m)
    ∷ mark_reminded user agyary id reminded now memorials

-- A row of the calendar's query: a date with its memorial.
abbrev pub Row : Type 0
Row = KeptMemorial × KeptDate

unfoldable pub rows_in : Date → Date → KeptMemorial → List KeptDate → List Row
rows_in start end m [] = []
rows_in start end m (d ∷ ds) =
    let rest = rows_in start end m ds in
    if leb_date start d.observance.gregorian_date && leb_date d.observance.gregorian_date end
    then (m, d) ∷ rest
    else rest

unfoldable pub rows_of : ℕ → ℕ → Date → Date → List KeptMemorial → List Row
rows_of user agyary start end [] = []
rows_of user agyary start end (m ∷ memorials) =
    let rest = rows_of user agyary start end memorials in
    if is_of user agyary m then rows_in start end m m.observances ++ rest else rest

abbrev pub by_row : Row → Row → Bool
by_row a b = by_kept a.1 b.1

pub data Item : Type 0 where
  observance_item : ℕ → KeptDate → Bool → Item
  closing_item : ℕ → Date → Item

abbrev pub is_day : Option Date → Date → Bool
is_day none day = false
is_day (some last) day = to_ordinal day == to_ordinal last

-- Whether a date is the last of its memorial, of all its dates and not just those of the query.
unfoldable pub is_last_of : KeptMemorial → Date → Bool
is_last_of m day = is_day (last_date_of m.observances) day

unfoldable pub feed_items : List ℕ → List Row → List Item
feed_items closed [] = []
feed_items closed ((m, d) ∷ rows) =
    let day = d.observance.gregorian_date in
    let last = is_last_of m day in
    let closes = last && not (number_in m.id closed) in
    let rest = feed_items (if closes then m.id ∷ closed else closed) rows in
    observance_item m.id d last ∷ (if closes then closing_item m.id day ∷ rest else rest)

unfoldable pub calendar_feed : ℕ → ℕ → Date → Date → List KeptMemorial → Outcome (List Item)
calendar_feed user agyary start end memorials =
    demand (not (ltb_date end start)) bad_range
    >> done (feed_items [] (sorted by_row (rows_of user agyary start end memorials)))
