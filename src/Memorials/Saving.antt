-- ===== src/Memorials/Saving.antt =====
-- The rows that a planned memorial is saved as, of services/memorials.py: the services and the dates
-- of `create_memorial`. The
-- lower case of a text is a parameter, as is the time; a time is a number.
use agyary.Common.{
  ℕ, suc, Option, none, some, List, [], ◌∷◌, Bool, true, false, not, ◌&&◌, ◌||◌, ltb, ◌==◌,
  if◌then◌else◌, number_in, ℤ, leb_ℤ, Text, codes, text_eq, strip,
}
use agyary.Dates.{Date}
use agyary.Engine.{CalendarSystem}
use agyary.Memorial.{
  Opening, Parabs, Code, blank_code, day_code, year_code, month_code, parab_code, fravroj_code,
  birthday_code, Observance, Death,
}
use agyary.Memorials.{
  Outcome, done, refused, ◌>>=◌, ◌>>◌, demand, no_prayer, not_offered_here, all_removed,
  date_without_prayer, only_jashan,
}
use agyary.Memorials.Plan.{has_none}

pub record Service : Type 0 where
  pub id : ℕ
  pub agyary_id : ℕ
  pub name : Text
  pub is_active : Bool

-- A row of memorial_observances, with the ids of its services.
pub record KeptDate : Type 0 where
  pub id : ℕ
  pub observance : Observance
  pub service_ids : List ℕ
  pub time_of_day : Option ℕ
  pub notes : Option Text
  pub paid_at : Option ℕ
  pub reminded_by_hand_at : Option ℕ

-- A row of memorials, with its observances.
pub record KeptMemorial : Type 0 where
  pub id : ℕ
  pub agyary_id : ℕ
  pub customer_id : ℕ
  pub created_by_user_id : ℕ
  pub departed_name : Text
  pub death_gregorian : Date
  pub death : Death
  pub died_over_a_year_ago : Bool
  pub calendar_system : CalendarSystem
  pub opening : Opening
  pub day_counts : List ℕ
  pub monthly_months : Option ℕ
  pub yearly_years : Option ℕ
  pub fravardin_roj_months : Option ℕ
  pub parabs : Option Parabs
  pub parab_years : Option ℕ
  pub parab_count : Option ℕ
  pub birthday : Option (ℕ × ℕ)
  pub birthday_years : Option ℕ
  pub observances : List KeptDate

-- The tables, with the next ids.
pub record Book : Type 0 where
  pub services : List Service
  pub memorials : List KeptMemorial
  pub next_id : ℕ
  pub next_date_id : ℕ

-- `booking_service.get_service_by_id`
unfoldable pub get_service_by_id : ℕ → ℕ → List Service → Option Service
get_service_by_id agyary id [] = none
get_service_by_id agyary id (s ∷ services) =
    let others = get_service_by_id agyary id services in
    if s.id == id && s.agyary_id == agyary && s.is_active then some s else others

-- `list(dict.fromkeys(ids))`
unfoldable pub unique : List ℕ → List ℕ → List ℕ
unique seen [] = []
unique seen (id ∷ ids) = elim (number_in id seen) [
  | true ↦ unique seen ids
  | false ↦ id ∷ unique (id ∷ seen) ids
]

unfoldable pub with_service : Option Service → Outcome (List Service) → Outcome (List Service)
with_service none others = refused not_offered_here
with_service (some s) others = others >>= λ found. done (s ∷ found)

unfoldable pub found_services : ℕ → List Service → List ℕ → Outcome (List Service)
found_services agyary services [] = done []
found_services agyary services (id ∷ ids) =
    with_service (get_service_by_id agyary id services) (found_services agyary services ids)

unfoldable pub validated_services : ℕ → List Service → List ℕ → Outcome (List Service)
validated_services agyary services ids =
    let wanted = unique [] ids in
    demand (not (has_none wanted)) no_prayer >> found_services agyary services wanted

unfoldable pub same_ℤ : ℤ → ℤ → Bool
same_ℤ a b = leb_ℤ a b && leb_ℤ b a

unfoldable pub code_eq : Code → Code → Bool
code_eq blank_code blank_code = true
code_eq (day_code a) (day_code b) = a == b
code_eq (year_code a) (year_code b) = a == b
code_eq (month_code a) (month_code b) = a == b
code_eq (parab_code a y) (parab_code b z) = a == b && same_ℤ y z
code_eq (fravroj_code y a) (fravroj_code z b) = same_ℤ y z && a == b
code_eq (birthday_code y) (birthday_code z) = same_ℤ y z
code_eq _ _ = false

unfoldable pub code_in : Code → List Code → Bool
code_in code [] = false
code_in code (c ∷ cs) = code_eq code c || code_in code cs

unfoldable pub codes_of : List Observance → List Code
codes_of [] = []
codes_of (o ∷ os) = o.code ∷ codes_of os

-- `[o for o in schedule if o.code not in set(exclude_codes)]`
unfoldable pub without_codes : List Code → List Observance → List Observance
without_codes excluded [] = []
without_codes excluded (o ∷ os) =
    let rest = without_codes excluded os in if code_in o.code excluded then rest else o ∷ rest

unfoldable pub left_to_keep : List Code → List Observance → Outcome (List Observance)
left_to_keep excluded schedule =
    if has_none excluded
    then done schedule
    else (demand (not (has_none (without_codes excluded schedule))) all_removed
        >> done (without_codes excluded schedule))

-- `is_anniversary`
unfoldable pub is_anniversary : Code → Bool
is_anniversary (day_code n) = n == 30 || n == 60 || n == 180 || n == 360
is_anniversary (year_code k) = true
is_anniversary (month_code k) = true
is_anniversary _ = false

unfoldable pub ids_of : List Service → List ℕ
ids_of [] = []
ids_of (s ∷ services) = s.id ∷ ids_of services

-- The prayers that the mobed set for single dates; a date that is not kept is passed over.
unfoldable pub resolve_overrides :
    ℕ → List Service → List Code → List (Code × List ℕ) → Outcome (List (Code × List Service))
resolve_overrides agyary services kept [] = done []
resolve_overrides agyary services kept ((code, ids) ∷ overrides) =
    let rest = resolve_overrides agyary services kept overrides in
    if not (code_in code kept)
    then rest
    else (demand (not (has_none ids)) date_without_prayer
        >> (validated_services agyary services ids >>= λ found.
            rest >>= λ others. done ((code, found) ∷ others)))

-- `overrides.get(code)`
unfoldable pub override_of : Code → List (Code × List Service) → List Service
override_of code [] = []
override_of code ((c, found) ∷ overrides) =
    let rest = override_of code overrides in if code_eq c code then found else rest

-- `sorted(set(day_counts))`
unfoldable pub insert_number : ℕ → List ℕ → List ℕ
insert_number n [] = n ∷ []
insert_number n (m ∷ ms) =
    let rest = insert_number n ms in
    if n == m then m ∷ ms else if ltb n m then n ∷ m ∷ ms else m ∷ rest

unfoldable pub sorted_set : List ℕ → List ℕ
sorted_set [] = []
sorted_set (n ∷ ns) = insert_number n (sorted_set ns)

-- `birthday_years if birthday else None`
abbrev pub years_if : Option (ℕ × ℕ) → Option ℕ → Option ℕ
years_if none years = none
years_if (some day) years = years

-- `overrides.get(code) or usual`
unfoldable pub or_usual : List Service → List Service → List Service
or_usual [] usual = usual
or_usual (s ∷ found) usual = s ∷ found

module _ (lower_case : Text → Text) where
  unfoldable pub is_jashan : Service → Bool
  is_jashan s = text_eq (lower_case (strip s.name)) (codes "jashan")

  -- Jashan is kept on the anniversaries only.
  unfoldable pub usual_services : Code → List Service → List Service
  usual_services code [] = []
  usual_services code (s ∷ services) =
      let rest = usual_services code services in
      if not (is_jashan s) || is_anniversary code then s ∷ rest else rest

  unfoldable pub chosen_services : List (Code × List Service) → List Service → Code → List Service
  chosen_services overrides services code =
      or_usual (override_of code overrides) (usual_services code services)

  unfoldable pub kept_dates :
      Option ℕ
      → List (Code × List Service)
      → List Service
      → ℕ
      → List Observance
      → Outcome (List KeptDate)
  kept_dates paid_at overrides services id [] = done []
  kept_dates paid_at overrides services id (o ∷ os) = do
    demand (not (has_none (chosen_services overrides services o.code))) only_jashan
    rest ← kept_dates paid_at overrides services (suc id) os
    done (
        record {
          id = id;
          observance = o;
          service_ids = ids_of (chosen_services overrides services o.code);
          time_of_day = none;
          notes = none;
          paid_at = paid_at;
          reminded_by_hand_at = none;
        }
        ∷ rest)

unfoldable pub count_dates : List KeptDate → ℕ
count_dates [] = 0
count_dates (d ∷ ds) = suc (count_dates ds)
