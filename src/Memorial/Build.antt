-- ===== src/Memorial/Build.antt =====
-- `build_schedule` of calendar/memorial.py, whole: its checks, its claims and its series.
use agyary.Common.{
  ℕ, zero, suc, ◌+◌, ◌*◌, ◌/◌, Option, none, some, List, [], ◌∷◌, ◌++◌, range, map, take, Bool,
  true, false, not, ◌&&◌, ◌||◌, leb, ◌==◌, if◌then◌else◌, is_some, Result, ok, ◌>>=◌, ◌>>◌, guard,
  pos, pos_part, ◌+ℤ◌, ◌-ℤ◌, floor_div, length,
}
use agyary.Dates.{Date, to_ordinal, ltb_date}
use agyary.Engine.{CalendarSystem, days_per_month, months_per_year, parsi_to_gregorian}
use agyary.Memorial.{
  Opening, unknown_opening, Parabs, unknown_parabs, named_day, Observance, Death, start_of,
  cycle_days, gatha_mah,
}
use agyary.Memorial.Series.{
  parab_observances, parab_mahs, fravardin_roj_observances, birthday_observances,
}
use agyary.Memorial.Schedule.{
  Key, yearly, monthly, rank_of, resolve, first_valid, max_first_valid, Wanted, claim_opening,
  claim_all_named, claim_yearly, claim_monthly, series_keys, claimed, key_in,
}
use agyary.Memorial.Keep.{Ranked, by_date, sorted, not_before, kept_schedule}

-- The keyword arguments. The counts are natural numbers: the source refuses a negative one.
pub record Request : Type 0 where
  pub death : Death
  pub system : CalendarSystem
  pub opening : Opening
  pub day_counts : List ℕ
  pub monthly_months : ℕ
  pub yearly_years : ℕ
  pub parabs : Option Parabs
  pub parab_years : ℕ
  pub birthday : Option (ℕ × ℕ)
  pub birthday_years : ℕ
  pub start_from : Option Date
  pub fravardin_roj_months : ℕ
  pub parab_count : ℕ
  pub plain_labels : Bool

unfoldable pub known_opening : Opening → Bool
known_opening unknown_opening = false
known_opening _ = true

unfoldable pub all_named : List ℕ → Bool
all_named [] = true
all_named (n ∷ ns) = is_some (named_day n) && all_named ns

unfoldable pub parabs_fit : Option Parabs → ℕ → ℕ → Bool
parabs_fit none parab_years parab_count = true
parabs_fit (some unknown_parabs) parab_years parab_count = false
parabs_fit (some _) parab_years parab_count =
    not (leb 1 parab_years && leb 1 parab_count) && (leb 1 parab_years || leb 1 parab_count)

unfoldable pub birthday_fits : Option (ℕ × ℕ) → ℕ → Bool
birthday_fits none birthday_years = true
birthday_fits (some (roj, mah)) birthday_years =
    leb 1 mah
    && leb mah months_per_year
    && leb 1 roj
    && leb roj days_per_month
    && leb 1 birthday_years

-- The tests at the head of the function, each of which raises ValueError.
unfoldable pub request_fits : Request → Bool
request_fits r =
    known_opening r.opening
    && all_named r.day_counts
    && parabs_fit r.parabs r.parab_years r.parab_count
    && birthday_fits r.birthday r.birthday_years

unfoldable pub date_of_death : Death → CalendarSystem → Result Date
date_of_death death system =
    if death.mah == gatha_mah
    then parsi_to_gregorian death.year system none none (some death.roj)
    else parsi_to_gregorian death.year system (some death.mah) (some death.roj) none

-- The first number of a series: 1, or the first whose date is still to come.
unfoldable pub series_start : Request → Date → (ℕ → Key) → ℕ → Result ℕ
series_start r death_date kind zero = ok 1
series_start r death_date kind (suc n) = elim r.start_from [
  | none ↦ ok 1
  | some start_from ↦ first_valid r.death death_date r.system kind start_from max_first_valid 1
]

-- A named day that has already passed is not booked when starting late.
unfoldable pub is_past : Option Date → Observance → Bool
is_past none o = false
is_past (some start_from) o = ltb_date o.gregorian_date start_from

unfoldable pub resolve_wanted : Request → Date → Wanted → List Key → Wanted → Result (List Ranked)
resolve_wanted r death_date named series [] = ok []
resolve_wanted r death_date named series ((key, code, label) ∷ w) =
    let rest = resolve_wanted r death_date named series w in
    resolve r.death death_date r.system key code label >>= λ o. rest >>= λ ranked. ok (
      if claimed key named && not (key_in key series) && is_past r.start_from o
      then ranked
      else (rank_of key, o) ∷ ranked)

-- `gone`: the whole years that lie between the death and the start, and one.
unfoldable pub years_gone : Option Date → Date → ℕ
years_gone none death_date = 0
years_gone (some start_from) death_date =
    pos_part
      (floor_div (pos (to_ordinal start_from) -ℤ pos (to_ordinal death_date)) cycle_days +ℤ pos 1)

unfoldable pub from_start : Option Date → List Observance → List Observance
from_start none found = found
from_start (some start_from) found = not_before start_from found

unfoldable pub chosen_parabs : Request → Date → Result (List Observance)
chosen_parabs r death_date = elim r.parabs [
  | none ↦ ok []
  | some which ↦
      let gone = years_gone r.start_from death_date in
      let per_year = length (parab_mahs which) in
      if leb 1 r.parab_count
      then (parab_observances r.death r.system which (r.parab_count / per_year + 2 + gone)
          >>= λ found. ok (take r.parab_count (sorted by_date (from_start r.start_from found))))
      else (parab_observances r.death r.system which (r.parab_years + gone) >>= λ found. ok (
          if is_some r.start_from
          then take (r.parab_years * per_year) (sorted by_date (from_start r.start_from found))
          else found))
]

unfoldable pub chosen_fravardin : Request → Date → Result (List Observance)
chosen_fravardin r death_date =
    if leb 1 r.fravardin_roj_months
    then fravardin_roj_observances r.death death_date r.system r.fravardin_roj_months r.start_from
        (years_gone r.start_from death_date)
    else ok []

unfoldable pub chosen_birthday : Request → Date → Result (List Observance)
chosen_birthday r death_date = elim r.birthday [
  | none ↦ ok []
  | some day ↦
      birthday_observances r.death death_date r.system day r.birthday_years r.start_from
        (years_gone r.start_from death_date)
]

abbrev pub with_rank : ℕ → List Observance → List Ranked
with_rank rank os = map (λ o. (rank, o)) os

-- Everything chosen, each with its rank, in the order in which the source adds it.
unfoldable pub ranked_choices : Request → Date → Result (List Ranked)
ranked_choices r death_date = do
  let gatha = r.death.mah == gatha_mah
  let named = claim_all_named gatha r.day_counts (claim_opening r.opening r.day_counts)
  y0 ← series_start r death_date yearly r.yearly_years
  m0 ← series_start r death_date monthly r.monthly_months
  let ys = range y0 r.yearly_years
  let ms = range m0 r.monthly_months
  let wanted = claim_monthly gatha r.plain_labels ms (claim_yearly r.plain_labels ys named)
  days ← resolve_wanted r death_date named (series_keys gatha ys ms) wanted
  parabs ← chosen_parabs r death_date
  fravardin ← chosen_fravardin r death_date
  birthday ← chosen_birthday r death_date
  ok (days ++ (with_rank 4 parabs ++ (with_rank 5 fravardin ++ with_rank 6 birthday)))

-- The candidates: everything chosen, counted from the date of death.
unfoldable pub all_choices : Request → Result (List Ranked)
all_choices r = do death_date ← date_of_death r.death r.system; ranked_choices r death_date

unfoldable pub build_schedule : Request → Result (List Observance)
build_schedule r = do
  guard (request_fits r)
  start ← start_of r.death
  ranked ← all_choices r
  ok (kept_schedule ranked)
