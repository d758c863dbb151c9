-- ===== src/Memorial/Schedule.antt =====
-- The choices of `build_schedule` in calendar/memorial.py: the keys that name them, the dates that
-- they resolve to, and what is claimed. A Python dict is an association list in the order of its
-- insertions.
use agyary.Common.{
  ℕ, zero, suc, ◌+◌, ◌*◌, ◌/◌, ◌%◌, String, Option, none, some, List, [], ◌∷◌, ◌++◌, range, map,
  Bool, true, false, not, ◌&&◌, ◌||◌, ◌==◌, if◌then◌else◌, Result, ok, value_error, ◌>>=◌, pos,
  ◌+ℤ◌, ◌-ℤ◌,
}
use agyary.Dates.{Date, add_days, ltb_date}
use agyary.Engine.{CalendarSystem, days_per_month, parsi_to_gregorian}
use agyary.Memorial.{
  Opening, days_1_to_10, tenth_only, days_5_to_9, Code, blank_code, day_code, year_code, month_code,
  Label, blank_label, day_label, yearly_label, year_label, monthly_label, month_label, named_label,
  named_day, Observance, Death, start_of, position, cycle_days, gatha_mah, by_roj_and_mah, on_date,
  literal, gatha_day,
}

-- What a choice is: a literal day, the k-th yearly or monthly, or the day before a named one.
pub data Key : Type 0 where
  lit yearly monthly deci : ℕ → Key

unfoldable pub key_eq : Key → Key → Bool
key_eq (lit a) (lit b) = a == b
key_eq (yearly a) (yearly b) = a == b
key_eq (monthly a) (monthly b) = a == b
key_eq (deci a) (deci b) = a == b
key_eq _ _ = false

-- _NAMED_SPAN
unfoldable pub named_span : ℕ → Option Key
named_span n =
    if n == 30
    then some (monthly 1)
    else if n == 60
    then some (monthly 2)
    else if n == 180
    then some (monthly 6)
    else if n == 360
    then some (yearly 1)
    else none

-- `_NAMED_SPAN[_DECI_OF[k]]`; the last case is 359, as 29, 59, 179 and 359 are the only ones.
unfoldable pub span_of_deci : ℕ → Key
span_of_deci n =
    if n == 29
    then monthly 1
    else if n == 59
    then monthly 2
    else if n == 179
    then monthly 6
    else yearly 1

-- _RANK of a key; the Parabs, Roj Fravardin and the birthday have 4, 5 and 6.
unfoldable pub rank_of : Key → ℕ
rank_of (lit n) = 0
rank_of (yearly n) = 1
rank_of (monthly n) = 2
rank_of (deci n) = 3

-- By Roj and Mah the 12th monthly is the first yearly; after a death on a Gatha day it is not.
unfoldable pub canon : Bool → Key → Key
canon gatha (monthly k) = if not gatha && k % 12 == 0 then yearly (k / 12) else monthly k
canon gatha key = key

module _ (death : Death) (death_date : Date) (system : CalendarSystem) where
  abbrev pub is_gatha_death : Bool
  is_gatha_death = death.mah == gatha_mah

  unfoldable pub resolve_monthly : Code → Label → ℕ → Result Observance
  resolve_monthly code label k =
      if is_gatha_death
      then (start_of death >>= λ (start, base_year).
          let mah = k % 12 + 1 in
          let year = base_year +ℤ pos (k / 12) in
          parsi_to_gregorian year system (some mah) (some 1) none >>= λ when. ok (record {
            code = code;
            label = label;
            day_number = position 1 mah year start base_year;
            roj = some 1;
            mah = some mah;
            year = year;
            gregorian_date = when;
            gatha_index = none;
          }))
      else by_roj_and_mah code label (1 + days_per_month * k) death system

  unfoldable pub resolve_yearly : Code → Label → ℕ → Result Observance
  resolve_yearly code label k =
      if is_gatha_death
      then (gatha_day (death.year +ℤ pos k) system death.roj >>= λ when.
          on_date code label (pos (1 + cycle_days * k)) when system)
      else by_roj_and_mah code label (1 + cycle_days * k) death system

  -- The day that a Deci precedes is yearly or monthly.
  unfoldable pub resolve_span : Code → Label → Key → Result Observance
  resolve_span code label (monthly k) = resolve_monthly code label k
  resolve_span code label (yearly k) = resolve_yearly code label k
  resolve_span code label _ = value_error

  unfoldable pub resolve : Key → Code → Label → Result Observance
  resolve (lit k) code label = literal code label k death_date system
  resolve (deci k) code label = do
    target ← resolve_span blank_code blank_label (canon is_gatha_death (span_of_deci k))
    when ← add_days target.gregorian_date (pos 0 -ℤ pos 1)
    on_date code label (target.day_number -ℤ pos 1) when system
  resolve (monthly k) code label = resolve_monthly code label k
  resolve (yearly k) code label = resolve_yearly code label k

  -- The first k whose date is not before `start_from`. It starts at k = 1 with fuel 100000, so the
  -- fuel ends just where the source gives up: at k > 100000.
  unfoldable pub first_valid : (ℕ → Key) → Date → ℕ → ℕ → Result ℕ
  first_valid kind start_from zero k = value_error
  first_valid kind start_from (suc fuel) k =
      let later = first_valid kind start_from fuel (k + 1) in
      resolve (canon is_gatha_death (kind k)) blank_code blank_label >>= λ o.
      if ltb_date o.gregorian_date start_from then later else ok k

abbrev pub max_first_valid : ℕ
max_first_valid = 100000

abbrev pub Wanted : Type 0
Wanted = List (Key × Code × Label)

unfoldable pub claimed : Key → Wanted → Bool
claimed key [] = false
claimed key ((k, c, l) ∷ w) = key_eq k key || claimed key w

-- `wanted.setdefault(key, (code, label))`
unfoldable pub claim : Key → Code → Label → Wanted → Wanted
claim key code label w = if claimed key w then w else w ++ (key, code, label) ∷ []

-- `wanted[key] = (code, label)`
unfoldable pub overwrite : Key → Code → Label → Wanted → Wanted
overwrite key code label [] = (key, code, label) ∷ []
overwrite key code label ((k, c, l) ∷ w) =
    let rest = overwrite key code label w in
    if key_eq k key then (key, code, label) ∷ w else (k, c, l) ∷ rest

unfoldable pub claim_literal : List ℕ → Wanted → Wanted
claim_literal [] w = w
claim_literal (n ∷ ns) w = claim_literal ns (claim (lit n) (day_code n) (day_label n) w)

unfoldable pub has_ten : List ℕ → Bool
has_ten [] = false
has_ten (n ∷ ns) = n == 10 || has_ten ns

abbrev pub opens : Opening → Opening → Bool
opens days_1_to_10 days_1_to_10 = true
opens tenth_only tenth_only = true
opens days_5_to_9 days_5_to_9 = true
opens _ _ = false

unfoldable pub claim_opening : Opening → List ℕ → Wanted
claim_opening opening day_counts =
    let first = if opens opening days_1_to_10 then claim_literal (range 1 10) [] else [] in
    let more = if opens opening days_5_to_9 then claim_literal (range 5 5) first else first in
    if opens opening days_1_to_10 || opens opening tenth_only || has_ten day_counts
    then overwrite (lit 10) (day_code 10) (named_label "Dasmi") more
    else more

abbrev pub name_or_empty : Option String → String
name_or_empty none = ""
name_or_empty (some name) = name

-- One round of `for n in day_counts`.
unfoldable pub claim_named : Bool → ℕ → Wanted → Wanted
claim_named gatha n w =
    let label = named_label (name_or_empty (named_day n)) in
    if n == 10 then w else elim (named_span n) [
      | some key ↦ claim (canon gatha key) (day_code n) label w
      | none ↦ claim (deci n) (day_code n) label w
    ]

unfoldable pub claim_all_named : Bool → List ℕ → Wanted → Wanted
claim_all_named gatha [] w = w
claim_all_named gatha (n ∷ ns) w = claim_all_named gatha ns (claim_named gatha n w)

-- `for k in range(y0, y0 + yearly_years)` and `for k in range(m0, m0 + monthly_months)`
unfoldable pub claim_yearly : Bool → List ℕ → Wanted → Wanted
claim_yearly plain [] w = w
claim_yearly plain (k ∷ ks) w =
    claim_yearly plain ks
      (claim (yearly k) (year_code k) (if plain then yearly_label else year_label k) w)

unfoldable pub claim_monthly : Bool → Bool → List ℕ → Wanted → Wanted
claim_monthly gatha plain [] w = w
claim_monthly gatha plain (k ∷ ks) w = claim_monthly gatha plain ks (
    claim (canon gatha (monthly k)) (month_code k) (if plain then monthly_label else month_label k)
      w)

unfoldable pub series_keys : Bool → List ℕ → List ℕ → List Key
series_keys gatha ys ms = map yearly ys ++ map (λ k. canon gatha (monthly k)) ms

unfoldable pub key_in : Key → List Key → Bool
key_in key [] = false
key_in key (k ∷ ks) = key_eq k key || key_in key ks
