-- ===== src/Memorial/Series.antt =====
-- The repeating series of calendar/memorial.py: the Parabs, Roj Fravardin and the birthday.
use agyary.Common.{
  ℕ, ◌+◌, ◌-◌, ◌*◌, ◌/◌, Option, none, some, List, [], ◌∷◌, ◌++◌, range, get_or, map, Bool, not,
  ◌&&◌, ◌||◌, leb_ℤ, ◌==◌, if◌then◌else◌, Result, ok, value_error, overflow_error, ◌>>=◌, ℤ, pos,
  ◌+ℤ◌, ◌-ℤ◌,
}
use agyary.Dates.{Date, leb_date, ltb_date}
use agyary.Engine.{CalendarSystem, months_per_year, mah_names, parsi_to_gregorian}
use agyary.Engine.Occurrence.{years_from}
use agyary.Memorial.{
  Parabs, fravardin_tir, Observance, Death, start_of, position, cycle_ordinal, cycle_days,
  parab_roj_for_mah, parab_code, parab_label, fravroj_code, roj_fravardin_label, birthday_code,
  birthday_label,
}

-- The pairs of an outer and an inner loop, in order.
unfoldable pub pairs {ℓ κ} : {A : Type ℓ} {B : Type κ} → List A → List B → List (A × B)
pairs [] bs = []
pairs (a ∷ as') bs = map (λ b. (a, b)) bs ++ pairs as' bs

-- A loop that appends what its body answers, and ends with the first error.
unfoldable pub collect {ℓ κ} :
    {A : Type ℓ} {B : Type κ} → (A → Result (Option B)) → List A → Result (List B)
collect body [] = ok []
collect body (a ∷ as') =
    let rest = collect body as' in
    body a >>= λ found. rest >>= λ bs. ok (elim found [ none ↦ bs | some b ↦ b ∷ bs ])

abbrev pub all_mahs : List ℕ
all_mahs = range 1 12

unfoldable pub parab_mahs : Parabs → List ℕ
parab_mahs fravardin_tir = 1 ∷ 4 ∷ []
parab_mahs _ = all_mahs

-- One round of the loops of `_parab_observances`.
unfoldable pub parab_observance : ℤ → ℤ → CalendarSystem → ℕ → ℕ × ℕ → Result (Option Observance)
parab_observance start base_year system years (year_offset, mah) =
    let roj = parab_roj_for_mah mah in
    let day_number = pos (cycle_ordinal mah roj) -ℤ start +ℤ pos (cycle_days * year_offset + 1) in
    let year = base_year +ℤ pos year_offset in
    if not (leb_ℤ (pos 2) day_number && leb_ℤ day_number (pos (cycle_days * years + 1)))
    then ok none
    else (parsi_to_gregorian year system (some mah) (some roj) none >>= λ when. ok (
        some (record {
          code = parab_code mah year;
          label = parab_label (get_or mah_names (mah - 1) "");
          day_number = day_number;
          roj = some roj;
          mah = some mah;
          year = year;
          gregorian_date = when;
          gatha_index = none;
        })))

unfoldable pub parab_observances : Death → CalendarSystem → Parabs → ℕ → Result (List Observance)
parab_observances death system which years = do
  (start, base_year) ← start_of death
  collect (parab_observance start base_year system years)
      (pairs (range 0 (years + 1)) (parab_mahs which))

abbrev pub fravardin_roj : ℕ
fravardin_roj = 19

-- `when <= death_date or (not_before and when < not_before)`
unfoldable pub too_early : Date → Option Date → Date → Bool
too_early death_date none when = leb_date when death_date
too_early death_date (some not_before) when = leb_date when death_date || ltb_date when not_before

-- The loop that the two series share: the first `count` dates that are not too early. A year that
-- lacks the date is passed over. The loop goes on to the end where no count is reached.
unfoldable pub next_dates {ℓ} :
    {A : Type ℓ}
    → (A → Result Date)
    → (A → Date → Observance)
    → (Date → Bool)
    → ℕ
    → ℕ
    → List A
    → Result (List Observance)
next_dates date_of make early count taken [] = ok []
next_dates date_of make early count taken (a ∷ as') =
    let skip = next_dates date_of make early count taken as' in
    let more = next_dates date_of make early count (taken + 1) as' in
    elim (date_of a) [
      | value_error ↦ skip
      | overflow_error ↦ overflow_error
      | ok when ↦
          if early when
          then skip
          else if taken + 1 == count
          then ok (make a when ∷ [])
          else (more >>= λ rest. ok (make a when ∷ rest))
    ]

unfoldable pub fravardin_roj_observances :
    Death → Date → CalendarSystem → ℕ → Option Date → ℕ → Result (List Observance)
fravardin_roj_observances death death_date system months not_before extra_years = do
  (start, base_year) ← start_of death
  next_dates (λ (year, mah). parsi_to_gregorian year system (some mah) (some fravardin_roj) none)
      (λ (year, mah) when. record {
        code = fravroj_code year mah;
        label = roj_fravardin_label;
        day_number = position fravardin_roj mah year start base_year;
        roj = some fravardin_roj;
        mah = some mah;
        year = year;
        gregorian_date = when;
        gatha_index = none;
      })
      (too_early death_date not_before) months 0
      (pairs (years_from death.year (months / months_per_year + 3 + extra_years)) all_mahs)

unfoldable pub birthday_observances :
    Death → Date → CalendarSystem → ℕ × ℕ → ℕ → Option Date → ℕ → Result (List Observance)
birthday_observances death death_date system (roj, mah) years not_before extra_years = do
  (start, base_year) ← start_of death
  next_dates (λ year. parsi_to_gregorian year system (some mah) (some roj) none)
      (λ year when. record {
        code = birthday_code year;
        label = birthday_label;
        day_number = position roj mah year start base_year;
        roj = some roj;
        mah = some mah;
        year = year;
        gregorian_date = when;
        gatha_index = none;
      })
      (too_early death_date not_before) years 0 (years_from death.year (years + 2 + extra_years))
