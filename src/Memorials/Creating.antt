-- ===== src/Memorials/Creating.antt =====
-- `create_memorial` of services/memorials.py.
use agyary.Common.{ℕ, suc, ◌+◌, Option, none, some, List, ◌∷◌, Bool, if◌then◌else◌, Text, strip}
use agyary.Dates.{Date}
use agyary.Engine.{CalendarSystem}
use agyary.Memorial.{Code}
use agyary.Memorials.{Choice, CalendarName, Outcome, done, ◌>>=◌, calendar_for}
use agyary.Memorials.Death.{resolve_birthday}
use agyary.Memorials.Plan.{Planned, plan}
use agyary.Memorials.Saving.{
  KeptDate, KeptMemorial, Book, validated_services, codes_of, left_to_keep, resolve_overrides,
  sorted_set, years_if, kept_dates, count_dates,
}

-- What is asked for beside the choice.
pub record Wish : Type 0 where
  pub agyary_id : ℕ
  pub user_id : ℕ
  pub customer_id : ℕ
  pub service_ids : List ℕ
  pub exclude_codes : List Code
  pub service_overrides : List (Code × List ℕ)
  pub all_paid : Bool

abbrev pub memorial_of :
    ℕ → Wish → Choice → CalendarSystem → Planned → Option (ℕ × ℕ) → List KeptDate → KeptMemorial
memorial_of id wish choice system planned birthday dates = record {
  id = id;
  agyary_id = wish.agyary_id;
  customer_id = wish.customer_id;
  created_by_user_id = wish.user_id;
  departed_name = strip choice.departed_name;
  death_gregorian = planned.death_date;
  death = planned.death;
  died_over_a_year_ago = choice.long_ago;
  calendar_system = system;
  opening = choice.opening;
  day_counts = sorted_set choice.day_counts;
  monthly_months = choice.monthly_months;
  yearly_years = choice.yearly_years;
  fravardin_roj_months = choice.fravardin_roj_months;
  parabs = choice.parabs;
  parab_years = choice.parab_years;
  parab_count = choice.parab_count;
  birthday = birthday;
  birthday_years = years_if birthday choice.birthday_years;
  observances = dates;
}

abbrev pub add_memorial : KeptMemorial → Book → Book
add_memorial m book = record book {
  memorials = m ∷ book.memorials;
  next_id = suc book.next_id;
  next_date_id = book.next_date_id + count_dates m.observances;
}

module _ (is_word is_decimal : ℕ → Bool) (lower : ℕ → ℕ) (lower_case : Text → Text) where
  -- `preferred` is the calendar that the mobed reads in.
  unfoldable pub create_memorial :
      CalendarName → Wish → Choice → Date → ℕ → Book → Outcome (Book × KeptMemorial)
  create_memorial preferred wish choice today now book = do
    system ← calendar_for preferred choice
    planned ← plan is_word is_decimal lower system choice today
    schedule ← left_to_keep wish.exclude_codes planned.schedule
    services ← validated_services wish.agyary_id book.services wish.service_ids
    overrides ←
        resolve_overrides wish.agyary_id book.services (codes_of schedule) wish.service_overrides
    birthday ← resolve_birthday system choice
    dates ←
        kept_dates lower_case (if wish.all_paid then some now else none) overrides services
          book.next_date_id schedule
    let memorial = memorial_of book.next_id wish choice system planned birthday dates
    done (add_memorial memorial book, memorial)
