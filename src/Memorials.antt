-- ===== src/Memorials.antt =====
-- services/memorials.py: what a mobed chooses for a departed person, the day of the death and of
-- the birthday, and the schedule that is planned from it. A count, a Roj and a Mah are natural
-- numbers here: the source's tests refuse a negative one as they refuse 0.
pub mod Death
pub mod Latest
pub mod Plan
pub mod Planned
pub mod Saving
pub mod Creating
pub mod Prayers
pub mod Saved
pub mod Reading
pub mod Rows
pub mod Closing
pub mod Marks
use agyary.Common.{
  ℕ, ◌≡◌, refl, ap, Option, none, some, List, Bool, true, false, ◌&&◌, leb, if◌then◌else◌, Result,
  ok, value_error, overflow_error, ℤ, Text,
}
use agyary.Dates.{Date}
use agyary.Engine.{CalendarSystem, shenshai, kadmi, fasli}
use agyary.Memorial.{Opening, Parabs}
use agyary.TemplateText.{Problem}

abbrev pub max_monthly_months : ℕ
max_monthly_months = 1200

abbrev pub max_yearly_years : ℕ
max_yearly_years = 100

abbrev pub max_parab_years : ℕ
max_parab_years = 100

abbrev pub max_birthday_years : ℕ
max_birthday_years = 100

abbrev pub max_parab_count : ℕ
max_parab_count = 1200

abbrev pub max_observances : ℕ
max_observances = 2500

abbrev pub old_death_days : ℕ
old_death_days = 361

-- `template_text.DEPARTED_MAX`
abbrev pub departed_max : ℕ
departed_max = 80

-- The name of a calendar, as it is chosen or stored: none (or an empty text), one of the three, or
-- any other text.
pub data CalendarName : Type 0 where
  no_calendar other_calendar : CalendarName
  named_calendar : CalendarSystem → CalendarName

pub record Choice : Type 0 where
  pub departed_name : Text
  pub death_date : Option Date
  pub opening : Opening
  pub day_counts : List ℕ
  pub monthly_months : Option ℕ
  pub yearly_years : Option ℕ
  pub fravardin_roj_months : Option ℕ
  pub parabs : Option Parabs
  pub parab_years : Option ℕ
  pub parab_count : Option ℕ
  pub birthday_date : Option Date
  pub birthday_roj : Option ℕ
  pub birthday_mah : Option ℕ
  pub birthday_years : Option ℕ
  pub start_from : Option Date
  pub calendar : CalendarName
  pub death_roj : Option ℕ
  pub death_mah : Option ℕ
  pub death_year : Option ℤ
  pub long_ago : Bool

-- The messages of MemorialError.
pub data Refusal : Type 0 where
  bad_length unoffered_calendar only_roj_and_mah death_given_once death_needs_both : Refusal
  no_such_roj_and_mah not_come_round not_in_calendar : Refusal
  no_birthday no_birthday_years birthday_given_once gatha_birthday birthday_needs_both : Refusal
  no_such_birthday no_name bad_schedule which_parabs how_many_parabs parabs_given_once : Refusal
  days_have_passed nothing_left nothing_chosen too_many_observances : Refusal
  no_prayer not_offered_here all_removed date_without_prayer only_jashan bad_range : Refusal
  bad_text : Problem → Refusal

-- A call returns, raises MemorialError, or raises an error of Python that nothing catches.
pub data Outcome {ℓ} (A : Type ℓ) : Type ℓ where
  done : A → Outcome A
  refused : Refusal → Outcome A
  crashed : Outcome A

infixl 5 ◌>>=◌ ◌>>◌
abbrev pub ◌>>=◌ {ℓ κ} : {A : Type ℓ} {B : Type κ} → Outcome A → (A → Outcome B) → Outcome B
done a >>= f = f a
refused e >>= f = refused e
crashed >>= f = crashed

abbrev pub ◌>>◌ {ℓ} : {B : Type ℓ} → Outcome (Unit {0}) → Outcome B → Outcome B
m >> k = m >>= λ _. k

-- `if not b: raise MemorialError`
abbrev pub demand : Bool → Refusal → Outcome (Unit {0})
demand true e = done tt
demand false e = refused e

-- `except (ValueError, OverflowError): raise MemorialError`
abbrev pub caught {ℓ} : {A : Type ℓ} → Refusal → Result A → Outcome A
caught e (ok a) = done a
caught e value_error = refused e
caught e overflow_error = refused e

-- `except ValueError: raise MemorialError`
abbrev pub caught_value {ℓ} : {A : Type ℓ} → Refusal → Result A → Outcome A
caught_value e (ok a) = done a
caught_value e value_error = refused e
caught_value e overflow_error = crashed

-- A call that stands in no `try`.
abbrev pub uncaught {ℓ} : {A : Type ℓ} → Result A → Outcome A
uncaught (ok a) = done a
uncaught value_error = crashed
uncaught overflow_error = crashed

pub >>=-eq-done {ℓ κ} :
    {X : Type ℓ} {Y : Type κ} (first : Outcome X) (next : X → Outcome Y) {y : Y}
    → (first >>= next) ≡ done y
    → (x : X) × (first ≡ done x) × (next x ≡ done y)
>>=-eq-done (done x) next made = (x, refl, made)
>>=-eq-done (refused e) next made = cc
>>=-eq-done crashed next made = cc

pub done_injective {ℓ} : {A : Type ℓ} {a b : A} → done a ≡ done b → a ≡ b
done_injective e = cc

pub demanded {ℓ} :
    {A : Type ℓ} (b : Bool) (e : Refusal) (m : Outcome A) {a : A}
    → (demand b e >> m) ≡ done a
    → (b ≡ true) × (m ≡ done a)
demanded true e m made = (refl, made)
demanded false e m made = cc

pub demand-true : (b : Bool) (e : Refusal) {u : Unit {0}} → demand b e ≡ done u → b ≡ true
demand-true true e made = refl
demand-true false e made = cc

pub caught-ok {ℓ} :
    {A : Type ℓ} (e : Refusal) (r : Result A) {a : A} → caught e r ≡ done a → r ≡ ok a
caught-ok e (ok a) made = ap ok (done_injective made)
caught-ok e value_error made = cc
caught-ok e overflow_error made = cc

pub caught_value-ok {ℓ} :
    {A : Type ℓ} (e : Refusal) (r : Result A) {a : A} → caught_value e r ≡ done a → r ≡ ok a
caught_value-ok e (ok a) made = ap ok (done_injective made)
caught_value-ok e value_error made = cc
caught_value-ok e overflow_error made = cc

pub uncaught-ok {ℓ} : {A : Type ℓ} (r : Result A) {a : A} → uncaught r ≡ done a → r ≡ ok a
uncaught-ok (ok a) made = ap ok (done_injective made)
uncaught-ok value_error made = cc
uncaught-ok overflow_error made = cc

-- `_validate_length`
unfoldable pub validate_length : Option ℕ → ℕ → Outcome (Unit {0})
validate_length none ceiling = done tt
validate_length (some value) ceiling = demand (leb 1 value && leb value ceiling) bad_length

-- OFFERED_CALENDARS
unfoldable pub is_offered : CalendarSystem → Bool
is_offered shenshai = true
is_offered kadmi = true
is_offered fasli = false

-- `reading_system` of services/mobed_dashboard.py, of the stored preference, where there is one.
unfoldable pub reading_system : CalendarName → CalendarSystem
reading_system (named_calendar system) = if is_offered system then system else shenshai
reading_system no_calendar = shenshai
reading_system other_calendar = shenshai

unfoldable pub calendar_chosen : CalendarName → CalendarName → Outcome CalendarSystem
calendar_chosen preferred no_calendar = done (reading_system preferred)
calendar_chosen preferred other_calendar = refused unoffered_calendar
calendar_chosen preferred (named_calendar system) =
    demand (is_offered system) unoffered_calendar >> done system

-- `preferred` is the calendar that the mobed reads in.
unfoldable pub calendar_for : CalendarName → Choice → Outcome CalendarSystem
calendar_for preferred choice = calendar_chosen preferred choice.calendar
