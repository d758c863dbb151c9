-- ===== src/Dates/Ordinal.antt =====
-- Dates and their ordinals determine one another.
use agyary.Common.{
  ℕ, ◌+◌, ◌-◌, ◌≤◌, ◌<◌, ◌≡◌, refl, Bool, true, false, not, ◌&&◌, ◌||◌, leb, ltb, arith, all_below,
  all_below_sound,
}
use agyary.Dates.{
  Date, is_leap, leap_day, days_in_month, days_before_month, days_before_year, to_ordinal, year_of,
  month_of, split_ordinal, max_ordinal,
}

-- A date that the class can hold.
pub record IsDate (t : Date) : Type 0 where
  pub year_in : (1 ≤ t.year) × (t.year ≤ 9999)
  pub month_in : (1 ≤ t.month) × (t.month ≤ 12)
  pub day_in : (1 ≤ t.day) × (t.day ≤ days_in_month (is_leap t.year) t.month)

pub days_before_year-suc :
    (y : ℕ) → 1 ≤ y → days_before_year (y + 1) ≡ days_before_year y + 365 + leap_day (is_leap y)
unfolding days_before_year is_leap
days_before_year-suc y h = ground arith

pub days_before_year_mono : (x y : ℕ) → x ≤ y → days_before_year x ≤ days_before_year y
unfolding days_before_year
days_before_year_mono x y h = omega arith

-- The year found holds the day.
pub year_of_bounds :
    (n : ℕ)
    → 1 ≤ n
    → (days_before_year (year_of n) < n) × (n ≤ days_before_year (year_of n + 1)) × (1 ≤ year_of n)
unfolding days_before_year year_of
year_of_bounds n h = ground arith

-- The month found holds the day of the year.
abbrev month_fits : Bool → ℕ → Bool
month_fits leap n =
    let m = month_of leap n in
    leb 1 m
    && leb m 12
    && leb (days_before_month leap m) n
    && ltb n (days_before_month leap m + days_in_month leap m)

month_table : (leap : Bool) → all_below (365 + leap_day leap) (month_fits leap) ≡ true
unfolding all_below month_of days_before_month days_in_month
month_table true = refl
month_table false = refl

month_of_fits : (leap : Bool) (n : ℕ) → n < 365 + leap_day leap → month_fits leap n ≡ true
month_of_fits leap n h = all_below_sound _ (month_fits leap) n h (month_table leap)

pub month_of_bounds :
    (leap : Bool) (n : ℕ)
    → n < 365 + leap_day leap
    → (1 ≤ month_of leap n)
      × (month_of leap n ≤ 12)
      × (days_before_month leap (month_of leap n) ≤ n)
      × (n < days_before_month leap (month_of leap n) + days_in_month leap (month_of leap n))
month_of_bounds leap n h = ground (arith, month_of_fits leap n h)

-- A month ends before each later one begins, and within the year.
month_order_test : Bool → ℕ → ℕ → Bool
month_order_test leap m m' =
    leb (days_before_month leap m + days_in_month leap m) (365 + leap_day leap)
    && (not (ltb m m')
        || leb (days_before_month leap m + days_in_month leap m) (days_before_month leap m'))

month_order_table :
    (leap : Bool)
    → all_below 13 (λ m. all_below 13 (λ m'. leb m 0 || month_order_test leap m m')) ≡ true
unfolding all_below month_order_test days_before_month days_in_month
month_order_table true = refl
month_order_table false = refl

pub month_order :
    (leap : Bool) (m m' : ℕ)
    → 1 ≤ m
    → m < 13
    → m' < 13
    → (days_before_month leap m + days_in_month leap m ≤ 365 + leap_day leap)
      × (m < m' → days_before_month leap m + days_in_month leap m ≤ days_before_month leap m')
unfolding month_order_test
month_order leap m m' lo hm hm' = ground (
  arith,
  all_below_sound 13 (λ k. leb m 0 || month_order_test leap m k) m' hm'
      (all_below_sound 13 (λ j. all_below 13 (λ k. leb j 0 || month_order_test leap j k)) m hm
        (month_order_table leap)),
)

-- The day of the year of an ordinal, counted from 0.
day_index-lt :
    (n : ℕ) → 1 ≤ n → n - days_before_year (year_of n) - 1 < 365 + leap_day (is_leap (year_of n))
day_index-lt n lo =
    omega (arith, year_of_bounds n lo, days_before_year-suc (year_of n) (year_of_bounds n lo).2)

pub to_ordinal-split_ordinal : (n : ℕ) → 1 ≤ n → to_ordinal (split_ordinal n) ≡ n
unfolding split_ordinal to_ordinal
to_ordinal-split_ordinal n lo = omega (
  arith,
  year_of_bounds n lo,
  month_of_bounds (is_leap (year_of n)) (n - days_before_year (year_of n) - 1) (day_index-lt n lo),
)

last_year : days_before_year 10000 ≡ max_ordinal
unfolding days_before_year
last_year = refl

year_of-le : (n : ℕ) → 1 ≤ n → n ≤ max_ordinal → year_of n ≤ 9999
unfolding year_of
year_of-le n lo hi = ground arith

-- Every day number in the range names a date of the class.
pub split_ordinal-IsDate : (n : ℕ) → 1 ≤ n → n ≤ max_ordinal → IsDate (split_ordinal n)
unfolding split_ordinal
split_ordinal-IsDate n lo hi =
    let m =
      month_of_bounds (is_leap (year_of n)) (n - days_before_year (year_of n) - 1)
        (day_index-lt n lo) in
    record {
      year_in = ((year_of_bounds n lo).2, year_of-le n lo hi);
      month_in = (m.0, m.1);
      day_in = (omega (arith, m), omega (arith, m));
    }

pub day_fits :
    (t : Date)
    → IsDate t
    → days_before_month (is_leap t.year) t.month + t.day ≤ 365 + leap_day (is_leap t.year)
day_fits t v = omega (
  arith,
  month_order (is_leap t.year) t.month 1 v.month_in.0 (omega arith) (omega arith),
  v.day_in,
)

pub to_ordinal_range : (t : Date) → IsDate t → (1 ≤ to_ordinal t) × (to_ordinal t ≤ max_ordinal)
unfolding to_ordinal
to_ordinal_range t v = omega (
  arith,
  day_fits t v,
  last_year,
  days_before_year-suc t.year v.year_in.0,
  days_before_year_mono (t.year + 1) 10000 (omega arith),
)

-- A date of an earlier year has a smaller ordinal, and so in one year has one of an earlier month.
year-to_ordinal : (s t : Date) → IsDate s → IsDate t → s.year < t.year → to_ordinal s < to_ordinal t
unfolding to_ordinal
year-to_ordinal s t u v h = omega (
  arith,
  day_fits s u,
  days_before_year-suc s.year u.year_in.0,
  days_before_year_mono (s.year + 1) t.year (omega arith),
  v.day_in,
)

same_year : (s t : Date) → IsDate s → IsDate t → to_ordinal s ≡ to_ordinal t → s.year ≡ t.year
same_year s t u v e = ground (arith, year-to_ordinal s t u v, year-to_ordinal t s v u)

month_day_inj :
    (leap : Bool) (m m' d d' : ℕ)
    → 1 ≤ m
    → m < 13
    → 1 ≤ m'
    → m' < 13
    → 1 ≤ d
    → d ≤ days_in_month leap m
    → 1 ≤ d'
    → d' ≤ days_in_month leap m'
    → days_before_month leap m + d ≡ days_before_month leap m' + d'
    → (m ≡ m') × (d ≡ d')
month_day_inj leap m m' d d' a b a' b' c h c' h' e =
    ground (arith, month_order leap m m' a b b', month_order leap m' m a' b' b)

-- Two dates of the class with one ordinal are equal.
pub to_ordinal_inj : (s t : Date) → IsDate s → IsDate t → to_ordinal s ≡ to_ordinal t → s ≡ t
unfolding to_ordinal
to_ordinal_inj s t u v e =
    let y = same_year s t u v e in
    ground (arith, month_day_inj (is_leap t.year) s.month t.month s.day t.day)

pub split_ordinal-to_ordinal : (t : Date) → IsDate t → split_ordinal (to_ordinal t) ≡ t
split_ordinal-to_ordinal t v =
    to_ordinal_inj (split_ordinal (to_ordinal t)) t
      (split_ordinal-IsDate _ (to_ordinal_range t v).0 (to_ordinal_range t v).1) v
      (to_ordinal-split_ordinal _ (to_ordinal_range t v).0)
