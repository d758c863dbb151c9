-- ===== src/Dates/Shift.antt =====
-- The date constructors: each gives the date asked for, or fails as there is none.
use agyary.Common.{ℕ, ℤ, pos, negsuc, pos_part, ◌+ℤ◌, ◌≤ℤ◌, ok, ◌≡◌, sym, ap, arith}
use agyary.Dates.{Date, from_ordinal, add_days, make_date, to_ordinal, split_ordinal, max_ordinal}
use agyary.Dates.Ordinal.{
  IsDate, to_ordinal_range, split_ordinal-IsDate, split_ordinal-to_ordinal,
  to_ordinal-split_ordinal,
}

-- The integers that are ordinals of dates.
abbrev pub IsOrdinal : ℤ → Type 0
IsOrdinal z = (pos 1 ≤ℤ z) × (z ≤ℤ pos max_ordinal)

split-IsDate :
    (z : ℤ) (t : Date)
    → IsOrdinal z × (split_ordinal (pos_part z) ≡ t)
    → IsDate t × (z ≡ pos (to_ordinal t))
split-IsDate (pos n) t (h, e) = rw (← e) (
  split_ordinal-IsDate n (omega arith) (omega arith),
  ap pos (sym (to_ordinal-split_ordinal n (omega arith))),
)
split-IsDate (negsuc n) t (h, e) = absurd (omega arith)

from_ordinal-IsOrdinal :
    (z : ℤ) (t : Date) → from_ordinal z ≡ ok t → IsOrdinal z × (split_ordinal (pos_part z) ≡ t)
unfolding from_ordinal
from_ordinal-IsOrdinal z t e = ground arith

pub from_ordinal-eq-ok :
    (z : ℤ) {t : Date} → from_ordinal z ≡ ok t → IsDate t × (z ≡ pos (to_ordinal t))
from_ordinal-eq-ok z {t} e = split-IsDate z t (from_ordinal-IsOrdinal z t e)

pub from_ordinal-to_ordinal : (t : Date) → IsDate t → from_ordinal (pos (to_ordinal t)) ≡ ok t
unfolding from_ordinal
from_ordinal-to_ordinal t v = ground (arith, to_ordinal_range t v, split_ordinal-to_ordinal t v)

add_days-IsOrdinal :
    (s t : Date) (n : ℤ)
    → add_days s n ≡ ok t
    → IsOrdinal (pos (to_ordinal s) +ℤ n) × (split_ordinal (pos_part (pos (to_ordinal s) +ℤ n)) ≡ t)
unfolding add_days
add_days-IsOrdinal s t n e = ground arith

pub add_days-eq-ok :
    (s : Date) (n : ℤ) {t : Date}
    → add_days s n ≡ ok t
    → IsDate t × (pos (to_ordinal s) +ℤ n ≡ pos (to_ordinal t))
add_days-eq-ok s n {t} e = split-IsDate (pos (to_ordinal s) +ℤ n) t (add_days-IsOrdinal s t n e)

pub add_days-to_ordinal :
    (s t : Date) (n : ℤ)
    → IsDate t
    → pos (to_ordinal s) +ℤ n ≡ pos (to_ordinal t)
    → add_days s n ≡ ok t
unfolding add_days
add_days-to_ordinal s t n v e =
    rw e (ground (arith, to_ordinal_range t v, split_ordinal-to_ordinal t v))

-- `date(y, m, d)` succeeds on the dates of the class, and only there.
pub make_date-eq-ok :
    (y : ℤ) (m d : ℕ) {t : Date}
    → make_date y m d ≡ ok t
    → IsDate t × (y ≡ pos t.year) × (t.month ≡ m) × (t.day ≡ d)
unfolding make_date
make_date-eq-ok y m d {t} e = ground arith

pub make_date-IsDate : (t : Date) → IsDate t → make_date (pos t.year) t.month t.day ≡ ok t
unfolding make_date
make_date-IsDate t v = ground arith
