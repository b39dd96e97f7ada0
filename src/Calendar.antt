-- ===== src/Calendar.antt =====
-- Dates. The first part is what the program uses of Python's `datetime.date`: a date of the
-- Gregorian calendar as year, month and day, its comparison, `timedelta(days=1)` forwards and
-- backwards, the difference of two dates and the weekday. The second part is
-- src/shiden/dates.py. Dates before 0001-01-01 and after 9999-12-31, where Python raises
-- OverflowError, are outside the model.
pub mod Ordinal
pub mod Order
pub mod Range
pub mod Id
use shiden_api.Base.{
  ℕ, zero, suc, ◌+◌, ◌-◌, ◌*◌, ◌/◌, ◌%◌, ◌≤◌, Bool, true, false, not, ◌&&◌, ◌||◌, List, [], ◌∷◌,
  ltb, leb, ◌==◌, if◌then◌else◌,
}

pub record Date : Type 0 where
  pub year : ℕ
  pub month : ℕ
  pub day : ℕ

-- `date(y, m, d)`
abbrev pub date : ℕ → ℕ → ℕ → Date
date a b c = record { year = a; month = b; day = c }

unfoldable pub is_leap : ℕ → Bool
is_leap y = (y % 4 == 0) && (not (y % 100 == 0) || (y % 400 == 0))

unfoldable pub days_in_month : ℕ → ℕ → ℕ
days_in_month year month =
    if (month == 11) || (month == 9) || (month == 6) || (month == 4)
    then 30
    else if month == 2
    then (if is_leap year then 29 else 28)
    else 31

unfoldable pub days_in_year : ℕ → ℕ
days_in_year y = if is_leap y then 366 else 365

unfoldable pub days_before_year : ℕ → ℕ
days_before_year y = (y - 1) * 365 + (y - 1) / 4 - (y - 1) / 100 + (y - 1) / 400

unfoldable pub days_before_month : ℕ → ℕ → ℕ
days_before_month y zero = 0
days_before_month y (suc zero) = 0
days_before_month y (suc (suc m)) = days_before_month y (suc m) + days_in_month y (suc m)

-- `d.toordinal()`: 0001-01-01 has ordinal 1.
unfoldable pub to_ordinal : Date → ℕ
to_ordinal d = days_before_year d.year + days_before_month d.year d.month + d.day

-- `d.weekday() + 1`: Monday is 1, Sunday is 7.
unfoldable pub iso_weekday : Date → ℕ
iso_weekday d = (to_ordinal d + 6) % 7 + 1

-- `d + timedelta(days=1)`
unfoldable pub next_day : Date → Date
next_day d =
    if ltb d.day (days_in_month d.year d.month)
    then date d.year d.month (d.day + 1)
    else if ltb d.month 12
    then date d.year (d.month + 1) 1
    else date (d.year + 1) 1 1

-- `d - timedelta(days=1)`
unfoldable pub prev_day : Date → Date
prev_day d =
    if ltb 1 d.day
    then date d.year d.month (d.day - 1)
    else if ltb 1 d.month
    then date d.year (d.month - 1) (days_in_month d.year (d.month - 1))
    else date (d.year - 1) 12 31

unfoldable pub plus_days : Date → ℕ → Date
plus_days d zero = d
plus_days d (suc n) = plus_days (next_day d) n

unfoldable pub minus_days : Date → ℕ → Date
minus_days d zero = d
minus_days d (suc n) = minus_days (prev_day d) n

-- `a < b` and `a <= b`: by year, then month, then day.
unfoldable pub date_ltb : Date → Date → Bool
date_ltb a b =
    if a.year == b.year
    then (if a.month == b.month then ltb a.day b.day else ltb a.month b.month)
    else ltb a.year b.year

unfoldable pub date_leb : Date → Date → Bool
date_leb a b = not (date_ltb b a)

unfoldable pub date_eq : Date → Date → Bool
date_eq a b = (a.year == b.year) && (a.month == b.month) && (a.day == b.day)

-- `date_range`, with fuel: `while current <= end: yield current; current += one day`.
unfoldable pub range_loop : ℕ → Date → Date → List Date
range_loop zero current end = []
range_loop (suc fuel) current end =
    let rest = range_loop fuel (next_day current) end in
    if date_leb current end then current ∷ rest else []

-- The fuel is more than the number of days up to `end`, as `Calendar/Range.antt` shows.
unfoldable pub date_range : Date → Date → List Date
date_range start end = range_loop (suc (to_ordinal end)) start end

-- YYYYMMDD
unfoldable pub date_to_id : Date → ℕ
date_to_id d = d.year * 10000 + d.month * 100 + d.day

-- A date that Python can construct (but for the upper bound on the year).
pub record IsValid (d : Date) : Type 0 where
  pub year_in : 1 ≤ d.year
  pub month_in : (1 ≤ d.month) × (d.month ≤ 12)
  pub day_in : (1 ≤ d.day) × (d.day ≤ days_in_month d.year d.month)

-- A proof or a test that runs the calendar says `unfolding calendar`.
unfoldable pub calendar : Unit {0}
unfolding is_leap days_in_month days_in_year days_before_year days_before_month to_ordinal
    iso_weekday next_day prev_day plus_days minus_days date_ltb date_leb date_eq range_loop
    date_range date_to_id
calendar = tt
