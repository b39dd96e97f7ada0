-- ===== src/Calendar/Ordinal.antt =====
-- Ordinals of dates: the days before a year and a month.
use shiden_api.Base.{ℕ, zero, suc, ◌+◌, ◌-◌, ◌≤◌, ◌<◌, ◌≡◌, refl, arith}
use native.Mathlib.Decide.{dec_lt}
use native.Mathlib.Numerals.{add-one}
use shiden_api.Calendar.{
  Date, IsValid, is_leap, days_in_month, days_in_year, days_before_year, days_before_month,
}

pub days_in_month_bounds : (y m : ℕ) → (28 ≤ days_in_month y m) × (days_in_month y m ≤ 31)
unfolding days_in_month is_leap
days_in_month_bounds y m = ground arith

suc-sub-one : (n : ℕ) → suc n - 1 ≡ n
suc-sub-one n = omega arith

days_before_year-suc :
    (y : ℕ) → 1 ≤ y → days_before_year (suc y) ≡ days_before_year y + days_in_year y
unfolding days_before_year days_in_year is_leap
days_before_year-suc y h = ground arith

days_before_month-suc :
    (y m : ℕ) → 1 ≤ m → days_before_month y (suc m) ≡ days_before_month y m + days_in_month y m
unfolding days_before_month
days_before_month-suc y zero h = absurd (omega arith)
days_before_month-suc y (suc m) h = ground arith

twelve_months : (y : ℕ) → days_before_month y 12 + 31 ≡ days_in_year y
unfolding days_before_month days_in_month days_in_year is_leap
twelve_months y = ground arith

pub days_before_year-add_one :
    (y : ℕ) → 1 ≤ y → days_before_year (y + 1) ≡ days_before_year y + days_in_year y
days_before_year-add_one y h = rw add-one (days_before_year-suc y h)

pub days_before_month-add_one :
    (y m : ℕ) → 1 ≤ m → days_before_month y (m + 1) ≡ days_before_month y m + days_in_month y m
days_before_month-add_one y m h = rw add-one (days_before_month-suc y m h)

pub days_before_year-pred :
    (y : ℕ) → 1 < y → days_before_year (y - 1) + days_in_year (y - 1) ≡ days_before_year y
days_before_year-pred zero h = absurd (omega arith)
days_before_year-pred (suc y) h =
    rw (suc-sub-one y) (omega (arith, days_before_year-suc y (omega arith)))

pub days_before_month-pred :
    (y m : ℕ)
    → 1 < m
    → days_before_month y (m - 1) + days_in_month y (m - 1) ≡ days_before_month y m
days_before_month-pred y zero h = absurd (omega arith)
days_before_month-pred y (suc m) h =
    rw (suc-sub-one m) (omega (arith, days_before_month-suc y m (omega arith)))

omega_eq : (a b : ℕ) → ¬ (a < b) → a < suc b → a ≡ b
omega_eq a b p lt = omega arith

pub first_of_all : (days_before_year 1 ≡ 0) × (days_before_month 1 1 ≡ 0)
unfolding days_before_year days_before_month
first_of_all = (refl, refl)

-- The days of an earlier year all come before a later year, and so for months.
pub year_mono : (y z : ℕ) → 1 ≤ y → y < z → days_before_year y + days_in_year y ≤ days_before_year z
year_mono y zero h lt = absurd (omega arith)
year_mono y (suc z) h lt = elim (dec_lt y z) [
  | yes p ↦ omega (arith, year_mono y z h p, days_before_year-suc z (omega arith))
  | no p ↦ rw (omega_eq y z p lt) (omega (arith, days_before_year-suc z (omega arith)))
]

pub month_mono :
    (y m n : ℕ) → 1 ≤ m → m < n → days_before_month y m + days_in_month y m ≤ days_before_month y n
month_mono y m zero h lt = absurd (omega arith)
month_mono y m (suc n) h lt = elim (dec_lt m n) [
  | yes p ↦ omega (arith, month_mono y m n h p, days_before_month-suc y n (omega arith))
  | no p ↦ rw (omega_eq m n p lt) (omega (arith, days_before_month-suc y n (omega arith)))
]

pub december : (y : ℕ) → days_in_month y 12 ≡ 31
unfolding days_in_month
december y = refl

pub january : (y : ℕ) → days_before_month y 1 ≡ 0
unfolding days_before_month
january y = refl

pub new_year : (y m : ℕ) → m ≡ 1 → days_before_month y m ≡ 0
new_year y m e = rw e (january y)

-- December ends the year.
pub december_ends : (y m : ℕ) → m ≡ 12 → days_before_month y m + days_in_month y m ≡ days_in_year y
december_ends y m e = rw (e, december y) (twelve_months y)

pub last_day :
    (d : Date)
    → IsValid d
    → d.month ≡ 12
    → days_before_month d.year d.month + days_in_month d.year d.month ≡ days_in_year d.year
last_day d v e = december_ends d.year d.month e

-- The day of the year lies between 1 and the year's length.
pub day_in_year :
    (d : Date) → IsValid d → days_before_month d.year d.month + d.day ≤ days_in_year d.year
day_in_year d v = elim (dec_lt d.month 12) [
  | yes p ↦ omega (arith, v, month_mono d.year d.month 12 v.month_in.0 p, twelve_months d.year)
  | no p ↦ omega (arith, v.day_in, last_day d v (omega arith))
]
