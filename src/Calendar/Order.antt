-- ===== src/Calendar/Order.antt =====
-- Ordinals: steps of a day count by one, and the order of dates is that of their ordinals.
use shiden_api.Base.{ℕ, zero, suc, ◌+◌, ◌-◌, ◌≤◌, ◌<◌, ◌≡◌, refl, ◌↔◌, true, ◌⊎◌, arith}
use native.Mathlib.Decide.{dec_lt}
use shiden_api.Calendar.{
  Date, date, IsValid, days_in_month, days_before_year, days_before_month, to_ordinal, next_day,
  prev_day, plus_days, minus_days, date_ltb, date_leb, date_eq,
}
use shiden_api.Calendar.Ordinal.{
  days_in_month_bounds, days_before_year-add_one, days_before_month-add_one, days_before_year-pred,
  days_before_month-pred, first_of_all, year_mono, month_mono, december, january, new_year,
  december_ends, last_day, day_in_year,
}

-- What one step forwards does, with the facts of its branch.
data Forward (d : Date) : Date → Type 0 where
  same_month : d.day < days_in_month d.year d.month → Forward d (date d.year d.month (d.day + 1))
  next_month :
      days_in_month d.year d.month ≤ d.day → d.month < 12 → Forward d (date d.year (d.month + 1) 1)
  next_year :
      days_in_month d.year d.month ≤ d.day → 12 ≤ d.month → Forward d (date (d.year + 1) 1 1)

next_day-Forward : (d : Date) → Forward d (next_day d)
unfolding next_day
next_day-Forward d = grind (arith, same_month, next_month, next_year)

Forward-to_ordinal : (d e : Date) → IsValid d → Forward d e → to_ordinal e ≡ to_ordinal d + 1
unfolding to_ordinal
Forward-to_ordinal d _ v (same_month h) = omega arith
Forward-to_ordinal d _ v (next_month h k) =
    omega (arith, v.day_in, days_before_month-add_one d.year d.month v.month_in.0)
Forward-to_ordinal d _ v (next_year h k) = omega (
  arith,
  v.day_in,
  days_before_year-add_one d.year v.year_in,
  last_day d v (omega arith),
  january (d.year + 1),
)

pub to_ordinal-next_day : (d : Date) → IsValid d → to_ordinal (next_day d) ≡ to_ordinal d + 1
to_ordinal-next_day d v = Forward-to_ordinal d (next_day d) v (next_day-Forward d)

pub next_day-IsValid : (d : Date) → IsValid d → IsValid (next_day d)
unfolding next_day
next_day-IsValid d v =
    ground (arith, days_in_month_bounds d.year (d.month + 1), days_in_month_bounds (d.year + 1) 1)

-- Stepping back from a date after 0001-01-01.
data Backward (d : Date) : Date → Type 0 where
  same_month : 1 < d.day → Backward d (date d.year d.month (d.day - 1))
  prev_month :
      d.day ≤ 1
      → 1 < d.month
      → Backward d (date d.year (d.month - 1) (days_in_month d.year (d.month - 1)))
  prev_year : d.day ≤ 1 → d.month ≤ 1 → Backward d (date (d.year - 1) 12 31)

prev_day-Backward : (d : Date) → Backward d (prev_day d)
unfolding prev_day
prev_day-Backward d = grind (arith, Backward.same_month, prev_month, prev_year)

first_day : (d : Date) → IsValid d → d.day ≤ 1 → d.month ≤ 1 → 1 < to_ordinal d → 1 < d.year
unfolding to_ordinal
first_day d v h k lt = elim (dec_lt 1 d.year) [
  | yes p ↦ p
  | no p ↦ absurd (origin d (omega arith) (omega arith) (omega arith) lt)
]
  where
    origin :
        (d : Date)
        → d.year ≡ 1
        → d.month ≡ 1
        → d.day ≡ 1
        → 1 < days_before_year d.year + days_before_month d.year d.month + d.day
        → ⊥
    origin d ey em ed lt' = omega (arith, rw (ey, em, ed) at lt', first_of_all)

Backward-to_ordinal :
    (d e : Date)
    → IsValid d
    → 1 < to_ordinal d
    → Backward d e
    → IsValid e × (to_ordinal e + 1 ≡ to_ordinal d)
unfolding to_ordinal
Backward-to_ordinal d _ v lt (same_month h) = omega (arith, v)
Backward-to_ordinal d _ v lt (prev_month h k) = (
  record {
    year_in = v.year_in;
    month_in = omega (arith, v.month_in);
    day_in = omega (arith, days_in_month_bounds d.year (d.month - 1));
  },
  omega (arith, v.day_in, days_before_month-pred d.year d.month k),
)
Backward-to_ordinal d _ v lt (prev_year h k) = (
  record {
    year_in = omega (arith, first_day d v h k lt);
    month_in = omega arith;
    day_in = omega (arith, december (d.year - 1));
  },
  omega (
    arith,
    v.day_in,
    days_before_year-pred d.year (first_day d v h k lt),
    december_ends (d.year - 1) 12 refl,
    december (d.year - 1),
    new_year d.year d.month (omega (arith, v.month_in)),
  ),
)

-- Stepping back from a date after 0001-01-01.
pub prev_day_lem :
    (d : Date)
    → IsValid d
    → 1 < to_ordinal d
    → IsValid (prev_day d) × (to_ordinal (prev_day d) + 1 ≡ to_ordinal d)
prev_day_lem d v lt = Backward-to_ordinal d (prev_day d) v lt (prev_day-Backward d)

-- An earlier date has the smaller ordinal.
ltb→ordinal_lt :
    (a b : Date) → IsValid a → IsValid b → date_ltb a b ≡ true → to_ordinal a < to_ordinal b
unfolding to_ordinal date_ltb
ltb→ordinal_lt a b va vb h =
    ground (arith, day_in_year a va, year_mono a.year b.year, month_mono a.year a.month b.month)

ltb_trichotomy : (a b : Date) → (date_ltb a b ≡ true) ⊎ ((date_ltb b a ≡ true) ⊎ (a ≡ b))
unfolding date_ltb
ltb_trichotomy a b = ground arith

-- The order of dates is the order of their ordinals.
pub date_leb_iff :
    (a b : Date) → IsValid a → IsValid b → (date_leb a b ≡ true) ↔ (to_ordinal a ≤ to_ordinal b)
unfolding date_leb
date_leb_iff a b va vb =
    ground (arith, ltb→ordinal_lt a b va vb, ltb→ordinal_lt b a vb va, ltb_trichotomy a b)

pub to_ordinal_inj : (a b : Date) → IsValid a → IsValid b → to_ordinal a ≡ to_ordinal b → a ≡ b
to_ordinal_inj a b va vb e =
    ground (arith, ltb→ordinal_lt a b va vb, ltb→ordinal_lt b a vb va, ltb_trichotomy a b)

pub date_eq_iff : (a b : Date) → (date_eq a b ≡ true) ↔ (a ≡ b)
unfolding date_eq
date_eq_iff a b = ground arith

pub plus_days_lem :
    (n : ℕ) (d : Date)
    → IsValid d
    → IsValid (plus_days d n) × (to_ordinal (plus_days d n) ≡ to_ordinal d + n)
unfolding plus_days
plus_days_lem zero d v = (v, omega arith)
plus_days_lem (suc n) d v =
    let (valid, e) = plus_days_lem n (next_day d) (next_day-IsValid d v) in
    (valid, omega (arith, e, to_ordinal-next_day d v))

-- Going `n` days back, where there are that many.
pub minus_days_lem :
    (n : ℕ) (d : Date)
    → IsValid d
    → n < to_ordinal d
    → IsValid (minus_days d n) × (to_ordinal (minus_days d n) + n ≡ to_ordinal d)
unfolding minus_days
minus_days_lem zero d v h = (v, omega arith)
minus_days_lem (suc n) d v h =
    let (valid, e) = prev_day_lem d v (omega arith) in
    let (valid', e') = minus_days_lem n (prev_day d) valid (omega arith) in
    (valid', omega (arith, e, e'))

pub to_ordinal_pos : (d : Date) → IsValid d → 1 ≤ to_ordinal d
unfolding to_ordinal
to_ordinal_pos d v = omega (arith, v.day_in)
