-- ===== src/DimDate/Holidays.antt =====
-- Which days the holidays of src/shiden/processing/silver/dimensions/dim_date.py are, by month and
-- day or by the distance from Easter.
use shiden_api.Base.{
  ℕ, zero, suc, ◌+◌, ◌≤◌, ◌<◌, ◌≡◌, refl, sym, ap, ap₂, ◌∙◌, Bool, true, false, ◌&&◌, ◌||◌, List,
  [], ◌∷◌, ◌++◌, Option, none, some, count_up, leb, ltb, Option-cases, ◌==◌, arith, inl, inr,
  if◌then◌else◌,
}
use shiden_api.Calendar.{
  Date, date, IsValid, date_eq, to_ordinal, plus_days, minus_days, days_in_month, calendar,
}
use shiden_api.Calendar.Order.{date_eq_iff, to_ordinal_inj, plus_days_lem, minus_days_lem}
use shiden_api.DimDate.Easter.{all_good, all_good_at}
use shiden_api.DimDate.{orthodox_easter, holidays_of, holidays_of_years, mem_date}

abbrev pub any_day : List (ℕ × ℕ) → Date → Bool
any_day [] d = false
any_day ((month, day) ∷ days) d = ((month == d.month) && (day == d.day)) || any_day days d

-- The holidays with a fixed date, and those since 2024.
abbrev pub fixed_days : List (ℕ × ℕ)
fixed_days =
    (1, 1)
    ∷ (1, 2)
    ∷ (1, 24)
    ∷ (5, 1)
    ∷ (6, 1)
    ∷ (8, 15)
    ∷ (11, 30)
    ∷ (12, 1)
    ∷ (12, 25)
    ∷ (12, 26)
    ∷ []

abbrev pub early_january : List (ℕ × ℕ)
early_january = (1, 6) ∷ (1, 7) ∷ []

abbrev pub any_offset : ℕ → ℕ → List ℕ → Bool
any_offset easter day [] = false
any_offset easter day (n ∷ ns) = (easter + n == day) || any_offset easter day ns

-- Good Friday, Easter Sunday and Monday, Pentecost Sunday and Monday, on ordinals.
abbrev pub is_moving : ℕ → ℕ → Bool
is_moving easter day = (day + 2 == easter) || any_offset easter day (0 ∷ 1 ∷ 49 ∷ 50 ∷ [])

-- A holiday of a year with a given Easter.
abbrev pub is_holiday_of : ℕ → Date → Date → Bool
is_holiday_of year easter d =
    ((year == d.year) && (leb 2024 year && any_day early_january d))
    || (((year == d.year) && any_day fixed_days d) || is_moving (to_ordinal easter) (to_ordinal d))

abbrev pub is_holiday : List ℕ → Date → Bool
is_holiday [] d = false
is_holiday (year ∷ years) d =
    elim (orthodox_easter year) [ none ↦ false | some easter ↦ is_holiday_of year easter d ]
    || is_holiday years d

or_assoc : (a b c : Bool) → ((a || b) || c) ≡ (a || (b || c))
or_assoc true b c = refl
or_assoc false b c = refl

mem_date-append :
    (d : Date) (xs ys : List Date) → mem_date d (xs ++ ys) ≡ (mem_date d xs || mem_date d ys)
mem_date-append d [] ys = refl
mem_date-append d (x ∷ xs) ys =
    ap (λ b. date_eq x d || b) (mem_date-append d xs ys)
    ∙ sym (or_assoc (date_eq x d) (mem_date d xs) (mem_date d ys))

abbrev dates : ℕ → List (ℕ × ℕ) → List Date
dates year [] = []
dates year ((month, day) ∷ days) = date year month day ∷ dates year days

mem_date-dates :
    (d : Date) (year : ℕ) (days : List (ℕ × ℕ))
    → mem_date d (dates year days) ≡ ((year == d.year) && any_day days d)
unfolding date_eq
mem_date-dates d year [] = none_there (year == d.year)
  where
    none_there : (b : Bool) → false ≡ (b && false)
    none_there true = refl
    none_there false = refl
mem_date-dates d year ((month, day) ∷ days) =
    ap (λ b. ((year == d.year) && (month == d.month) && (day == d.day)) || b)
      (mem_date-dates d year days)
    ∙ factor (year == d.year) (month == d.month) (day == d.day) (any_day days d)
  where
    factor : (a b c r : Bool) → ((a && b && c) || (a && r)) ≡ (a && ((b && c) || r))
    factor true b c r = refl
    factor false b c r = refl

-- Equality of valid dates is that of their ordinals.
date_eq-ordinals :
    (a d : Date) → IsValid a → IsValid d → date_eq a d ≡ (to_ordinal a == to_ordinal d)
date_eq-ordinals a d va vd = go (date_eq a d) (to_ordinal a == to_ordinal d) refl refl
  where
    go : (b c : Bool) → date_eq a d ≡ b → (to_ordinal a == to_ordinal d) ≡ c → b ≡ c
    go true true e f = refl
    go true false e f = absurd (ground (arith, f, ap to_ordinal ((date_eq_iff a d).0 e)))
    go false true e f = cc (e, (date_eq_iff a d).1 (to_ordinal_inj a d va vd (ground (arith, f))))
    go false false e f = refl

module _ (easter d : Date) (ve : IsValid easter) (vd : IsValid d) where
  abbrev shifted : List ℕ → List Date
  shifted [] = []
  shifted (n ∷ ns) = plus_days easter n ∷ shifted ns

  mem_date-shifted :
      (ns : List ℕ) → mem_date d (shifted ns) ≡ any_offset (to_ordinal easter) (to_ordinal d) ns
  mem_date-shifted [] = refl
  mem_date-shifted (n ∷ ns) =
      let (valid, at) = plus_days_lem n easter ve in
      ap₂ ◌||◌ (date_eq-ordinals (plus_days easter n) d valid vd ∙ ap (λ o. o == to_ordinal d) at)
        (mem_date-shifted ns)

  good_friday :
      2 < to_ordinal easter
      → date_eq (minus_days easter 2) d ≡ (to_ordinal d + 2 == to_ordinal easter)
  good_friday h =
      let (valid, at) = minus_days_lem 2 easter ve h in
      date_eq-ordinals (minus_days easter 2) d valid vd
      ∙ shift (to_ordinal (minus_days easter 2)) (to_ordinal d) (to_ordinal easter) at
    where
      shift : (f d e : ℕ) → f + 2 ≡ e → (f == d) ≡ (d + 2 == e)
      shift f d e h = ground (arith, h)

  mem_date-holidays_of :
      (year : ℕ)
      → 2 < to_ordinal easter
      → mem_date d (holidays_of year easter) ≡ is_holiday_of year easter d
  unfolding holidays_of plus_days
  mem_date-holidays_of year h =
      mem_date-append d (if leb 2024 year then dates year early_january else [])
        (dates year fixed_days ++ minus_days easter 2 ∷ shifted (0 ∷ 1 ∷ 49 ∷ 50 ∷ []))
      ∙ ap₂ ◌||◌ (early (leb 2024 year)) (
          mem_date-append d (dates year fixed_days)
            (minus_days easter 2 ∷ shifted (0 ∷ 1 ∷ 49 ∷ 50 ∷ []))
          ∙ ap₂ ◌||◌ (mem_date-dates d year fixed_days)
              (ap₂ ◌||◌ (good_friday h) (mem_date-shifted (0 ∷ 1 ∷ 49 ∷ 50 ∷ []))))
    where
      early :
          (b : Bool)
          → mem_date d (if b then dates year early_january else [])
            ≡ ((year == d.year) && (b && any_day early_january d))
      early true = mem_date-dates d year early_january
      early false = none_there (year == d.year)
        where
          none_there : (b : Bool) → false ≡ (b && (false && any_day early_january d))
          none_there true = refl
          none_there false = refl

-- What Easter has to be for the dates around it to be reached.
abbrev is_reachable : Date → Bool
is_reachable e =
    leb 1 e.year
    && (leb 1 e.month
        && (leb e.month 12
            && (leb 1 e.day && (leb e.day (days_in_month e.year e.month) && ltb 2 (to_ordinal e)))))

is_reachable_sound : (e : Date) → is_reachable e ≡ true → IsValid e × (2 < to_ordinal e)
is_reachable_sound e h =
    let (y, m, n, d, k, o) =
      go e.year e.month e.day (days_in_month e.year e.month) (to_ordinal e) h in
    (record { year_in = y; month_in = (m, n); day_in = (d, k) }, o)
  where
    go :
        (y m d n o : ℕ)
        → (leb 1 y && (leb 1 m && (leb m 12 && (leb 1 d && (leb d n && ltb 2 o))))) ≡ true
        → (1 ≤ y) × (1 ≤ m) × (m ≤ 12) × (1 ≤ d) × (d ≤ n) × (2 < o)
    go y m d n o h = ground (arith, h)

abbrev has_reachable : ℕ → Bool
has_reachable year = elim (orthodox_easter year) [ none ↦ false | some e ↦ is_reachable e ]

two_centuries_reachable : all_good has_reachable (count_up 1900 200) ≡ true
unfolding orthodox_easter calendar
two_centuries_reachable = refl

-- For the years from 1900 on and up to 2099 there is a list of holidays, which has a valid date
-- exactly if it is a holiday of one of the years.
pub holidays_of_years_lem :
    (a n : ℕ)
    → 1900 ≤ a
    → a + n ≤ 2100
    → (hs : List Date) × (holidays_of_years (count_up a n) ≡ some hs)
      × ((d : Date) → IsValid d → mem_date d hs ≡ is_holiday (count_up a n) d)
unfolding holidays_of_years
holidays_of_years_lem a zero low high = ([], refl, λ d v. refl)
holidays_of_years_lem a (suc n) low high =
    let (hs, e, h) = holidays_of_years_lem (suc a) n (omega arith) (omega arith) in
    elim (Option-cases (orthodox_easter a)) [
      | inl none_there ↦ absurd (missing none_there)
      | inr (easter, found) ↦ (
        holidays_of a easter ++ hs,
        rw (found, holidays_of_years, e) refl,
        λ d v.
            mem_date-append d (holidays_of a easter) hs
            ∙ ap₂ ◌||◌
                (mem_date-holidays_of easter d (reachable easter found).0 v a
                  (reachable easter found).1)
                (h d v)
            ∙ sym (rw found refl),
      )
    ]
  where
    good : has_reachable a ≡ true
    good = all_good_at has_reachable 1900 200 a two_centuries_reachable low (omega arith)

    has_of : Option Date → Bool
    has_of o = elim o [ none ↦ false | some e ↦ is_reachable e ]

    missing : orthodox_easter a ≡ none → ⊥
    missing e = cc (good, ap has_of e)

    reachable : (e : Date) → orthodox_easter a ≡ some e → IsValid e × (2 < to_ordinal e)
    reachable e f = is_reachable_sound e (sym (ap has_of f) ∙ good)
