-- ===== src/DimDate.antt =====
-- The date dimension, src/shiden/processing/silver/dimensions/dim_date.py: Orthodox Easter, the
-- Romanian holidays and the row of a day. The merge into the table is outside the model.
pub mod Easter
pub mod Holidays
pub mod Rows
use shiden_api.Base.{
  ℕ, zero, suc, ◌+◌, ◌-◌, ◌*◌, ◌/◌, ◌%◌, Bool, true, false, ◌&&◌, ◌||◌, List, [], ◌∷◌, ◌++◌, map,
  Option, none, some, leb, ◌==◌, count_up, if◌then◌else◌,
}
use shiden_api.Base.Text.{Text, codes}
use shiden_api.Calendar.{
  Date, date, date_eq, date_range, date_to_id, iso_weekday, plus_days, minus_days, to_ordinal,
}

-- `_season`
unfoldable pub season : ℕ → Text
season month =
    if (month == 12) || (month == 1) || (month == 2)
    then codes "Winter"
    else if (month == 3) || (month == 4) || (month == 5)
    then codes "Spring"
    else if (month == 6) || (month == 7) || (month == 8)
    then codes "Summer"
    else codes "Autumn"

abbrev pub julian_d : ℕ → ℕ
julian_d year = (19 * (year % 19) + 15) % 30

-- The difference is not negative: `julian_d` is below 30.
abbrev pub julian_e : ℕ → ℕ
julian_e year = (2 * (year % 4) + 4 * (year % 7) + 34 - julian_d year) % 7

abbrev pub julian_easter : ℕ → Date
julian_easter year = let n = julian_d year + julian_e year + 114 in date year (n / 31) (n % 31 + 1)

-- `none` stands for ValueError.
unfoldable pub orthodox_easter : ℕ → Option Date
orthodox_easter year =
    if leb 1900 year && leb year 2099 then some (plus_days (julian_easter year) 13) else none

unfoldable pub holidays_of : ℕ → Date → List Date
holidays_of year easter =
    (if leb 2024 year then date year 1 6 ∷ date year 1 7 ∷ [] else [])
    ++ date year 1 1
      ∷ date year 1 2
      ∷ date year 1 24
      ∷ date year 5 1
      ∷ date year 6 1
      ∷ date year 8 15
      ∷ date year 11 30
      ∷ date year 12 1
      ∷ date year 12 25
      ∷ date year 12 26
      ∷ minus_days easter 2
      ∷ easter
      ∷ plus_days easter 1
      ∷ plus_days easter 49
      ∷ plus_days easter 50
      ∷ []

-- The holidays of the years of a list.
unfoldable pub holidays_of_years : List ℕ → Option (List Date)
holidays_of_years [] = some []
holidays_of_years (year ∷ years) = elim (orthodox_easter year) [
  | none ↦ none
  | some easter ↦ elim (holidays_of_years years) [
    | none ↦ none
    | some holidays ↦ some (holidays_of year easter ++ holidays)
  ]
]

unfoldable pub ro_holidays_set : ℕ → ℕ → Option (List Date)
ro_holidays_set year_from year_to = holidays_of_years (count_up year_from (year_to + 1 - year_from))

abbrev pub mem_date : Date → List Date → Bool
mem_date d [] = false
mem_date d (e ∷ ds) = date_eq e d || mem_date d ds

pub record DateRow : Type 0 where
  pub date_id : ℕ
  pub full_date : Date
  pub year : ℕ
  pub month : ℕ
  pub day_of_month : ℕ
  pub day_of_week : ℕ
  pub week_of_year : ℕ
  pub quarter : ℕ
  pub is_weekday : Bool
  pub is_ro_holiday : Bool
  pub season_is : Text

-- The Thursday of the week of a date, whose year the ISO week belongs to.
abbrev pub thursday : Date → Date
thursday d =
    if leb (iso_weekday d) 4
    then plus_days d (4 - iso_weekday d)
    else minus_days d (iso_weekday d - 4)

-- `d.isocalendar().week`
unfoldable pub iso_week : Date → ℕ
iso_week d = let t = thursday d in (to_ordinal t - to_ordinal (date t.year 1 1)) / 7 + 1

unfoldable pub make_date_row : List Date → Date → DateRow
make_date_row holidays d = record {
  date_id = date_to_id d;
  full_date = d;
  year = d.year;
  month = d.month;
  day_of_month = d.day;
  day_of_week = iso_weekday d;
  week_of_year = iso_week d;
  quarter = (d.month - 1) / 3 + 1;
  is_weekday = leb (iso_weekday d) 5;
  is_ro_holiday = mem_date d holidays;
  season_is = season d.month;
}

-- The rows that `process` merges.
unfoldable pub date_rows : Date → Date → Option (List DateRow)
date_rows start end = elim (ro_holidays_set start.year end.year) [
  | none ↦ none
  | some holidays ↦ some (map (make_date_row holidays) (date_range start end))
]
