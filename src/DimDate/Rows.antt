-- ===== src/DimDate/Rows.antt =====
-- The rows of src/shiden/processing/silver/dimensions/dim_date.py for an interval of dates.
use shiden_api.Base.{
  ℕ, ◌+◌, ◌-◌, ◌*◌, ◌/◌, ◌≤◌, ◌<◌, ◌≡◌, refl, ap, List, [], ◌∷◌, map, some, count_up, All, arith,
}
use shiden_api.Calendar.{Date, IsValid, date_range, date_to_id}
use shiden_api.Calendar.Range.{date_range-ordinals}
use shiden_api.DimDate.{
  holidays_of_years, ro_holidays_set, mem_date, DateRow, make_date_row, date_rows,
}
use shiden_api.DimDate.Holidays.{is_holiday, holidays_of_years_lem}

date_rows_at :
    (start end : Date) (hs : List Date)
    → holidays_of_years (count_up start.year (end.year + 1 - start.year)) ≡ some hs
    → date_rows start end ≡ some (map (make_date_row hs) (date_range start end))
unfolding date_rows ro_holidays_set
date_rows_at start end hs h = rw (h, date_rows)

rows-days :
    (hs : List Date) (days : List Date)
    → map (λ r. r.full_date) (map (make_date_row hs) days) ≡ days
unfolding make_date_row
rows-days hs [] = refl
rows-days hs (d ∷ days) = ap (λ l. d ∷ l) (rows-days hs days)

-- What a row says of its day, the holidays being those of some years.
pub record IsRowOf (years : List ℕ) (r : DateRow) : Type 0 where
  pub date_id : r.date_id ≡ r.full_date.year * 10000 + r.full_date.month * 100 + r.full_date.day
  pub quarter : (r.quarter * 3 < r.full_date.month + 3) × (r.full_date.month ≤ r.quarter * 3)
  pub is_ro_holiday : r.is_ro_holiday ≡ is_holiday years r.full_date

rows-IsRowOf :
    (years : List ℕ) (hs : List Date) (days : List Date)
    → ((d : Date) → IsValid d → mem_date d hs ≡ is_holiday years d)
    → All IsValid days
    → All (IsRowOf years) (map (make_date_row hs) days)
unfolding make_date_row date_to_id
rows-IsRowOf years hs [] h v = tt
rows-IsRowOf years hs (d ∷ days) h v = (
  record { date_id = refl; quarter = thirds d.month v.0.month_in.0; is_ro_holiday = h d v.0 },
  rows-IsRowOf years hs days h v.1,
)
  where
    thirds : (m : ℕ) → 1 ≤ m → (((m - 1) / 3 + 1) * 3 < m + 3) × (m ≤ ((m - 1) / 3 + 1) * 3)
    thirds m h = (omega arith, omega arith)

-- For valid dates whose years lie between 1900 and 2099 the rows are those of the days of the
-- interval, one for each, in order. A row has its date's number and quarter, and is marked as a
-- holiday exactly if its day is, in one of the years of the interval, one of the ten fixed
-- holidays, 6 or 7 January since 2024, or, counted from the Orthodox Easter of that year, Good
-- Friday, Easter Sunday or Monday, or Pentecost Sunday or Monday.
pub date_rows-days :
    (start end : Date)
    → IsValid start
    → IsValid end
    → 1900 ≤ start.year
    → start.year ≤ end.year
    → end.year ≤ 2099
    → (rows : List DateRow) × (date_rows start end ≡ some rows)
      × (map (λ r. r.full_date) rows ≡ date_range start end)
      × All (IsRowOf (count_up start.year (end.year + 1 - start.year))) rows
date_rows-days start end vs ve low order high =
    let (hs, found, h) =
      holidays_of_years_lem start.year (end.year + 1 - start.year) low
        (span start.year end.year order high) in
    (
      map (make_date_row hs) (date_range start end),
      date_rows_at start end hs found,
      rows-days hs (date_range start end),
      rows-IsRowOf _ hs (date_range start end) h (date_range-ordinals start end vs ve).1,
    )
  where
    span : (a b : ℕ) → a ≤ b → b ≤ 2099 → a + (b + 1 - a) ≤ 2100
    span a b order high = omega arith
