-- ===== src/Tests/Dimensions.antt =====
-- The dimensions of production types and of dates on small inputs.
use shiden_api.Base.{
  not, ◌&&◌, ℕ, ◌+◌, ◌≤◌, ◌≡◌, refl, [], ◌∷◌, ◌++◌, List, true, arith, some, All, map, keep, length,
  count_up,
}
use shiden_api.Base.Text.{Text, codes, mem_text}
use shiden_api.Calendar.{IsValid, Date, date, date_range, calendar, days_in_month, is_leap}
use shiden_api.ProductionTypes.{
  canonical, find_id, discovered, sort_names, insert_name, highest_id, assign_ids, build_rows,
}
use shiden_api.ProductionTypes.Names.{IsAscending, is_canonical}
use shiden_api.ProductionTypes.Ids.{IdKept, is_new, new_ids, build_rows-ids}
use shiden_api.LandingPaths.{opcom_pzu_csv_path, isoformat}
use shiden_api.LandingPaths.Distinct.{IsDate}
use shiden_api.DimDate.{orthodox_easter, DateRow, date_rows}
use shiden_api.DimDate.Easter.{is_easter_day, orthodox_easter_lem}
use shiden_api.DimDate.Rows.{IsRowOf, date_rows-days}

abbrev names : List Text
names = codes "Tidal" ∷ codes "Solar" ∷ codes "Fusion" ∷ []

abbrev given : List (Text × ℕ)
given = (codes "Tidal", 22) ∷ []

found_names : discovered names ≡ codes "Fusion" ∷ codes "Tidal" ∷ []
unfolding discovered sort_names insert_name canonical
found_names = refl

build_rows-ids_example :
    (build_rows names given
      ≡ canonical ++ assign_ids given (highest_id given + 1) (discovered names))
    × (map
          (λ r. r.production_type_name)
          (assign_ids given (highest_id given + 1) (discovered names))
        ≡ discovered names)
    × IsAscending (discovered names)
    × (mem_text (codes "Tidal") (discovered names)
        ≡ (mem_text (codes "Tidal") names && not (is_canonical (codes "Tidal"))))
    × All
        (λ r. IdKept (find_id r.production_type_name given) r.production_type_id)
        (assign_ids given (highest_id given + 1) (discovered names))
    × (new_ids given (assign_ids given (highest_id given + 1) (discovered names))
        ≡ count_up (highest_id given + 1) (length (keep (is_new given) (discovered names))))
    × All (λ n. n ≤ highest_id given) (map (λ r. r.production_type_id) canonical)
    × All (λ n. n ≤ highest_id given) (map (λ e. e.1) given)
build_rows-ids_example = build_rows-ids names given (codes "Tidal")

easter_2026 : orthodox_easter 2026 ≡ some (date 2026 4 12)
unfolding orthodox_easter calendar
easter_2026 = refl

orthodox_easter_lem_example :
    (e : Date) × (orthodox_easter 2026 ≡ some e) × (is_easter_day 2026 e ≡ true)
orthodox_easter_lem_example = orthodox_easter_lem 2026 (omega arith) (omega arith)

abbrev first_day : Date
first_day = date 2025 12 30

abbrev last_day : Date
last_day = date 2026 1 2

first_day-IsValid : IsValid first_day
unfolding days_in_month is_leap
first_day-IsValid = record {
  year_in = omega arith;
  month_in = (omega arith, omega arith);
  day_in = (omega arith, omega arith);
}

last_day-IsValid : IsValid last_day
unfolding days_in_month is_leap
last_day-IsValid = record {
  year_in = omega arith;
  month_in = (omega arith, omega arith);
  day_in = (omega arith, omega arith);
}

date_rows-days_example :
    (rows : List DateRow) × (date_rows first_day last_day ≡ some rows)
    × (map (λ r. r.full_date) rows ≡ date_range first_day last_day)
    × All (IsRowOf (2025 ∷ 2026 ∷ [])) rows
date_rows-days_example =
    date_rows-days first_day last_day first_day-IsValid last_day-IsValid (omega arith) (omega arith)
      (omega arith)

abbrev new_year : Date
new_year = date 2026 1 1

new_year-IsDate : IsDate new_year
unfolding days_in_month is_leap
new_year-IsDate = (
  record {
    year_in = omega arith;
    month_in = (omega arith, omega arith);
    day_in = (omega arith, omega arith);
  },
  omega arith,
)

prices_file :
    opcom_pzu_csv_path (codes "data") (codes "RO") new_year
    ≡ codes "data/landing/opcom_pzu/RO/2026-01-01.csv"
unfolding opcom_pzu_csv_path isoformat
prices_file = refl
