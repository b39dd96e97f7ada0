-- ===== src/Tests/Dates.antt =====
-- The calendar at concrete dates.
use shiden_api.Base.{◌≡◌, refl, [], ◌∷◌, map, arith, All}
use shiden_api.Calendar.{
  Date, date, IsValid, date_range, to_ordinal, days_in_month, is_leap, calendar,
}
use shiden_api.Calendar.Range.{ordinals, date_range-ordinals}

abbrev leap_eve : Date
leap_eve = date 2028 2 28

abbrev first_of_march : Date
first_of_march = date 2028 3 1

leap_eve-IsValid : IsValid leap_eve
unfolding days_in_month is_leap
leap_eve-IsValid = record {
  year_in = omega arith;
  month_in = (omega arith, omega arith);
  day_in = (omega arith, omega arith);
}

first_of_march-IsValid : IsValid first_of_march
unfolding days_in_month is_leap
first_of_march-IsValid = record {
  year_in = omega arith;
  month_in = (omega arith, omega arith);
  day_in = (omega arith, omega arith);
}

leap_range : date_range leap_eve first_of_march ≡ leap_eve ∷ date 2028 2 29 ∷ first_of_march ∷ []
unfolding calendar
leap_range = refl

date_range-ordinals_example :
    (map to_ordinal (date_range leap_eve first_of_march)
      ≡ ordinals (to_ordinal leap_eve) (to_ordinal first_of_march))
    × All IsValid (date_range leap_eve first_of_march)
date_range-ordinals_example =
    date_range-ordinals leap_eve first_of_march leap_eve-IsValid first_of_march-IsValid
