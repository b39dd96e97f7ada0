-- ===== src/LandingPaths/Distinct.antt =====
-- Days of one source have different files, src/shiden/landing_paths.py.
use shiden_api.Base.{ℕ, zero, suc, ◌+◌, ◌/◌, ◌%◌, ◌≤◌, ◌≡◌, ap, [], ◌∷◌, ◌++◌, arith}
use shiden_api.Base.Text.{Text, codes}
use shiden_api.Calendar.{Date, IsValid}
use shiden_api.Calendar.Ordinal.{days_in_month_bounds}
use shiden_api.LandingPaths.{isoformat, opcom_pzu_csv_path, weather_hourly_json_path}

abbrev nth : ℕ → Text → ℕ
nth i [] = 0
nth zero (c ∷ s) = c
nth (suc i) (c ∷ s) = nth i s

abbrev tail : Text → Text
tail [] = []
tail (c ∷ s) = s

cancel_left : (p s t : Text) → p ++ s ≡ p ++ t → s ≡ t
cancel_left [] s t e = e
cancel_left (c ∷ p) s t e = cancel_left p s t (ap tail e)

year_of :
    (y z : ℕ)
    → y ≤ 9999
    → z ≤ 9999
    → 48 + y / 1000 % 10 ≡ 48 + z / 1000 % 10
    → 48 + y / 100 % 10 ≡ 48 + z / 100 % 10
    → 48 + y / 10 % 10 ≡ 48 + z / 10 % 10
    → 48 + y % 10 ≡ 48 + z % 10
    → y ≡ z
year_of y z p q a b c d = omega arith

two_digits :
    (m n : ℕ)
    → m ≤ 99
    → n ≤ 99
    → 48 + m / 10 % 10 ≡ 48 + n / 10 % 10
    → 48 + m % 10 ≡ 48 + n % 10
    → m ≡ n
two_digits m n p q a b = omega arith

-- A date that Python can construct.
abbrev pub IsDate : Date → Type 0
IsDate d = IsValid d × (d.year ≤ 9999)

same_date : (a b : Date) → a.year ≡ b.year → a.month ≡ b.month → a.day ≡ b.day → a ≡ b
same_date a b p q r = cc

isoformat_inj :
    (a b : Date) (end : Text)
    → IsDate a
    → IsDate b
    → isoformat a ++ end ≡ isoformat b ++ end
    → a ≡ b
unfolding isoformat
isoformat_inj a b end va vb e =
    same_date a b
      (year_of a.year b.year va.1 vb.1 (ap (nth 0) e) (ap (nth 1) e) (ap (nth 2) e) (ap (nth 3) e))
      (two_digits a.month b.month (omega (arith, va.0.month_in)) (omega (arith, vb.0.month_in))
        (ap (nth 5) e) (ap (nth 6) e))
      (two_digits a.day b.day (omega (arith, va.0.day_in, days_in_month_bounds a.year a.month))
        (omega (arith, vb.0.day_in, days_in_month_bounds b.year b.month)) (ap (nth 8) e)
        (ap (nth 9) e))

-- Two dates that Python can construct, of one market, with the same path for OPCOM's prices are
-- the same date.
opcom_pzu_csv_path_inj :
    (base market_id : Text) (a b : Date)
    → IsDate a
    → IsDate b
    → opcom_pzu_csv_path base market_id a ≡ opcom_pzu_csv_path base market_id b
    → a ≡ b
unfolding opcom_pzu_csv_path
opcom_pzu_csv_path_inj base market_id a b va vb e =
    isoformat_inj a b (codes ".csv") va vb
      (cancel_left (base ++ (codes "/landing/opcom_pzu/" ++ (market_id ++ codes "/"))) _ _ e)

-- Two dates that Python can construct, of one market and location, with the same path for the
-- weather are the same date.
pub weather_hourly_json_path_inj :
    (base market_id location : Text) (a b : Date)
    → IsDate a
    → IsDate b
    → weather_hourly_json_path base market_id location a
      ≡ weather_hourly_json_path base market_id location b
    → a ≡ b
unfolding weather_hourly_json_path
weather_hourly_json_path_inj base market_id location a b va vb e =
    isoformat_inj a b (codes ".json") va vb (
      cancel_left
        (base
          ++ (codes "/landing/weather/" ++ (market_id ++ (codes "/" ++ (location ++ codes "/")))))
        _ _ e)
