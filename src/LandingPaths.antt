-- ===== src/LandingPaths.antt =====
-- File names of the landing zone, src/shiden/landing_paths.py: the texts that `Path` is given.
-- Years have four digits.
pub mod Distinct
use shiden_api.Base.{ℕ, ◌+◌, ◌/◌, ◌%◌, List, [], ◌∷◌, ◌++◌}
use shiden_api.Base.Text.{Text, codes, decimal}
use shiden_api.Calendar.{Date}

abbrev digit : ℕ → ℕ
digit n = 48 + n % 10

-- `d.isoformat()`
unfoldable pub isoformat : Date → Text
isoformat d =
    digit (d.year / 1000)
    ∷ digit (d.year / 100)
    ∷ digit (d.year / 10)
    ∷ digit d.year
    ∷ b'-'
    ∷ digit (d.month / 10)
    ∷ digit d.month
    ∷ b'-'
    ∷ digit (d.day / 10)
    ∷ digit d.day
    ∷ []

unfoldable pub opcom_pzu_csv_path : Text → Text → Date → Text
opcom_pzu_csv_path base market_id d =
    (base ++ (codes "/landing/opcom_pzu/" ++ (market_id ++ codes "/")))
    ++ (isoformat d ++ codes ".csv")

unfoldable pub entsoe_generation_json_path : Text → Text → Date → Text
entsoe_generation_json_path base market_id d =
    (base ++ (codes "/landing/entsoe/" ++ (market_id ++ codes "/generation/")))
    ++ (isoformat d ++ codes ".json")

unfoldable pub entsoe_load_json_path : Text → Text → Date → Text
entsoe_load_json_path base market_id d =
    (base ++ (codes "/landing/entsoe/" ++ (market_id ++ codes "/load/")))
    ++ (isoformat d ++ codes ".json")

unfoldable pub ecb_fx_json_path : Text → Date → Text
ecb_fx_json_path base d = (base ++ codes "/landing/ecb_fx_rates/") ++ (isoformat d ++ codes ".json")

unfoldable pub bnr_fx_xml_path : Text → Date → Text
bnr_fx_xml_path base d =
    (base ++ codes "/landing/bnr_fx_rates/")
    ++ (decimal d.year ++ (codes "/" ++ (isoformat d ++ codes ".xml")))

unfoldable pub bnr_fx_sidecar_path : Text → Date → Text
bnr_fx_sidecar_path base d =
    (base ++ codes "/landing/bnr_fx_rates/")
    ++ (decimal d.year ++ (codes "/" ++ (isoformat d ++ codes ".json")))

unfoldable pub weather_hourly_json_path : Text → Text → Text → Date → Text
weather_hourly_json_path base market_id location d =
    (base ++ (codes "/landing/weather/" ++ (market_id ++ (codes "/" ++ (location ++ codes "/")))))
    ++ (isoformat d ++ codes ".json")
