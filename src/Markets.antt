-- ===== src/Markets.antt =====
-- The configured markets, src/shiden/config/markets.py. Floats are whole numbers of a smaller
-- unit: coordinates of a ten-thousandth of a degree, weights of a hundredth.
pub mod Weights
use shiden_api.Base.{ℕ, List, [], ◌∷◌, Option, none, some, if◌then◌else◌}
use shiden_api.Base.Text.{Text, codes, text_eq}

pub record WeatherLocation : Type 0 where
  pub name : Text
  pub lat : ℕ
  pub lon : ℕ
  pub wind_weight : ℕ
  pub solar_weight : ℕ
  pub demand_weight : ℕ

pub record MarketConfig : Type 0 where
  pub bidding_zone : Text
  pub timezone : Text
  pub currency : Text
  pub name : Text
  pub reporting_currency : Text
  pub fx_source : Text
  pub weather_locations : List WeatherLocation
  pub peak_start_hour : ℕ
  pub peak_end_hour : ℕ

abbrev location : Text → ℕ → ℕ → ℕ → ℕ → ℕ → WeatherLocation
location name lat lon wind solar demand = record {
  name = name;
  lat = lat;
  lon = lon;
  wind_weight = wind;
  solar_weight = solar;
  demand_weight = demand;
}

abbrev pub romania : MarketConfig
romania = record {
  bidding_zone = codes "10YRO-TEL------P";
  timezone = codes "Europe/Bucharest";
  currency = codes "RON";
  name = codes "Romania";
  reporting_currency = codes "EUR";
  fx_source = codes "BNR";
  weather_locations =
      location (codes "Bucharest") 444268 261025 2 22 35
      ∷ location (codes "Dobrogea") 441800 286500 70 18 8
      ∷ location (codes "Oltenia") 443200 238000 2 17 15
      ∷ location (codes "Transylvania") 467712 235938 5 15 20
      ∷ location (codes "Moldova") 471585 275907 11 15 12
      ∷ location (codes "Banat") 457489 212087 10 13 10
      ∷ [];
  peak_start_hour = 8;
  peak_end_hour = 20;
}

-- MARKETS, in the order of the dictionary.
abbrev pub markets : List (Text × MarketConfig)
markets = (codes "RO", romania) ∷ []

abbrev pub find_market : Text → List (Text × MarketConfig) → Option MarketConfig
find_market market_id [] = none
find_market market_id ((k, m) ∷ ms) =
    if text_eq k market_id then some m else find_market market_id ms

-- `none` stands for ValueError.
unfoldable pub get_market : Text → Option MarketConfig
get_market market_id = find_market market_id markets
