-- ===== src/DimMarkets.antt =====
-- The rows of the dimensions that come from the configuration of the markets, up to the merge:
-- src/shiden/processing/silver/dimensions/dim_market.py and dim_location.py. `md5_hex` stands for
-- the hexadecimal digest of hashlib.
pub mod Ids
use shiden_api.Base.{
  ℕ, zero, suc, ◌+◌, ◌-◌, ◌*◌, ◌%◌, List, [], ◌∷◌, ◌++◌, map, take, leb, if◌then◌else◌,
}
use shiden_api.Base.Text.{Text, codes}
use shiden_api.Markets.{MarketConfig, WeatherLocation, markets}

pub record MarketRow : Type 0 where
  pub market_id : Text
  pub market_name : Text
  pub bidding_zone : Text
  pub timezone : Text
  pub currency : Text
  pub reporting_currency : Text
  pub peak_start_hour : ℕ
  pub peak_end_hour : ℕ

-- `cfg.name or mid`
abbrev pub name_or : Text → Text → Text
name_or mid [] = mid
name_or mid (c ∷ name) = c ∷ name

abbrev pub market_row : Text × MarketConfig → MarketRow
market_row (mid, cfg) = record {
  market_id = mid;
  market_name = name_or mid cfg.name;
  bidding_zone = cfg.bidding_zone;
  timezone = cfg.timezone;
  currency = cfg.currency;
  reporting_currency = cfg.reporting_currency;
  peak_start_hour = cfg.peak_start_hour;
  peak_end_hour = cfg.peak_end_hour;
}

unfoldable pub market_rows : List MarketRow
market_rows = map market_row markets

pub record LocationRow : Type 0 where
  pub location_id : ℕ
  pub location_name : Text
  pub market_id : Text
  pub latitude : ℕ
  pub longitude : ℕ
  pub wind_weight : ℕ
  pub solar_weight : ℕ
  pub demand_weight : ℕ

-- A digit of a hexadecimal digest: 0 to 9, a to f.
abbrev pub hex_digit : ℕ → ℕ
hex_digit c = if leb 97 c then c - 87 else c - 48

-- `int(s, 16)`
unfoldable pub hex_value : ℕ → Text → ℕ
hex_value n [] = n
hex_value n (c ∷ s) = hex_value (n * 16 + hex_digit c) s

module _ (md5_hex : Text → Text) where
  unfoldable pub location_id : Text → Text → ℕ
  location_id market_id location_name =
      hex_value 0 (take 8 (md5_hex (market_id ++ (codes "::" ++ location_name)))) % 900000 + 100000

  abbrev pub location_row : Text → WeatherLocation → LocationRow
  location_row market_id loc = record {
    location_id = location_id market_id loc.name;
    location_name = loc.name;
    market_id = market_id;
    latitude = loc.lat;
    longitude = loc.lon;
    wind_weight = loc.wind_weight;
    solar_weight = loc.solar_weight;
    demand_weight = loc.demand_weight;
  }

  abbrev pub rows_of_markets : List (Text × MarketConfig) → List LocationRow
  rows_of_markets [] = []
  rows_of_markets ((market_id, cfg) ∷ ms) =
      map (location_row market_id) cfg.weather_locations ++ rows_of_markets ms

  unfoldable pub build_rows : List LocationRow
  build_rows = rows_of_markets markets
