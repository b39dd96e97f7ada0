-- ===== src/DimMarkets/Ids.antt =====
-- The identifiers of src/shiden/processing/silver/dimensions/dim_location.py.
use shiden_api.Base.{
  ℕ, ◌≤◌, ◌%◌, ◌+◌, ◌≡◌, refl, List, [], ◌∷◌, map, length, All, All-append, arith,
}
use shiden_api.Base.Text.{Text}
use shiden_api.Markets.{MarketConfig, WeatherLocation, markets}
use shiden_api.DimMarkets.{LocationRow, location_id, location_row, rows_of_markets, build_rows}

module _ (md5_hex : Text → Text) where
  abbrev pub HasSixDigits : LocationRow → Type 0
  HasSixDigits r = (100000 ≤ r.location_id) × (r.location_id ≤ 999999)

  six_digits : (n : ℕ) → (100000 ≤ n % 900000 + 100000) × (n % 900000 + 100000 ≤ 999999)
  six_digits n = (omega arith, omega arith)

  location_rows-HasSixDigits :
      (market_id : Text) (locations : List WeatherLocation)
      → All HasSixDigits (map (location_row md5_hex market_id) locations)
  unfolding location_id
  location_rows-HasSixDigits market_id [] = tt
  location_rows-HasSixDigits market_id (l ∷ locations) =
      (six_digits _, location_rows-HasSixDigits market_id locations)

  rows-HasSixDigits :
      (ms : List (Text × MarketConfig)) → All HasSixDigits (rows_of_markets md5_hex ms)
  rows-HasSixDigits [] = tt
  rows-HasSixDigits ((market_id, cfg) ∷ ms) =
      All-append HasSixDigits (map (location_row md5_hex market_id) cfg.weather_locations) _
        (location_rows-HasSixDigits market_id cfg.weather_locations) (rows-HasSixDigits ms)

  -- Whatever the digests, the dimension has a row for each of the six configured locations, with an
  -- identifier of six digits.
  pub build_rows-HasSixDigits :
      All HasSixDigits (build_rows md5_hex) × (length (build_rows md5_hex) ≡ 6)
  unfolding build_rows
  build_rows-HasSixDigits = (rows-HasSixDigits markets, refl)
