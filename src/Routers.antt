-- ===== src/Routers.antt =====
-- The routers over the Gold tables, src/shiden/api/routers: prices.py, generation.py, bess.py,
-- weather.py and _common.py. With them `read_gold` of
-- src/shiden/processing/gold/reader.py. The Delta tables and the sorting of pandas are parameters. `F` stands for floats.
pub mod Answers
pub mod Days
use shiden_api.Base.{
  ℕ, Bool, true, false, not, ◌&&◌, ◌||◌, List, [], ◌∷◌, ◌++◌, map, keep, Option, none, some, ◌>>=◌,
  leb, ◌==◌, if◌then◌else◌,
}
use shiden_api.Base.Text.{Text, codes, text_eq, mem_text}
use shiden_api.Base.Dicts.{Dict, find_entry}
use shiden_api.Base.Integers.{ℤ, pos, negsuc}
use shiden_api.Calendar.{Date, date_ltb, date_to_id}
use shiden_api.LandingPaths.{isoformat}
use shiden_api.Markets.{MarketConfig, markets, find_market}
use shiden_api.Bess.{
  Signal, charge, idle, discharge, SignalRow, ArbitrageResponse, arbitrage_windows,
}

-- A response, or the status of an HTTPException; an exception of another kind is a status 500.
pub data Answer (R : Type 0) : Type 0 where
  ok : R → Answer R
  http_error : ℕ → Answer R

-- The filters that the routers use.
pub data Filter : Type 0 where
  market_is : Text → Filter
  date_from date_until date_is : ℕ → Filter

-- The Delta tables: `table_at` opens one, `none` being TableNotFoundError; what it gives is
-- `to_pandas`, which takes the filters.
pub record Delta (R : Type 0) : Type 0 where
  pub base_path : Text
  pub table_at : Text → Option (List Filter → List R)

abbrev pub gold_path : Text → Text → Text
gold_path base table_name = base ++ (codes "/gold/" ++ table_name)

-- `none` is TableNotFoundError, raised again.
unfoldable pub read_gold : {R : Type 0} → Delta R → Text → List Filter → Option (List R)
read_gold delta table_name filters = elim (delta.table_at (gold_path delta.base_path table_name)) [
  | none ↦ none
  | some to_pandas ↦ some (to_pandas filters)
]

unfoldable pub require_market : {R : Type 0} → Text → (MarketConfig → Answer R) → Answer R
require_market market_id next = elim (find_market market_id markets) [
  | none ↦ http_error 404
  | some market ↦ next market
]

unfoldable pub validate_date_range : {R : Type 0} → Date → Date → Answer R → Answer R
validate_date_range start end next = if date_ltb end start then http_error 422 else next

abbrev pub or_unavailable : {R Q : Type 0} → Option (List Q) → (List Q → Answer R) → Answer R
or_unavailable none next = http_error 503
or_unavailable (some df) next = next df

-- What the price and the generation endpoints share: the checks, the filters, the sorting.
module _ {Q R : Type 0} (sort_values : List Q → List Q) (delta : Delta Q) where
  unfoldable pub query_range :
      Text → (MarketConfig → List Q → Answer R) → Text → Date → Date → Answer R
  query_range table build market_id start end = require_market market_id λ market.
      validate_date_range start end (
        or_unavailable
          (read_gold delta table
            (market_is market_id ∷ date_from (date_to_id start) ∷ date_until (date_to_id end) ∷ []))
          (λ df. build market (sort_values df)))

module _ {F : Type 0} (is_nan : F → Bool) where
  -- Of a value that is a float or missing.
  abbrev pub nullable_float : Option F → Option F
  nullable_float none = none
  nullable_float (some x) = if is_nan x then none else some x

  abbrev pub nullable_int : (F → ℤ) → Option F → Option ℤ
  nullable_int int_of v = do x ← nullable_float v; some (int_of x)

-- A row of price_hourly.
pub record PriceRow (F : Type 0) : Type 0 where
  pub market_id : Text
  pub date_id : ℕ
  pub time_id : ℕ
  pub time_label : Text
  pub price_local_mwh : Option F
  pub fx_rate : Option F
  pub price_eur_mwh : Option F
  pub is_peak : Bool

pub record PriceInterval (F : Type 0) : Type 0 where
  pub date_id : ℕ
  pub time_id : ℕ
  pub time_label : Text
  pub price_local_mwh : Option F
  pub fx_rate : Option F
  pub price_eur_mwh : Option F
  pub is_peak : Bool

pub record PriceResponse (F : Type 0) : Type 0 where
  pub market_id : Text
  pub currency : Text
  pub start : Text
  pub end : Text
  pub intervals : List (PriceInterval F)

module _ {F : Type 0} (is_nan : F → Bool) where
  abbrev pub price_interval : PriceRow F → PriceInterval F
  price_interval row = record {
    date_id = row.date_id;
    time_id = row.time_id;
    time_label = row.time_label;
    price_local_mwh = nullable_float is_nan row.price_local_mwh;
    fx_rate = nullable_float is_nan row.fx_rate;
    price_eur_mwh = nullable_float is_nan row.price_eur_mwh;
    is_peak = row.is_peak;
  }

  abbrev pub price_response :
      Text → Date → Date → MarketConfig → List (PriceRow F) → Answer (PriceResponse F)
  price_response market_id start end market rows = ok (record {
    market_id = market_id;
    currency = market.currency;
    start = isoformat start;
    end = isoformat end;
    intervals = map price_interval rows;
  })

  unfoldable pub get_day_ahead_prices :
      (List (PriceRow F) → List (PriceRow F))
      → Delta (PriceRow F)
      → Text
      → Date
      → Date
      → Answer (PriceResponse F)
  get_day_ahead_prices sort_values delta market_id start end =
      query_range sort_values delta (codes "price_hourly") (price_response market_id start end)
        market_id start end

-- `get_weather`, which is planned.
unfoldable pub get_weather : Text → Date → Date → Answer (Unit {0})
get_weather market_id start end =
    require_market market_id λ market. validate_date_range start end (http_error 501)
