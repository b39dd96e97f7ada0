-- ===== src/Routers/Days.antt =====
-- The generation endpoint src/shiden/api/routers/generation.py, and the battery endpoints of
-- src/shiden/api/routers/bess.py with their loader of one day.
use shiden_api.Base.{ℕ, Bool, not, ◌&&◌, ◌||◌, List, [], ◌∷◌, map, keep, Option, none, some, ◌>>=◌}
use shiden_api.Base.Text.{Text, codes, text_eq, mem_text}
use shiden_api.Base.Dicts.{Dict, find_entry}
use shiden_api.Base.Integers.{ℤ}
use shiden_api.Calendar.{Date, date_to_id}
use shiden_api.LandingPaths.{isoformat}
use shiden_api.Bess.{Signal, SignalRow, ArbitrageResponse, arbitrage_windows}
use shiden_api.Routers.{
  Answer, ok, http_error, market_is, date_is, Delta, read_gold, require_market, or_unavailable,
  query_range, nullable_float, nullable_int,
}

-- A row of generation_hourly: a NaN stays one in the columns that are no sources.
pub record GenerationRow (F : Type 0) : Type 0 where
  pub market_id : Text
  pub date_id : ℕ
  pub time_id : ℕ
  pub columns : Dict (Option F)

pub record GenerationInterval (F : Type 0) : Type 0 where
  pub date_id : ℕ
  pub time_id : ℕ
  pub total_mw : F
  pub renewable_mw : F
  pub thermal_mw : F
  pub nuclear_mw_total : F
  pub renewable_share_pct : Option F
  pub sources : Dict (Option F)

pub record GenerationResponse (F : Type 0) : Type 0 where
  pub market_id : Text
  pub start : Text
  pub end : Text
  pub intervals : List (GenerationInterval F)

abbrev pub meta_cols : List Text
meta_cols =
    codes "date_id"
    ∷ codes "time_id"
    ∷ codes "market_id"
    ∷ codes "total_mw"
    ∷ codes "renewable_mw"
    ∷ codes "thermal_mw"
    ∷ codes "nuclear_mw_total"
    ∷ codes "renewable_share_pct"
    ∷ []

-- `s.endswith(suffix)`
abbrev pub ends_with : Text → Text → Bool
ends_with suffix [] = text_eq suffix []
ends_with suffix (c ∷ s) = text_eq suffix (c ∷ s) || ends_with suffix s

-- The source columns of `df.columns`.
unfoldable pub source_cols : List Text → List Text
source_cols columns = keep (λ c. ends_with (codes "_mw") c && not (mem_text c meta_cols)) columns

module _ {F : Type 0} (is_nan : F → Bool) where
  -- `getattr(row, col, None)`
  abbrev pub cell : Text → Dict (Option F) → Option F
  cell col columns = elim (find_entry col columns) [ none ↦ none | some v ↦ v ]

  -- `none` is the exception of a total that is missing.
  unfoldable pub generation_interval : List Text → GenerationRow F → Option (GenerationInterval F)
  generation_interval cols row = do
    total ← cell (codes "total_mw") row.columns
    renewable ← cell (codes "renewable_mw") row.columns
    thermal ← cell (codes "thermal_mw") row.columns
    nuclear ← cell (codes "nuclear_mw_total") row.columns
    some (record {
      date_id = row.date_id;
      time_id = row.time_id;
      total_mw = total;
      renewable_mw = renewable;
      thermal_mw = thermal;
      nuclear_mw_total = nuclear;
      renewable_share_pct = nullable_float is_nan (cell (codes "renewable_share_pct") row.columns);
      sources = map (λ c. (c, nullable_float is_nan (cell c row.columns))) cols;
    })

  abbrev pub generation_intervals :
      List Text → List (GenerationRow F) → Option (List (GenerationInterval F))
  generation_intervals cols [] = some []
  generation_intervals cols (row ∷ rows) = do
    interval ← generation_interval cols row
    intervals ← generation_intervals cols rows
    some (interval ∷ intervals)

  abbrev pub or_failure :
      Text → Date → Date → Option (List (GenerationInterval F)) → Answer (GenerationResponse F)
  or_failure market_id start end none = http_error 500
  or_failure market_id start end (some intervals) = ok (record {
    market_id = market_id;
    start = isoformat start;
    end = isoformat end;
    intervals = intervals;
  })

  -- `columns` are those of the table.
  unfoldable pub get_generation :
      List Text
      → (List (GenerationRow F) → List (GenerationRow F))
      → Delta (GenerationRow F)
      → Text
      → Date
      → Date
      → Answer (GenerationResponse F)
  get_generation columns sort_values delta market_id start end =
      query_range sort_values delta (codes "generation_hourly")
        (λ market rows.
          or_failure market_id start end (generation_intervals (source_cols columns) rows))
        market_id start end

-- A row of bess_signals.
pub record BessRow (F : Type 0) : Type 0 where
  pub market_id : Text
  pub date_id : ℕ
  pub time_id : ℕ
  pub time_label : Text
  pub price_local_mwh : Option F
  pub price_eur_mwh : Option F
  pub signal : Signal
  pub price_rank_asc : Option F
  pub price_rank_desc : Option F
  pub daily_min_price_eur_mwh : Option F
  pub daily_max_price_eur_mwh : Option F
  pub arbitrage_spread_eur_mwh : Option F

pub record BessInterval (F : Type 0) : Type 0 where
  pub date_id : ℕ
  pub time_id : ℕ
  pub time_label : Text
  pub price_local_mwh : Option F
  pub price_eur_mwh : Option F
  pub signal : Signal
  pub price_rank_asc : Option ℤ
  pub price_rank_desc : Option ℤ
  pub daily_min_price_eur_mwh : Option F
  pub daily_max_price_eur_mwh : Option F
  pub arbitrage_spread_eur_mwh : Option F

pub record SignalsResponse (F : Type 0) : Type 0 where
  pub market_id : Text
  pub date : Text
  pub intervals : List (BessInterval F)

module _ {F : Type 0} (is_nan : F → Bool) (int_of : F → ℤ) (mean : List F → F)
    (sort_values : List (BessRow F) → List (BessRow F)) (delta : Delta (BessRow F)) where
  -- An empty day is an error of its own.
  abbrev pub nonempty_day :
      {R : Type 0} → List (BessRow F) → (List (BessRow F) → Answer R) → Answer R
  nonempty_day [] next = http_error 404
  nonempty_day (r ∷ rows) next = next (r ∷ rows)

  unfoldable pub load_day : {R : Type 0} → Text → Date → (List (BessRow F) → Answer R) → Answer R
  load_day market_id target_date next =
      or_unavailable
        (read_gold delta (codes "bess_signals")
          (market_is market_id ∷ date_is (date_to_id target_date) ∷ []))
        (λ df. nonempty_day df next)

  abbrev pub bess_interval : BessRow F → BessInterval F
  bess_interval row = record {
    date_id = row.date_id;
    time_id = row.time_id;
    time_label = row.time_label;
    price_local_mwh = nullable_float is_nan row.price_local_mwh;
    price_eur_mwh = nullable_float is_nan row.price_eur_mwh;
    signal = row.signal;
    price_rank_asc = nullable_int is_nan int_of row.price_rank_asc;
    price_rank_desc = nullable_int is_nan int_of row.price_rank_desc;
    daily_min_price_eur_mwh = nullable_float is_nan row.daily_min_price_eur_mwh;
    daily_max_price_eur_mwh = nullable_float is_nan row.daily_max_price_eur_mwh;
    arbitrage_spread_eur_mwh = nullable_float is_nan row.arbitrage_spread_eur_mwh;
  }

  unfoldable pub get_signals : Text → Date → Answer (SignalsResponse F)
  get_signals market_id date = require_market market_id λ market. load_day market_id date λ df.
      ok (record {
        market_id = market_id;
        date = isoformat date;
        intervals = map bess_interval (sort_values df);
      })

  -- What the windows are made of.
  abbrev pub signal_row : BessRow F → SignalRow F
  signal_row row = record {
    time_id = row.time_id;
    time_label = row.time_label;
    signal = row.signal;
    price_eur_mwh = nullable_float is_nan row.price_eur_mwh;
    arbitrage_spread_eur_mwh = nullable_float is_nan row.arbitrage_spread_eur_mwh;
  }

  unfoldable pub get_arbitrage_windows : Text → Date → Answer (ArbitrageResponse mean)
  get_arbitrage_windows market_id date = require_market market_id λ market.
      load_day market_id date λ df. ok (arbitrage_windows mean (map signal_row (sort_values df)))

-- `get_price_forecast`, which is planned.
unfoldable pub get_price_forecast : Text → Date → Answer (Unit {0})
get_price_forecast market_id target_date = require_market market_id λ market. http_error 501
