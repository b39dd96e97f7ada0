-- ===== src/Lib.antt =====
-- Shiden: an HTTP API for electricity market data, and the pipeline that feeds it.
--
-- The API (src/shiden/api) authenticates callers by key, limits their rate, checks that a key
-- covers the market asked for, and records each request. The pipeline (src/shiden/scheduler,
-- src/shiden/backfill.py) calls ingesters that fetch raw files to a landing zone
-- (src/shiden/ingestion), writers that parse these into Bronze tables, and processors that build
-- Silver and Gold tables (src/shiden/processing).
--
-- The files and what they model, definitions under the names of the source:
--
--   Base       lists, Boolean tests and texts that the others share
--   Calendar   dates, and date_range and date_to_id of src/shiden/dates.py
--   RateLimit  SlidingWindowLimiter of src/shiden/api/auth/ratelimit.py
--   Keys       src/shiden/api/auth/keys.py
--   Store      KeyStore of src/shiden/api/auth/store.py, with usage_summary in Store/Usage
--   Auth       require_api_key and require_market_access of src/shiden/api/auth/dependencies.py,
--              the metering middleware src/shiden/api/middleware.py, and a market-scoped route of
--              src/shiden/api/main.py; it uses RateLimit and Store
--   Markets    src/shiden/config/markets.py
--   Pipeline   the daily jobs of src/shiden/scheduler/jobs.py
--   Backfill   src/shiden/backfill.py; it uses the steps of Pipeline
--   Opcom      src/shiden/processing/bronze/opcom.py up to the write
--   Ingest     src/shiden/ingestion/http.py and src/shiden/ingestion/opcom.py
--   Landing    the landing zone: the files of one kind by their dates, written by the ingesters and
--              read by the Bronze writers
--   Entsoe     src/shiden/processing/bronze/entsoe.py, and in Entsoe/Fetch and
--              Entsoe/Ingest src/shiden/ingestion/entsoe.py; it uses the retrying loop of Ingest
--   Bnr        src/shiden/ingestion/bnr.py, and in Bnr/Bronze src/shiden/processing/bronze/bnr.py
--   Ecb        src/shiden/ingestion/ecb.py, and in Ecb/Bronze src/shiden/processing/bronze/ecb.py
--   Weather    src/shiden/ingestion/weather.py with Weather/Saved, and in Weather/Bronze
--              src/shiden/processing/bronze/weather.py
--   Fx         src/shiden/processing/silver/exchange_rates.py
--   Bess       assign_signals of src/shiden/processing/gold/gold_bess_signals.py and the arbitrage
--              windows of src/shiden/api/routers/bess.py
--   Routers    the endpoints over the Gold tables: src/shiden/api/routers/prices.py, weather.py and
--              _common.py, and in Routers/Days generation.py and bess.py; with read_gold of
--              src/shiden/processing/gold/reader.py
--   Cli        src/shiden/api/auth/cli.py; it uses Store
--   LandingPaths  src/shiden/landing_paths.py
--   ProductionTypes  src/shiden/processing/silver/dimensions/dim_production_type.py
--   DimDate    dim_date.py of the same directory
--   DimMarkets   dim_market.py and dim_location.py there
--   DimDatetime  dim_datetime.py there; it uses TimeAxis
--   TimeAxis   src/shiden/timeaxis.py
--   Tests      the theorems at concrete inputs
--
-- State is passed explicitly: the store, the limiter and request.state make the World of Auth; a
-- job or a backfill is a list of calls, run against a world and a function that says what each
-- call does to it. An exception is a constructor of a result type, or none. Parameters stand for
-- SHA-256, MD5, random tokens, clocks, servers, floats and their texts, csv.reader, json, the XML
-- parser, time zones, the reading of Delta tables and the sorting of pandas. What a theorem needs of
-- them is a hypothesis: IsFaithful and ReadsBack say that json and dates read what they wrote,
-- IsWhole that the local days of an interval last whole quarter hours, IsOrder that prices are in a
-- total order, IsSort that a sort keeps the rows.
--
-- Loops over dates (date_range, _month_chunks) run on fuel, one more than the ordinal of the last
-- day, which exceeds the number of rounds. The loop over the intervals of a day has the seconds of
-- the day as fuel, and each round takes 900 of them. All other loops are structural.
--
-- Not modelled: SQLite beyond two tables of rows, the JSON form of a key's markets, the time a
-- request takes, logging and printing, the parsing of options and of settings,
-- the validation of responses by pydantic, and the scheduler process, which only registers the jobs
-- with a library; Spark and Delta, and so the processors that are queries of Spark from end to end
-- (the fact tables, the hourly Gold tables, the signals as a query) and the merges and appends in
-- which the other processors end; the polite delays between requests. Overflow of an integer that
-- is turned into a float, and files that are not UTF-8, are left out. Dates end where Python's
-- would overflow.
pub mod Base
pub mod Calendar
pub mod RateLimit
pub mod Keys
pub mod Store
pub mod Auth
pub mod Cli
pub mod Markets
pub mod Pipeline
pub mod Backfill
pub mod Landing
pub mod Ingest
pub mod Opcom
pub mod Entsoe
pub mod Bnr
pub mod Ecb
pub mod Weather
pub mod Fx
pub mod TimeAxis
pub mod Bess
pub mod Routers
pub mod LandingPaths
pub mod ProductionTypes
pub mod DimDate
pub mod DimDatetime
pub mod DimMarkets
pub mod Tests
