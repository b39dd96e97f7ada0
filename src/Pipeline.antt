-- ===== src/Pipeline.antt =====
-- The daily jobs, src/shiden/scheduler/jobs.py. A job is a sequence of calls of ingesters,
-- writers and processors; a call is a `Step` with its arguments, and what it does to the world
-- is a parameter: it finishes, with the number of failed days if it returns a report, or
-- raises. The construction of the objects, which only reads the settings, is not a step.
pub mod Isolation
pub mod Plan
use shiden_api.Base.{
  ℕ, ◌+◌, Bool, true, false, not, List, [], ◌∷◌, ◌++◌, map, Option, none, some, if◌then◌else◌,
}
use shiden_api.Base.Text.{Text, codes}
use shiden_api.Calendar.{Date, plus_days, minus_days}
use shiden_api.Markets.{WeatherLocation, MarketConfig, markets}

pub data Step : Type 0 where
  new_spark : Step
  -- market, start, end, skip_existing
  opcom_ingest : Text → Date → Date → Bool → Step
  opcom_bronze weather_ingest entsoe_ingest entsoe_bronze : Text → Date → Date → Step
  weather_bronze : Text → List Text → Date → Date → Step
  bnr_ingest ecb_ingest bnr_bronze ecb_bronze : Date → Date → Step
  exchange_rates dim_date dim_datetime : Date → Date → Step
  dim_market dim_location dim_production_type : Step
  fact_price fact_generation fact_load fact_weather : Text → Date → Date → Step
  gold_price_hourly gold_generation_hourly gold_bess_signals : Text → Date → Date → Step

pub data StepOutcome : Type 0 where
  finished : ℕ → StepOutcome
  raised : StepOutcome

-- A call under `_run_safe`, or one whose exception leaves the job.
pub data Action : Type 0 where
  safely plainly : Step → Action

abbrev pub step_of : Action → Step
step_of (safely s) = s
step_of (plainly s) = s

-- The calls made so far, those that raised under a guard, and the failed days of reports.
pub record Run {ℓ} (W : Type ℓ) : Type ℓ where
  pub world : W
  pub performed : List Step
  pub errors : List Step
  pub gaps : ℕ

abbrev pub start_run {ℓ} : {W : Type ℓ} → W → Run W
start_run w = record { world = w; performed = []; errors = []; gaps = 0 }

module _ {ℓ} {W : Type ℓ} (perform : Step → W → W × StepOutcome) where
  -- Only the report of the OPCOM ingester lists failed days.
  abbrev pub reported : Step → ℕ → ℕ
  reported (opcom_ingest m s e b) n = n
  reported _ n = 0

  abbrev pub after_step : Step → W → StepOutcome → Run W → Run W
  after_step s w (finished n) r = record r {
    world = w;
    performed = r.performed ++ s ∷ [];
    gaps = r.gaps + reported s n;
  }
  after_step s w raised r = record r {
    world = w;
    performed = r.performed ++ s ∷ [];
    errors = r.errors ++ s ∷ [];
  }

  abbrev pub is_raised : StepOutcome → Bool
  is_raised (finished n) = false
  is_raised raised = true

  -- `_run_safe`: an exception is logged, and the job goes on.
  unfoldable pub run_safe : Step → Run W → Run W
  run_safe s r = let (w, o) = perform s r.world in after_step s w o r

  -- The new run, and whether the job goes on.
  abbrev pub act : Action → Run W → Run W × Bool
  act (safely s) r = (run_safe s r, true)
  act (plainly s) r = (run_safe s r, not (is_raised (perform s r.world).1))

  unfoldable pub execute : List Action → Run W → Run W × Bool
  execute [] r = (r, true)
  execute (a ∷ todo) r =
      let (r', goes_on) = act a r in elim goes_on [ true ↦ execute todo r' | false ↦ (r', false) ]

abbrev pub for_markets :
    (Text → MarketConfig → List Action) → List (Text × MarketConfig) → List Action
for_markets f [] = []
for_markets f ((k, m) ∷ ms) = f k m ++ for_markets f ms

-- OPCOM_LOOKBACK_DAYS
abbrev pub opcom_lookback_days : ℕ
opcom_lookback_days = 7

unfoldable pub run_opcom_pzu_daily : Date → List Action
run_opcom_pzu_daily today =
    let start = minus_days today opcom_lookback_days in
    safely (opcom_ingest (codes "RO") start today true)
    ∷ plainly new_spark
    ∷ safely (opcom_bronze (codes "RO") start today)
    ∷ []

abbrev pub weather_of : Date → Text → List Text → List Action
weather_of today market_id [] = []
weather_of today market_id (name ∷ names) =
    safely (weather_ingest market_id (minus_days today 7) (minus_days today 1))
    ∷ safely (weather_ingest market_id today (plus_days today 2))
    ∷ safely (weather_bronze market_id (name ∷ names) (minus_days today 7) (plus_days today 2))
    ∷ []

unfoldable pub run_weather_daily : Date → List Action
run_weather_daily today =
    plainly new_spark
    ∷ for_markets (λ k m. weather_of today k (map (λ l. l.name) m.weather_locations)) markets

unfoldable pub run_fx_rates_daily : Date → List Action
run_fx_rates_daily today =
    let start = minus_days today 7 in
    plainly new_spark
    ∷ safely (bnr_ingest start today)
    ∷ safely (bnr_bronze start today)
    ∷ safely (ecb_ingest start today)
    ∷ safely (ecb_bronze start today)
    ∷ []

unfoldable pub run_entsoe_daily : Date → List Action
run_entsoe_daily today =
    let start = minus_days today 7 in
    let end = minus_days today 1 in
    plainly new_spark
    ∷ for_markets
        (λ k m. safely (entsoe_ingest k start end) ∷ safely (entsoe_bronze k start end) ∷ [])
        markets

unfoldable pub run_silver_daily : Date → List Action
run_silver_daily today =
    let start = minus_days today 7 in
    let end = minus_days today 1 in
    plainly new_spark
    ∷ safely (exchange_rates start end)
    ∷ safely (dim_datetime start end)
    ∷ safely dim_market
    ∷ safely dim_location
    ∷ safely (dim_date start end)
    ∷ safely dim_production_type
    ∷ for_markets
        (λ k m.
          safely (fact_price k start end)
          ∷ safely (fact_generation k start end)
          ∷ safely (fact_load k start end)
          ∷ safely (fact_weather k start end)
          ∷ [])
        markets

unfoldable pub run_gold_daily : Date → List Action
run_gold_daily today =
    let start = minus_days today 7 in
    let end = minus_days today 1 in
    plainly new_spark
    ∷ for_markets
        (λ k m.
          safely (gold_price_hourly k start end)
          ∷ safely (gold_generation_hourly k start end)
          ∷ safely (gold_bess_signals k start end)
          ∷ [])
        markets

-- The `choices` of `--job`.
pub data Job : Type 0 where
  opcom_pzu weather entsoe fx_rates silver gold : Job

abbrev pub job_actions : Job → Date → List Action
job_actions opcom_pzu = run_opcom_pzu_daily
job_actions weather = run_weather_daily
job_actions entsoe = run_entsoe_daily
job_actions fx_rates = run_fx_rates_daily
job_actions silver = run_silver_daily
job_actions gold = run_gold_daily

-- `main`: one job, or all of them. Every job reads `date.today()`, taken to be the same day.
unfoldable pub main : Option Job → Date → List Action
main none today =
    run_weather_daily today
    ++ (run_fx_rates_daily today
        ++ (run_entsoe_daily today
            ++ (run_opcom_pzu_daily today ++ (run_silver_daily today ++ run_gold_daily today))))
main (some job) today = job_actions job today
