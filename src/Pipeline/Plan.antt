-- ===== src/Pipeline/Plan.antt =====
-- The order of the calls of a full run of src/shiden/scheduler/jobs.py against what the
-- processors read.
use shiden_api.Base.{
  ℕ, ◌≡◌, refl, ap, ◌∙◌, Bool, true, false, ◌&&◌, ◌||◌, List, [], ◌∷◌, map, All, Option, none, some,
  ◌==◌,
}
use shiden_api.Calendar.{Date}
use shiden_api.Pipeline.{
  Step, new_spark, opcom_ingest, opcom_bronze, weather_ingest, weather_bronze, bnr_ingest,
  ecb_ingest, bnr_bronze, ecb_bronze, entsoe_ingest, entsoe_bronze, exchange_rates, dim_date,
  dim_datetime, dim_market, dim_location, dim_production_type, fact_price, fact_generation,
  fact_load, fact_weather, gold_price_hourly, gold_generation_hourly, gold_bess_signals,
  StepOutcome, step_of, start_run, execute, Job, opcom_pzu, weather, entsoe, fx_rates, silver, gold,
  run_opcom_pzu_daily, run_weather_daily, run_fx_rates_daily, run_entsoe_daily, run_silver_daily,
  run_gold_daily, main,
}
use shiden_api.Pipeline.Isolation.{
  IsHarmless, all_harmless, all_harmless_sound, HasSpark, execute-performed,
}

-- A number for each kind of call, whatever its arguments.
abbrev pub kind : Step → ℕ
kind new_spark = 0
kind (opcom_ingest m s e b) = 1
kind (opcom_bronze m s e) = 2
kind (weather_ingest m s e) = 3
kind (weather_bronze m l s e) = 4
kind (bnr_ingest s e) = 5
kind (bnr_bronze s e) = 6
kind (ecb_ingest s e) = 7
kind (ecb_bronze s e) = 8
kind (entsoe_ingest m s e) = 9
kind (entsoe_bronze m s e) = 10
kind (exchange_rates s e) = 11
kind (dim_date s e) = 12
kind (dim_datetime s e) = 13
kind dim_market = 14
kind dim_location = 15
kind dim_production_type = 16
kind (fact_price m s e) = 17
kind (fact_generation m s e) = 18
kind (fact_load m s e) = 19
kind (fact_weather m s e) = 20
kind (gold_price_hourly m s e) = 21
kind (gold_generation_hourly m s e) = 22
kind (gold_bess_signals m s e) = 23

-- The exchange rates and all five dimensions.
abbrev pub before_facts : List ℕ
before_facts = 11 ∷ 12 ∷ 13 ∷ 14 ∷ 15 ∷ 16 ∷ []

-- The kinds of the calls that write what a call reads: the landing files, the Bronze tables and
-- the Silver tables that its documentation says it requires, and Spark where it is given. All
-- facts come after the exchange rates and every dimension, as the run order of
-- `run_silver_daily` has it.
abbrev pub needs : Step → List ℕ
needs (opcom_bronze m s e) = 0 ∷ 1 ∷ []
needs (weather_bronze m l s e) = 0 ∷ 3 ∷ []
needs (bnr_bronze s e) = 0 ∷ 5 ∷ []
needs (ecb_bronze s e) = 0 ∷ 7 ∷ []
needs (entsoe_bronze m s e) = 0 ∷ 9 ∷ []
needs (exchange_rates s e) = 0 ∷ 6 ∷ 8 ∷ []
needs (dim_date s e) = 0 ∷ []
needs (dim_datetime s e) = 0 ∷ []
needs dim_market = 0 ∷ []
needs dim_location = 0 ∷ []
needs dim_production_type = 0 ∷ 10 ∷ []
needs (fact_price m s e) = 0 ∷ 2 ∷ before_facts
needs (fact_generation m s e) = 0 ∷ 10 ∷ before_facts
needs (fact_load m s e) = 0 ∷ 10 ∷ before_facts
needs (fact_weather m s e) = 0 ∷ 4 ∷ before_facts
needs (gold_price_hourly m s e) = 0 ∷ 17 ∷ 13 ∷ []
needs (gold_generation_hourly m s e) = 0 ∷ 18 ∷ 16 ∷ []
needs (gold_bess_signals m s e) = 0 ∷ 17 ∷ 13 ∷ []
needs _ = []

abbrev pub mem : ℕ → List ℕ → Bool
mem k [] = false
mem k (j ∷ js) = (k == j) || mem k js

abbrev pub has_all : List ℕ → List ℕ → Bool
has_all [] seen = true
has_all (k ∷ ks) seen = mem k seen && has_all ks seen

-- Every call comes after calls of each kind that it needs.
abbrev pub is_ordered : List ℕ → List Step → Bool
is_ordered seen [] = true
is_ordered seen (s ∷ ss) = has_all (needs s) seen && is_ordered (kind s ∷ seen) ss

main-ordered : (today : Date) → is_ordered [] (map step_of (main none today)) ≡ true
unfolding main run_opcom_pzu_daily run_weather_daily run_fx_rates_daily run_entsoe_daily
    run_silver_daily run_gold_daily
main-ordered today = refl

main-all_harmless : (today : Date) (job : Option Job) → all_harmless (main job today) ≡ true
unfolding main run_opcom_pzu_daily run_weather_daily run_fx_rates_daily run_entsoe_daily
    run_silver_daily run_gold_daily
main-all_harmless today none = refl
main-all_harmless today (some opcom_pzu) = refl
main-all_harmless today (some weather) = refl
main-all_harmless today (some entsoe) = refl
main-all_harmless today (some fx_rates) = refl
main-all_harmless today (some silver) = refl
main-all_harmless today (some gold) = refl

main-IsHarmless : (today : Date) (job : Option Job) → All IsHarmless (main job today)
main-IsHarmless today job = all_harmless_sound (main job today) (main-all_harmless today job)

module _ {ℓ} {W : Type ℓ} (perform : Step → W → W × StepOutcome) where
  -- If Spark starts, a run of one job or of all of them ends without an exception and makes
  -- every call of its plan, in order, whichever of the guarded calls raise.
  pub main-performed :
      (today : Date) (job : Option Job) (w : W)
      → HasSpark perform
      → ((execute perform (main job today) (start_run w)).1 ≡ true)
        × ((execute perform (main job today) (start_run w)).0.performed
            ≡ map step_of (main job today))
  main-performed today job w spark =
      execute-performed perform (main job today) (start_run w) spark (main-IsHarmless today job)

  -- If Spark starts, then in a full run every call comes after calls of each of the kinds that
  -- write what it reads: ingestion before Bronze, Bronze before Silver, exchange rates and all
  -- five dimensions before facts, and facts before Gold.
  pub main-is_ordered :
      (today : Date) (w : W)
      → HasSpark perform
      → is_ordered [] (execute perform (main none today) (start_run w)).0.performed ≡ true
  main-is_ordered today w spark =
      ap (is_ordered []) (main-performed today none w spark).1 ∙ main-ordered today
