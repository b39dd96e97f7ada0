-- ===== src/Backfill/Stages.antt =====
-- The stages and the command of src/shiden/backfill.py, as calls of the processors in order.
-- Texts of the options are already parsed; printing and logging are left out.
use shiden_api.Base.{
  ℕ, ◌+◌, Bool, true, false, not, ◌&&◌, ◌||◌, List, [], ◌∷◌, ◌++◌, length, none, some, ltb,
  if◌then◌else◌,
}
use shiden_api.Base.Text.{Text, codes, mem_text}
use shiden_api.Calendar.{Date, date, date_ltb}
use shiden_api.Markets.{get_market}
use shiden_api.Pipeline.{
  Step, new_spark, opcom_ingest, opcom_bronze, bnr_ingest, ecb_ingest, bnr_bronze, ecb_bronze,
  exchange_rates, dim_date, dim_datetime, dim_market, dim_location, dim_production_type, fact_price,
  fact_generation, fact_load, fact_weather, gold_price_hourly, gold_generation_hourly,
  gold_bess_signals, StepOutcome, Action, safely, plainly, Run, start_run, execute,
}
use shiden_api.Backfill.{month_chunks}

-- The OPCOM report's failed days and each FX source that raises count as failures.
unfoldable pub stage_landing : Text → Date → Date → List Text → Bool → List Action
stage_landing market_id start end sources refetch =
    (if mem_text (codes "opcom") sources
      then plainly (opcom_ingest market_id start end (not refetch)) ∷ []
      else [])
    ++ (if mem_text (codes "fx") sources
        then safely (bnr_ingest start end) ∷ safely (ecb_ingest start end) ∷ []
        else [])

unfoldable pub stage_bronze : Text → Date → Date → List Text → List Action
stage_bronze market_id start end sources =
    plainly new_spark
    ∷ ((if mem_text (codes "opcom") sources
          then plainly (opcom_bronze market_id start end) ∷ []
          else [])
        ++ (if mem_text (codes "fx") sources
            then plainly (bnr_bronze start end) ∷ plainly (ecb_bronze start end) ∷ []
            else []))

abbrev pub silver_chunks : Text → List (Date × Date) → List Action
silver_chunks market_id [] = []
silver_chunks market_id ((a, b) ∷ chunks) =
    plainly (dim_date a b)
    ∷ plainly (dim_datetime a b)
    ∷ plainly (exchange_rates a b)
    ∷ plainly (fact_price market_id a b)
    ∷ plainly (fact_generation market_id a b)
    ∷ plainly (fact_load market_id a b)
    ∷ plainly (fact_weather market_id a b)
    ∷ silver_chunks market_id chunks

unfoldable pub stage_silver : Text → Date → Date → List Action
stage_silver market_id start end =
    plainly new_spark
    ∷ plainly dim_market
    ∷ plainly dim_location
    ∷ plainly dim_production_type
    ∷ silver_chunks market_id (month_chunks start end)

abbrev pub gold_chunks : Text → List (Date × Date) → List Action
gold_chunks market_id [] = []
gold_chunks market_id ((a, b) ∷ chunks) =
    plainly (gold_price_hourly market_id a b)
    ∷ plainly (gold_generation_hourly market_id a b)
    ∷ plainly (gold_bess_signals market_id a b)
    ∷ gold_chunks market_id chunks

unfoldable pub stage_gold : Text → Date → Date → List Action
stage_gold market_id start end = plainly new_spark ∷ gold_chunks market_id (month_chunks start end)

-- The parsed options.
pub record Args : Type 0 where
  pub start : Date
  pub end : Date
  pub market : Text
  pub sources : List Text
  pub stages : List Text
  pub refetch : Bool
  pub allow_pre_mtu : Bool
  pub dry_run : Bool

-- MTU_TRANSITION_DATE
abbrev pub mtu_transition_date : Date
mtu_transition_date = date 2025 10 1

-- The three checks before anything is done.
unfoldable pub is_refused : Args → Bool
is_refused a =
    elim (get_market a.market) [ none ↦ true | some m ↦ false ]
    || (date_ltb a.end a.start || (date_ltb a.start mtu_transition_date && not a.allow_pre_mtu))

-- The calls of the stages that are asked for.
unfoldable pub plan : Args → List Action
plan a =
    (if mem_text (codes "landing") a.stages
      then stage_landing a.market a.start a.end a.sources a.refetch
      else [])
    ++ ((if mem_text (codes "bronze") a.stages
          then stage_bronze a.market a.start a.end a.sources
          else [])
        ++ ((if mem_text (codes "silver") a.stages then stage_silver a.market a.start a.end else [])
            ++ (if mem_text (codes "gold") a.stages
                then stage_gold a.market a.start a.end
                else [])))

-- The exit code, or an exception that leaves `main`.
pub data Exit : Type 0 where
  exit_code : ℕ → Exit
  exception : Exit

abbrev pub failures {ℓ} : {W : Type ℓ} → Run W → ℕ
failures r = r.gaps + length r.errors

module _ {ℓ} {W : Type ℓ} (perform : Step → W → W × StepOutcome) where
  abbrev pub conclude : Run W × Bool → Run W × Exit
  conclude (r, false) = (r, exception)
  conclude (r, true) = (r, exit_code (if ltb 0 (failures r) then 1 else 0))

  unfoldable pub backfill : Args → W → Run W × Exit
  backfill a w =
      if is_refused a
      then (start_run w, exit_code 2)
      else if a.dry_run
      then (start_run w, exit_code 0)
      else conclude (execute perform (plan a) (start_run w))
