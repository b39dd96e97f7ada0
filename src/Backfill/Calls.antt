-- ===== src/Backfill/Calls.antt =====
-- When the command of src/shiden/backfill.py refuses, and the calls that its options ask for.
use mathlib.Core.List.{map-append}
use shiden_api.Base.{
  ◌≡◌, ◌⊎◌, refl, ap, ap₂, ◌∙◌, Bool, not, ◌||◌, ◌&&◌, Option, none, some, true, false, List, [],
  ◌∷◌, ◌++◌, map, inl, inr, if◌then◌else◌,
}
use shiden_api.Base.Text.{Text, codes, mem_text}
use shiden_api.Calendar.{Date, date, date_ltb}
use shiden_api.Markets.{MarketConfig, get_market}
use shiden_api.Backfill.{month_chunks}
use shiden_api.Pipeline.{
  new_spark, opcom_ingest, opcom_bronze, bnr_ingest, ecb_ingest, bnr_bronze, ecb_bronze,
  exchange_rates, dim_date, dim_datetime, dim_market, dim_location, dim_production_type, fact_price,
  fact_generation, fact_load, fact_weather, gold_price_hourly, gold_generation_hourly,
  gold_bess_signals, Step, Action, step_of,
}
use shiden_api.Backfill.Stages.{
  Args, is_refused, plan, silver_chunks, gold_chunks, stage_landing, stage_bronze, stage_silver,
  stage_gold,
}

-- Why the command refuses to start.
pub data Refused (a : Args) : Type 0 where
  unknown_market : get_market a.market ≡ none → Refused a
  empty_interval : date_ltb a.end a.start ≡ true → Refused a
  too_early : date_ltb a.start (date 2025 10 1) ≡ true → a.allow_pre_mtu ≡ false → Refused a

-- What it takes to start.
pub record Accepted (a : Args) : Type 0 where
  pub market : MarketConfig
  pub is_known : get_market a.market ≡ some market
  pub in_order : date_ltb a.end a.start ≡ false
  pub late_enough : (date_ltb a.start (date 2025 10 1) ≡ false) ⊎ (a.allow_pre_mtu ≡ true)

-- The three checks, on what they compute.
abbrev refuses : Option MarketConfig → Bool → Bool → Bool → Bool
refuses o x y z = elim o [ none ↦ true | some m ↦ false ] || (x || (y && not z))

module _ (a : Args) where
  Refused-sound :
      (o : Option MarketConfig) (x y z : Bool)
      → get_market a.market ≡ o
      → date_ltb a.end a.start ≡ x
      → date_ltb a.start (date 2025 10 1) ≡ y
      → a.allow_pre_mtu ≡ z
      → refuses o x y z ≡ true
      → Refused a
  Refused-sound none x y z m e s l t = unknown_market m
  Refused-sound (some c) true y z m e s l t = empty_interval e
  Refused-sound (some c) false true false m e s l t = too_early s l
  Refused-sound (some c) false true true m e s l t = cc
  Refused-sound (some c) false false z m e s l t = cc

  accepted :
      (o : Option MarketConfig) (x y z : Bool)
      → get_market a.market ≡ o
      → date_ltb a.end a.start ≡ x
      → date_ltb a.start (date 2025 10 1) ≡ y
      → a.allow_pre_mtu ≡ z
      → refuses o x y z ≡ false
      → Accepted a
  accepted none x y z m e s l t = cc
  accepted (some c) true y z m e s l t = cc
  accepted (some c) false true false m e s l t = cc
  accepted (some c) false true true m e s l t = record {
    market = c;
    is_known = m;
    in_order = e;
    late_enough = inr l;
  }
  accepted (some c) false false z m e s l t = record {
    market = c;
    is_known = m;
    in_order = e;
    late_enough = inl s;
  }

  pub is_refused_sound : is_refused a ≡ true → Refused a
  unfolding is_refused
  is_refused_sound t = Refused-sound _ _ _ _ refl refl refl refl t

  pub is_refused_complete : is_refused a ≡ false → Accepted a
  unfolding is_refused
  is_refused_complete t = accepted _ _ _ _ refl refl refl refl t

-- The calls of each stage, from the options.
abbrev pub asked : Text → List Text → List Step → List Step
asked name names steps = if mem_text name names then steps else []

abbrev pub each_month : (Date → Date → List Step) → List (Date × Date) → List Step
each_month f [] = []
each_month f ((first, last) ∷ months) = f first last ++ each_month f months

abbrev pub landing_calls : Args → List Step
landing_calls a =
    asked (codes "opcom") a.sources (opcom_ingest a.market a.start a.end (not a.refetch) ∷ [])
    ++ asked (codes "fx") a.sources (bnr_ingest a.start a.end ∷ ecb_ingest a.start a.end ∷ [])

abbrev pub bronze_calls : Args → List Step
bronze_calls a =
    new_spark
    ∷ (asked (codes "opcom") a.sources (opcom_bronze a.market a.start a.end ∷ [])
        ++ asked (codes "fx") a.sources (bnr_bronze a.start a.end ∷ ecb_bronze a.start a.end ∷ []))

abbrev pub silver_month : Args → Date → Date → List Step
silver_month a first last =
    dim_date first last
    ∷ dim_datetime first last
    ∷ exchange_rates first last
    ∷ fact_price a.market first last
    ∷ fact_generation a.market first last
    ∷ fact_load a.market first last
    ∷ fact_weather a.market first last
    ∷ []

abbrev pub gold_month : Args → Date → Date → List Step
gold_month a first last =
    gold_price_hourly a.market first last
    ∷ gold_generation_hourly a.market first last
    ∷ gold_bess_signals a.market first last
    ∷ []

-- Landing before Bronze, Bronze before Silver, Silver before Gold.
abbrev pub calls : Args → List Step
calls a =
    asked (codes "landing") a.stages (landing_calls a)
    ++ (asked (codes "bronze") a.stages (bronze_calls a)
        ++ (asked (codes "silver") a.stages (
              new_spark
              ∷ dim_market
              ∷ dim_location
              ∷ dim_production_type
              ∷ each_month (silver_month a) (month_chunks a.start a.end))
            ++ asked (codes "gold") a.stages
                (new_spark ∷ each_month (gold_month a) (month_chunks a.start a.end))))

map-asked :
    (name : Text) (names : List Text) (xs : List Action)
    → map step_of (if mem_text name names then xs else []) ≡ asked name names (map step_of xs)
map-asked name names xs = go (mem_text name names)
  where
    go : (b : Bool) → map step_of (if b then xs else []) ≡ (if b then map step_of xs else [])
    go true = refl
    go false = refl

silver_chunks-calls :
    (a : Args) (months : List (Date × Date))
    → map step_of (silver_chunks a.market months) ≡ each_month (silver_month a) months
silver_chunks-calls a [] = refl
silver_chunks-calls a ((f, l) ∷ months) =
    ap (λ rest. silver_month a f l ++ rest) (silver_chunks-calls a months)

gold_chunks-calls :
    (a : Args) (months : List (Date × Date))
    → map step_of (gold_chunks a.market months) ≡ each_month (gold_month a) months
gold_chunks-calls a [] = refl
gold_chunks-calls a ((f, l) ∷ months) =
    ap (λ rest. gold_month a f l ++ rest) (gold_chunks-calls a months)

two_parts :
    (m n : Text) (ms ns : List Text) (xs ys : List Action) (zs ws : List Step)
    → map step_of xs ≡ zs
    → map step_of ys ≡ ws
    → map step_of ((if mem_text m ms then xs else []) ++ (if mem_text n ns then ys else []))
      ≡ asked m ms zs ++ asked n ns ws
two_parts m n ms ns xs ys zs ws p q =
    map-append step_of (if mem_text m ms then xs else []) _
    ∙ ap₂ ◌++◌ (map-asked m ms xs ∙ ap (asked m ms) p) (map-asked n ns ys ∙ ap (asked n ns) q)

one_part :
    (m : Text) (ms : List Text) (xs ys : List Action) (zs ws : List Step)
    → map step_of xs ≡ zs
    → map step_of ys ≡ ws
    → map step_of ((if mem_text m ms then xs else []) ++ ys) ≡ asked m ms zs ++ ws
one_part m ms xs ys zs ws p q =
    map-append step_of (if mem_text m ms then xs else []) ys
    ∙ ap₂ ◌++◌ (map-asked m ms xs ∙ ap (asked m ms) p) q

pub plan-calls : (a : Args) → map step_of (plan a) ≡ calls a
unfolding plan stage_landing stage_bronze stage_silver stage_gold
plan-calls a =
    one_part (codes "landing") a.stages _ _ _ _
      (two_parts (codes "opcom") (codes "fx") a.sources a.sources _ _ _ _ refl refl)
      (one_part (codes "bronze") a.stages _ _ _ _
        (ap (◌∷◌ new_spark)
          (two_parts (codes "opcom") (codes "fx") a.sources a.sources _ _ _ _ refl refl))
        (two_parts (codes "silver") (codes "gold") a.stages a.stages _ _ _ _
          (ap (λ l. new_spark ∷ dim_market ∷ dim_location ∷ dim_production_type ∷ l)
            (silver_chunks-calls a (month_chunks a.start a.end)))
          (ap (◌∷◌ new_spark) (gold_chunks-calls a (month_chunks a.start a.end)))))
