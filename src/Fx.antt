-- ===== src/Fx.antt =====
-- Exchange rates, src/shiden/processing/silver/exchange_rates.py: the pairs that the markets need
-- and the reconciliation of two sources of rates. A table of rates by date is an association
-- list, `F` stands for floats, and reading the Bronze tables is outside the model.
pub mod Filled
pub mod Pairs
use shiden_api.Base.{
  ℕ, Bool, true, false, not, ◌&&◌, ◌||◌, List, [], ◌∷◌, ◌++◌, map, Option, none, some,
  if◌then◌else◌,
}
use shiden_api.Base.Text.{Text, codes, text_eq}
use shiden_api.Calendar.{Date, date_eq, date_leb, date_range, minus_days}
use shiden_api.Markets.{MarketConfig}

-- `dict.get`
unfoldable pub rate_on : {F : Type 0} → Date → List (Date × F) → Option F
rate_on d [] = none
rate_on d ((e, r) ∷ rates) = if date_eq e d then some r else rate_on d rates

-- Where a rate comes from; FORWARD_FILLED, or the source's name.
abbrev pub forward_filled : Text
forward_filled = codes "FORWARD_FILLED"

module _ {F : Type 0} (primary secondary : List (Date × F))
    (primary_source secondary_source : Text) where
  -- The branches of the loop, on what the tables have for the day and on the last rate: the
  -- rate with its source, and the last rate from then on.
  abbrev pub choose : Option F → Option F → Option F → Option (F × Text) × Option F
  choose (some rate) other last_rate = (some (rate, primary_source), some rate)
  choose none (some rate) last_rate = (some (rate, secondary_source), some rate)
  choose none none (some rate) = (some (rate, forward_filled), some rate)
  choose none none none = (none, none)

  abbrev pub pick : Date → Option F → Option (F × Text) × Option F
  pick d last_rate = choose (rate_on d primary) (rate_on d secondary) last_rate

  abbrev pub emit :
      Date → Date → Option (F × Text) → List (Date × F × Text) → List (Date × F × Text)
  emit start d none rest = rest
  emit start d (some (rate, source)) rest =
      if date_leb start d then (d, rate, source) ∷ rest else rest

  -- The loop over the days; `start` is the first day that is emitted.
  unfoldable pub walk : Date → Option F → List Date → List (Date × F × Text)
  walk start last_rate [] = []
  walk start last_rate (d ∷ days) =
      emit start d (pick d last_rate).0 (walk start (pick d last_rate).1 days)

abbrev pub walk_from : Date → Option Date → Date
walk_from start none = start
walk_from start (some d) = d

unfoldable pub reconcile_and_fill :
    {F : Type 0}
    → Date
    → Date
    → List (Date × F)
    → Text
    → List (Date × F)
    → Text
    → Option Date
    → List (Date × F × Text)
reconcile_and_fill start end primary primary_source secondary secondary_source fill_start =
    walk primary secondary primary_source secondary_source start none
      (date_range (walk_from start fill_start) end)

abbrev pub synthetic : Text
synthetic = codes "SYNTHETIC"

abbrev pub pair_of : MarketConfig → Text × Text
pair_of cfg =
    if text_eq cfg.currency cfg.reporting_currency
    then (cfg.currency, synthetic)
    else (cfg.currency, cfg.fx_source)

abbrev pub pair_eq : Text × Text → Text × Text → Bool
pair_eq (a, b) (c, d) = text_eq a c && text_eq b d

abbrev pub mem_pair : Text × Text → List (Text × Text) → Bool
mem_pair p [] = false
mem_pair p (q ∷ ps) = pair_eq q p || mem_pair p ps

-- The loop of `_required_pairs` over the configurations of the markets.
unfoldable pub pairs_loop : List MarketConfig → List (Text × Text) → List (Text × Text)
pairs_loop [] pairs = pairs
pairs_loop (cfg ∷ cfgs) pairs =
    pairs_loop cfgs (if mem_pair (pair_of cfg) pairs then pairs else pairs ++ pair_of cfg ∷ [])

unfoldable pub required_pairs : List MarketConfig → List (Text × Text)
required_pairs cfgs = pairs_loop cfgs []

-- _LOOKBACK_DAYS
abbrev pub lookback_days : ℕ
lookback_days = 14

-- `read` gives the rates of a source for a currency between two dates; `one` is the float 1.0.
module _ {F : Type 0} (one : F) (read : Text → Text → Date → Date → List (Date × F)) where
  abbrev pub secondary_of : Text → Text → Date → Date → List (Date × F) × Text
  secondary_of fx_source quote fill_start end =
      if text_eq fx_source (codes "BNR")
      then (read (codes "ECB") quote fill_start end, codes "ECB")
      else ([], [])

  -- The body of the loop of `process`: the rows of a pair, with the quote currency.
  unfoldable pub rows_of_pair : Date → Date → Text × Text → List (Text × (Date × F × Text))
  rows_of_pair start end (quote, fx_source) =
      let fill_start = minus_days start lookback_days in
      let (secondary, secondary_source) = secondary_of fx_source quote fill_start end in
      if text_eq fx_source synthetic
      then map (λ d. (quote, (d, one, synthetic))) (date_range start end)
      else map (λ r. (quote, r))
          (reconcile_and_fill start end (read fx_source quote fill_start end) fx_source secondary
            secondary_source (some fill_start))

  -- The rows that `process` merges, for the pairs.
  unfoldable pub rows_of_pairs : Date → Date → List (Text × Text) → List (Text × (Date × F × Text))
  rows_of_pairs start end [] = []
  rows_of_pairs start end (p ∷ pairs) = rows_of_pair start end p ++ rows_of_pairs start end pairs
