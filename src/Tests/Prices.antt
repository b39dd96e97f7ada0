-- ===== src/Tests/Prices.antt =====
-- Battery signals and the price endpoint at concrete prices.
use shiden_api.Base.{ℕ, ◌≤◌, ◌≡◌, refl, false, List, [], ◌∷◌, Option, none, some, ltb, ◌==◌, arith}
use shiden_api.Bess.{
  charge, idle, discharge, assign_signals, assign_loop, sort_prices, insert_price, valid_indexed,
}
use shiden_api.Base.Text.{codes}
use shiden_api.Calendar.{date}
use shiden_api.Routers.{PriceRow, Delta, get_day_ahead_prices}
use shiden_api.Routers.Answers.{opened, IsSort, Answered, get_day_ahead_prices-Answered}
use shiden_api.Bess.Sorted.{IsOrder}
use shiden_api.Bess.Ranks.{level, assign_signals-level}

abbrev prices : List (Option ℕ)
prices = some 30 ∷ some 10 ∷ none ∷ some 50 ∷ some 20 ∷ []

signals_of_day : assign_signals ltb prices 2 1 ≡ idle ∷ charge ∷ idle ∷ discharge ∷ charge ∷ []
unfolding assign_signals assign_loop sort_prices insert_price valid_indexed
signals_of_day = refl

ltb-IsOrder : IsOrder ltb
ltb-IsOrder = record { asym = λ p q h. ground arith; trans = λ p q r h k. ground arith }

assign_signals-level_example : level charge ≤ level idle
unfolding assign_signals assign_loop sort_prices insert_price valid_indexed
assign_signals-level_example =
    assign_signals-level ltb ltb-IsOrder prices 2 1 4 0 20 30 charge idle refl refl refl refl refl

abbrev price_row : ℕ → ℕ → PriceRow ℕ
price_row day slot = record {
  market_id = codes "RO";
  date_id = day;
  time_id = slot;
  time_label = codes "00:00";
  price_local_mwh = some 250;
  fx_rate = some 5;
  price_eur_mwh = some 50;
  is_peak = false;
}

abbrev price_hourly : List (PriceRow ℕ)
price_hourly = price_row 20260301 0 ∷ price_row 20260302 0 ∷ price_row 20260303 4 ∷ []

abbrev tables : Delta (PriceRow ℕ)
tables = record { base_path = codes "/data"; table_at = λ path. opened (some price_hourly) }

no-IsSort : IsSort {F = ℕ} (λ rows. rows)
no-IsSort = record { keeps_all = λ Q rows h. h; keeps_length = λ rows. refl }

get_day_ahead_prices-Answered_example :
    Answered (some price_hourly) (codes "RO") (date 2026 3 2) (date 2026 3 3) (
      get_day_ahead_prices
        (λ x. x == 0)
        (λ rows. rows)
        tables
        (codes "RO")
        (date 2026 3 2)
        (date 2026 3 3))
get_day_ahead_prices-Answered_example =
    get_day_ahead_prices-Answered (λ x. x == 0) (λ rows. rows) tables no-IsSort (some price_hourly)
      refl (codes "RO") (date 2026 3 2) (date 2026 3 3)
