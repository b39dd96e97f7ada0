-- ===== src/Markets/Weights.antt =====
-- The weights of the weather locations of src/shiden/config/markets.py.
use shiden_api.Base.{
  ℕ, ◌+◌, ◌≡◌, refl, List, [], ◌∷◌, some, All, Bool, true, inl, inr, Bool-cases, map, not, ◌&&◌,
  ltb, leb,
}
use mathlib.Core.Option.{some-injective}
use mathlib.Core.Path.{subst}
use shiden_api.Base.Text.{Text, text_eq, mem_text}
use shiden_api.Markets.{WeatherLocation, MarketConfig, markets, romania, find_market, get_market}

abbrev pub total : (WeatherLocation → ℕ) → List WeatherLocation → ℕ
total f [] = 0
total f (l ∷ ls) = f l + total f ls

abbrev pub distinct : List Text → Bool
distinct [] = true
distinct (t ∷ ts) = not (mem_text t ts) && distinct ts

-- Each set of weights makes one whole, the locations have different names, and the peak block
-- is an interval within the day.
pub record IsSound (m : MarketConfig) : Type 0 where
  pub wind : total (λ l. l.wind_weight) m.weather_locations ≡ 100
  pub solar : total (λ l. l.solar_weight) m.weather_locations ≡ 100
  pub demand : total (λ l. l.demand_weight) m.weather_locations ≡ 100
  pub names : distinct (map (λ l. l.name) m.weather_locations) ≡ true
  pub peak : (ltb m.peak_start_hour m.peak_end_hour ≡ true) × (leb m.peak_end_hour 24 ≡ true)

romania-IsSound : IsSound romania
romania-IsSound = record {
  wind = refl;
  solar = refl;
  demand = refl;
  names = refl;
  peak = (refl, refl);
}

find_market-All :
    (P : MarketConfig → Type 0) (id : Text) (ms : List (Text × MarketConfig)) (m : MarketConfig)
    → All (λ e. P e.1) ms
    → find_market id ms ≡ some m
    → P m
find_market-All P id [] m h e = cc
find_market-All P id ((k, n) ∷ ms) m h e = elim (Bool-cases (text_eq k id)) [
  | inl y ↦ subst P (some-injective n m (rw y at e)) h.0
  | inr n ↦ find_market-All P id ms m h.1 (rw n at e)
]

-- A market that `get_market` returns has wind, solar and demand weights that each add up to 1.0
-- over its locations, locations with different names, and a peak block that is a nonempty
-- interval of hours of the day.
pub get_market-IsSound :
    (market_id : Text) (m : MarketConfig) → get_market market_id ≡ some m → IsSound m
unfolding get_market
get_market-IsSound market_id m e =
    find_market-All IsSound market_id markets m (romania-IsSound, tt) e
