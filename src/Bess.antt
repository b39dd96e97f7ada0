-- ===== src/Bess.antt =====
-- Battery signals: `assign_signals` of src/shiden/processing/gold/gold_bess_signals.py and the
-- endpoint for arbitrage windows of src/shiden/api/routers/bess.py. `P` stands for the floats of
-- prices.
pub mod Runs
pub mod Signals
pub mod Sorted
pub mod Ranks
use shiden_api.Base.{
  ℕ, zero, suc, ◌+◌, ◌-◌, Bool, true, false, not, ◌&&◌, ◌||◌, List, [], ◌∷◌, ◌++◌, map, Option,
  none, some, ltb, leb, length, if◌then◌else◌,
}
use shiden_api.Base.Text.{Text}

-- The signals -1, 0 and 1.
pub data Signal : Type 0 where
  charge idle discharge : Signal

abbrev pub signal_eq : Signal → Signal → Bool
signal_eq charge charge = true
signal_eq idle idle = true
signal_eq discharge discharge = true
signal_eq _ _ = false

abbrev pub set_at : ℕ → Signal → List Signal → List Signal
set_at i v [] = []
set_at zero v (s ∷ ss) = v ∷ ss
set_at (suc i) v (s ∷ ss) = s ∷ set_at i v ss

-- The signal of a rank, if the loop assigns one; `count` prices are valid. The comparison
-- `rank >= count - discharge_slots` is one of integers that may be negative.
abbrev pub signal_of_rank : ℕ → ℕ → ℕ → ℕ → Option Signal
signal_of_rank charge_slots discharge_slots count rank =
    if ltb rank charge_slots
    then some charge
    else if leb count (rank + discharge_slots)
    then some discharge
    else none

abbrev pub set_signal : ℕ → Option Signal → List Signal → List Signal
set_signal i none signals = signals
set_signal i (some v) signals = set_at i v signals

module _ {P : Type 0} (price_ltb : P → P → Bool) where
  -- Ascending by price; elements with the same price stay in order, as `list.sort` leaves them.
  unfoldable pub insert_price : P × ℕ → List (P × ℕ) → List (P × ℕ)
  insert_price x [] = x ∷ []
  insert_price x (y ∷ ys) = if price_ltb y.0 x.0 then y ∷ insert_price x ys else x ∷ y ∷ ys

  unfoldable pub sort_prices : List (P × ℕ) → List (P × ℕ)
  sort_prices [] = []
  sort_prices (x ∷ xs) = insert_price x (sort_prices xs)

  -- The prices that are there, with their positions from `i` on.
  unfoldable pub valid_indexed : ℕ → List (Option P) → List (P × ℕ)
  valid_indexed i [] = []
  valid_indexed i (none ∷ ps) = valid_indexed (suc i) ps
  valid_indexed i (some p ∷ ps) = (p, i) ∷ valid_indexed (suc i) ps

  unfoldable pub assign_loop : ℕ → ℕ → ℕ → ℕ → List (P × ℕ) → List Signal → List Signal
  assign_loop charge_slots discharge_slots count rank [] signals = signals
  assign_loop charge_slots discharge_slots count rank ((p, i) ∷ rest) signals =
      assign_loop charge_slots discharge_slots count (suc rank) rest
        (set_signal i (signal_of_rank charge_slots discharge_slots count rank) signals)

  unfoldable pub assign_signals : List (Option P) → ℕ → ℕ → List Signal
  assign_signals prices_asc charge_slots discharge_slots =
      let valid = sort_prices (valid_indexed 0 prices_asc) in
      assign_loop charge_slots discharge_slots (length valid) 0 valid (map (λ p. idle) prices_asc)

-- A row of the Gold table, as the endpoint reads it.
pub record SignalRow (P : Type 0) : Type 0 where
  pub time_id : ℕ
  pub time_label : Text
  pub signal : Signal
  pub price_eur_mwh : Option P
  pub arbitrage_spread_eur_mwh : Option P

pub record ArbitrageWindow (P : Type 0) : Type 0 where
  pub type_is : Signal
  pub start_time_id : ℕ
  pub end_time_id : ℕ
  pub start_label : Text
  pub end_label : Text
  pub avg_price_eur_mwh : Option P
  pub n_slots : ℕ

-- A run of rows: the first and those after it.
abbrev pub RowRun : Type 0 → Type 0
RowRun P = SignalRow P × List (SignalRow P)

-- `mean` is the sum of floats over their number.
module _ {P : Type 0} (mean : List P → P) where
  abbrev pub join_run : SignalRow P → List (RowRun P) → List (RowRun P)
  join_run r [] = (r, []) ∷ []
  join_run r ((q, qs) ∷ runs) =
      if signal_eq r.signal q.signal then (r, q ∷ qs) ∷ runs else (r, []) ∷ (q, qs) ∷ runs

  -- `groupby` on the signal.
  unfoldable pub group_by_signal : List (SignalRow P) → List (RowRun P)
  group_by_signal [] = []
  group_by_signal (r ∷ rows) = join_run r (group_by_signal rows)

  abbrev pub valid_prices : List (SignalRow P) → List P
  valid_prices [] = []
  valid_prices (r ∷ rows) = elim r.price_eur_mwh [
    | none ↦ valid_prices rows
    | some p ↦ p ∷ valid_prices rows
  ]

  abbrev pub average : List P → Option P
  average [] = none
  average (p ∷ ps) = some (mean (p ∷ ps))

  abbrev pub last_row : SignalRow P → List (SignalRow P) → SignalRow P
  last_row r [] = r
  last_row r (q ∷ qs) = last_row q qs

  abbrev pub window_of : RowRun P → ArbitrageWindow P
  window_of (r, rows) = record {
    type_is = r.signal;
    start_time_id = r.time_id;
    end_time_id = (last_row r rows).time_id;
    start_label = r.time_label;
    end_label = (last_row r rows).time_label;
    avg_price_eur_mwh = average (valid_prices (r ∷ rows));
    n_slots = suc (length rows);
  }

  -- The windows of one kind, in order.
  unfoldable pub windows : Signal → List (RowRun P) → List (ArbitrageWindow P)
  windows kind [] = []
  windows kind (run ∷ runs) =
      if signal_eq run.0.signal kind then window_of run ∷ windows kind runs else windows kind runs

  pub record ArbitrageResponse : Type 0 where
    pub spread : Option P
    pub charge_windows : List (ArbitrageWindow P)
    pub discharge_windows : List (ArbitrageWindow P)

  abbrev pub first_spread : List (SignalRow P) → Option P
  first_spread [] = none
  first_spread (r ∷ rows) = r.arbitrage_spread_eur_mwh

  -- The body of the endpoint on the day's rows, sorted by `time_id`.
  unfoldable pub arbitrage_windows : List (SignalRow P) → ArbitrageResponse
  arbitrage_windows rows = record {
    spread = first_spread rows;
    charge_windows = windows charge (group_by_signal rows);
    discharge_windows = windows discharge (group_by_signal rows);
  }
