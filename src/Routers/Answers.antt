-- ===== src/Routers/Answers.antt =====
-- What the price endpoint src/shiden/api/routers/prices.py answers, in the order of its checks.
use shiden_api.Base.{
  ℕ, ◌≤◌, ◌≡◌, refl, ◌∙◌, inl, inr, Bool, true, false, ◌&&◌, List, [], ◌∷◌, map, keep, length,
  length-map, All, Option, none, some, leb, leb→le, ◌==◌, Bool-cases, Option-cases, arith,
}
use shiden_api.Base.Text.{Text, codes, text_eq}
use shiden_api.Calendar.{Date, date_ltb, date_to_id}
use shiden_api.Markets.{MarketConfig, markets, find_market}
use shiden_api.Routers.{
  Answer, ok, http_error, Filter, market_is, date_from, date_until, date_is, Delta, gold_path,
  read_gold, require_market, validate_date_range, or_unavailable, query_range, PriceRow,
  PriceResponse, price_interval, price_response, get_day_ahead_prices,
}

abbrev pub range_filters : Text → Date → Date → List Filter
range_filters market_id start end =
    market_is market_id ∷ date_from (date_to_id start) ∷ date_until (date_to_id end) ∷ []

abbrev pub IsWithin : Date → Date → ℕ → Type 0
IsWithin start end id = (date_to_id start ≤ id) × (id ≤ date_to_id end)

All-map :
    {A B : Type 0} (Q : B → Type 0) (f : A → B) (xs : List A)
    → All (λ x. Q (f x)) xs
    → All Q (map f xs)
All-map Q f [] h = tt
All-map Q f (x ∷ xs) h = (h.0, All-map Q f xs h.1)

module _ {F : Type 0} where
  abbrev pub matches : List Filter → PriceRow F → Bool
  matches [] row = true
  matches (market_is m ∷ fs) row = text_eq row.market_id m && matches fs row
  matches (date_from n ∷ fs) row = leb n row.date_id && matches fs row
  matches (date_until n ∷ fs) row = leb row.date_id n && matches fs row
  matches (date_is n ∷ fs) row = (row.date_id == n) && matches fs row

  -- What is documented of a read with filters; `none` is a table that is not there.
  abbrev pub opened : Option (List (PriceRow F)) → Option (List Filter → List (PriceRow F))
  opened none = none
  opened (some rows) = some (λ filters. keep (matches filters) rows)

  abbrev filtered : List Filter → Option (List (PriceRow F)) → Option (List (PriceRow F))
  filtered filters none = none
  filtered filters (some rows) = some (keep (matches filters) rows)

  -- A sort loses and adds no row.
  pub record IsSort (sort_values : List (PriceRow F) → List (PriceRow F)) : Type 1 where
    pub keeps_all :
        (Q : PriceRow F → Type 0) (rows : List (PriceRow F)) → All Q rows → All Q (sort_values rows)
    pub keeps_length : (rows : List (PriceRow F)) → length (sort_values rows) ≡ length rows

  -- The answers, each with its reason.
  pub data Answered (table : Option (List (PriceRow F))) (market_id : Text) (start end : Date)
      : Answer (PriceResponse F) → Type 0 where
    unknown_market :
        find_market market_id markets ≡ none → Answered table market_id start end (http_error 404)
    inverted_range :
        (market : MarketConfig)
        → find_market market_id markets ≡ some market
        → date_ltb end start ≡ true
        → Answered table market_id start end (http_error 422)
    unavailable :
        (market : MarketConfig)
        → find_market market_id markets ≡ some market
        → date_ltb end start ≡ false
        → table ≡ none
        → Answered table market_id start end (http_error 503)
    served :
        (market : MarketConfig) (rows : List (PriceRow F)) (r : PriceResponse F)
        → find_market market_id markets ≡ some market
        → date_ltb end start ≡ false
        → table ≡ some rows
        → (r.market_id ≡ market_id) × (r.currency ≡ market.currency)
        → All (λ iv. IsWithin start end iv.date_id) r.intervals
        → length r.intervals ≡ length (keep (matches (range_filters market_id start end)) rows)
        → Answered table market_id start end (ok r)

  kept-IsWithin :
      (market_id : Text) (start end : Date) (rows : List (PriceRow F))
      → All
          (λ row. IsWithin start end row.date_id)
          (keep (matches (range_filters market_id start end)) rows)
  kept-IsWithin market_id start end [] = tt
  kept-IsWithin market_id start end (row ∷ rows) =
      elim (Bool-cases (matches (range_filters market_id start end) row)) [
        | inl t ↦ rw t (within row t, kept-IsWithin market_id start end rows)
        | inr f ↦ rw f (kept-IsWithin market_id start end rows)
      ]
    where
      within :
          (row : PriceRow F)
          → matches (range_filters market_id start end) row ≡ true
          → IsWithin start end row.date_id
      within row t =
          ground (arith, leb→le (date_to_id start) row.date_id, leb→le row.date_id (date_to_id end))

module _ {F : Type 0} (is_nan : F → Bool) (sort_values : List (PriceRow F) → List (PriceRow F))
    (delta : Delta (PriceRow F)) (is_sort : IsSort sort_values) (table : Option (List (PriceRow F)))
    (reads : delta.table_at (gold_path delta.base_path (codes "price_hourly")) ≡ opened table) where
  read_gold_lem :
      (filters : List Filter)
      → read_gold delta (codes "price_hourly") filters ≡ filtered filters table
  unfolding read_gold
  read_gold_lem filters = rw (reads, read_gold) (go table)
    where
      go :
          (t : Option (List (PriceRow F)))
          → (elim (opened t) [ none ↦ none | some to_pandas ↦ some (to_pandas filters) ])
            ≡ filtered filters t
      go none = refl
      go (some rows) = refl

  answer_rows :
      (market_id : Text) (start end : Date) (market : MarketConfig) (t : Option (List (PriceRow F)))
      → find_market market_id markets ≡ some market
      → date_ltb end start ≡ false
      → table ≡ t
      → Answered table market_id start end (
          or_unavailable
            (filtered (range_filters market_id start end) t)
            (λ df. price_response is_nan market_id start end market (sort_values df)))
  answer_rows market_id start end market none m d t = unavailable market m d t
  answer_rows market_id start end market (some rows) m d t =
      let found = keep (matches (range_filters market_id start end)) rows in
      served market rows _ m d t (refl, refl)
        (All-map (λ iv. IsWithin start end iv.date_id) (price_interval is_nan) (sort_values found)
          (is_sort.keeps_all (λ row. IsWithin start end row.date_id) found
            (kept-IsWithin market_id start end rows)))
        (length-map (sort_values found) (price_interval is_nan) ∙ is_sort.keeps_length found)

  -- Provided reading the table with filters gives the rows that match them, and sorting keeps the rows:
  -- `get_day_ahead_prices` answers 404 for an unknown market, whatever the dates; else 422 if the
  -- range is inverted; else 503 if the table is not there; else it responds in the currency of
  -- the market with one interval for each row of that market in the range, and with no other date.
  pub get_day_ahead_prices-Answered :
      (market_id : Text) (start end : Date)
      → Answered table market_id start end
          (get_day_ahead_prices is_nan sort_values delta market_id start end)
  unfolding get_day_ahead_prices query_range require_market validate_date_range
  get_day_ahead_prices-Answered market_id start end =
      elim (Option-cases (find_market market_id markets)) [
        | inl n ↦ rw n (unknown_market n)
        | inr (market, m) ↦ elim (Bool-cases (date_ltb end start)) [
          | inl t ↦ rw (m, t) (inverted_range market m t)
          | inr f ↦
              rw (m, f, read_gold_lem (range_filters market_id start end))
                (answer_rows market_id start end market table m f refl)
        ]
      ]
