-- ===== src/Opcom.antt =====
-- OPCOM landing files to Bronze rows, src/shiden/processing/bronze/opcom.py. What `csv.reader`
-- makes of a file is a list of rows of cells. `F` stands for floats and `to_float` for the
-- built-in `float` (`none` for ValueError); digits are the ASCII ones. The Delta table that the
-- rows go to is outside the model.
pub mod Parsed
pub mod Days
pub mod Rows
use shiden_api.Base.{
  ℕ, zero, suc, ◌+◌, ◌*◌, ◌-◌, max, Bool, true, false, not, ◌&&◌, ◌||◌, List, [], ◌∷◌, ◌++◌, map,
  Option, none, some, ◌==◌, ltb, leb, length, get_elem?, if◌then◌else◌, ◌>>=◌,
}
use shiden_api.Base.Text.{Text, codes, strip, is_space}
use shiden_api.Calendar.{Date, date, date_range}
use shiden_api.Keys.{is_empty}

-- RESOLUTION_QUARTER_HOURLY
abbrev pub resolution_quarter_hourly : Text
resolution_quarter_hourly = codes "PT15M"

-- _QUARTER_HOURLY_RANGE
abbrev pub quarter_hourly_range : ℕ × ℕ
quarter_hourly_range = (92, 100)

pub record OpcomInterval (F : Type 0) : Type 0 where
  pub interval_15min : ℕ
  pub price_lei_mwh : F
  pub volume_mw : F
  pub volume_buy_mw : F
  pub volume_sell_mw : F

pub record OpcomRow (F : Type 0) : Type 0 where
  pub market_id : Text
  pub delivery_date : Date
  pub interval_15min : ℕ
  pub price_lei_mwh : F
  pub volume_mw : F
  pub volume_buy_mw : F
  pub volume_sell_mw : F
  pub ingested_at : Text
  pub source_url : Text

abbrev quote : ℕ
quote = b'"'

unfoldable pub strip_quotes_left : Text → Text
strip_quotes_left [] = []
strip_quotes_left (c ∷ s) = if c == quote then strip_quotes_left s else c ∷ s

abbrev quote_cons : ℕ → Text → Text
quote_cons c [] = if c == quote then [] else c ∷ []
quote_cons c (d ∷ s) = c ∷ d ∷ s

unfoldable pub strip_quotes_right : Text → Text
strip_quotes_right [] = []
strip_quotes_right (c ∷ s) = quote_cons c (strip_quotes_right s)

-- `c.strip().strip('"')`
unfoldable pub clean_cell : Text → Text
clean_cell c = strip_quotes_right (strip_quotes_left (strip c))

abbrev pub has_prefix : Text → Text → Bool
has_prefix [] s = true
has_prefix (c ∷ p) [] = false
has_prefix (c ∷ p) (d ∷ s) = (c == d) && has_prefix p s

-- `p in s`
unfoldable pub contains : Text → Text → Bool
contains p [] = is_empty p
contains p (c ∷ s) = has_prefix p (c ∷ s) || contains p s

unfoldable pub is_blank : List Text → Bool
is_blank [] = true
is_blank (c ∷ cells) = is_empty (strip c) && is_blank cells

abbrev pub first_cell : List Text → Text
first_cell [] = []
first_cell (c ∷ cells) = c

abbrev pub is_header : List Text → Bool
is_header stripped =
    leb 6 (length stripped) && contains (codes "Zona de tranzactionare") (first_cell stripped)

-- `_data_rows`, with the variable `in_data_block`.
unfoldable pub data_rows : Bool → List (List Text) → List (List Text)
data_rows in_data_block [] = []
data_rows in_data_block (row ∷ rows) =
    let stripped = map clean_cell row in
    let begun = in_data_block || (not (is_blank row) && is_header stripped) in
    let rest = data_rows begun rows in
    if is_blank row
    then rest
    else if not in_data_block
    then rest
    else if ltb (length stripped) 6
    then rest
    else stripped ∷ rest

abbrev pub is_digit : ℕ → Bool
is_digit c = leb 48 c && leb c 57

abbrev all_digits : Text → Bool
all_digits [] = true
all_digits (c ∷ s) = is_digit c && all_digits s

-- `s.isdigit()`
abbrev pub is_number : Text → Bool
is_number s = not (is_empty s) && all_digits s

-- `int(s)` of digits.
unfoldable pub digits_value : ℕ → Text → ℕ
digits_value n [] = n
digits_value n (c ∷ s) = digits_value (n * 10 + (c - 48)) s

abbrev pub remove_all : ℕ → Text → Text
remove_all d [] = []
remove_all d (c ∷ s) = if c == d then remove_all d s else c ∷ remove_all d s

abbrev pub replace_all : ℕ → ℕ → Text → Text
replace_all d e [] = []
replace_all d e (c ∷ s) = (if c == d then e else c) ∷ replace_all d e s

abbrev pub has_char : ℕ → Text → Bool
has_char d [] = false
has_char d (c ∷ s) = (c == d) || has_char d s

module _ {F : Type 0} (to_float : Text → Option F) where
  unfoldable pub parse_float : Text → Option F
  parse_float value =
      let cleaned = strip value in
      if has_char b',' cleaned
      then to_float (replace_all b',' b'.' (remove_all b'.' cleaned))
      else to_float cleaned

  -- The cell of a column as a float; `none` for the IndexError and the ValueError.
  abbrev pub float_at : List Text → ℕ → Option F
  float_at stripped i = elim (get_elem? stripped i) [ none ↦ none | some cell ↦ parse_float cell ]

  unfoldable pub row_to_interval : List Text → Option (OpcomInterval F)
  row_to_interval stripped = do
    interval ← get_elem? stripped 1
    if not (is_number interval) then none else do
      price ← float_at stripped 2
      total ← float_at stripped 3
      buy ← float_at stripped 4
      sell ← float_at stripped 5
      some (record {
        interval_15min = digits_value 0 interval;
        price_lei_mwh = price;
        volume_mw = total;
        volume_buy_mw = buy;
        volume_sell_mw = sell;
      })

  -- The rows that parse.
  unfoldable pub to_intervals : List (List Text) → List (OpcomInterval F)
  to_intervals [] = []
  to_intervals (row ∷ rows) = elim (row_to_interval row) [
    | none ↦ to_intervals rows
    | some interval ↦ interval ∷ to_intervals rows
  ]

  unfoldable pub highest : List (OpcomInterval F) → ℕ
  highest [] = 0
  highest (i ∷ is) = max i.interval_15min (highest is)

  -- `none` stands for UnsupportedResolutionError, of which there are two texts.
  unfoldable pub detect_resolution : List (OpcomInterval F) → Option Text
  detect_resolution intervals =
      if leb quarter_hourly_range.0 (highest intervals)
        && leb (highest intervals) quarter_hourly_range.1
      then some resolution_quarter_hourly
      else none

  -- The intervals, if their resolution is accepted; no intervals are not tested.
  abbrev pub checked : List (OpcomInterval F) → Option (List (OpcomInterval F))
  checked [] = some []
  checked (i ∷ is) = elim (detect_resolution (i ∷ is)) [ none ↦ none | some r ↦ some (i ∷ is) ]

  -- `_parse_csv`; `none` stands for UnsupportedResolutionError.
  unfoldable pub parse_csv : List (List Text) → Option (List (OpcomInterval F))
  parse_csv raw = checked (to_intervals (data_rows false raw))

  -- What `_load_day` does: no intervals, the intervals of the day, or the exception.
  pub data Loaded : Type 0 where
    no_intervals unsupported : Loaded
    loaded : List (OpcomInterval F) → Loaded

  abbrev pub day_of : Option (List (OpcomInterval F)) → Loaded
  day_of none = unsupported
  day_of (some []) = no_intervals
  day_of (some (i ∷ is)) = loaded (i ∷ is)

  -- The landing file of a day, as rows, if there is one.
  unfoldable pub load_day : Option (List (List Text)) → Loaded
  load_day none = no_intervals
  load_day (some raw) = day_of (parse_csv raw)

  abbrev pub to_rows : Text → Date → List (OpcomInterval F) → Text → Text → List (OpcomRow F)
  to_rows market_id day [] ingested_at source_url = []
  to_rows market_id day (i ∷ is) ingested_at source_url =
      record {
        market_id = market_id;
        delivery_date = day;
        interval_15min = i.interval_15min;
        price_lei_mwh = i.price_lei_mwh;
        volume_mw = i.volume_mw;
        volume_buy_mw = i.volume_buy_mw;
        volume_sell_mw = i.volume_sell_mw;
        ingested_at = ingested_at;
        source_url = source_url;
      }
      ∷ to_rows market_id day is ingested_at source_url
