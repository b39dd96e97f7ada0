-- ===== src/Entsoe/Fetch.antt =====
-- The ENTSO-E ingester, src/shiden/ingestion/entsoe.py. Queries of entsoe-py are a parameter: an
-- answer for each attempt. A frame of pandas is its columns and rows; a NaN is `none`.
use shiden_api.Base.{
  ℕ, ◌+◌, ◌/◌, ◌%◌, Bool, true, false, ◌||◌, List, [], ◌∷◌, ◌++◌, map, Option, none, some, keep,
}
use shiden_api.Base.Text.{Text, codes}
use shiden_api.Base.Json.{Json, null, number, text, object, no_fields, field}
use shiden_api.Calendar.{Date, date_eq}
use shiden_api.Ingest.{retry_loop}
use shiden_api.LandingPaths.{isoformat}

-- An entry of a frame's index, as UTC; `tz_convert` is that of pandas.
pub record Stamp : Type 0 where
  pub day : Date
  pub hour : ℕ
  pub minute : ℕ
  pub second : ℕ

-- Names of columns: plain ones, or pairs of a MultiIndex.
pub data Columns : Type 0 where
  plain : List Text → Columns
  multi : List (Text × Text) → Columns

pub record Frame (F : Type 0) : Type 0 where
  pub columns : Columns
  pub rows : List (Stamp × List (Option F))

-- What one query does. `query_load` may answer with a series.
pub data Answer (F : Type 0) : Type 0 where
  frame : Frame F → Answer F
  series : List (Stamp × Option F) → Answer F
  no_matching_data raised : Answer F

-- What `_call_with_retry` returns: what the query returned, or an empty frame.
pub data Called (F : Type 0) : Type 0 where
  returned : Answer F → Called F
  empty_frame runtime_error : Called F

abbrev digits : ℕ → Text
digits n = (48 + n / 10 % 10) ∷ (48 + n % 10) ∷ []

-- `ts.strftime("%Y-%m-%dT%H:%M:%S")`
unfoldable pub ts_to_utc_str : Stamp → Text
ts_to_utc_str ts =
    isoformat ts.day
    ++ (codes "T"
        ++ (digits ts.hour ++ (codes ":" ++ (digits ts.minute ++ (codes ":" ++ digits ts.second)))))

-- Flattened names: `"Type|SubType"`, or the type alone if the subtype is empty.
abbrev pub flat_name : Text × Text → Text
flat_name (name, []) = name
flat_name (name, c ∷ sub) = name ++ (codes "|" ++ c ∷ sub)

abbrev pub column_names : Columns → List Text
column_names (plain names) = names
column_names (multi names) = map flat_name names

abbrev pub is_nil {ℓ} : {A : Type ℓ} → List A → Bool
is_nil [] = true
is_nil (x ∷ xs) = false

module _ {F : Type 0} where
  -- `_call_with_retry` with its default of three attempts, waiting 5 seconds, then 10.
  abbrev pub ended : Answer F → Option (Called F)
  ended no_matching_data = some empty_frame
  ended raised = none
  ended answer = some (returned answer)

  unfoldable pub call_with_retry : (ℕ → Answer F) → List ℕ × Called F
  call_with_retry fn = retry_loop (λ n. ended (fn n)) runtime_error 3 3 0 5

  -- `None if pd.isna(val) else float(val)`
  abbrev pub value_of : Option F → Json F
  value_of none = null
  value_of (some x) = number x

  -- `row.items()`
  abbrev pub cells_of : List Text → List (Option F) → List (Text × Option F)
  cells_of [] vals = []
  cells_of (n ∷ names) [] = []
  cells_of (n ∷ names) (v ∷ vals) = (n, v) ∷ cells_of names vals

  abbrev pub generation_record : Stamp → Text × Option F → Json F
  generation_record ts (col, val) = object (
      field (codes "timestamp_utc") (text (ts_to_utc_str ts)) (
        field (codes "production_type") (text col)
          (field (codes "actual_mw") (value_of val) no_fields)))

  abbrev pub load_record : Stamp × Option F → Json F
  load_record (ts, val) = object (
      field (codes "timestamp_utc") (text (ts_to_utc_str ts))
        (field (codes "actual_load_mw") (value_of val) no_fields))

  -- The loops of `_generation_to_records` over rows and, within a row, columns.
  unfoldable pub long_rows : List Text → List (Stamp × List (Option F)) → List (Json F)
  long_rows names [] = []
  long_rows names ((ts, vals) ∷ rows) =
      map (generation_record ts) (cells_of names vals) ++ long_rows names rows

  unfoldable pub generation_to_records : Frame F → List (Json F)
  generation_to_records df = long_rows (column_names df.columns) df.rows

  -- The values of `df.columns[0]`.
  unfoldable pub first_column : List (Stamp × List (Option F)) → List (Stamp × Option F)
  first_column [] = []
  first_column ((ts, []) ∷ rows) = first_column rows
  first_column ((ts, v ∷ vals) ∷ rows) = (ts, v) ∷ first_column rows

  unfoldable pub load_to_records : Frame F → List (Json F)
  load_to_records df = map load_record (first_column df.rows)

  unfoldable pub filter_day : Frame F → Date → Frame F
  filter_day df d = record df { rows = keep (λ r. date_eq r.0.day d) df.rows }

  -- `df.empty`: no rows, or no columns.
  abbrev pub is_empty_frame : Frame F → Bool
  is_empty_frame df = is_nil df.rows || is_nil (column_names df.columns)

  abbrev pub to_frame : List (Stamp × Option F) → Frame F
  to_frame values = record {
    columns = plain (codes "Actual Load" ∷ []);
    rows = map (λ r. (r.0, r.1 ∷ [])) values;
  }

  -- The frame that `_fetch_generation` and `_fetch_load` return; `none` is the RuntimeError.
  abbrev pub frame_of : Called F → Option (Frame F)
  frame_of (returned (frame df)) = some df
  frame_of (returned (series values)) = some (to_frame values)
  frame_of runtime_error = none
  frame_of _ = some (record { columns = plain []; rows = [] })
