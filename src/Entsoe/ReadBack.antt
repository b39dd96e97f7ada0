-- ===== src/Entsoe/ReadBack.antt =====
-- From the ENTSO-E frames of src/shiden/ingestion/entsoe.py through the landing files to the rows of
-- src/shiden/processing/bronze/entsoe.py.
use shiden_api.Base.{
  ◌≤◌, ◌<◌, ◌≡◌, refl, ap, ap₂, ◌∙◌, inl, inr, Bool, true, false, ◌||◌, List, [], ◌∷◌, ◌++◌, map,
  All, Option, none, some, keep, Bool-cases, arith, if◌then◌else◌,
}
use shiden_api.Base.Text.{Text}
use shiden_api.Base.Json.{Json, JsonLib, text, items_of-items_from, nullable_float}
use shiden_api.Calendar.{Date, IsValid, date_eq, date_range}
use shiden_api.Landing.{Landing, find_file, mem_date, rows_of_file, or_else, find_file-write_days}
use shiden_api.Entsoe.{
  GenerationRow, parse_landing_generation_json, parse_records, add_record, generation_row,
  parse_file,
}
use shiden_api.Entsoe.Fetch.{
  Stamp, Frame, ts_to_utc_str, cells_of, column_names, generation_record, long_rows,
  generation_to_records, filter_day, is_empty_frame, is_nil, value_of,
}
use shiden_api.Entsoe.Ingest.{Source, content_on, document, ingest_series}

-- A time that the text of `strftime` tells: a date with a year of four digits, and a clock.
pub record IsClock (ts : Stamp) : Type 0 where
  pub day_in : IsValid ts.day
  pub year_in : (1000 ≤ ts.day.year) × (ts.day.year ≤ 9999)
  pub clock_in : (ts.hour < 24) × (ts.minute < 60) × (ts.second < 60)

-- What the program relies on of `json` and `datetime`: they read what they have written.
pub record IsFaithful {C F S : Type 0} (lib : JsonLib C F S) : Type 0 where
  pub datetime : Stamp → S
  pub loads_dumps : (j : Json F) → lib.loads (lib.dumps j) ≡ some j
  pub fromisoformat_str :
      (ts : Stamp) → IsClock ts → lib.fromisoformat (ts_to_utc_str ts) ≡ some (datetime ts)
  pub str_of_text : (s : Text) → lib.str_of (text s) ≡ s

-- The rows that a frame stands for: one for each of its rows and, within it, each column.
module _ {F S : Type 0} (datetime : Stamp → S) (market_id : Text) (ingested_at : S) where
  abbrev pub generation_of : Stamp → Text × Option F → GenerationRow F S
  generation_of ts (col, val) = record {
    market_id = market_id;
    timestamp_utc = datetime ts;
    production_type = col;
    actual_mw = val;
    ingested_at = ingested_at;
  }

  abbrev pub generations : List Text → List (Stamp × List (Option F)) → List (GenerationRow F S)
  generations names [] = []
  generations names ((ts, vals) ∷ rows) =
      map (generation_of ts) (cells_of names vals) ++ generations names rows

module _ {C F S : Type 0} (lib : JsonLib C F S) (faithful : IsFaithful lib) (market_id : Text)
    (ingested_at : S) where
  read_value : (v : Option F) → nullable_float lib (some (value_of v)) ≡ some v
  read_value none = refl
  read_value (some x) = refl

  read_generation :
      (ts : Stamp) (cell : Text × Option F)
      → IsClock ts
      → generation_row lib market_id ingested_at (generation_record ts cell)
        ≡ some (generation_of faithful.datetime market_id ingested_at ts cell)
  unfolding generation_row
  read_generation ts (col, val) clock =
      rw (faithful.fromisoformat_str ts clock, read_value val, faithful.str_of_text col) refl

  read_cells :
      (ts : Stamp) (cells : List (Text × Option F)) (later : List (Json F))
      → IsClock ts
      → parse_records
          (generation_row lib market_id ingested_at)
          (map (generation_record ts) cells ++ later)
        ≡ map (generation_of faithful.datetime market_id ingested_at ts) cells
          ++ parse_records (generation_row lib market_id ingested_at) later
  unfolding parse_records
  read_cells ts [] later clock = refl
  read_cells ts (c ∷ cells) later clock =
      ap₂ add_record (read_generation ts c clock) (read_cells ts cells later clock)

  read_rows :
      (names : List Text) (rows : List (Stamp × List (Option F)))
      → All (λ r. IsClock r.0) rows
      → parse_records (generation_row lib market_id ingested_at) (long_rows names rows)
        ≡ generations faithful.datetime market_id ingested_at names rows
  unfolding long_rows parse_records
  read_rows names [] h = refl
  read_rows names ((ts, vals) ∷ rows) (clock, h) =
      read_cells ts (cells_of names vals) (long_rows names rows) clock
      ∙ ap
          (λ l.
            map (generation_of faithful.datetime market_id ingested_at ts) (cells_of names vals)
            ++ l)
          (read_rows names rows h)

  -- Reading a document that was written gives the rows of its records.
  read_document :
      {R : Type 0} (of_record : Json F → Option R) (src : Source) (d : Date)
      (records : List (Json F))
      → parse_file lib of_record (lib.dumps (document lib src d records))
        ≡ some (parse_records of_record records)
  unfolding parse_file
  read_document of_record src d records =
      rw (faithful.loads_dumps (document lib src d records), parse_file)
        (ap (λ js. some (parse_records of_record js)) (items_of-items_from records))

  keep-All :
      (d : Date) (rows : List (Stamp × List (Option F)))
      → All (λ r. IsClock r.0) rows
      → All (λ r. IsClock r.0) (keep (λ r. date_eq r.0.day d) rows)
  keep-All d [] h = tt
  keep-All d (r ∷ rows) h = elim (Bool-cases (date_eq r.0.day d)) [
    | inl t ↦ rw t (h.0, keep-All d rows h.1)
    | inr f ↦ rw f (keep-All d rows h.1)
  ]

  read_day :
      (df : Frame F) (d : Date)
      → All (λ r. IsClock r.0) df.rows
      → parse_records
          (generation_row lib market_id ingested_at)
          (generation_to_records (filter_day df d))
        ≡ generations faithful.datetime market_id ingested_at
            (column_names df.columns)
            (filter_day df d).rows
  unfolding generation_to_records filter_day
  read_day df d h = read_rows (column_names df.columns) _ (keep-All d df.rows h)

  read_landed :
      (src : Source) (df : Frame F) (d : Date) (old : Option C)
      → All (λ r. IsClock r.0) df.rows
      → let parse = parse_landing_generation_json lib market_id ingested_at in
        rows_of_file parse (or_else (content_on lib generation_to_records src df d) old) ≡ (
          if is_empty_frame (filter_day df d)
          then rows_of_file parse old
          else some (
              generations faithful.datetime market_id ingested_at
                (column_names df.columns)
                (filter_day df d).rows))
  read_landed src df d old h = elim (Bool-cases (is_empty_frame (filter_day df d))) [
    | inl t ↦ rw t refl
    | inr f ↦ rw f (
        read_document (generation_row lib market_id ingested_at) src d _
        ∙ ap some (read_day df d h))
  ]

  no_day :
      (df : Frame F) (d : Date) → is_empty_frame df ≡ true → is_empty_frame (filter_day df d) ≡ true
  unfolding filter_day
  no_day df d h = go df.rows (column_names df.columns) h
    where
      go :
          (rows : List (Stamp × List (Option F))) (names : List Text)
          → (is_nil rows || is_nil names) ≡ true
          → (is_nil (keep (λ r. date_eq r.0.day d) rows) || is_nil names) ≡ true
      go [] names e = refl
      go (r ∷ rows) [] e = ground arith
      go (r ∷ rows) (n ∷ names) e = cc

  read_either :
      (m : Bool) (src : Source) (df : Frame F) (d : Date) (old : Option C)
      → All (λ r. IsClock r.0) df.rows
      → let parse = parse_landing_generation_json lib market_id ingested_at in
        rows_of_file parse
          (if m then or_else (content_on lib generation_to_records src df d) old else old)
        ≡ (if m
            then (if is_empty_frame (filter_day df d)
                then rows_of_file parse old
                else some (
                    generations faithful.datetime market_id ingested_at
                      (column_names df.columns)
                      (filter_day df d).rows))
            else rows_of_file parse old)
  read_either true src df d old h = read_landed src df d old h
  read_either false src df d old h = refl

  unchanged {ℓ} :
      {A : Type ℓ} (m b : Bool) (x y : A) → b ≡ true → x ≡ (if m then (if b then x else y) else x)
  unchanged true true x y e = refl
  unchanged true false x y e = cc
  unchanged false b x y e = refl

  -- Provided `json` and `datetime` read what they wrote and the frame's index is in years of four
  -- digits: after `_ingest_series` has landed a frame of generation, the parser reads from the file
  -- of a day in the range exactly the rows of the frame on that day, one for each column, NaN as
  -- no value; if the frame has none on that day, or the day is out of the range, it reads what it
  -- would have read before.
  pub ingest_series-rows_of_file :
      (src : Source) (df : Frame F) (start end d : Date) (files : Landing C)
      → All (λ r. IsClock r.0) df.rows
      → let parse = parse_landing_generation_json lib market_id ingested_at in
        let old = rows_of_file parse (find_file d files) in
        rows_of_file parse
          (find_file d (ingest_series lib generation_to_records src df start end files))
        ≡ (if mem_date d (date_range start end)
            then (if is_empty_frame (filter_day df d)
                then old
                else some (
                    generations faithful.datetime market_id ingested_at
                      (column_names df.columns)
                      (filter_day df d).rows))
            else old)
  unfolding ingest_series
  ingest_series-rows_of_file src df start end d files h = elim (Bool-cases (is_empty_frame df)) [
    | inl t ↦ rw t (unchanged (mem_date d (date_range start end)) _ _ _ (no_day df d t))
    | inr f ↦ rw f (
        ap (rows_of_file (parse_landing_generation_json lib market_id ingested_at)) (
          find_file-write_days (content_on lib generation_to_records src df) d
            (date_range start end) files)
        ∙ read_either (mem_date d (date_range start end)) src df d (find_file d files) h)
  ]
