-- ===== src/Entsoe.antt =====
-- Landing files of ENTSO-E to Bronze rows, src/shiden/processing/bronze/entsoe.py, up to the
-- append to the tables. A result of `none` is an exception that leaves `process`.
pub mod Fetch
pub mod Ingest
pub mod Ends
pub mod ReadBack
use shiden_api.Base.{Bool, true, false, List, [], ◌∷◌, ◌++◌, Option, none, some, ◌>>=◌}
use shiden_api.Base.Text.{Text, codes}
use shiden_api.Base.Json.{
  Json, null, boolean, number, text, array, object, Fields, JsonLib, find_field, iterate,
  datetime_of, nullable_float,
}
use shiden_api.Calendar.{Date}
use shiden_api.Landing.{Landing, process_series}

pub record GenerationRow (F S : Type 0) : Type 0 where
  pub market_id : Text
  pub timestamp_utc : S
  pub production_type : Text
  pub actual_mw : Option F
  pub ingested_at : S

pub record LoadRow (F S : Type 0) : Type 0 where
  pub market_id : Text
  pub timestamp_utc : S
  pub actual_load_mw : Option F
  pub ingested_at : S

-- The loop over the records: a bad record is skipped.
abbrev pub add_record {ℓ} : {R : Type ℓ} → Option R → List R → List R
add_record none rows = rows
add_record (some r) rows = r ∷ rows

unfoldable pub parse_records {ℓ κ} : {J : Type ℓ} {R : Type κ} → (J → Option R) → List J → List R
parse_records of_record [] = []
parse_records of_record (j ∷ js) = add_record (of_record j) (parse_records of_record js)

-- `data.get("records", [])`: an AttributeError if `data` is no object.
abbrev pub records_of : {F : Type 0} → Json F → Option (List (Json F))
records_of (object fs) = elim (find_field (codes "records") fs) [
  | none ↦ some []
  | some v ↦ iterate v
]
records_of _ = none

module _ {C F S : Type 0} (lib : JsonLib C F S) where
  -- The body of the try; `none` is one of the exceptions that it catches.
  unfoldable pub generation_row : Text → S → Json F → Option (GenerationRow F S)
  generation_row market_id ingested_at (object fs) = do
    stamp ← find_field (codes "timestamp_utc") fs
    ts ← datetime_of lib stamp
    production_type ← find_field (codes "production_type") fs
    actual_mw ← nullable_float lib (find_field (codes "actual_mw") fs)
    some (record {
      market_id = market_id;
      timestamp_utc = ts;
      production_type = lib.str_of production_type;
      actual_mw = actual_mw;
      ingested_at = ingested_at;
    })
  generation_row market_id ingested_at _ = none

  unfoldable pub load_row : Text → S → Json F → Option (LoadRow F S)
  load_row market_id ingested_at (object fs) = do
    stamp ← find_field (codes "timestamp_utc") fs
    ts ← datetime_of lib stamp
    actual_load_mw ← nullable_float lib (find_field (codes "actual_load_mw") fs)
    some (record {
      market_id = market_id;
      timestamp_utc = ts;
      actual_load_mw = actual_load_mw;
      ingested_at = ingested_at;
    })
  load_row market_id ingested_at _ = none

  -- What both parsers do with the content of a file, malformed content being caught.
  unfoldable pub parse_file {ℓ} : {R : Type ℓ} → (Json F → Option R) → C → Option (List R)
  parse_file of_record content = elim (lib.loads content) [
    | none ↦ some []
    | some data' ↦ elim (records_of data') [
      | none ↦ none
      | some records ↦ some (parse_records of_record records)
    ]
  ]

  abbrev pub parse_landing_generation_json : Text → S → C → Option (List (GenerationRow F S))
  parse_landing_generation_json market_id ingested_at =
      parse_file (generation_row market_id ingested_at)

  abbrev pub parse_landing_load_json : Text → S → C → Option (List (LoadRow F S))
  parse_landing_load_json market_id ingested_at = parse_file (load_row market_id ingested_at)

-- The rows appended to the two tables, and whether `process` returns.
pub record Appended (F S : Type 0) : Type 0 where
  pub generation : List (GenerationRow F S)
  pub load : List (LoadRow F S)
  pub returned : Bool

module _ {C F S : Type 0} (lib : JsonLib C F S) (market_id : Text) (ingested_at : S) where
  abbrev pub after_generation :
      Option (List (GenerationRow F S)) → Option (List (LoadRow F S)) → Appended F S
  after_generation none load = record { generation = []; load = []; returned = false }
  after_generation (some rows) none = record { generation = rows; load = []; returned = false }
  after_generation (some rows) (some load_rows) = record {
    generation = rows;
    load = load_rows;
    returned = true;
  }

  unfoldable pub process : Date → Date → Landing C → Landing C → Appended F S
  process start end generation load =
      after_generation
        (process_series (λ d. parse_landing_generation_json lib market_id ingested_at) start end
          generation)
        (process_series (λ d. parse_landing_load_json lib market_id ingested_at) start end load)
