-- ===== src/Ecb/Bronze.antt =====
-- Landing files of the European Central Bank to Bronze rows, src/shiden/processing/bronze/ecb.py,
-- up to the append to the table. `none` is an exception that leaves the parser.
use shiden_api.Base.{List, [], ◌∷◌, Option, none, some, ◌>>=◌}
use shiden_api.Base.Text.{Text, codes}
use shiden_api.Base.Json.{
  Json, boolean, number, text, object, Fields, field, no_fields, JsonLib, find_field,
}
use shiden_api.Calendar.{Date}
use shiden_api.Landing.{Landing, process_series}

pub record EcbRow (F S : Type 0) : Type 0 where
  pub date : Date
  pub quote_currency : Text
  pub rate : F
  pub source_file_date : Date
  pub ingested_at : S

-- `date_fromisoformat` is that of `date`, `date_of` the method `date` of a datetime.
module _ {C F S : Type 0} (lib : JsonLib C F S) (date_fromisoformat : Text → Option Date)
    (date_of : S → Date) where
  -- `float(rate)`; `none` for the ValueError and the TypeError.
  abbrev pub float_of : Json F → Option F
  float_of (number x) = some x
  float_of (boolean b) = some (lib.float_boolean b)
  float_of (text s) = lib.float_text s
  float_of _ = none

  abbrev pub or_date : Date → Option Date → Date
  or_date default none = default
  or_date default (some d) = d

  -- A value that is no text is a TypeError, which is not caught.
  abbrev pub rate_date : Date → Option (Json F) → Option Date
  rate_date target_date none = some target_date
  rate_date target_date (some (text s)) = some (or_date target_date (date_fromisoformat s))
  rate_date target_date (some _) = none

  abbrev pub day_of_stamp : Date → Option S → Date
  day_of_stamp today none = today
  day_of_stamp today (some s) = date_of s

  abbrev pub source_file_date : Date → Option (Json F) → Option Date
  source_file_date today none = some today
  source_file_date today (some (text s)) = some (day_of_stamp today (lib.fromisoformat s))
  source_file_date today (some _) = none

  abbrev pub add_row : Date → Date → S → Text → Option F → List (EcbRow F S) → List (EcbRow F S)
  add_row d file_date ingested_at currency none rows = rows
  add_row d file_date ingested_at currency (some rate) rows =
      record {
        date = d;
        quote_currency = currency;
        rate = rate;
        source_file_date = file_date;
        ingested_at = ingested_at;
      }
      ∷ rows

  -- A bad rate is skipped.
  unfoldable pub rate_rows : Date → Date → S → Fields F → List (EcbRow F S)
  rate_rows d file_date ingested_at no_fields = []
  rate_rows d file_date ingested_at (field currency rate fs) =
      add_row d file_date ingested_at currency (float_of rate)
        (rate_rows d file_date ingested_at fs)

  -- `data.get("rates", {}).items()`
  abbrev pub rates_of : Option (Json F) → Option (Fields F)
  rates_of none = some no_fields
  rates_of (some (object fs)) = some fs
  rates_of (some _) = none

  abbrev pub rows_of_data : Date → Date → S → Option (Json F) → Option (List (EcbRow F S))
  rows_of_data target_date today ingested_at none = some []
  rows_of_data target_date today ingested_at (some (object fs)) = do
    d ← rate_date target_date (find_field (codes "date") fs)
    file_date ← source_file_date today (find_field (codes "fetched_at") fs)
    rates ← rates_of (find_field (codes "rates") fs)
    some (rate_rows d file_date ingested_at rates)
  rows_of_data target_date today ingested_at (some _) = none

  unfoldable pub parse_landing_json : Date → S → Date → C → Option (List (EcbRow F S))
  parse_landing_json today ingested_at target_date content =
      rows_of_data target_date today ingested_at (lib.loads content)

  unfoldable pub process : Date → S → Date → Date → Landing C → Option (List (EcbRow F S))
  process today ingested_at start end files =
      process_series (parse_landing_json today ingested_at) start end files
