-- ===== src/Weather/Bronze.antt =====
-- Landing files of the weather to Bronze rows, src/shiden/processing/bronze/weather.py, up to the
-- append to the table. `none` is an exception, which leaves `process`.
use shiden_api.Base.{
  ℕ, suc, List, [], ◌∷◌, ◌++◌, Option, none, some, ◌>>=◌, get_elem?, length, ltb, if◌then◌else◌,
}
use shiden_api.Base.Text.{Text, codes}
use shiden_api.Base.Dicts.{find_entry}
use shiden_api.Base.Json.{
  Json, null, boolean, number, text, array, object, Fields, JsonLib, find_field, items_of, keys_of,
  iterate, datetime_of,
}
use shiden_api.Calendar.{Date, date_range}
use shiden_api.Landing.{find_file, rows_of_file}
use shiden_api.Weather.{Zone, files_of}

-- Values that are not converted stand as they are in the file.
pub record WeatherRow (F S : Type 0) : Type 0 where
  pub market_id : Text
  pub location_name : Json F
  pub lat : F
  pub lon : F
  pub timestamp_utc : S
  pub data_type : Json F
  pub temperature_2m : Option F
  pub wind_speed_10m : Option F
  pub wind_speed_100m : Option F
  pub shortwave_radiation : Option F
  pub cloud_cover : Option F
  pub ingested_at : S
  pub source_url : Option (Json F)

module _ {C F S : Type 0} (lib : JsonLib C F S) where
  -- `float(v)`
  abbrev pub float_of : Json F → Option F
  float_of (number x) = some x
  float_of (boolean b) = some (lib.float_boolean b)
  float_of (text s) = lib.float_text s
  float_of _ = none

  -- `float(v) if v is not None else None`
  abbrev pub value_of : Json F → Option (Option F)
  value_of null = some none
  value_of v = do x ← float_of v; some (some x)

  -- Of a place past the end there is no value.
  abbrev pub value_at : Option (Json F) → Option (Option F)
  value_at none = some none
  value_at (some v) = value_of v

  abbrev pub character : ℕ → Json F
  character c = text (c ∷ [])

  abbrev pub character_at : Option ℕ → Option (Json F)
  character_at none = none
  character_at (some c) = some (character c)

  unfoldable pub maybe_float : Option (Json F) → ℕ → Option (Option F)
  maybe_float none i = some none
  maybe_float (some null) i = some none
  maybe_float (some (array js)) i = value_at (get_elem? (items_of js) i)
  maybe_float (some (text s)) i = value_at (character_at (get_elem? s i))
  maybe_float (some (object fs)) i = if ltb i (length (keys_of fs)) then none else some none
  maybe_float (some _) i = none

  -- `payload.get("data_type", "REALIZED")`
  abbrev pub data_type_of : Option (Json F) → Json F
  data_type_of none = text (codes "REALIZED")
  data_type_of (some v) = v

  abbrev pub source_url_of : Option (Json F) → Option (Json F)
  source_url_of none = none
  source_url_of (some null) = none
  source_url_of (some v) = some v

  -- The rows of the hours from number `i` on.
  unfoldable pub hour_rows :
      Text
      → S
      → Json F
      → F
      → F
      → Json F
      → Option (Json F)
      → Fields F
      → ℕ
      → List (Json F)
      → Option (List (WeatherRow F S))
  hour_rows market_id ingested_at location lat lon data_type source_url hourly i [] = some []
  hour_rows market_id ingested_at location lat lon data_type source_url hourly i (ts ∷ times) = do
    ts_utc ← datetime_of lib ts
    temperature ← maybe_float (find_field (codes "temperature_2m") hourly) i
    wind_low ← maybe_float (find_field (codes "wind_speed_10m") hourly) i
    wind_high ← maybe_float (find_field (codes "wind_speed_100m") hourly) i
    radiation ← maybe_float (find_field (codes "shortwave_radiation") hourly) i
    clouds ← maybe_float (find_field (codes "cloud_cover") hourly) i
    rows ←
        hour_rows market_id ingested_at location lat lon data_type source_url hourly (suc i) times
    some (
        record {
          market_id = market_id;
          location_name = location;
          lat = lat;
          lon = lon;
          timestamp_utc = ts_utc;
          data_type = data_type;
          temperature_2m = temperature;
          wind_speed_10m = wind_low;
          wind_speed_100m = wind_high;
          shortwave_radiation = radiation;
          cloud_cover = clouds;
          ingested_at = ingested_at;
          source_url = source_url;
        }
        ∷ rows)

  abbrev pub fields_of : Json F → Option (Fields F)
  fields_of (object fs) = some fs
  fields_of _ = none

  unfoldable pub parse_landing : Text → S → Json F → Option (List (WeatherRow F S))
  parse_landing market_id ingested_at payload = do
    fs ← fields_of payload
    location ← find_field (codes "location") fs
    lat_json ← find_field (codes "lat") fs
    lat ← float_of lat_json
    lon_json ← find_field (codes "lon") fs
    lon ← float_of lon_json
    hourly_json ← find_field (codes "hourly") fs
    hourly ← fields_of hourly_json
    times_json ← find_field (codes "time") hourly
    times ← iterate times_json
    hour_rows market_id ingested_at location lat lon
        (data_type_of (find_field (codes "data_type") fs))
        (source_url_of (find_field (codes "source_url") fs)) hourly 0 times

  abbrev pub parse_file : Text → S → C → Option (List (WeatherRow F S))
  parse_file market_id ingested_at content = do
    payload ← lib.loads content
    parse_landing market_id ingested_at payload

  -- The loop over the locations, within that over the days.
  unfoldable pub rows_of_day : Text → S → List Text → Date → Zone C → Option (List (WeatherRow F S))
  rows_of_day market_id ingested_at [] d zone = some []
  rows_of_day market_id ingested_at (name ∷ names) d zone = do
    day_rows ←
        rows_of_file (parse_file market_id ingested_at)
          (find_file d (files_of (find_entry name zone)))
    rows ← rows_of_day market_id ingested_at names d zone
    some (day_rows ++ rows)

  unfoldable pub weather_rows :
      Text → S → List Text → List Date → Zone C → Option (List (WeatherRow F S))
  weather_rows market_id ingested_at names [] zone = some []
  weather_rows market_id ingested_at names (d ∷ days) zone = do
    day_rows ← rows_of_day market_id ingested_at names d zone
    rows ← weather_rows market_id ingested_at names days zone
    some (day_rows ++ rows)

  unfoldable pub process :
      Text → S → List Text → Date → Date → Zone C → Option (List (WeatherRow F S))
  process market_id ingested_at location_names start end zone =
      weather_rows market_id ingested_at location_names (date_range start end) zone
