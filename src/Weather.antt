-- ===== src/Weather.antt =====
-- The weather ingester, src/shiden/ingestion/weather.py. The server is a parameter: an answer for an
-- address, a location and an attempt. The landing zone is that of one market.
pub mod Hours
pub mod Saved
pub mod Bronze
use shiden_api.Base.{
  ℕ, zero, suc, ◌+◌, Bool, true, false, not, ◌&&◌, ◌||◌, List, [], ◌∷◌, ◌++◌, Option, none, some,
  ◌>>=◌, get_elem?, if◌then◌else◌,
}
use shiden_api.Base.Text.{Text, codes, text_eq, text_leb}
use shiden_api.Base.Dicts.{Dict, find_entry, put_entry}
use shiden_api.Base.Json.{
  Json, null, boolean, number, text, array, object, Items, no_items, item, Fields, field, no_fields,
  JsonLib, find_field, items_of, items_from, iterate, datetime_of,
}
use shiden_api.Calendar.{Date, date_ltb, date_eq}
use shiden_api.Ingest.{Response, Fetched, body, get_text_with_retry}
use shiden_api.Landing.{Landing, write_file}
use shiden_api.LandingPaths.{isoformat}
use shiden_api.Markets.{MarketConfig, WeatherLocation}

abbrev pub open_meteo_forecast_url : Text
open_meteo_forecast_url = codes "https://api.open-meteo.com/v1/forecast"

abbrev pub open_meteo_historical_url : Text
open_meteo_historical_url = codes "https://archive-api.open-meteo.com/v1/archive"

abbrev pub hourly_variables : List Text
hourly_variables =
    codes "temperature_2m"
    ∷ codes "wind_speed_10m"
    ∷ codes "wind_speed_100m"
    ∷ codes "shortwave_radiation"
    ∷ codes "cloud_cover"
    ∷ []

-- The archive for a range that is over, else the forecast.
unfoldable pub endpoint : Date → Date → Text
endpoint today end =
    if date_ltb end today then open_meteo_historical_url else open_meteo_forecast_url

-- The groups of hours by date, in the order in which the dates come first.
unfoldable pub add_hour : Date → ℕ → List (Date × List ℕ) → List (Date × List ℕ)
add_hour d i [] = (d, i ∷ []) ∷ []
add_hour d i ((e, is) ∷ groups) =
    if date_eq e d then (e, is ++ i ∷ []) ∷ groups else (e, is) ∷ add_hour d i groups

unfoldable pub add_hours : ℕ → List Date → List (Date × List ℕ) → List (Date × List ℕ)
add_hours i [] groups = groups
add_hours i (d ∷ ds) groups = add_hours (suc i) ds (add_hour d i groups)

-- `by_date`, from the dates of the hours.
abbrev pub by_date : List Date → List (Date × List ℕ)
by_date dates = add_hours 0 dates []

abbrev pub is_prefix : Text → Text → Bool
is_prefix [] s = true
is_prefix (a ∷ p) [] = false
is_prefix (a ∷ p) (b ∷ s) = text_eq (a ∷ []) (b ∷ []) && is_prefix p s

abbrev pub contains : Text → Text → Bool
contains p [] = is_prefix p []
contains p (c ∷ s) = is_prefix p (c ∷ s) || contains p s

abbrev pub no_time : Bool → Option Bool
no_time true = none
no_time false = some false

module _ {F : Type 0} where
  abbrev pub has_text : Text → List (Json F) → Bool
  has_text t [] = false
  has_text t (text s ∷ js) = text_eq s t || has_text t js
  has_text t (j ∷ js) = has_text t js

  -- `len(v)`, whether there is one.
  abbrev pub is_sized : Json F → Bool
  is_sized (array js) = true
  is_sized (object fs) = true
  is_sized (text s) = true
  is_sized _ = false

  abbrev pub with_time : Option (Json F) → Option Bool
  with_time none = some false
  with_time (some times) = if is_sized times then some true else none

  -- `"time" not in data.get("hourly", {})`, then `len(data["hourly"]["time"])`: whether the location is
  -- kept. `none` is a TypeError.
  abbrev pub is_kept : Option (Json F) → Option Bool
  is_kept none = some false
  is_kept (some (object hs)) = with_time (find_field (codes "time") hs)
  is_kept (some (array js)) = no_time (has_text (codes "time") (items_of js))
  is_kept (some (text s)) = no_time (contains (codes "time") s)
  is_kept (some _) = none

  -- `v[i]`; `none` is one of the exceptions.
  abbrev pub at_index : Json F → ℕ → Option (Json F)
  at_index (array js) i = get_elem? (items_of js) i
  at_index (text s) i = do c ← get_elem? s i; some (text (c ∷ []))
  at_index _ i = none

  abbrev pub select : Json F → List ℕ → Option (List (Json F))
  select series [] = some []
  select series (i ∷ is) = do v ← at_index series i; vs ← select series is; some (v ∷ vs)

  -- `{var: [hourly[var][i] for i in indices] for var in vars}`
  unfoldable pub day_hourly : List Text → Fields F → List ℕ → Option (Fields F)
  day_hourly [] hourly indices = some no_fields
  day_hourly (var ∷ vars) hourly indices = do
    series ← find_field var hourly
    vs ← select series indices
    rest ← day_hourly vars hourly indices
    some (field var (array (items_from vs)) rest)

pub record LocationData (F : Type 0) : Type 0 where
  pub location : Text
  pub data_fields : Fields F
  pub url : Text

-- `day_str < date.today().isoformat()`, which compares texts.
unfoldable pub data_type : Date → Date → Text
unfolding isoformat
data_type today d =
    if not (text_leb (isoformat today) (isoformat d)) then codes "REALIZED" else codes "FORECAST"

-- What comes of the exceptions: the files written, and whether `ingest` returns.
abbrev pub Zone : Type 0 → Type 0
Zone C = Dict (Landing C)

abbrev pub files_of {ℓ} : {A : Type ℓ} → Option (List A) → List A
files_of none = []
files_of (some files) = files

abbrev pub write_location : {C : Type 0} → Text → Date → C → Zone C → Zone C
write_location name d content zone =
    put_entry name (write_file d content (files_of (find_entry name zone))) zone

-- `loads_text` is `json.loads` of an answer, with `none` for JSONDecodeError.
module _ {F : Type 0} (loads_text : Text → Option (Json F))
    (respond : Text → WeatherLocation → ℕ → Response) (today : Date) where
  -- The fields of the answer for a location; `none` is an exception.
  abbrev pub fields_of_fetch : Fetched → Option (Fields F)
  fields_of_fetch (body raw) = elim (loads_text raw) [ some (object fs) ↦ some fs | _ ↦ none ]
  fields_of_fetch _ = none

  abbrev pub add_location : Bool → LocationData F → List (LocationData F) → List (LocationData F)
  add_location true l results = l ∷ results
  add_location false l results = results

  unfoldable pub fetch : Date → List WeatherLocation → Option (List (LocationData F))
  fetch end [] = some []
  fetch end (location ∷ locations) = do
    fs ← fields_of_fetch (get_text_with_retry (respond (endpoint today end) location) 3).1
    kept ← is_kept (find_field (codes "hourly") fs)
    results ← fetch end locations
    some (
        add_location kept
          (record { location = location.name; data_fields = fs; url = endpoint today end }) results)
