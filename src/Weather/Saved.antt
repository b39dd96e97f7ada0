-- ===== src/Weather/Saved.antt =====
-- The files that src/shiden/ingestion/weather.py writes.
use shiden_api.Base.{ℕ, Bool, true, false, List, [], ◌∷◌, ◌++◌, Option, none, some, ◌>>=◌}
use shiden_api.Base.Text.{Text, codes}
use shiden_api.Base.Json.{
  Json, text, object, Fields, field, no_fields, JsonLib, find_field, iterate, datetime_of,
}
use shiden_api.Calendar.{Date}
use shiden_api.Ingest.{Response}
use shiden_api.LandingPaths.{isoformat}
use shiden_api.Markets.{MarketConfig, WeatherLocation}
use shiden_api.Weather.{
  hourly_variables, by_date, day_hourly, LocationData, data_type, Zone, write_location, fetch,
}

-- `date_of` is the method `date` of a datetime.
module _ {C F S : Type 0} (lib : JsonLib C F S) (date_of : S → Date)
    (loads_text : Text → Option (Json F)) (respond : Text → WeatherLocation → ℕ → Response)
    (today : Date) where
  abbrev pub dates_of : List (Json F) → Option (List Date)
  dates_of [] = some []
  dates_of (ts ∷ times) = do
    stamp ← datetime_of lib ts
    dates ← dates_of times
    some (date_of stamp ∷ dates)

  -- `_SOURCE_URL_TMPL.format(...)`
  abbrev pub source_url : Text → Json F → Json F → Date → Text
  source_url url lat lon d =
      url
      ++ (codes "?latitude="
          ++ (lib.str_of lat
              ++ (codes "&longitude="
                  ++ (lib.str_of lon
                      ++ (codes "&start_date="
                          ++ (isoformat d
                              ++ (codes "&end_date="
                                  ++ (isoformat d
                                      ++ codes
                                          "&hourly=temperature_2m,wind_speed_10m,wind_speed_100m,shortwave_radiation,cloud_cover&timezone=UTC"))))))))

  -- The document of a day; `none` is a KeyError, an IndexError or a TypeError.
  unfoldable pub payload_for_day :
      Text → Text → LocationData F → Fields F → Date → List ℕ → Option (Json F)
  payload_for_day market_id fetched_at l hourly d indices = do
    lat ← find_field (codes "latitude") l.data_fields
    lon ← find_field (codes "longitude") l.data_fields
    hours ← day_hourly (codes "time" ∷ hourly_variables) hourly indices
    some (
        object (
          field (codes "market_id") (text market_id) (
            field (codes "location") (text l.location) (
              field (codes "lat") lat (
                field (codes "lon") lon (
                  field (codes "date") (text (isoformat d)) (
                    field (codes "data_type") (text (data_type today d)) (
                      field (codes "fetched_at") (text fetched_at) (
                        field (codes "source_url") (text (source_url l.url lat lon d))
                          (field (codes "hourly") (object hours) no_fields))))))))))

  -- Each state comes with whether no exception has been raised.
  unfoldable pub save_days :
      Text → Text → LocationData F → Fields F → List (Date × List ℕ) → Zone C → Zone C × Bool
  save_days market_id fetched_at l hourly [] zone = (zone, true)
  save_days market_id fetched_at l hourly ((d, indices) ∷ groups) zone =
      elim (payload_for_day market_id fetched_at l hourly d indices) [
        | none ↦ (zone, false)
        | some payload ↦
            save_days market_id fetched_at l hourly groups
              (write_location l.location d (lib.dumps payload) zone)
      ]

  -- The hours of a location, with their dates.
  abbrev pub hours_of : LocationData F → Option (Fields F × List Date)
  hours_of l = elim (find_field (codes "hourly") l.data_fields) [
    | some (object hourly) ↦ do
      times ← find_field (codes "time") hourly
      items ← iterate times
      dates ← dates_of items
      some (hourly, dates)
    | _ ↦ none
  ]

  unfoldable pub save_locations : Text → Text → List (LocationData F) → Zone C → Zone C × Bool
  save_locations market_id fetched_at [] zone = (zone, true)
  save_locations market_id fetched_at (l ∷ ls) zone = elim (hours_of l) [
    | none ↦ (zone, false)
    | some (hourly, dates) ↦
        let (next, returned) = save_days market_id fetched_at l hourly (by_date dates) zone in
        elim returned [ false ↦ (next, false) | true ↦ save_locations market_id fetched_at ls next ]
  ]

  -- `market` is what `get_market` finds; without it, or if `fetch` raises, nothing is written.
  unfoldable pub ingest : Text → Option MarketConfig → Text → Date → Zone C → Zone C × Bool
  ingest market_id none fetched_at end zone = (zone, false)
  ingest market_id (some market) fetched_at end zone =
      elim (fetch loads_text respond today end market.weather_locations) [
        | none ↦ (zone, false)
        | some results ↦ save_locations market_id fetched_at results zone
      ]
