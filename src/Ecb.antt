-- ===== src/Ecb.antt =====
-- Exchange rates of the European Central Bank: the ingester src/shiden/ingestion/ecb.py. The
-- server, the XML parser and `json` are parameters.
pub mod Bronze
pub mod ReadBack
use shiden_api.Base.{
  ℕ, Bool, true, false, List, [], ◌∷◌, ◌++◌, Option, none, some, ◌>>=◌, if◌then◌else◌,
}
use shiden_api.Base.Text.{Text, codes}
use shiden_api.Base.Dicts.{Dict, find_entry, put_entry}
use shiden_api.Base.Json.{Json, number, text, object, Fields, field, no_fields, JsonLib}
use shiden_api.Base.Xml.{Element, attribute, nonempty, children_of, iter}
use shiden_api.Calendar.{Date, date_range}
use shiden_api.Ingest.{Response, Fetched, body, get_text_with_retry}
use shiden_api.Landing.{Landing, exists_file, write_file}
use shiden_api.LandingPaths.{isoformat}

abbrev pub ecb_hist_url : Text
ecb_hist_url = codes "https://www.ecb.europa.eu/stats/eurofxref/eurofxref-hist.xml"

abbrev pub ecb_cube : Text
ecb_cube = codes "{http://www.ecb.int/vocabulary/2002-08-01/eurofxref}Cube"

pub record Entry (F : Type 0) : Type 0 where
  pub date : Date
  pub rates : Dict F
  pub source_url : Text
  pub fetched_at : Text

module _ {F : Type 0} (float_text : Text → Option F) (fromstring : Text → Option Element) where
  -- A rate with its currency; `none` if it is skipped.
  abbrev pub rate_of : Element → Option (Text × F)
  rate_of rate_cube = do
    currency ← nonempty (attribute (codes "currency") rate_cube)
    rate_str ← nonempty (attribute (codes "rate") rate_cube)
    rate ← float_text rate_str
    some (currency, rate)

  abbrev pub put_rate : Option (Text × F) → Dict F → Dict F
  put_rate none rates = rates
  put_rate (some (currency, rate)) rates = put_entry currency rate rates

  abbrev pub rates_of : List Element → Dict F → Dict F
  rates_of [] rates = rates
  rates_of (e ∷ es) rates = rates_of es (put_rate (rate_of e) rates)

  -- A day without rates is left out.
  abbrev pub put_day : Text → Dict F → Dict (Dict F) → Dict (Dict F)
  put_day time_attr [] result = result
  put_day time_attr (r ∷ rates) result = put_entry time_attr (r ∷ rates) result

  abbrev pub add_day : Element → Option Text → Dict (Dict F) → Dict (Dict F)
  add_day day_cube none result = result
  add_day day_cube (some time_attr) result =
      put_day time_attr (rates_of (children_of day_cube) []) result

  abbrev pub add_days : List Element → Dict (Dict F) → Dict (Dict F)
  add_days [] result = result
  add_days (e ∷ es) result = add_days es (add_day e (nonempty (attribute (codes "time") e)) result)

  -- `none` is the ValueError.
  unfoldable pub parse_ecb_xml : Text → Option (Dict (Dict F))
  parse_ecb_xml raw_xml = do root ← fromstring raw_xml; some (add_days (iter ecb_cube root) [])

  -- `none` is an exception, which leaves `fetch`.
  abbrev pub cubes_of_fetch : Fetched → Option (Dict (Dict F))
  cubes_of_fetch (body raw_xml) = parse_ecb_xml raw_xml
  cubes_of_fetch _ = none

abbrev pub add_result :
    {F : Type 0} → Text → Date → Option (Dict F) → List (Entry F) → List (Entry F)
add_result fetched_at d none results = results
add_result fetched_at d (some rates) results =
    record { date = d; rates = rates; source_url = ecb_hist_url; fetched_at = fetched_at } ∷ results

unfoldable pub results_of : {F : Type 0} → Text → Dict (Dict F) → List Date → List (Entry F)
results_of fetched_at cubes [] = []
results_of fetched_at cubes (d ∷ ds) =
    add_result fetched_at d (find_entry (isoformat d) cubes) (results_of fetched_at cubes ds)

abbrev pub rate_fields : {F : Type 0} → Dict F → Fields F
rate_fields [] = no_fields
rate_fields ((currency, rate) ∷ rates) = field currency (number rate) (rate_fields rates)

abbrev pub entry_json : {F : Type 0} → Entry F → Json F
entry_json e = object (
    field (codes "date") (text (isoformat e.date)) (
      field (codes "rates") (object (rate_fields e.rates)) (
        field (codes "source_url") (text e.source_url)
          (field (codes "fetched_at") (text e.fetched_at) no_fields))))

module _ {C F S : Type 0} (lib : JsonLib C F S) where
  unfoldable pub save_entries : (Date → Bool) → List (Entry F) → Landing C → Landing C
  save_entries present [] files = files
  save_entries present (e ∷ entries) files =
      save_entries present entries
        (if present e.date then files else write_file e.date (lib.dumps (entry_json e)) files)

  module _ (fromstring : Text → Option Element) (respond : Text → ℕ → Response) where
    unfoldable pub all_cubes : Option (Dict (Dict F))
    all_cubes =
        cubes_of_fetch lib.float_text fromstring (get_text_with_retry (respond ecb_hist_url) 3).1

    unfoldable pub fetch : Text → Date → Date → Option (List (Entry F))
    fetch fetched_at start end = do
      cubes ← all_cubes
      some (results_of fetched_at cubes (date_range start end))

    -- `none` is the exception of `fetch`, which leaves the landing zone as it was.
    unfoldable pub ingest : Text → Date → Date → Landing C → Option (Landing C)
    ingest fetched_at start end files = do
      entries ← fetch fetched_at start end
      some (save_entries (λ d. exists_file d files) entries files)
