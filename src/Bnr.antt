-- ===== src/Bnr.antt =====
-- Exchange rates of the National Bank: the ingester src/shiden/ingestion/bnr.py. The server, the
-- XML parser and printer and `json` are parameters; the delay between requests is left out.
pub mod Kept
pub mod Bronze
pub mod Sources
use shiden_api.Base.{
  ℕ, ◌+◌, Bool, true, false, not, List, [], ◌∷◌, ◌++◌, map, Option, none, some, keep, ltb, ◌==◌,
  ◌>>=◌, if◌then◌else◌,
}
use shiden_api.Base.Text.{Text, codes, decimal}
use shiden_api.Base.Dicts.{Dict, find_entry, has_entry, put_entry, update, add_missing}
use shiden_api.Base.Json.{Json, text, object, field, no_fields, JsonLib}
use shiden_api.Base.Xml.{Element, attribute, nonempty, iter}
use shiden_api.Calendar.{Date, date_range}
use shiden_api.Ingest.{Response, Fetched, body, get_text_with_retry}
use shiden_api.Landing.{Landing, exists_file, write_file}
use shiden_api.LandingPaths.{isoformat}

abbrev pub bnr_daily_url : Text
bnr_daily_url = codes "https://www.bnr.ro/nbrfxrates.xml"

abbrev pub bnr_archive_url : ℕ → Text
bnr_archive_url year =
    codes "https://www.bnr.ro/files/xml/years/nbrfxrates" ++ (decimal year ++ codes ".xml")

abbrev pub bnr_cube : Text
bnr_cube = codes "{http://www.bnr.ro/xsd}Cube"

-- The printed element of a day and the address that it came from.
abbrev pub Cube : Type 0
Cube = Text × Text

pub record Entry : Type 0 where
  pub date : Date
  pub cube_xml : Text
  pub source_url : Text
  pub fetched_at : Text

-- Both files of a day: the XML and its sidecar.
pub record BnrZone (C : Type 0) : Type 0 where
  pub xml : Landing Text
  pub sidecar : Landing C

-- A set of years, sorted.
abbrev pub insert_year : ℕ → List ℕ → List ℕ
insert_year y [] = y ∷ []
insert_year y (z ∷ zs) =
    if y == z then z ∷ zs else if ltb y z then y ∷ z ∷ zs else z ∷ insert_year y zs

unfoldable pub years_needed : List Date → List ℕ
years_needed [] = []
years_needed (d ∷ ds) = insert_year d.year (years_needed ds)

abbrev pub is_some {ℓ} : {A : Type ℓ} → Option A → Bool
is_some none = false
is_some (some x) = true

abbrev pub merge_year : Option (Dict Cube) → Dict Cube → Dict Cube
merge_year none cubes = cubes
merge_year (some year_cubes) cubes = update year_cubes cubes

abbrev pub merge_daily : Option (Dict Cube) → Dict Cube → Dict Cube
merge_daily none cubes = cubes
merge_daily (some daily_cubes) cubes = add_missing daily_cubes cubes

abbrev pub missing_dates : List Date → Dict Cube → List Date
missing_dates days cubes = keep (λ d. not (has_entry (isoformat d) cubes)) days

abbrev pub add_result : Text → Date → Option Cube → List Entry → List Entry
add_result fetched_at d none results = results
add_result fetched_at d (some (cube_xml, source_url)) results =
    record { date = d; cube_xml = cube_xml; source_url = source_url; fetched_at = fetched_at }
    ∷ results

unfoldable pub results_of : Text → Dict Cube → List Date → List Entry
results_of fetched_at cubes [] = []
results_of fetched_at cubes (d ∷ ds) =
    add_result fetched_at d (find_entry (isoformat d) cubes) (results_of fetched_at cubes ds)

module _ (fromstring : Text → Option Element) (tostring : Element → Text)
    (respond : Text → ℕ → Response) where
  abbrev pub add_cube : Text → Element → Option Text → Dict Cube → Dict Cube
  add_cube source_url cube none cubes = cubes
  add_cube source_url cube (some date_attr) cubes =
      put_entry date_attr (tostring cube, source_url) cubes

  abbrev pub add_cubes : Text → List Element → Dict Cube → Dict Cube
  add_cubes source_url [] cubes = cubes
  add_cubes source_url (cube ∷ rest) cubes =
      add_cubes source_url rest
        (add_cube source_url cube (nonempty (attribute (codes "date") cube)) cubes)

  -- `none` is the ValueError.
  unfoldable pub extract_cubes : Text → Text → Option (Dict Cube)
  extract_cubes raw_xml source_url = do
    root ← fromstring raw_xml
    some (add_cubes source_url (iter bnr_cube root) [])

  -- What one try fetches; `none` if an exception is caught.
  abbrev pub cubes_of_fetch : Text → Fetched → Option (Dict Cube)
  cubes_of_fetch url (body raw_xml) = extract_cubes raw_xml url
  cubes_of_fetch url _ = none

  unfoldable pub fetch_cubes : Text → Option (Dict Cube)
  fetch_cubes url = cubes_of_fetch url (get_text_with_retry (respond url) 3).1

  unfoldable pub archive_cubes : List ℕ → Dict Cube → Dict Cube
  archive_cubes [] cubes = cubes
  archive_cubes (year ∷ years) cubes =
      archive_cubes years (merge_year (fetch_cubes (bnr_archive_url year)) cubes)

  -- The daily file is asked for only if an archive lacks a day.
  abbrev pub with_daily : List Date → Dict Cube → Dict Cube
  with_daily [] cubes = cubes
  with_daily (d ∷ missing) cubes = merge_daily (fetch_cubes bnr_daily_url) cubes

  unfoldable pub cubes_by_date : Date → Date → Dict Cube
  cubes_by_date start end =
      let days = date_range start end in
      let cubes = archive_cubes (years_needed days) [] in
      with_daily (missing_dates days cubes) cubes

  -- `fetched_at` is the clock. No exception leaves `fetch`.
  unfoldable pub fetch : Text → Date → Date → List Entry
  fetch fetched_at start end =
      results_of fetched_at (cubes_by_date start end) (date_range start end)

abbrev pub xml_of : Text → Text
xml_of cube_xml = codes "<?xml version=\"1.0\" encoding=\"utf-8\"?>\n" ++ cube_xml

module _ {C F S : Type 0} (lib : JsonLib C F S) where
  abbrev pub sidecar_of : Entry → C
  sidecar_of e = lib.dumps (
      object (
        field (codes "date") (text (isoformat e.date)) (
          field (codes "source_url") (text e.source_url)
            (field (codes "fetched_at") (text e.fetched_at) no_fields))))

  -- `present` says which days had a file before the fetch.
  unfoldable pub save_entries : (Date → Bool) → List Entry → BnrZone C → BnrZone C
  save_entries present [] zone = zone
  save_entries present (e ∷ entries) zone = save_entries present entries (
      if present e.date then zone else record {
        xml = write_file e.date (xml_of e.cube_xml) zone.xml;
        sidecar = write_file e.date (sidecar_of e) zone.sidecar;
      })

  module _ (fromstring : Text → Option Element) (tostring : Element → Text)
      (respond : Text → ℕ → Response) where
    unfoldable pub ingest : Text → Date → Date → BnrZone C → BnrZone C
    ingest fetched_at start end zone =
        save_entries (λ d. exists_file d zone.xml)
          (fetch fromstring tostring respond fetched_at start end) zone
