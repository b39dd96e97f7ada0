-- ===== src/Bnr/Kept.antt =====
-- What the ingester of src/shiden/ingestion/bnr.py leaves of the landing files.
use shiden_api.Base.{ℕ, ◌≡◌, Bool, true, false, List, Option, none, some, ◌⊎◌}
use shiden_api.Base.Text.{Text}
use shiden_api.Base.Dicts.{Dict, find_entry}
use shiden_api.Base.Json.{JsonLib}
use shiden_api.Base.Xml.{Element}
use shiden_api.Calendar.{Date}
use shiden_api.Ingest.{Response}
use shiden_api.Landing.{mem_date, unless}
use shiden_api.LandingPaths.{isoformat}
use shiden_api.Bnr.Sources.{mem_year}
use shiden_api.Bnr.{years_needed, Cube, Entry, BnrZone, xml_of, save_entries}

-- The XML of a day for which there is a cube.
abbrev pub xml_on : Option Cube → Option Text
xml_on none = none
xml_on (some cube) = some (xml_of cube.0)

module _ {C F S : Type 0} (lib : JsonLib C F S) (present : Date → Bool) (fetched_at : Text)
    (cubes : Dict Cube) where
  abbrev content : Date → Option Text
  content d = unless (present d) (xml_on (find_entry (isoformat d) cubes))

  abbrev saved : List Entry → BnrZone C → BnrZone C
  saved = save_entries lib present

module _ (fromstring : Text → Option Element) (tostring : Element → Text)
    (respond : Text → ℕ → Response) where
  -- The year of a day of the interval is one of those asked for.
  abbrev pub IsYearAsked : Date → List Date → Type 0
  IsYearAsked d days = mem_date d days ≡ false ⊎ (mem_year d.year (years_needed days) ≡ true)
