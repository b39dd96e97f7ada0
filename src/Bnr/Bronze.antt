-- ===== src/Bnr/Bronze.antt =====
-- Landing files of the National Bank to Bronze rows, src/shiden/processing/bronze/bnr.py, up to
-- the append to the table. `none` is an exception that leaves the parser.
use shiden_api.Base.{◌||◌, List, [], ◌∷◌, Option, none, some, ◌>>=◌, if◌then◌else◌}
use shiden_api.Base.Text.{Text, codes, strip, text_eq}
use shiden_api.Base.Integers.{ℤ}
use shiden_api.Base.Json.{Json, object, JsonLib, find_field}
use shiden_api.Base.Xml.{Element, tag_of, text_of, attribute, nonempty, children_of, with_tag}
use shiden_api.Calendar.{Date}
use shiden_api.Landing.{Landing, find_file, process_series}
use shiden_api.Bnr.{BnrZone, bnr_archive_url, bnr_cube}

pub record BnrRow (F S : Type 0) : Type 0 where
  pub date : Date
  pub foreign_currency : Text
  pub rate_ron : F
  pub multiplier : ℤ
  pub source_url : Text
  pub ingested_at : S

abbrev first_of : List Element → Option Element
first_of [] = none
first_of (e ∷ es) = some e

-- The root if it is a Cube, else its first child that is one in the namespace.
unfoldable pub cube_of : Element → Option Element
cube_of root =
    if text_eq (tag_of root) bnr_cube || text_eq (tag_of root) (codes "Cube")
    then some root
    else first_of (with_tag bnr_cube (children_of root))

-- `date_fromisoformat` and `int_of` are those of Python, with `none` for ValueError.
module _ {C F S : Type 0} (lib : JsonLib C F S) (date_fromisoformat : Text → Option Date)
    (int_of : Text → Option ℤ) (fromstring : Text → Option Element) where
  abbrev pub or_default : Text → Option Text → Text
  or_default default none = default
  or_default default (some s) = s

  -- The rate of an element, if it has a currency and a number.
  abbrev pub rate_of : Element → Option (Text × F)
  rate_of e = do
    currency ← nonempty (attribute (codes "currency") e)
    content ← text_of e
    rate ← lib.float_text (strip content)
    some (currency, rate)

  abbrev pub add_rate :
      Date
      → Text
      → S
      → Element
      → Option (Text × F)
      → Option (List (BnrRow F S))
      → Option (List (BnrRow F S))
  add_rate d source_url ingested_at e none rows = rows
  add_rate d source_url ingested_at e (some (currency, rate)) later = do
    multiplier ← int_of (or_default (codes "1") (attribute (codes "multiplier") e))
    rows ← later
    some (
        record {
          date = d;
          foreign_currency = currency;
          rate_ron = rate;
          multiplier = multiplier;
          source_url = source_url;
          ingested_at = ingested_at;
        }
        ∷ rows)

  unfoldable pub rates_rows : Date → Text → S → List Element → Option (List (BnrRow F S))
  rates_rows d source_url ingested_at [] = some []
  rates_rows d source_url ingested_at (e ∷ es) =
      add_rate d source_url ingested_at e (rate_of e) (rates_rows d source_url ingested_at es)

  -- `date.fromisoformat(date_attr) if date_attr else target_date`
  abbrev pub effective_date : Date → Option Text → Option Date
  effective_date target_date none = some target_date
  effective_date target_date (some date_attr) = date_fromisoformat date_attr

  abbrev pub rows_of_cube : Date → Text → S → Option Element → Option (List (BnrRow F S))
  rows_of_cube target_date source_url ingested_at none = some []
  rows_of_cube target_date source_url ingested_at (some cube) = do
    d ← effective_date target_date (nonempty (attribute (codes "date") cube))
    rates_rows d source_url ingested_at (children_of cube)

  abbrev pub rows_of_root : Date → Text → S → Option Element → Option (List (BnrRow F S))
  rows_of_root target_date source_url ingested_at none = some []
  rows_of_root target_date source_url ingested_at (some root) =
      rows_of_cube target_date source_url ingested_at (cube_of root)

  unfoldable pub parse_landing_xml : Date → Text → S → Text → Option (List (BnrRow F S))
  parse_landing_xml target_date source_url ingested_at content =
      rows_of_root target_date source_url ingested_at (fromstring content)

  -- `data.get("source_url", fallback)`; an AttributeError if `data` is no object.
  abbrev pub url_of_data : Text → Json F → Option Text
  url_of_data fallback (object fs) = elim (find_field (codes "source_url") fs) [
    | none ↦ some fallback
    | some v ↦ some (lib.str_of v)
  ]
  url_of_data fallback _ = none

  abbrev pub url_of_loaded : Text → Option (Json F) → Option Text
  url_of_loaded fallback none = some fallback
  url_of_loaded fallback (some data') = url_of_data fallback data'

  -- Of the sidecar, if it is there and JSON, else the address of the archive.
  abbrev pub read_source_url : Option C → Date → Option Text
  read_source_url none d = some (bnr_archive_url d.year)
  read_source_url (some sidecar) d = url_of_loaded (bnr_archive_url d.year) (lib.loads sidecar)

  abbrev pub parse_day : S → Landing C → Date → Text → Option (List (BnrRow F S))
  parse_day ingested_at sidecars d content = do
    source_url ← read_source_url (find_file d sidecars) d
    parse_landing_xml d source_url ingested_at content

  unfoldable pub process : S → Date → Date → BnrZone C → Option (List (BnrRow F S))
  process ingested_at start end zone =
      process_series (parse_day ingested_at zone.sidecar) start end zone.xml
