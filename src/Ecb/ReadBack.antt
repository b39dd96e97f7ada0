-- ===== src/Ecb/ReadBack.antt =====
-- From the rates that src/shiden/ingestion/ecb.py has fetched through the landing files to the rows
-- of src/shiden/processing/bronze/ecb.py.
use shiden_api.Base.{
  ℕ, ◌≡◌, refl, ap, ◌∙◌, Bool, true, false, List, [], ◌∷◌, map, Option, none, some, ◌>>=◌, ◌≤◌,
  if◌then◌else◌, if_true, if_false,
}
use shiden_api.Base.Text.{Text}
use shiden_api.Base.Dicts.{Dict, find_entry}
use shiden_api.Base.Json.{Json, JsonLib}
use shiden_api.Base.Xml.{Element}
use shiden_api.Calendar.{Date, IsValid, date_range}
use shiden_api.Ingest.{Response}
use shiden_api.Landing.{
  Landing, find_file, exists_file, mem_date, rows_of_file, or_else, write_day, write_days,
  find_file-write_days, unless, kept,
}
use shiden_api.LandingPaths.{isoformat}
use shiden_api.Ecb.{
  Entry, ecb_hist_url, add_result, results_of, rate_fields, entry_json, save_entries, all_cubes,
  fetch, ingest,
}
use shiden_api.Ecb.Bronze.{EcbRow, rate_rows, day_of_stamp, parse_landing_json}

module _ {C F S : Type 0} (lib : JsonLib C F S) (fetched_at : Text) where
  abbrev entry_of : Date → Dict F → Entry F
  entry_of d rates = record {
    date = d;
    rates = rates;
    source_url = ecb_hist_url;
    fetched_at = fetched_at;
  }

  abbrev file_of : Date → Option (Dict F) → Option C
  file_of d none = none
  file_of d (some rates) = some (lib.dumps (entry_json (entry_of d rates)))

  module _ (present : Date → Bool) (cubes : Dict (Dict F)) where
    abbrev content : Date → Option C
    content d = unless (present d) (file_of d (find_entry (isoformat d) cubes))

    abbrev saved : List (Entry F) → Landing C → Landing C
    saved = save_entries lib present

    saved-write_days :
        (days : List Date) (files : Landing C)
        → saved (results_of fetched_at cubes days) files ≡ write_days content days files
    unfolding results_of write_days save_entries
    saved-write_days [] files = refl
    saved-write_days (d ∷ days) files =
        step (find_entry (isoformat d) cubes) refl (present d) refl (saved-write_days days)
      where
        step :
            (o : Option (Dict F))
            → find_entry (isoformat d) cubes ≡ o
            → (b : Bool) → present d ≡ b
            → ((l : Landing C)
                → saved (results_of fetched_at cubes days) l ≡ write_days content days l)
            → saved
                (add_result fetched_at d
                  (find_entry (isoformat d) cubes)
                  (results_of fetched_at cubes days))
                files
              ≡ write_days content days (write_day content d (content d) files)
        step none e true f later = rw (e, f) (later files)
        step none e false f later = rw (e, f) (later files)
        step (some c) e true f later =
            rw (e, f)
              (ap (saved (results_of fetched_at cubes days)) (if_true (present d) _ _ f)
                ∙ later files)
        step (some c) e false f later =
            rw (e, f)
              (ap (saved (results_of fetched_at cubes days)) (if_false (present d) _ _ f) ∙ later _)

-- What the program relies on of `json` and `date`: they read what they have written.
pub record ReadsBack {C F S : Type 0} (lib : JsonLib C F S)
    (date_fromisoformat : Text → Option Date) : Type 0 where
  pub loads_dumps : (j : Json F) → lib.loads (lib.dumps j) ≡ some j
  pub fromisoformat_isoformat :
      (d : Date)
      → IsValid d
      → (1000 ≤ d.year) × (d.year ≤ 9999)
      → date_fromisoformat (isoformat d) ≡ some d

module _ {C F S : Type 0} (lib : JsonLib C F S) (date_fromisoformat : Text → Option Date)
    (date_of : S → Date) (reads_back : ReadsBack lib date_fromisoformat) (today : Date)
    (ingested_at : S) (fetched_at : Text) where
  abbrev parse : Date → C → Option (List (EcbRow F S))
  parse = parse_landing_json lib date_fromisoformat date_of today ingested_at

  abbrev pub row_of : Date → Text × F → EcbRow F S
  row_of d (currency, rate) = record {
    date = d;
    quote_currency = currency;
    rate = rate;
    source_file_date =
        day_of_stamp lib date_fromisoformat date_of today (lib.fromisoformat fetched_at);
    ingested_at = ingested_at;
  }

  read_rates :
      (d : Date) (rates : Dict F)
      → rate_rows lib date_fromisoformat date_of d
          (day_of_stamp lib date_fromisoformat date_of today (lib.fromisoformat fetched_at))
          ingested_at
          (rate_fields rates)
        ≡ map (row_of d) rates
  unfolding rate_rows
  read_rates d [] = refl
  read_rates d ((currency, rate) ∷ rates) =
      ap (◌∷◌ (row_of d (currency, rate))) (read_rates d rates)

  -- The rows of a day on which the bank published, or none.
  abbrev pub published : Date → Option (Dict F) → List (EcbRow F S)
  published d none = []
  published d (some rates) = map (row_of d) rates

  read_file :
      (d : Date) (o : Option (Dict F))
      → IsValid d
      → (1000 ≤ d.year) × (d.year ≤ 9999)
      → rows_of_file (parse d) (file_of lib fetched_at d o) ≡ some (published d o)
  unfolding parse_landing_json
  read_file d none v y = refl
  read_file d (some rates) v y =
      rw
        (
          reads_back.loads_dumps (entry_json (entry_of lib fetched_at d rates)),
          parse_landing_json,
          reads_back.fromisoformat_isoformat d v y,
        )
        (ap some (read_rates d rates))

  -- What is read of a day: of the file that was there before, else of the rates fetched for it.
  abbrev pub expected : Date → Option C → Bool → Option (Dict F) → Option (List (EcbRow F S))
  expected d (some old) in_range o = parse d old
  expected d none true o = some (published d o)
  expected d none false o = some []

  read_either :
      (d : Date) (old : Option C) (m : Bool) (o : Option (Dict F))
      → IsValid d
      → (1000 ≤ d.year) × (d.year ≤ 9999)
      → rows_of_file (parse d) (or_else old (if m then file_of lib fetched_at d o else none))
        ≡ expected d old m o
  read_either d (some old) m o v y = refl
  read_either d none true o v y = read_file d o v y
  read_either d none false o v y = refl

  -- Provided `json` and `date` read what they wrote, for a valid date with a year of four digits: if
  -- the download is parsed, then after `ingest` the Bronze parser reads of the file of a day what it
  -- read before, if there was a file; else, for a day in the range, one row for each rate published
  -- for that day and none if there are no rates; and nothing for a day out of the range.
  pub ingest-rows_of_file :
      (fromstring : Text → Option Element) (respond : Text → ℕ → Response) (start end d : Date)
      (files : Landing C) (cubes : Dict (Dict F))
      → all_cubes lib fromstring respond ≡ some cubes
      → IsValid d
      → (1000 ≤ d.year) × (d.year ≤ 9999)
      → (do
        later ← ingest lib fromstring respond fetched_at start end files
        rows_of_file (parse d) (find_file d later))
        ≡ expected d
            (find_file d files)
            (mem_date d (date_range start end))
            (find_entry (isoformat d) cubes)
  unfolding ingest fetch
  ingest-rows_of_file fromstring respond start end d files cubes h v y =
      let present : Date → Bool = λ e. exists_file e files in
      rw h (
        ap (λ l. rows_of_file (parse d) (find_file d l))
          (saved-write_days lib fetched_at present cubes (date_range start end) files)
        ∙ ap (rows_of_file (parse d)) (
            find_file-write_days (content lib fetched_at present cubes) d (date_range start end)
              files
            ∙ kept (find_file d files) (mem_date d (date_range start end))
                (file_of lib fetched_at d (find_entry (isoformat d) cubes)))
        ∙ read_either d (find_file d files) (mem_date d (date_range start end))
            (find_entry (isoformat d) cubes) v y)
