-- ===== src/Entsoe/Ingest.antt =====
-- The files that the ENTSO-E ingester src/shiden/ingestion/entsoe.py writes, and how `ingest` ends.
use shiden_api.Base.{ℕ, Bool, true, false, List, Option, none, some, if◌then◌else◌}
use shiden_api.Base.Text.{Text, codes}
use shiden_api.Base.Json.{Json, text, array, object, no_fields, field, items_from, JsonLib}
use shiden_api.Calendar.{Date, date_range, next_day}
use shiden_api.Landing.{Landing, write_days}
use shiden_api.LandingPaths.{isoformat}
use shiden_api.Markets.{MarketConfig}
use shiden_api.Entsoe.Fetch.{
  Frame, Answer, call_with_retry, generation_to_records, load_to_records, filter_day,
  is_empty_frame, frame_of,
}

-- What a file says beside its records.
pub record Source : Type 0 where
  pub market_id : Text
  pub bidding_zone : Text
  pub document_type : Text
  pub fetched_at : Text

module _ {C F S : Type 0} (lib : JsonLib C F S) where
  abbrev pub document : Source → Date → List (Json F) → Json F
  document src d records = object (
      field (codes "market_id") (text src.market_id) (
        field (codes "date") (text (isoformat d)) (
          field (codes "bidding_zone") (text src.bidding_zone) (
            field (codes "document_type") (text src.document_type) (
              field (codes "fetched_at") (text src.fetched_at)
                (field (codes "records") (array (items_from records)) no_fields))))))

  module _ (to_records : Frame F → List (Json F)) (src : Source) (df : Frame F) where
    -- The content of the file of a day; none is written for a day without rows.
    abbrev pub content_on : Date → Option C
    content_on d =
        if is_empty_frame (filter_day df d)
        then none
        else some (lib.dumps (document src d (to_records (filter_day df d))))

    unfoldable pub ingest_series : Date → Date → Landing C → Landing C
    ingest_series start end files =
        if is_empty_frame df then files else write_days content_on (date_range start end) files

pub record LandingZone (C : Type 0) : Type 0 where
  pub generation : Landing C
  pub load : Landing C

-- How `ingest` ends: it returns, or raises RuntimeError for a missing key, ValueError for an unknown
-- market, or RuntimeError after the last attempt of a query.
pub data IngestEnd : Type 0 where
  done no_api_key unknown_market fetch_failed : IngestEnd

-- The queries: a bidding zone, a first day, the day after the last, and the number of the attempt.
abbrev pub Query : Type 0 → Type 0
Query F = Text → Date → Date → ℕ → Answer F

-- `_fetch_generation` and `_fetch_load`; only `query_load` answers with a series.
unfoldable pub fetch : {F : Type 0} → Query F → Text → Date → Date → Option (Frame F)
fetch query bidding_zone start end =
    frame_of (call_with_retry (query bidding_zone start (next_day end))).1

abbrev pub gen_source : Text → Text → Text → Source
gen_source market_id bidding_zone fetched_at = record {
  market_id = market_id;
  bidding_zone = bidding_zone;
  document_type = codes "A75";
  fetched_at = fetched_at;
}

abbrev pub load_source : Text → Text → Text → Source
load_source market_id bidding_zone fetched_at = record {
  market_id = market_id;
  bidding_zone = bidding_zone;
  document_type = codes "A65";
  fetched_at = fetched_at;
}

module _ {C F S : Type 0} (lib : JsonLib C F S) (query_generation query_load : Query F) where
  abbrev pub load_step :
      Text
      → Text
      → Text
      → Date
      → Date
      → LandingZone C
      → Option (Frame F)
      → LandingZone C × IngestEnd
  load_step market_id bidding_zone now start end zone none = (zone, fetch_failed)
  load_step market_id bidding_zone now start end zone (some df) = (
    record zone {
      load =
          ingest_series lib load_to_records (load_source market_id bidding_zone now) df start end
            zone.load;
    },
    done,
  )

  abbrev pub generation_step :
      Text
      → Text
      → Text
      → Date
      → Date
      → LandingZone C
      → Option (Frame F)
      → LandingZone C × IngestEnd
  generation_step market_id bidding_zone now start end zone none = (zone, fetch_failed)
  generation_step market_id bidding_zone now start end zone (some df) =
      load_step market_id bidding_zone now start end
        (record zone {
          generation =
              ingest_series lib generation_to_records (gen_source market_id bidding_zone now) df
                start end zone.generation;
        })
        (fetch query_load bidding_zone start end)

  -- `ingest`. `has_key` says whether `settings.entsoe_api_key` is set; `now` is the clock, read once
  -- for each series.
  unfoldable pub ingest :
      Bool
      → Text
      → Option MarketConfig
      → Text
      → Date
      → Date
      → LandingZone C
      → LandingZone C × IngestEnd
  ingest false market_id market now start end zone = (zone, no_api_key)
  ingest true market_id none now start end zone = (zone, unknown_market)
  ingest true market_id (some market) now start end zone =
      generation_step market_id market.bidding_zone now start end zone
        (fetch query_generation market.bidding_zone start end)
