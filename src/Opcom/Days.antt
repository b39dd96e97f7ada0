-- ===== src/Opcom/Days.antt =====
-- `OpcomBronzeWriter.process` of src/shiden/processing/bronze/opcom.py up to the write.
use shiden_api.Base.{List, [], ◌∷◌, ◌++◌, Option}
use shiden_api.Base.Text.{Text}
use shiden_api.Calendar.{Date, date_range}
use shiden_api.Opcom.{OpcomRow, Loaded, no_intervals, unsupported, loaded, load_day, to_rows}

-- The landing zone of a market, and the source address of a day.
module _ {F : Type 0} (to_float : Text → Option F) (landing : Date → Option (List (List Text)))
    (build_source_url : Date → Text) where
  -- The rows and the rejected days so far.
  pub record Batch : Type 0 where
    pub rows : List (OpcomRow F)
    pub rejected : List Date

  abbrev pub add_day : Text → Text → Date → Loaded to_float → Batch → Batch
  add_day market_id ingested_at day no_intervals b = b
  add_day market_id ingested_at day unsupported b = record b { rejected = b.rejected ++ day ∷ [] }
  add_day market_id ingested_at day (loaded is) b = record b {
    rows = b.rows ++ to_rows to_float market_id day is ingested_at (build_source_url day);
  }

  unfoldable pub add_days : Text → Text → List Date → Batch → Batch
  add_days market_id ingested_at [] b = b
  add_days market_id ingested_at (day ∷ days) b =
      add_days market_id ingested_at days
        (add_day market_id ingested_at day (load_day to_float (landing day)) b)

  -- The loop is that of `date_range`.
  unfoldable pub bronze_batch : Text → Text → Date → Date → Batch
  bronze_batch market_id ingested_at start end =
      add_days market_id ingested_at (date_range start end) (record { rows = []; rejected = [] })
