-- ===== src/DimDatetime.antt =====
-- The rows of the time dimension, src/shiden/processing/silver/dimensions/dim_datetime.py, up to
-- the merge into the table. `zone_info` stands for `ZoneInfo`.
pub mod Tiles
use shiden_api.Base.{ℕ, List, [], ◌∷◌, ◌++◌, map, Bool, Option, none, some, if◌then◌else◌}
use shiden_api.Base.Text.{Text, text_eq, text_leb}
use shiden_api.Base.Integers.{ℤ}
use shiden_api.Calendar.{Date, date_range}
use shiden_api.Markets.{MarketConfig, markets}
use shiden_api.TimeAxis.{
  Zone, Interval, date_id, day_intervals, default_peak_start_hour, default_peak_end_hour,
}

pub record DateTimeRow : Type 0 where
  pub timezone : Text
  pub timestamp_utc : ℕ
  pub date_id : ℕ
  pub interval_of_day : ℕ
  pub local_time_id : ℕ
  pub local_hour : ℕ
  pub quarter_of_hour : ℕ
  pub time_label : Text
  pub utc_offset_minutes : ℤ
  pub is_dst : Bool
  pub is_repeated_hour : Bool
  pub is_hour_start : Bool

abbrev pub make_row : Text → Interval → DateTimeRow
make_row tz_name iv = record {
  timezone = tz_name;
  timestamp_utc = iv.timestamp_utc;
  date_id = date_id iv;
  interval_of_day = iv.interval_of_day;
  local_time_id = iv.local_time_id;
  local_hour = iv.local_hour;
  quarter_of_hour = iv.quarter_of_hour;
  time_label = iv.time_label;
  utc_offset_minutes = iv.utc_offset_minutes;
  is_dst = iv.is_dst;
  is_repeated_hour = iv.is_repeated_hour;
  is_hour_start = iv.is_hour_start;
}

abbrev pub intervals_of : Zone → Date → List Interval
intervals_of tz d = day_intervals tz default_peak_start_hour default_peak_end_hour d

-- The two loops of `make_rows`.
unfoldable pub rows_of_days : Text → Zone → List Date → List DateTimeRow
rows_of_days tz_name tz [] = []
rows_of_days tz_name tz (d ∷ ds) =
    map (make_row tz_name) (intervals_of tz d) ++ rows_of_days tz_name tz ds

-- A set of texts, sorted: what is there already is not put in again.
abbrev pub insert_zone : Text → List Text → List Text
insert_zone z [] = z ∷ []
insert_zone z (y ∷ ys) =
    if text_eq z y then y ∷ ys else if text_leb z y then z ∷ y ∷ ys else y ∷ insert_zone z ys

abbrev pub market_zones : List (Text × MarketConfig) → List Text
market_zones [] = []
market_zones ((k, m) ∷ ms) = insert_zone m.timezone (market_zones ms)

module _ (zone_info : Text → Zone) where
  unfoldable pub make_rows : Text → Date → Date → List DateTimeRow
  make_rows tz_name start end = rows_of_days tz_name (zone_info tz_name) (date_range start end)

  abbrev pub rows_of_zones : List Text → Date → Date → List DateTimeRow
  rows_of_zones [] start end = []
  rows_of_zones (z ∷ zs) start end = make_rows z start end ++ rows_of_zones zs start end

  -- `process`: the rows to merge; with none it returns before the merge.
  abbrev pub process : Date → Date → Option (List Text) → List DateTimeRow
  process start end none = rows_of_zones (market_zones markets) start end
  process start end (some timezones) = rows_of_zones timezones start end
