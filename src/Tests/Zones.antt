-- ===== src/Tests/Zones.antt =====
-- The time axis in a zone that falls back on 26 October 2025, as Europe/Bucharest does.
use shiden_api.Base.{
  ℕ, ◌+◌, ◌-◌, ◌*◌, ◌/◌, ◌%◌, ◌≤◌, ◌≡◌, refl, Bool, false, [], ◌∷◌, map, length, some, get_elem?,
  count_up, ltb, leb, ◌==◌, if◌then◌else◌, arith,
}
use shiden_api.Base.Text.{codes}
use shiden_api.Base.Integers.{pos}
use shiden_api.Calendar.{
  Date, date, IsValid, days_in_month, is_leap, to_ordinal, next_day, plus_days, date_range,
  calendar,
}
use shiden_api.Calendar.Order.{to_ordinal-next_day, to_ordinal_pos}
use shiden_api.TimeAxis.{
  Zone, Interval, LocalTime, mem_id, local_midnight_utc, interval_at, interval_loop, day_intervals,
  peaks, peak_interval_range,
}
use shiden_api.TimeAxis.Slots.{steps, slots, day_intervals-steps, length-day_intervals}
use shiden_api.TimeAxis.Repeats.{ids_before, is_repeated_hour_lem}
use shiden_api.DimDatetime.{rows_of_days}
use shiden_api.DimDatetime.Tiles.{IsWhole, times, rows_of_days-steps}

abbrev changed : ℕ
changed = 739550

-- Whether the clock has gone back `s` seconds after midnight of the day of ordinal `n`, fold 0.
abbrev is_winter : ℕ → ℕ → Bool
is_winter n s = if n == changed then leb 14400 s else ltb changed n

abbrev local_time : ℕ → ℕ → ℕ → LocalTime
local_time seconds offset dst = record {
  day = plus_days (date 2025 10 1) (seconds / 86400 - 739525);
  hour = seconds % 86400 / 3600;
  minute = seconds % 3600 / 60;
  utcoffset = some (pos offset);
  dst = some (pos dst);
}

abbrev autumn : Zone
autumn = record {
  utc_of = λ d s. to_ordinal d * 86400 + s - (if is_winter (to_ordinal d) s then 7200 else 10800);
  astimezone = λ t.
      if ltb t (changed * 86400 + 3600)
      then local_time (t + 10800) 10800 3600
      else local_time (t + 7200) 7200 0;
}

abbrev fall_back : Date
fall_back = date 2025 10 26

long_day : length (day_intervals autumn 8 20 fall_back) ≡ 100
unfolding day_intervals interval_loop interval_at local_midnight_utc calendar
long_day = refl

-- The published peak window of the long day.
long_peak : peak_interval_range (day_intervals autumn 8 20 fall_back) ≡ some (37, 84)
unfolding day_intervals interval_loop interval_at local_midnight_utc peak_interval_range peaks
    calendar
long_peak = refl

length-day_intervals_example : length (day_intervals autumn 8 20 fall_back) ≡ 4 * 25
length-day_intervals_example = length-day_intervals autumn 8 20 fall_back 25 hours
  where
    hours :
        local_midnight_utc autumn (next_day fall_back)
        ≡ local_midnight_utc autumn fall_back + 3600 * 25
    hours = unfold local_midnight_utc in unfold calendar in refl

day_intervals-steps_example :
    let ivs = day_intervals autumn 8 20 fall_back in
    let start_utc = local_midnight_utc autumn fall_back in
    let n = slots start_utc (local_midnight_utc autumn (next_day fall_back)) in
    (map (λ iv. iv.timestamp_utc) ivs ≡ steps start_utc n)
    × (map (λ iv. iv.interval_of_day) ivs ≡ count_up 1 n)
day_intervals-steps_example = day_intervals-steps autumn 8 20 fall_back

-- The interval at the second 03:00.
abbrev second_three : Interval
unfolding interval_at
second_three = interval_at autumn 8 20 (changed * 86400 + 3600) 17 (12 ∷ [])

is_repeated_hour_lem_example :
    second_three.is_repeated_hour
    ≡ mem_id second_three.local_time_id (ids_before 16 (day_intervals autumn 8 20 fall_back))
is_repeated_hour_lem_example = is_repeated_hour_lem autumn 8 20 fall_back 16 second_three at
  where
    at : get_elem? (day_intervals autumn 8 20 fall_back) 16 ≡ some second_three
    at =
        unfold day_intervals in
        unfold interval_loop in
        unfold interval_at in unfold local_midnight_utc in unfold calendar in refl

quarters_of : Date → ℕ
quarters_of d = if to_ordinal d == changed then 100 else 96

midnights :
    (n m : ℕ)
    → 1 ≤ n
    → m ≡ n + 1
    → m * 86400 + 0 - (if (if m == changed then false else ltb changed m) then 7200 else 10800)
      ≡ n * 86400
        + 0
        - (if (if n == changed then false else ltb changed n) then 7200 else 10800)
        + 900 * (if n == changed then 100 else 96)
midnights n m h e = ground arith

autumn-IsWhole : IsWhole autumn fall_back fall_back
unfolding local_midnight_utc quarters_of
autumn-IsWhole = record {
  quarters = quarters_of;
  length_of_day = λ d v low high.
      midnights (to_ordinal d) (to_ordinal (next_day d)) (to_ordinal_pos d v)
        (to_ordinal-next_day d v);
}

fall_back-IsValid : IsValid fall_back
unfolding days_in_month is_leap
fall_back-IsValid = record {
  year_in = omega arith;
  month_in = (omega arith, omega arith);
  day_in = (omega arith, omega arith);
}

rows_of_days-steps_example :
    times (rows_of_days (codes "Europe/Bucharest") autumn (date_range fall_back fall_back))
    ≡ steps (local_midnight_utc autumn fall_back) (
        slots
          (local_midnight_utc autumn fall_back)
          (local_midnight_utc autumn (next_day fall_back)))
rows_of_days-steps_example =
    rows_of_days-steps (codes "Europe/Bucharest") autumn fall_back fall_back autumn-IsWhole
      fall_back-IsValid fall_back-IsValid (omega arith)
