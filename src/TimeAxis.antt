-- ===== src/TimeAxis.antt =====
-- The intervals of a local delivery day, src/shiden/timeaxis.py. An instant is a number of
-- seconds of UTC. The time zone is a parameter: what `ZoneInfo` answers to the calls made here.
pub mod Slots
pub mod Repeats
use shiden_api.Base.{
  ℕ, zero, suc, ◌+◌, ◌-◌, ◌*◌, ◌/◌, ◌%◌, Bool, true, false, ◌&&◌, ◌||◌, List, [], ◌∷◌, ◌++◌, Option,
  none, some, ltb, leb, ◌==◌, if◌then◌else◌,
}
use shiden_api.Base.Text.{Text}
use shiden_api.Base.Integers.{ℤ, pos, negsuc}
use shiden_api.Calendar.{Date, next_day, date_to_id}

-- A local time: `current.astimezone(tz)` with its `utcoffset()` and `dst()` in seconds.
pub record LocalTime : Type 0 where
  pub day : Date
  pub hour : ℕ
  pub minute : ℕ
  pub utcoffset : Option ℤ
  pub dst : Option ℤ

-- `utc_of d s` is the instant of the wall clock `s` seconds after midnight of `d`, fold 0.
pub record Zone : Type 0 where
  pub utc_of : Date → ℕ → ℕ
  pub astimezone : ℕ → LocalTime

abbrev pub interval_minutes : ℕ
interval_minutes = 15

abbrev pub intervals_per_hour : ℕ
intervals_per_hour = 60 / interval_minutes

abbrev pub default_peak_start_hour : ℕ
default_peak_start_hour = 8

abbrev pub default_peak_end_hour : ℕ
default_peak_end_hour = 20

pub record Interval : Type 0 where
  pub timestamp_utc : ℕ
  pub local_timestamp : LocalTime
  pub interval_of_day : ℕ
  pub local_time_id : ℕ
  pub local_hour : ℕ
  pub quarter_of_hour : ℕ
  pub time_label : Text
  pub utc_offset_minutes : ℤ
  pub is_dst : Bool
  pub is_repeated_hour : Bool
  pub is_hour_start : Bool
  pub is_peak : Bool

-- The property `date_id` of an interval.
abbrev pub date_id : Interval → ℕ
date_id iv = date_to_id iv.local_timestamp.day

unfoldable pub local_midnight_utc : Zone → Date → ℕ
local_midnight_utc tz local_date = tz.utc_of local_date 0

-- `x or timedelta(0)`
abbrev pub or_zero : Option ℤ → ℤ
or_zero none = pos 0
or_zero (some x) = x

-- `offset.total_seconds() // 60`, rounded down.
abbrev pub minutes_of : ℤ → ℤ
minutes_of (pos n) = pos (n / 60)
minutes_of (negsuc n) = negsuc (n / 60)

abbrev pub is_nonzero : ℤ → Bool
is_nonzero (pos zero) = false
is_nonzero _ = true

-- `f"{n:02d}"` for n below 100.
abbrev pub two_digits : ℕ → Text
two_digits n = (48 + n / 10) ∷ (48 + n % 10) ∷ []

abbrev pub mem_id : ℕ → List ℕ → Bool
mem_id x [] = false
mem_id x (y ∷ ys) = (x == y) || mem_id x ys

abbrev pub time_id_of : LocalTime → ℕ
time_id_of t = t.hour * intervals_per_hour + t.minute / interval_minutes

module _ (tz : Zone) (peak_start_hour peak_end_hour : ℕ) where
  -- What the body of the loop appends, given the identifiers seen before.
  unfoldable pub interval_at : ℕ → ℕ → List ℕ → Interval
  interval_at current index seen =
      let t = tz.astimezone current in
      record {
        timestamp_utc = current;
        local_timestamp = t;
        interval_of_day = index;
        local_time_id = time_id_of t;
        local_hour = t.hour;
        quarter_of_hour = t.minute / interval_minutes;
        time_label = two_digits t.hour ++ (b':' ∷ two_digits t.minute);
        utc_offset_minutes = minutes_of (or_zero t.utcoffset);
        is_dst = is_nonzero (or_zero t.dst);
        is_repeated_hour = mem_id (time_id_of t) seen;
        is_hour_start = t.minute == 0;
        is_peak = leb peak_start_hour t.hour && ltb t.hour peak_end_hour;
      }

  -- `while current < end_utc`, with fuel.
  unfoldable pub interval_loop : ℕ → ℕ → ℕ → ℕ → List ℕ → List Interval
  interval_loop zero current end_utc index seen = []
  interval_loop (suc fuel) current end_utc index seen = elim (ltb current end_utc) [
    | true ↦
        interval_at current index seen
        ∷ interval_loop fuel (current + interval_minutes * 60) end_utc (suc index)
            (time_id_of (tz.astimezone current) ∷ seen)
    | false ↦ []
  ]

  -- A round moves `current` on, so the seconds of the day are fuel enough, as TimeAxis/Slots shows.
  unfoldable pub day_intervals : Date → List Interval
  day_intervals local_date =
      let start_utc = local_midnight_utc tz local_date in
      let end_utc = local_midnight_utc tz (next_day local_date) in
      interval_loop (end_utc - start_utc) start_utc end_utc 1 []

-- `[iv.interval_of_day for iv in intervals if iv.is_peak]`
unfoldable pub peaks : List Interval → List ℕ
peaks [] = []
peaks (iv ∷ ivs) = if iv.is_peak then iv.interval_of_day ∷ peaks ivs else peaks ivs

abbrev pub last_of : ℕ → List ℕ → ℕ
last_of x [] = x
last_of x (y ∷ ys) = last_of y ys

abbrev pub ends_of : List ℕ → Option (ℕ × ℕ)
ends_of [] = none
ends_of (x ∷ xs) = some (x, last_of x xs)

-- `none` is the ValueError.
unfoldable pub peak_interval_range : List Interval → Option (ℕ × ℕ)
unfolding peaks
peak_interval_range intervals = ends_of (peaks intervals)
