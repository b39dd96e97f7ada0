-- ===== src/Tests/Landings.antt =====
-- Landing files and Bronze rows at concrete inputs.
use shiden_api.Base.{ℕ, ◌≤◌, ◌≡◌, refl, [], ◌∷◌, none, some, ltb, if◌then◌else◌, arith}
use shiden_api.Base.Text.{Text, codes}
use shiden_api.Base.Json.{Json, text, number, JsonLib}
use shiden_api.Calendar.{Date, date, IsValid, days_in_month, is_leap, date_range}
use shiden_api.Landing.{rows_of_file, find_file, mem_date}
use shiden_api.Entsoe.{parse_landing_generation_json}
use shiden_api.Entsoe.Fetch.{
  Stamp, Answer, raised, frame, Frame, multi, call_with_retry, ts_to_utc_str, filter_day,
  is_empty_frame, column_names, generation_to_records,
}
use shiden_api.Entsoe.Ingest.{ingest_series, gen_source, Source, LandingZone}
use shiden_api.Entsoe.Ends.{Ends, call_with_retry-Ends}
use shiden_api.Entsoe.ReadBack.{IsClock, IsFaithful, generations, ingest_series-rows_of_file}

-- A file holds the value itself, and a time its text.
abbrev lib : JsonLib (Json ℕ) ℕ Text
lib = record {
  dumps = λ j. j;
  loads = λ j. some j;
  fromisoformat = λ s. some s;
  str_of = λ j. elim j [ text s ↦ s | _ ↦ [] ];
  float_text = λ s. none;
  float_boolean = λ b. if b then 1 else 0;
}

lib-IsFaithful : IsFaithful lib
lib-IsFaithful = record {
  datetime = ts_to_utc_str;
  loads_dumps = λ j. refl;
  fromisoformat_str = λ ts c. refl;
  str_of_text = λ s. refl;
}

abbrev noon : Date → Stamp
noon d = record { day = d; hour = 12; minute = 0; second = 0 }

abbrev monday : Date
monday = date 2026 3 2

abbrev tuesday : Date
tuesday = date 2026 3 3

abbrev wide : Frame ℕ
wide = record {
  columns = multi ((codes "Solar", []) ∷ (codes "Hydro", codes "Consumption") ∷ []);
  rows = (noon monday, some 7 ∷ none ∷ []) ∷ (noon tuesday, some 8 ∷ some 9 ∷ []) ∷ [];
}

noon-IsClock : (d : Date) → IsValid d → (1000 ≤ d.year) × (d.year ≤ 9999) → IsClock (noon d)
noon-IsClock d v y = record {
  day_in = v;
  year_in = y;
  clock_in = (omega arith, omega arith, omega arith);
}

monday-IsValid : IsValid monday
unfolding days_in_month is_leap
monday-IsValid = record {
  year_in = omega arith;
  month_in = (omega arith, omega arith);
  day_in = (omega arith, omega arith);
}

tuesday-IsValid : IsValid tuesday
unfolding days_in_month is_leap
tuesday-IsValid = record {
  year_in = omega arith;
  month_in = (omega arith, omega arith);
  day_in = (omega arith, omega arith);
}

abbrev source : Source
source = gen_source (codes "RO") (codes "zone") (codes "now")

ingest_series-rows_of_file_example :
    let parse = parse_landing_generation_json lib (codes "RO") (codes "now") in
    let old = rows_of_file parse (find_file tuesday []) in
    rows_of_file parse
      (find_file tuesday (ingest_series lib generation_to_records source wide monday tuesday []))
    ≡ (if mem_date tuesday (date_range monday tuesday)
        then (if is_empty_frame (filter_day wide tuesday)
            then old
            else some (
                generations lib-IsFaithful.datetime
                  (codes "RO")
                  (codes "now")
                  (column_names wide.columns)
                  (filter_day wide tuesday).rows))
        else old)
ingest_series-rows_of_file_example =
    ingest_series-rows_of_file lib lib-IsFaithful (codes "RO") (codes "now") source wide monday
      tuesday tuesday []
      (
        noon-IsClock monday monday-IsValid (omega arith, omega arith),
        (noon-IsClock tuesday tuesday-IsValid (omega arith, omega arith), tt),
      )

-- The first query fails twice, the second always.
abbrev query : ℕ → Text → Date → Date → ℕ → Answer ℕ
query failures bidding_zone start end n = if ltb n failures then raised else frame wide

call_with_retry-Ends_example :
    Ends
      (query 2 [] monday tuesday 0)
      (query 2 [] monday tuesday 1)
      (query 2 [] monday tuesday 2)
      (call_with_retry (query 2 [] monday tuesday))
call_with_retry-Ends_example = call_with_retry-Ends (query 2 [] monday tuesday)

abbrev before : LandingZone (Json ℕ)
before = record { generation = []; load = (monday, number 1) ∷ [] }
