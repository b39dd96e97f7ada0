-- ===== src/Tests/Sources.antt =====
-- OPCOM files, fetching, exchange rates and battery signals on small inputs. Prices are numbers.
use shiden_api.Base.{
  arith, ℕ, ◌≡◌, refl, [], ◌∷◌, List, true, false, Option, none, some, All, keep, length, ltb, ◌≤◌,
  if◌then◌else◌,
}
use shiden_api.Base.Text.{Text, codes}
use shiden_api.Calendar.{IsValid, days_in_month, is_leap, Date, date, date_range, calendar}
use shiden_api.Opcom.{load_day}
use shiden_api.Opcom.Parsed.{Day, load_day-Day}
use shiden_api.Opcom.Days.{bronze_batch}
use shiden_api.Opcom.Rows.{all_rows, is_rejected, bronze_batch-rows}
use shiden_api.Landing.{find_file, mem_date}
use shiden_api.Ingest.{
  Response, replied, timed_out, ingest, get_text_with_retry, settled, retry_loop, body,
  runtime_error,
}
use shiden_api.Ingest.Retries.{Retried, get_text_with_retry-Retried}
use shiden_api.Ingest.Files.{renewed}
use shiden_api.Ingest.Reports.{report_of, ingest-report_of}
use shiden_api.Fx.{reconcile_and_fill, forward_filled, rate_on, walk, walk_from}
use shiden_api.Fx.Filled.{is_from, rates_of, reconcile_and_fill-rates_of}
use shiden_api.Bess.{
  Signal, charge, idle, discharge, SignalRow, assign_signals, sort_prices, insert_price,
  valid_indexed, assign_loop, arbitrage_windows, group_by_signal,
}
use shiden_api.Bess.Runs.{Grouped, Summarised, slots, has_signal, arbitrage_windows-slots}
use shiden_api.Bess.Signals.{count, assign_signals-within}

-- A float of a text with as many characters.
abbrev to_float : Text → Option ℕ
to_float s = some (length s)

abbrev cells : Text → List Text
cells n = codes "RO" ∷ n ∷ codes "1.5" ∷ codes "2" ∷ codes "3" ∷ codes "4" ∷ []

abbrev header : List Text
header =
    codes "Zona de tranzactionare"
    ∷ codes "Interval"
    ∷ codes "Pret"
    ∷ codes "Volum"
    ∷ codes "a"
    ∷ codes "b"
    ∷ []

abbrev raw : List (List Text)
raw = (codes "Base" ∷ []) ∷ header ∷ cells (codes "1") ∷ cells (codes "96") ∷ []

abbrev first_day : Date
first_day = date 2025 10 5

abbrev last_day : Date
last_day = date 2025 10 7

abbrev landing : Date → Option (List (List Text))
landing d = if ltb d.day 6 then some raw else none

abbrev url : Date → Text
url d = codes "https://www.opcom.ro"

load_day-Day_example : Day to_float raw (load_day to_float (some raw))
load_day-Day_example = load_day-Day to_float raw

bronze_batch-rows_example :
    let b = bronze_batch to_float landing url (codes "RO") (codes "now") first_day last_day in
    (b.rows
      ≡ all_rows to_float landing url (codes "RO") (codes "now") (date_range first_day last_day))
    × (b.rejected
        ≡ keep
            (is_rejected to_float landing url (codes "RO") (codes "now"))
            (date_range first_day last_day))
    × All (λ r. r.interval_15min ≤ 100) b.rows
bronze_batch-rows_example =
    bronze_batch-rows to_float landing url (codes "RO") (codes "now") first_day last_day

-- Two timeouts, then an answer.
abbrev respond : ℕ → Response
respond n = if ltb n 2 then timed_out else replied 200 (codes "csv")

third_attempt : get_text_with_retry respond 3 ≡ (1 ∷ 2 ∷ [], body (codes "csv"))
unfolding get_text_with_retry retry_loop settled
third_attempt = refl

get_text_with_retry-Retried_example :
    Retried (λ n. settled (respond n)) runtime_error 3 0 3 1 (get_text_with_retry respond 3)
get_text_with_retry-Retried_example = get_text_with_retry-Retried respond 3

abbrev server : Date → ℕ → Response
server d n = if ltb d.day 6 then replied 404 [] else respond n

first_day-IsValid : IsValid first_day
unfolding days_in_month is_leap
first_day-IsValid = record {
  year_in = omega arith;
  month_in = (omega arith, omega arith);
  day_in = (omega arith, omega arith);
}

last_day-IsValid : IsValid last_day
unfolding days_in_month is_leap
last_day-IsValid = record {
  year_in = omega arith;
  month_in = (omega arith, omega arith);
  day_in = (omega arith, omega arith);
}

ingest-report_of_example :
    let r = ingest server first_day last_day true false [] in
    (r.report ≡ report_of server true [] (date_range first_day last_day))
    × (find_file last_day r.files ≡ (
        if mem_date last_day (date_range first_day last_day)
        then renewed server true last_day (find_file last_day [])
        else find_file last_day []))
    × (r.stopped ≡ false)
ingest-report_of_example =
    ingest-report_of server true first_day last_day last_day [] first_day-IsValid last_day-IsValid

abbrev bnr : List (Date × ℕ)
bnr = (first_day, 497) ∷ []

abbrev ecb : List (Date × ℕ)
ecb = (date 2025 10 6, 498) ∷ []

filled :
    reconcile_and_fill first_day last_day bnr (codes "BNR") ecb (codes "ECB") none
    ≡ (first_day, 497, codes "BNR")
      ∷ (date 2025 10 6, 498, codes "ECB")
      ∷ (last_day, 498, forward_filled)
      ∷ []
unfolding reconcile_and_fill walk rate_on calendar
filled = refl

reconcile_and_fill-rates_of_example :
    reconcile_and_fill first_day last_day bnr (codes "BNR") ecb (codes "ECB") none
    ≡ keep (is_from bnr ecb (codes "BNR") (codes "ECB") first_day) (
        rates_of bnr ecb
          (codes "BNR")
          (codes "ECB")
          []
          (date_range (walk_from first_day none) last_day))
reconcile_and_fill-rates_of_example =
    reconcile_and_fill-rates_of bnr ecb (codes "BNR") (codes "ECB") first_day last_day none

abbrev mean : List ℕ → ℕ
mean ps = 0

abbrev slot : ℕ → Signal → SignalRow ℕ
slot t s = record {
  time_id = t;
  time_label = codes "00:00";
  signal = s;
  price_eur_mwh = some t;
  arbitrage_spread_eur_mwh = none;
}

abbrev day : List (SignalRow ℕ)
day = slot 0 charge ∷ slot 1 charge ∷ slot 2 idle ∷ slot 3 charge ∷ slot 4 discharge ∷ []

arbitrage_windows-slots_example :
    Grouped mean day (group_by_signal mean day)
    × Summarised mean charge (group_by_signal mean day) (arbitrage_windows mean day).charge_windows
    × Summarised mean discharge
        (group_by_signal mean day)
        (arbitrage_windows mean day).discharge_windows
    × (slots mean (arbitrage_windows mean day).charge_windows
        ≡ length (keep (has_signal mean charge) day))
    × (slots mean (arbitrage_windows mean day).discharge_windows
        ≡ length (keep (has_signal mean discharge) day))
arbitrage_windows-slots_example = arbitrage_windows-slots mean day

abbrev prices : List (Option ℕ)
prices = some 5 ∷ none ∷ some 2 ∷ some 9 ∷ []

signals : assign_signals ltb prices 1 1 ≡ idle ∷ idle ∷ charge ∷ discharge ∷ []
unfolding assign_signals sort_prices insert_price valid_indexed assign_loop
signals = refl

assign_signals-within_example :
    (length (assign_signals ltb prices 1 1) ≡ length prices)
    × (count charge (assign_signals ltb prices 1 1) ≤ 1)
    × (count discharge (assign_signals ltb prices 1 1) ≤ 1)
assign_signals-within_example = assign_signals-within ltb 1 1 prices
