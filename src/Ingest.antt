-- ===== src/Ingest.antt =====
-- Fetching with retries, src/shiden/ingestion/http.py, and the OPCOM ingester,
-- src/shiden/ingestion/opcom.py. What the server does is a parameter: an answer for each attempt.
-- Delays are whole seconds; the landing zone is that of one market, and writing to it succeeds.
pub mod Reports
pub mod Retries
pub mod Files
use shiden_api.Base.{
  ℕ, zero, suc, ◌+◌, ◌*◌, ◌-◌, Bool, true, false, not, ◌&&◌, ◌||◌, List, [], ◌∷◌, ◌++◌, Option,
  none, some, ltb, leb, if◌then◌else◌, ◌⊎◌, inl, inr,
}
use shiden_api.Base.Text.{Text, strip}
use shiden_api.Keys.{is_empty}
use shiden_api.Calendar.{Date, date_range}
use shiden_api.Landing.{Landing, write_file, exists_file}

-- What one GET does: a status and a text, a timeout, or another exception of the client.
pub data Response : Type 0 where
  replied : ℕ → Text → Response
  timed_out client_error : Response

-- What `get_text_with_retry` does: it returns, or raises HTTPStatusError for a status that a
-- retry does not mend, RuntimeError after the last attempt, or the client's own exception.
pub data Fetched : Type 0 where
  body : Text → Fetched
  status_error : ℕ → Fetched
  runtime_error other_error : Fetched

-- The end of an attempt; `none` if the loop goes on to the next.
unfoldable pub settled : Response → Option Fetched
settled (replied status text) =
    if leb 500 status
    then none
    else if leb 200 status && ltb status 300
    then some (body text)
    else some (status_error status)
settled timed_out = none
settled client_error = some other_error

-- Attempts with growing delays, the loop that the ingesters share: `ended n` is the end if attempt `n`
-- settles the matter, `last` the end if none does.
module _ {E : Type 0} (ended : ℕ → Option E) (last : E) (max_retries : ℕ) where
  -- The delays slept, and the end. `left` attempts remain, of which `attempt` is the next.
  unfoldable pub retry_loop : ℕ → ℕ → ℕ → List ℕ × E
  retry_loop zero attempt delay = ([], last)
  retry_loop (suc left) attempt delay =
      let waits = ltb attempt (max_retries - 1) in
      let rest = retry_loop left (suc attempt) (if waits then delay * 2 else delay) in
      elim (ended attempt) [
        | some end ↦ ([], end)
        | none ↦ if waits then (delay ∷ rest.0, rest.1) else rest
      ]

unfoldable pub get_text_with_retry : (ℕ → Response) → ℕ → List ℕ × Fetched
get_text_with_retry respond max_retries =
    retry_loop (λ n. settled (respond n)) runtime_error max_retries max_retries 0 1

-- Why a day was not fetched.
pub data Failure : Type 0 where
  data_not_available : Failure
  fetch_failed : Fetched → Failure

pub data FetchedDay : Type 0 where
  day_text : Text → FetchedDay
  day_failed : Failure → FetchedDay

abbrev pub day_of_fetch : Fetched → FetchedDay
day_of_fetch (body raw_csv) =
    if is_empty (strip raw_csv) then day_failed data_not_available else day_text raw_csv
day_of_fetch f = day_failed (fetch_failed f)

pub record FetchEntry : Type 0 where
  pub date : Date
  pub source_url : Text
  pub raw_csv : Text

pub record IngestReport : Type 0 where
  pub fetched : List Date
  pub skipped : List Date
  pub failed : List (Date × Failure)

-- The state of the loop over the days: `pauses` counts the sleeps for the rate limit, `stopped`
-- says that an exception has left the loop.
pub record Ingest : Type 0 where
  pub files : Landing Text
  pub report : IngestReport
  pub pauses : ℕ
  pub stopped : Bool

abbrev pub has_dates : List Date → Bool
has_dates [] = false
has_dates (d ∷ ds) = true

module _ (respond : Date → ℕ → Response) where
  -- `_fetch_day`, with the default of three attempts.
  unfoldable pub fetch_day : Date → FetchedDay
  fetch_day d = day_of_fetch (get_text_with_retry (respond d) 3).1

  -- The entries of `fetch` from `current` on, or what the first day without a text raises.
  unfoldable pub fetch_days : (Date → Text) → List Date → List FetchEntry ⊎ Failure
  fetch_days url_of [] = inl []
  fetch_days url_of (d ∷ days) =
      let later = fetch_days url_of days in
      elim (fetch_day d) [
        | day_failed why ↦ inr why
        | day_text raw_csv ↦ elim later [
          | inr why ↦ inr why
          | inl entries ↦
              inl (record { date = d; source_url = url_of d; raw_csv = raw_csv } ∷ entries)
        ]
      ]

  -- `fetch`; `url_of` is the address of a day.
  unfoldable pub fetch : (Date → Text) → Date → Date → List FetchEntry ⊎ Failure
  fetch url_of start end = fetch_days url_of (date_range start end)

  abbrev pub after_fetch : Bool → Date → FetchedDay → Ingest → Ingest
  after_fetch stop_on_error d (day_failed why) s = record s {
    report = record (s.report) { failed = s.report.failed ++ (d, why) ∷ [] };
    stopped = stop_on_error;
  }
  after_fetch stop_on_error d (day_text raw_csv) s = record s {
    files = write_file d raw_csv s.files;
    report = record (s.report) { fetched = s.report.fetched ++ d ∷ [] };
  }

  abbrev pub pause : Ingest → Ingest
  pause s = if has_dates s.report.fetched then record s { pauses = s.pauses + 1 } else s

  unfoldable pub ingest_day : Bool → Bool → Date → Ingest → Ingest
  ingest_day skip_existing stop_on_error d s =
      if skip_existing && exists_file d s.files
      then record s { report = record (s.report) { skipped = s.report.skipped ++ d ∷ [] } }
      else after_fetch stop_on_error d (fetch_day d) (pause s)

  unfoldable pub ingest_days : Bool → Bool → List Date → Ingest → Ingest
  ingest_days skip_existing stop_on_error [] s = s
  ingest_days skip_existing stop_on_error (d ∷ days) s =
      let next = ingest_day skip_existing stop_on_error d s in
      elim next.stopped [ true ↦ next | false ↦ ingest_days skip_existing stop_on_error days next ]

  unfoldable pub ingest : Date → Date → Bool → Bool → Landing Text → Ingest
  ingest start end skip_existing stop_on_error files =
      ingest_days skip_existing stop_on_error (date_range start end) (record {
        files = files;
        report = record { fetched = []; skipped = []; failed = [] };
        pauses = 0;
        stopped = false;
      })
