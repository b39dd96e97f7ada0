-- ===== src/Ingest/Reports.antt =====
-- The report of `OpcomIngester.ingest` of src/shiden/ingestion/opcom.py: which day is in which list.
use mathlib.Core.List.{append_assoc, append-nil}
use shiden_api.Base.{
  ℕ, zero, suc, ◌+◌, ◌≤◌, ◌≡◌, refl, sym, ap, ap₂, ◌∙◌, Bool, true, false, ◌&&◌, List, [], ◌∷◌,
  ◌++◌, map, none, some, All, All-imp, count_up, Bool-cases, inl, inr, ◌⊎◌, arith, if◌then◌else◌,
}
use shiden_api.Base.Text.{Text}
use shiden_api.Calendar.{Date, IsValid, date_eq, date_range, to_ordinal}
use shiden_api.Calendar.Order.{date_eq_iff}
use shiden_api.Calendar.Range.{date_range-ordinals}
use shiden_api.Landing.{Landing, find_file, exists_file, mem_date}
use shiden_api.Ingest.{
  Response, Failure, FetchedDay, day_text, day_failed, IngestReport, Ingest, fetch_day, after_fetch,
  pause, has_dates, ingest_day, ingest_days, ingest,
}
use shiden_api.Ingest.Files.{renewed, ingest_day-DayDone, run_days, run_days-step, ingest-Accounts}

abbrev pub IsDistinct : List Date → Type 0
IsDistinct [] = Unit
IsDistinct (d ∷ days) = All (λ e. date_eq d e ≡ false) days × IsDistinct days

later_days :
    (days : List Date) (a n : ℕ)
    → map to_ordinal days ≡ count_up a n
    → All (λ e. a ≤ to_ordinal e) days × IsDistinct days
later_days [] a n h = (tt, tt)
later_days (d ∷ days) a zero h = cc
later_days (d ∷ days) a (suc n) h =
    let (later, distinct) = later_days days (suc a) n (tail_eq h) in
    (
      (
        omega (arith, head_eq h),
        All-imp (λ e. suc a ≤ to_ordinal e) (λ e. a ≤ to_ordinal e) days (λ e k. omega (arith, k))
            later,
      ),
      (
        All-imp (λ e. suc a ≤ to_ordinal e) (λ e. date_eq d e ≡ false) days
            (λ e k. differ e (Bool-cases (date_eq d e)) (head_eq h) k) later,
        distinct,
      ),
    )
  where
    differ :
        (e : Date)
        → (date_eq d e ≡ true) ⊎ (date_eq d e ≡ false)
        → to_ordinal d ≡ a
        → suc a ≤ to_ordinal e
        → date_eq d e ≡ false
    differ e (inr n) p k = n
    differ e (inl y) p k = absurd (omega (arith, p, k, ap to_ordinal ((date_eq_iff d e).0 y)))

    head_eq : to_ordinal d ∷ map to_ordinal days ≡ a ∷ count_up (suc a) n → to_ordinal d ≡ a
    head_eq h = cc

    tail_eq :
        to_ordinal d ∷ map to_ordinal days ≡ a ∷ count_up (suc a) n
        → map to_ordinal days ≡ count_up (suc a) n
    tail_eq h = cc

-- What is reported of a day.
pub data Verdict : Type 0 where
  is_fetched is_skipped : Verdict
  is_failed : Failure → Verdict

abbrev pub verdict_of_fetch : FetchedDay → Verdict
verdict_of_fetch (day_text t) = is_fetched
verdict_of_fetch (day_failed why) = is_failed why

module _ (respond : Date → ℕ → Response) (skip_existing : Bool) where
  -- From the files that were there before the run.
  abbrev pub verdict : Landing Text → Date → Verdict
  verdict files d =
      if skip_existing && exists_file d files
      then is_skipped
      else verdict_of_fetch (fetch_day respond d)

  abbrev pub add_day : Date → Verdict → IngestReport → IngestReport
  add_day d is_fetched r = record r { fetched = d ∷ r.fetched }
  add_day d is_skipped r = record r { skipped = d ∷ r.skipped }
  add_day d (is_failed why) r = record r { failed = (d, why) ∷ r.failed }

  -- The days one after the other, each in the list of its verdict.
  unfoldable pub report_of : Landing Text → List Date → IngestReport
  report_of files [] = record { fetched = []; skipped = []; failed = [] }
  report_of files (d ∷ days) = add_day d (verdict files d) (report_of files days)

  abbrev report : List Date → List Date → List (Date × Failure) → IngestReport
  report f k w = record { fetched = f; skipped = k; failed = w }

  abbrev join : IngestReport → IngestReport → IngestReport
  join a b = report (a.fetched ++ b.fetched) (a.skipped ++ b.skipped) (a.failed ++ b.failed)

  abbrev one_day : Date → Verdict → IngestReport
  one_day d v = add_day d v (record { fetched = []; skipped = []; failed = [] })

  join_lem :
      {f f' k k' : List Date} {w w' : List (Date × Failure)}
      → f ≡ f'
      → k ≡ k'
      → w ≡ w'
      → report f k w ≡ report f' k' w'
  join_lem {f} {f'} {k} {k'} {w} {w'} p q r = ap₂ (λ a b. report a b w) p q ∙ ap (report f' k') r

  join_one :
      (a b : IngestReport) (d : Date) (v : Verdict)
      → join (join a (one_day d v)) b ≡ join a (add_day d v b)
  join_one a b d is_fetched =
      join_lem (append_assoc a.fetched (d ∷ []) b.fetched)
        (ap (λ l. l ++ b.skipped) (append-nil a.skipped))
        (ap (λ l. l ++ b.failed) (append-nil a.failed))
  join_one a b d is_skipped =
      join_lem (ap (λ l. l ++ b.fetched) (append-nil a.fetched))
        (append_assoc a.skipped (d ∷ []) b.skipped) (ap (λ l. l ++ b.failed) (append-nil a.failed))
  join_one a b d (is_failed why) =
      join_lem (ap (λ l. l ++ b.fetched) (append-nil a.fetched))
        (ap (λ l. l ++ b.skipped) (append-nil a.skipped))
        (append_assoc a.failed ((d, why) ∷ []) b.failed)

  after_fetch-report :
      (d : Date) (f : FetchedDay) (s : Ingest)
      → (after_fetch respond false d f s).report ≡ join s.report (one_day d (verdict_of_fetch f))
  after_fetch-report d (day_text t) s =
      join_lem refl (sym (append-nil s.report.skipped)) (sym (append-nil s.report.failed))
  after_fetch-report d (day_failed why) s =
      join_lem (sym (append-nil s.report.fetched)) (sym (append-nil s.report.skipped)) refl

  pause-report : (s : Ingest) → (pause respond s).report ≡ s.report
  pause-report s = go (has_dates s.report.fetched)
    where
      go : (b : Bool) → (if b then record s { pauses = s.pauses + 1 } else s).report ≡ s.report
      go true = refl
      go false = refl

  ingest_day-report :
      (d : Date) (s : Ingest)
      → (ingest_day respond skip_existing false d s).report
        ≡ join s.report (one_day d (verdict s.files d))
  unfolding ingest_day
  ingest_day-report d s = elim (Bool-cases (skip_existing && exists_file d s.files)) [
    | inl y ↦
        rw y (join_lem (sym (append-nil s.report.fetched)) refl (sym (append-nil s.report.failed)))
    | inr n ↦ rw n (
        after_fetch-report d (fetch_day respond d) (pause respond s)
        ∙ ap (λ r. join r (one_day d (verdict_of_fetch (fetch_day respond d)))) (pause-report s))
  ]

  report_of-cong :
      (files later : Landing Text) (d : Date) (days : List Date)
      → ((e : Date)
          → find_file e later ≡ (
              if date_eq d e
              then renewed respond skip_existing e (find_file e files)
              else find_file e files))
      → All (λ e. date_eq d e ≡ false) days
      → report_of later days ≡ report_of files days
  unfolding report_of
  report_of-cong files later d [] h fresh = refl
  report_of-cong files later d (e ∷ days) h fresh =
      ap₂ (λ v r. add_day e v r)
        (ap
          (λ o.
            if skip_existing && elim o [ none ↦ false | some t ↦ true ]
            then is_skipped
            else verdict_of_fetch (fetch_day respond e))
          (h e ∙ rw fresh.0))
        (report_of-cong files later d days h fresh.1)

  run_days-report :
      (days : List Date) (s : Ingest)
      → s.stopped ≡ false
      → IsDistinct days
      → (run_days respond skip_existing days s).report ≡ join s.report (report_of s.files days)
  unfolding report_of ingest_days
  run_days-report [] s h k =
      join_lem (sym (append-nil s.report.fetched)) (sym (append-nil s.report.skipped))
        (sym (append-nil s.report.failed))
  run_days-report (d ∷ days) s h k =
      let next = ingest_day respond skip_existing false d s in
      let done = ingest_day-DayDone respond skip_existing d s in
      ap (λ r. r.report) (run_days-step respond skip_existing d days s h)
      ∙ run_days-report days next (done.goes_on h) k.1
      ∙ ap₂ join (ingest_day-report d s) (report_of-cong s.files next.files d days done.file_is k.0)
      ∙ join_one s.report (report_of s.files days) d (verdict s.files d)

  -- With `stop_on_error` off, for valid dates, `ingest` goes through the whole interval, and the
  -- report has each of its days once, in order: as skipped if existing files are skipped and its
  -- file was there before, else as fetched if its fetch gave a text, else as failed with the
  -- reason. The file of a date in the interval is replaced by what was fetched, unless the fetch
  -- failed, or the file was there and existing ones are skipped; the file of any other date stays.
  pub ingest-report_of :
      (start end e : Date) (files : Landing Text)
      → IsValid start
      → IsValid end
      → let r = ingest respond start end skip_existing false files in
        (r.report ≡ report_of files (date_range start end))
        × (find_file e r.files ≡ (
            if mem_date e (date_range start end)
            then renewed respond skip_existing e (find_file e files)
            else find_file e files))
        × (r.stopped ≡ false)
  unfolding ingest
  ingest-report_of start end e files vs ve =
      let (file, count, goes) = ingest-Accounts respond skip_existing start end e files in
      (
        run_days-report (date_range start end) _ refl
            (later_days (date_range start end) _ _ (date_range-ordinals start end vs ve).0).1,
        file,
        goes,
      )
