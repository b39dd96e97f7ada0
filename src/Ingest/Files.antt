-- ===== src/Ingest/Files.antt =====
-- What `OpcomIngester.ingest` of src/shiden/ingestion/opcom.py leaves in the landing zone.
use shiden_api.Base.{
  ℕ, suc, ◌+◌, ◌≡◌, refl, sym, ap, subst, ◌∙◌, Bool, true, false, ◌&&◌, ◌||◌, List, [], ◌∷◌, ◌++◌,
  Option, none, some, length, length-append, Bool-cases, inl, inr, arith, if◌then◌else◌,
}
use shiden_api.Base.Text.{Text}
use shiden_api.Calendar.{Date, date_eq, date_range}
use shiden_api.Calendar.Order.{date_eq_iff}
use shiden_api.Landing.{
  Landing, find_file, exists_file, mem_date, date_eq_refl, find_file-write_file,
}
use shiden_api.Ingest.{
  Response, FetchedDay, day_text, day_failed, Ingest, fetch_day, after_fetch, pause, has_dates,
  ingest_day, ingest_days, ingest,
}

module _ (respond : Date → ℕ → Response) (skip_existing : Bool) where
  -- What the fetch of a day leaves of its file.
  abbrev pub replaced : FetchedDay → Option Text → Option Text
  replaced (day_failed why) old = old
  replaced (day_text t) old = some t

  -- What a run leaves of a day's file.
  abbrev pub renewed : Date → Option Text → Option Text
  renewed d old =
      if skip_existing && elim old [ none ↦ false | some t ↦ true ]
      then old
      else replaced (fetch_day respond d) old

  renewed_twice : (d : Date) (old : Option Text) → renewed d (renewed d old) ≡ renewed d old
  renewed_twice d old = go skip_existing (fetch_day respond d) old
    where
      go :
          (b : Bool) (f : FetchedDay) (o : Option Text)
          → (if b
                && elim (if b && elim o [ none ↦ false | some t ↦ true ] then o else replaced f o) [
                  | none ↦ false
                  | some t ↦ true
                ]
              then (if b && elim o [ none ↦ false | some t ↦ true ] then o else replaced f o)
              else replaced f
                  (if b && elim o [ none ↦ false | some t ↦ true ] then o else replaced f o))
            ≡ (if b && elim o [ none ↦ false | some t ↦ true ] then o else replaced f o)
      go true (day_failed why) none = refl
      go true (day_failed why) (some t) = refl
      go true (day_text u) none = refl
      go true (day_text u) (some t) = refl
      go false (day_failed why) o = refl
      go false (day_text u) o = refl

  -- The step of one day: its file, the report's size, and that the loop goes on.
  pub record DayDone (d : Date) (s next : Ingest) : Type 0 where
    pub file_is :
        (e : Date)
        → find_file e next.files
          ≡ (if date_eq d e then renewed e (find_file e s.files) else find_file e s.files)
    pub counted :
        length next.report.fetched + length next.report.skipped + length next.report.failed
        ≡ suc (length s.report.fetched + length s.report.skipped + length s.report.failed)
    pub goes_on : s.stopped ≡ false → next.stopped ≡ false

  by_day :
      (d : Date) (s next : Ingest)
      → find_file d next.files ≡ renewed d (find_file d s.files)
      → ((e : Date) → date_eq d e ≡ false → find_file e next.files ≡ find_file e s.files)
      → (e : Date)
      → find_file e next.files
        ≡ (if date_eq d e then renewed e (find_file e s.files) else find_file e s.files)
  by_day d s next own others e = elim (Bool-cases (date_eq d e)) [
    | inl y ↦ rw y (
        subst (λ x. find_file x next.files ≡ renewed x (find_file x s.files))
          ((date_eq_iff d e).0 y) own)
    | inr n ↦ rw n (others e n)
  ]

  skipped-DayDone :
      (d : Date) (s : Ingest)
      → (skip_existing && exists_file d s.files) ≡ true
      → DayDone d s
          (record s { report = record (s.report) { skipped = s.report.skipped ++ d ∷ [] } })
  skipped-DayDone d s e = record {
    file_is =
        by_day d s
          (record s { report = record (s.report) { skipped = s.report.skipped ++ d ∷ [] } })
          (sym (rw e)) (λ c n. refl);
    counted = omega (arith, length-append s.report.skipped (d ∷ []));
    goes_on = λ h. h;
  }

  fetched-DayDone :
      (d : Date) (s : Ingest) (f : FetchedDay)
      → fetch_day respond d ≡ f
      → (skip_existing && exists_file d s.files) ≡ false
      → DayDone d s (after_fetch respond false d f s)
  fetched-DayDone d s (day_failed why) f e = record {
    file_is =
        by_day d s (after_fetch respond false d (day_failed why) s) (sym (rw (e, f))) (λ c n. refl);
    counted = omega (arith, length-append s.report.failed ((d, why) ∷ []));
    goes_on = λ h. refl;
  }
  fetched-DayDone d s (day_text t) f e = record {
    file_is =
        by_day d s (after_fetch respond false d (day_text t) s)
          (find_file-write_file d d t s.files ∙ rw (date_eq_refl d) (sym (rw (e, f))))
          (λ c n. find_file-write_file d c t s.files ∙ rw n);
    counted = omega (arith, length-append s.report.fetched (d ∷ []));
    goes_on = λ h. h;
  }

  paused : (d : Date) (s next : Ingest) → DayDone d (pause respond s) next → DayDone d s next
  paused d s next h = go (has_dates s.report.fetched) h
    where
      go :
          (b : Bool)
          → DayDone d (if b then record s { pauses = s.pauses + 1 } else s) next
          → DayDone d s next
      go true h = record { file_is = h.file_is; counted = h.counted; goes_on = h.goes_on }
      go false h = h

  pub pause-files : (s : Ingest) → (pause respond s).files ≡ s.files
  pause-files s = go (has_dates s.report.fetched)
    where
      go : (b : Bool) → (if b then record s { pauses = s.pauses + 1 } else s).files ≡ s.files
      go true = refl
      go false = refl

  pub ingest_day-DayDone :
      (d : Date) (s : Ingest) → DayDone d s (ingest_day respond skip_existing false d s)
  unfolding ingest_day
  ingest_day-DayDone d s = elim (Bool-cases (skip_existing && exists_file d s.files)) [
    | inl y ↦ rw y (skipped-DayDone d s y)
    | inr n ↦ rw n (
        paused d s (after_fetch respond false d (fetch_day respond d) (pause respond s)) (
          fetched-DayDone d (pause respond s) (fetch_day respond d) refl
            (ap (λ fs. skip_existing && exists_file d fs) (pause-files s) ∙ n)))
  ]

  -- A run over some days, none of which stops it.
  abbrev pub run_days : List Date → Ingest → Ingest
  run_days = ingest_days respond skip_existing false

  pub run_days-step :
      (d : Date) (days : List Date) (s : Ingest)
      → s.stopped ≡ false
      → run_days (d ∷ days) s ≡ run_days days (ingest_day respond skip_existing false d s)
  unfolding ingest_days
  run_days-step d days s h =
      first_of _ _ (ingest_day respond skip_existing false d s).stopped
        ((ingest_day-DayDone d s).goes_on h)
    where
      first_of :
          (next rest : Ingest) (b : Bool) → b ≡ false → elim b [ true ↦ next | false ↦ rest ] ≡ rest
      first_of next rest true e = cc
      first_of next rest false e = refl

  -- What a run over `days` from `s` to `r` has done to the file of `e` and to the report.
  abbrev pub Accounts : List Date → Ingest → Date → Ingest → Type 0
  Accounts days s e r =
      (find_file e r.files
        ≡ (if mem_date e days then renewed e (find_file e s.files) else find_file e s.files))
      × (length r.report.fetched + length r.report.skipped + length r.report.failed
          ≡ length s.report.fetched
            + length s.report.skipped
            + length s.report.failed
            + length days)
      × (r.stopped ≡ false)

  file_after :
      (d e : Date) (days : List Date) (old now last : Option Text)
      → now ≡ (if date_eq d e then renewed e old else old)
      → last ≡ (if mem_date e days then renewed e now else now)
      → last ≡ (if date_eq d e || mem_date e days then renewed e old else old)
  file_after d e days old now last p q = go (date_eq d e) (mem_date e days) p q
    where
      go :
          (b c : Bool)
          → now ≡ (if b then renewed e old else old)
          → last ≡ (if c then renewed e now else now)
          → last ≡ (if b || c then renewed e old else old)
      go true true p q = q ∙ ap (renewed e) p ∙ renewed_twice e old
      go true false p q = q ∙ p
      go false true p q = q ∙ ap (renewed e) p
      go false false p q = q ∙ p

  run_days-Accounts :
      (days : List Date) (s : Ingest) (e : Date)
      → s.stopped ≡ false
      → Accounts days s e (run_days days s)
  unfolding ingest_days
  run_days-Accounts [] s e h = (refl, omega arith, h)
  run_days-Accounts (d ∷ days) s e h =
      let next = ingest_day respond skip_existing false d s in
      let done = ingest_day-DayDone d s in
      let (file, count, goes) = run_days-Accounts days next e (done.goes_on h) in
      subst (Accounts (d ∷ days) s e) (sym (run_days-step d days s h)) (
        file_after d e days (find_file e s.files) (find_file e next.files) _ (done.file_is e) file,
        omega (arith, done.counted, count),
        goes,
      )

  -- The same for the whole interval.
  pub ingest-Accounts :
      (start end e : Date) (files : Landing Text)
      → let r = ingest respond start end skip_existing false files in
        (find_file e r.files ≡ (
          if mem_date e (date_range start end)
          then renewed e (find_file e files)
          else find_file e files))
        × (length r.report.fetched + length r.report.skipped + length r.report.failed
            ≡ length (date_range start end))
        × (r.stopped ≡ false)
  unfolding ingest
  ingest-Accounts start end e files =
      let (file, count, goes) =
        run_days-Accounts (date_range start end)
          (record {
            files = files;
            report = record { fetched = []; skipped = []; failed = [] };
            pauses = 0;
            stopped = false;
          })
          e refl in
      (file, omega (arith, count), goes)
