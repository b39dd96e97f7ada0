-- ===== src/Opcom/Rows.antt =====
-- The rows that `OpcomBronzeWriter.process` of src/shiden/processing/bronze/opcom.py writes.
use mathlib.Core.List.{append_assoc, append-nil}
use shiden_api.Base.{
  ◌≤◌, ◌≡◌, refl, sym, ap, ◌∙◌, Bool, true, false, List, [], ◌∷◌, ◌++◌, Option, none, some, All,
  All-append, subst, keep, if◌then◌else◌,
}
use shiden_api.Base.Text.{Text}
use shiden_api.Calendar.{Date, date_range}
use shiden_api.Opcom.{
  OpcomInterval, OpcomRow, Loaded, no_intervals, unsupported, loaded, load_day, to_rows,
}
use shiden_api.Opcom.Days.{Batch, add_day, add_days, bronze_batch}
use shiden_api.Opcom.Parsed.{Day, empty, odd, quarter_hourly, load_day-Day}

module _ {F : Type 0} (to_float : Text → Option F) (landing : Date → Option (List (List Text)))
    (build_source_url : Date → Text) (market_id ingested_at : Text) where
  -- What a day contributes, whatever the other days are.
  abbrev pub rows_of : Date → Loaded to_float → List (OpcomRow F)
  rows_of day (loaded is) = to_rows to_float market_id day is ingested_at (build_source_url day)
  rows_of day _ = []

  abbrev pub all_rows : List Date → List (OpcomRow F)
  all_rows [] = []
  all_rows (day ∷ days) = rows_of day (load_day to_float (landing day)) ++ all_rows days

  abbrev pub is_unsupported : Loaded to_float → Bool
  is_unsupported unsupported = true
  is_unsupported _ = false

  abbrev pub is_rejected : Date → Bool
  is_rejected day = is_unsupported (load_day to_float (landing day))

  -- What the batch holds after the days: what it held and what each day contributes.
  add_day-rows :
      (day : Date) (l : Loaded to_float) (b : Batch to_float landing build_source_url)
      → (add_day to_float landing build_source_url market_id ingested_at day l b).rows
        ≡ b.rows ++ rows_of day l
  add_day-rows day no_intervals b = sym (append-nil b.rows)
  add_day-rows day unsupported b = sym (append-nil b.rows)
  add_day-rows day (loaded is) b = refl

  add_day-rejected :
      (day : Date) (l : Loaded to_float) (b : Batch to_float landing build_source_url)
      → (add_day to_float landing build_source_url market_id ingested_at day l b).rejected
        ≡ b.rejected ++ (if is_unsupported l then day ∷ [] else [])
  add_day-rejected day no_intervals b = sym (append-nil b.rejected)
  add_day-rejected day unsupported b = refl
  add_day-rejected day (loaded is) b = sym (append-nil b.rejected)

  add_days-rows :
      (days : List Date) (b : Batch to_float landing build_source_url)
      → (add_days to_float landing build_source_url market_id ingested_at days b).rows
        ≡ b.rows ++ all_rows days
  unfolding add_days
  add_days-rows [] b = sym (append-nil b.rows)
  add_days-rows (day ∷ days) b =
      let l = load_day to_float (landing day) in
      add_days-rows days _
      ∙ ap (λ r. r ++ all_rows days) (add_day-rows day l b)
      ∙ append_assoc b.rows (rows_of day l) (all_rows days)

  keep-cons :
      (b : Bool) (day : Date) (days : List Date)
      → (if b then day ∷ [] else []) ++ days ≡ (if b then day ∷ days else days)
  keep-cons true day days = refl
  keep-cons false day days = refl

  add_days-rejected :
      (days : List Date) (b : Batch to_float landing build_source_url)
      → (add_days to_float landing build_source_url market_id ingested_at days b).rejected
        ≡ b.rejected ++ keep is_rejected days
  unfolding add_days
  add_days-rejected [] b = sym (append-nil b.rejected)
  add_days-rejected (day ∷ days) b =
      let l = load_day to_float (landing day) in
      add_days-rejected days _
      ∙ ap (λ r. r ++ keep is_rejected days) (add_day-rejected day l b)
      ∙ append_assoc b.rejected (if is_unsupported l then day ∷ [] else []) (keep is_rejected days)
      ∙ ap (λ r. b.rejected ++ r) (keep-cons (is_unsupported l) day (keep is_rejected days))

  to_rows-IsSlot :
      (day : Date) (is : List (OpcomInterval F))
      → All (λ i. i.interval_15min ≤ 100) is
      → All
          (λ r. r.interval_15min ≤ 100)
          (to_rows to_float market_id day is ingested_at (build_source_url day))
  to_rows-IsSlot day [] h = tt
  to_rows-IsSlot day (i ∷ is) h = (h.0, to_rows-IsSlot day is h.1)

  Day-slots :
      (day : Date) (raw : List (List Text)) (l : Loaded to_float)
      → Day to_float raw l
      → All (λ r. r.interval_15min ≤ 100) (rows_of day l)
  Day-slots day raw _ (empty e) = tt
  Day-slots day raw _ (odd i is e n) = tt
  Day-slots day raw _ (quarter_hourly is e q) = to_rows-IsSlot day is q.bounded

  day-slots :
      (day : Date) (file : Option (List (List Text)))
      → All (λ r. r.interval_15min ≤ 100) (rows_of day (load_day to_float file))
  day-slots day none = unfold load_day in tt
  day-slots day (some raw) =
      Day-slots day raw (load_day to_float (some raw)) (load_day-Day to_float raw)

  all_rows-slots : (days : List Date) → All (λ r. r.interval_15min ≤ 100) (all_rows days)
  all_rows-slots [] = tt
  all_rows-slots (day ∷ days) =
      All-append (λ r. r.interval_15min ≤ 100) (rows_of day (load_day to_float (landing day)))
        (all_rows days) (day-slots day (landing day)) (all_rows-slots days)

  -- The batch of an interval of dates has the rows of each day that is accepted, in the order of
  -- the days, and names exactly the days that are rejected: one bad day costs no other day its
  -- rows. No row has an interval number above 100.
  pub bronze_batch-rows :
      (start end : Date)
      → let b = bronze_batch to_float landing build_source_url market_id ingested_at start end in
        (b.rows ≡ all_rows (date_range start end))
        × (b.rejected ≡ keep is_rejected (date_range start end))
        × All (λ r. r.interval_15min ≤ 100) b.rows
  unfolding bronze_batch
  bronze_batch-rows start end =
      let days = date_range start end in
      let rows = add_days-rows days (record { rows = []; rejected = [] }) in
      (
        rows,
        add_days-rejected days (record { rows = []; rejected = [] }),
        subst (All (λ r. r.interval_15min ≤ 100)) (sym rows) (all_rows-slots days),
      )
