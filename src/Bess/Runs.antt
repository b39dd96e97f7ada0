-- ===== src/Bess/Runs.antt =====
-- The windows of src/shiden/api/routers/bess.py against the rows that they summarise.
use shiden_api.Base.{
  ℕ, suc, ◌+◌, ◌≡◌, refl, sym, ap, subst, ◌∙◌, Bool, true, false, List, [], ◌∷◌, ◌++◌, All, length,
  keep, Bool-cases, inl, inr, arith, if◌then◌else◌,
}
use shiden_api.Bess.{
  Signal, charge, idle, discharge, signal_eq, SignalRow, ArbitrageWindow, RowRun, join_run,
  group_by_signal, windows, arbitrage_windows, window_of, last_row, valid_prices, average,
}

signal_eq_sound : (a b : Signal) → signal_eq a b ≡ true → a ≡ b
signal_eq_sound charge charge e = refl
signal_eq_sound charge idle e = cc
signal_eq_sound charge discharge e = cc
signal_eq_sound idle charge e = cc
signal_eq_sound idle idle e = refl
signal_eq_sound idle discharge e = cc
signal_eq_sound discharge charge e = cc
signal_eq_sound discharge idle e = cc
signal_eq_sound discharge discharge e = refl

module _ {P : Type 0} (mean : List P → P) where
  -- All rows of a run have its signal.
  abbrev pub IsUniform : RowRun P → Type 0
  IsUniform (r, rows) = All (λ q. signal_eq r.signal q.signal ≡ true) rows

  -- Runs next to each other differ in their signal.
  abbrev pub IsMaximal : List (RowRun P) → Type 0
  IsMaximal [] = Unit
  IsMaximal (a ∷ []) = Unit
  IsMaximal (a ∷ b ∷ runs) = (signal_eq a.0.signal b.0.signal ≡ false) × IsMaximal (b ∷ runs)

  abbrev pub rows_of : List (RowRun P) → List (SignalRow P)
  rows_of [] = []
  rows_of ((r, rows) ∷ runs) = r ∷ (rows ++ rows_of runs)

  pub record Grouped (rows : List (SignalRow P)) (runs : List (RowRun P)) : Type 0 where
    pub same_rows : rows_of runs ≡ rows
    pub uniform : All IsUniform runs
    pub maximal : IsMaximal runs

  same_signal :
      (a b : Signal) (qs : List (SignalRow P))
      → a ≡ b
      → All (λ q. signal_eq b q.signal ≡ true) qs
      → All (λ q. signal_eq a q.signal ≡ true) qs
  same_signal a b qs e h = subst (λ s. All (λ q. signal_eq s q.signal ≡ true) qs) (sym e) h

  still-IsMaximal :
      (r q : SignalRow P) (rows qs : List (SignalRow P)) (runs : List (RowRun P))
      → r.signal ≡ q.signal
      → IsMaximal ((q, qs) ∷ runs)
      → IsMaximal ((r, rows) ∷ runs)
  still-IsMaximal r q rows qs [] e h = tt
  still-IsMaximal r q rows qs (b ∷ runs) e h = (ap (λ s. signal_eq s b.0.signal) e ∙ h.0, h.1)

  join_run-Grouped :
      (r : SignalRow P) (rows : List (SignalRow P)) (runs : List (RowRun P))
      → Grouped rows runs
      → Grouped (r ∷ rows) (join_run mean r runs)
  join_run-Grouped r rows [] g = record {
    same_rows = ap (λ l. r ∷ l) g.same_rows;
    uniform = (tt, tt);
    maximal = tt;
  }
  join_run-Grouped r rows ((q, qs) ∷ runs) g = elim (Bool-cases (signal_eq r.signal q.signal)) [
    | inl e ↦
        let s = signal_eq_sound r.signal q.signal e in
        rw e (record {
          same_rows = ap (λ l. r ∷ l) g.same_rows;
          uniform = ((e, same_signal r.signal q.signal qs s g.uniform.0), g.uniform.1);
          maximal = still-IsMaximal r q (q ∷ qs) qs runs s g.maximal;
        })
    | inr n ↦ rw n (record {
      same_rows = ap (λ l. r ∷ l) g.same_rows;
      uniform = (tt, g.uniform);
      maximal = (n, g.maximal);
    })
  ]

  -- The groups are the rows cut into the longest runs of one signal.
  pub group_by_signal-Grouped :
      (rows : List (SignalRow P)) → Grouped rows (group_by_signal mean rows)
  unfolding group_by_signal
  group_by_signal-Grouped [] = record { same_rows = refl; uniform = tt; maximal = tt }
  group_by_signal-Grouped (r ∷ rows) =
      join_run-Grouped r rows (group_by_signal mean rows) (group_by_signal-Grouped rows)

  abbrev pub slots : List (ArbitrageWindow P) → ℕ
  slots [] = 0
  slots (w ∷ ws) = w.n_slots + slots ws

  abbrev pub has_signal : Signal → SignalRow P → Bool
  has_signal kind r = signal_eq r.signal kind

  keep-append :
      (p : SignalRow P → Bool) (xs ys : List (SignalRow P))
      → length (keep p (xs ++ ys)) ≡ length (keep p xs) + length (keep p ys)
  keep-append p [] ys = omega arith
  keep-append p (x ∷ xs) ys = ground (arith, keep-append p xs ys)

  keep_uniform :
      (kind : Signal) (r : SignalRow P) (rows : List (SignalRow P))
      → IsUniform (r, rows)
      → length (keep (has_signal kind) rows) ≡ (if signal_eq r.signal kind then length rows else 0)
  keep_uniform kind r [] h = by (signal_eq r.signal kind)
    where
      by : (b : Bool) → length {A = SignalRow P} [] ≡ (if b then 0 else 0)
      by true = refl
      by false = refl
  keep_uniform kind r (q ∷ qs) h =
      next (signal_eq r.signal kind) (signal_eq q.signal kind)
        (ap (λ s. signal_eq s kind) (signal_eq_sound r.signal q.signal h.0))
        (keep_uniform kind r qs h.1)
    where
      next :
          (b c : Bool)
          → b ≡ c
          → length (keep (has_signal kind) qs) ≡ (if b then length qs else 0)
          → length (if c then q ∷ keep (has_signal kind) qs else keep (has_signal kind) qs)
            ≡ (if b then suc (length qs) else 0)
      next true true e h = ap suc h
      next true false e h = cc
      next false true e h = cc
      next false false e h = h

  slots-windows :
      (kind : Signal) (runs : List (RowRun P))
      → All IsUniform runs
      → slots (windows mean kind runs) ≡ length (keep (has_signal kind) (rows_of runs))
  unfolding windows
  slots-windows kind [] h = refl
  slots-windows kind ((r, rows) ∷ runs) h = elim (Bool-cases (signal_eq r.signal kind)) [
    | inl e ↦ rw e (
        omega (
          arith,
          slots-windows kind runs h.1,
          keep-append (has_signal kind) rows (rows_of runs),
          keep_uniform kind r rows h.0 ∙ ap (λ b. if b then length rows else 0) e,
        ))
    | inr n ↦ rw n (
        omega (
          arith,
          slots-windows kind runs h.1,
          keep-append (has_signal kind) rows (rows_of runs),
          keep_uniform kind r rows h.0 ∙ ap (λ b. if b then length rows else 0) n,
        ))
  ]

  -- A window says where its run starts and ends, how long it is, and its average price.
  pub record IsWindowOf (rows : List (SignalRow P)) (w : ArbitrageWindow P) : Type 0 where
    pub first : SignalRow P
    pub last : SignalRow P
    pub after_first : List (SignalRow P)
    pub before_last : List (SignalRow P)
    pub starts : rows ≡ first ∷ after_first
    pub ends : rows ≡ before_last ++ last ∷ []
    pub type_is : w.type_is ≡ first.signal
    pub start_time_id : w.start_time_id ≡ first.time_id
    pub start_label : w.start_label ≡ first.time_label
    pub end_time_id : w.end_time_id ≡ last.time_id
    pub end_label : w.end_label ≡ last.time_label
    pub n_slots : w.n_slots ≡ length rows
    pub avg_price : w.avg_price_eur_mwh ≡ average mean (valid_prices mean rows)

  -- The windows are those of the runs with the signal, one for each, in order.
  pub data Summarised (kind : Signal) : List (RowRun P) → List (ArbitrageWindow P) → Type 0 where
    no_runs : Summarised kind [] []
    other :
        (run : RowRun P) (runs : List (RowRun P)) (ws : List (ArbitrageWindow P))
        → signal_eq run.0.signal kind ≡ false
        → Summarised kind runs ws
        → Summarised kind (run ∷ runs) ws
    window :
        (run : RowRun P) (runs : List (RowRun P)) (w : ArbitrageWindow P)
        (ws : List (ArbitrageWindow P))
        → signal_eq run.0.signal kind ≡ true
        → IsWindowOf (run.0 ∷ run.1) w
        → Summarised kind runs ws
        → Summarised kind (run ∷ runs) (w ∷ ws)

  abbrev all_but_last : SignalRow P → List (SignalRow P) → List (SignalRow P)
  all_but_last r [] = []
  all_but_last r (q ∷ qs) = r ∷ all_but_last q qs

  last_row-ends :
      (r : SignalRow P) (rows : List (SignalRow P))
      → r ∷ rows ≡ all_but_last r rows ++ last_row mean r rows ∷ []
  last_row-ends r [] = refl
  last_row-ends r (q ∷ qs) = ap (◌∷◌ r) (last_row-ends q qs)

  window_of-IsWindowOf :
      (r : SignalRow P) (rows : List (SignalRow P))
      → IsWindowOf (r ∷ rows) (window_of mean (r, rows))
  window_of-IsWindowOf r rows = record {
    first = r;
    last = last_row mean r rows;
    after_first = rows;
    before_last = all_but_last r rows;
    starts = refl;
    ends = last_row-ends r rows;
    type_is = refl;
    start_time_id = refl;
    start_label = refl;
    end_time_id = refl;
    end_label = refl;
    n_slots = refl;
    avg_price = refl;
  }

  windows-Summarised :
      (kind : Signal) (runs : List (RowRun P)) → Summarised kind runs (windows mean kind runs)
  unfolding windows
  windows-Summarised kind [] = no_runs
  windows-Summarised kind ((r, rows) ∷ runs) = elim (Bool-cases (signal_eq r.signal kind)) [
    | inl e ↦
        rw e
          (window (r, rows) runs _ _ e (window_of-IsWindowOf r rows) (windows-Summarised kind runs))
    | inr n ↦ rw n (other (r, rows) runs _ n (windows-Summarised kind runs))
  ]

  -- The day's rows are cut into the longest runs of one signal, which put end to end are the rows.
  -- The charge windows are those of the runs with signal -1, one for each, in order, and the
  -- discharge windows those of the runs with signal 1: a window has the time and label of its run's
  -- first and last rows, the number of its rows and the average of their prices. The slots of the
  -- charge windows add up to the rows with signal -1, those of the discharge windows to the rows
  -- with signal 1.
  pub arbitrage_windows-slots :
      (rows : List (SignalRow P))
      → Grouped rows (group_by_signal mean rows)
        × Summarised charge (group_by_signal mean rows) (arbitrage_windows mean rows).charge_windows
        × Summarised discharge
            (group_by_signal mean rows)
            (arbitrage_windows mean rows).discharge_windows
        × (slots (arbitrage_windows mean rows).charge_windows
            ≡ length (keep (has_signal charge) rows))
        × (slots (arbitrage_windows mean rows).discharge_windows
            ≡ length (keep (has_signal discharge) rows))
  unfolding arbitrage_windows
  arbitrage_windows-slots rows =
      let g = group_by_signal-Grouped rows in
      let runs = group_by_signal mean rows in
      (
        g,
        windows-Summarised charge runs,
        windows-Summarised discharge runs,
        slots-windows charge runs g.uniform
            ∙ ap (λ l. length (keep (has_signal charge) l)) g.same_rows,
        slots-windows discharge runs g.uniform
            ∙ ap (λ l. length (keep (has_signal discharge) l)) g.same_rows,
      )
