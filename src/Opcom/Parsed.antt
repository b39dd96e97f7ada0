-- ===== src/Opcom/Parsed.antt =====
-- What the parser of src/shiden/processing/bronze/opcom.py lets through.
use shiden_api.Base.{
  ℕ, max, ◌≤◌, ◌≡◌, ◌⊎◌, refl, sym, false, ◌&&◌, List, [], ◌∷◌, Option, none, some, All, All-imp,
  Option-cases, Bool-cases, inl, inr, arith, leb, if◌then◌else◌,
}
use shiden_api.Base.Text.{Text}
use shiden_api.Opcom.{
  OpcomInterval, data_rows, row_to_interval, to_intervals, highest, detect_resolution, checked,
  day_of, parse_csv, Loaded, no_intervals, unsupported, loaded, load_day,
}

module _ {F : Type 0} (to_float : Text → Option F) where
  -- An interval comes from one of the rows.
  abbrev pub IsFrom : List (List Text) → OpcomInterval F → Type 0
  IsFrom [] i = ⊥
  IsFrom (row ∷ rows) i = (row_to_interval to_float row ≡ some i) ⊎ IsFrom rows i

  -- One of them has a number of 92 or more.
  abbrev pub Reaches : List (OpcomInterval F) → Type 0
  Reaches [] = ⊥
  Reaches (i ∷ is) = (92 ≤ i.interval_15min) ⊎ Reaches is

  -- Intervals of a quarter-hourly day: none has a number above 100, and one has at least 92.
  pub record IsQuarterHourly (is : List (OpcomInterval F)) : Type 0 where
    pub bounded : All (λ i. i.interval_15min ≤ 100) is
    pub reaches : Reaches is

  highest-bounds :
      (is : List (OpcomInterval F)) → All (λ i. i.interval_15min ≤ highest to_float is) is
  unfolding highest
  highest-bounds [] = tt
  highest-bounds (i ∷ is) = (
    omega arith,
    All-imp (λ j. j.interval_15min ≤ highest to_float is)
        (λ j. j.interval_15min ≤ max i.interval_15min (highest to_float is)) is (λ j h. omega arith)
        (highest-bounds is),
  )

  highest-Reaches : (is : List (OpcomInterval F)) → 92 ≤ highest to_float is → Reaches is
  unfolding highest
  highest-Reaches [] h = absurd (omega arith)
  highest-Reaches (i ∷ is) h = elim (Bool-cases (leb 92 i.interval_15min)) [
    | inl y ↦ inl (ground (arith, y))
    | inr n ↦ inr (highest-Reaches is (ground (arith, n, h)))
  ]

  Reaches-highest : (is : List (OpcomInterval F)) → Reaches is → 92 ≤ highest to_float is
  unfolding highest
  Reaches-highest [] r = elim r [ ]
  Reaches-highest (i ∷ is) (inl h) = omega arith
  Reaches-highest (i ∷ is) (inr r) = omega (arith, Reaches-highest is r)

  detect_resolution_sound :
      (is : List (OpcomInterval F)) (t : Text)
      → detect_resolution to_float is ≡ some t
      → IsQuarterHourly is
  unfolding detect_resolution
  detect_resolution_sound is t e = record {
    bounded =
        All-imp (λ j. j.interval_15min ≤ highest to_float is) (λ j. j.interval_15min ≤ 100) is
          (λ j h. omega (arith, range (highest to_float is) _ t e)) (highest-bounds is);
    reaches = highest-Reaches is (range (highest to_float is) _ t e).0;
  }
    where
      range :
          (n : ℕ) (u t : Text)
          → (if leb 92 n && leb n 100 then some u else none) ≡ some t
          → (92 ≤ n) × (n ≤ 100)
      range n u t e = ground arith

  highest-least :
      (is : List (OpcomInterval F))
      → All (λ i. i.interval_15min ≤ 100) is
      → highest to_float is ≤ 100
  unfolding highest
  highest-least [] h = omega arith
  highest-least (i ∷ is) h = omega (arith, h.0, highest-least is h.1)

  detect_resolution-none :
      (is : List (OpcomInterval F)) → detect_resolution to_float is ≡ none → ¬ (IsQuarterHourly is)
  unfolding detect_resolution
  detect_resolution-none is e q =
      out (highest to_float is) _ e (Reaches-highest is q.reaches) (highest-least is q.bounded)
    where
      out :
          (n : ℕ) (u : Text)
          → (if leb 92 n && leb n 100 then some u else none) ≡ none
          → 92 ≤ n
          → n ≤ 100
          → ⊥
      out n u e low high = ground arith

  to_intervals-IsFrom : (rows : List (List Text)) → All (IsFrom rows) (to_intervals to_float rows)
  unfolding to_intervals
  to_intervals-IsFrom [] = tt
  to_intervals-IsFrom (row ∷ rows) = elim (Option-cases (row_to_interval to_float row)) [
    | inl n ↦ rw (n, to_intervals) (later (to_intervals to_float rows) (to_intervals-IsFrom rows))
    | inr (i, e) ↦
        rw (e, to_intervals) (inl e, later (to_intervals to_float rows) (to_intervals-IsFrom rows))
  ]
    where
      later : (is : List (OpcomInterval F)) → All (IsFrom rows) is → All (IsFrom (row ∷ rows)) is
      later is h = All-imp (IsFrom rows) (IsFrom (row ∷ rows)) is (λ i p. inr p) h

  -- What `load_day` made of a file of rows.
  pub data Day (raw : List (List Text)) : Loaded to_float → Type 0 where
    empty : to_intervals to_float (data_rows false raw) ≡ [] → Day raw no_intervals
    odd :
        (i : OpcomInterval F) (is : List (OpcomInterval F))
        → i ∷ is ≡ to_intervals to_float (data_rows false raw)
        → ¬ (IsQuarterHourly (i ∷ is))
        → Day raw unsupported
    quarter_hourly :
        (is : List (OpcomInterval F))
        → is ≡ to_intervals to_float (data_rows false raw)
        → IsQuarterHourly is
        → Day raw (loaded is)

  -- A day's file is judged by the intervals that parse from its data rows. If there are none, it
  -- gives none. If they are quarter-hourly, that is one of them has a number of 92 or more
  -- and none has one above 100, it gives them all. If there are some and they are not quarter-hourly,
  -- it is rejected.
  pub load_day-Day : (raw : List (List Text)) → Day raw (load_day to_float (some raw))
  unfolding load_day parse_csv
  load_day-Day raw = by_rows (to_intervals to_float (data_rows false raw)) refl
    where
      by_rows :
          (is : List (OpcomInterval F))
          → to_intervals to_float (data_rows false raw) ≡ is
          → Day raw (day_of to_float (checked to_float is))
      by_rows [] e = empty e
      by_rows (i ∷ is) e = elim (Option-cases (detect_resolution to_float (i ∷ is))) [
        | inl n ↦ rw (n, day_of, checked) (odd i is (sym e) (detect_resolution-none (i ∷ is) n))
        | inr (r, d) ↦
            rw (d, day_of, checked)
              (quarter_hourly (i ∷ is) (sym e) (detect_resolution_sound (i ∷ is) r d))
      ]
