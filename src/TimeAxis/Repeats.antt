-- ===== src/TimeAxis/Repeats.antt =====
-- The flag `is_repeated_hour` of src/shiden/timeaxis.py.
use shiden_api.Base.{
  ℕ, zero, suc, ◌+◌, ◌≡◌, refl, ◌∙◌, inl, inr, Bool, false, ◌||◌, List, [], ◌∷◌, map, some, take,
  get_elem?, ltb, ◌==◌, Bool-cases, arith,
}
use shiden_api.Calendar.{Date}
use shiden_api.TimeAxis.{
  Zone, Interval, mem_id, time_id_of, interval_at, interval_loop, day_intervals,
}

-- The clock positions of the first `k` intervals.
abbrev pub ids_before : ℕ → List Interval → List ℕ
ids_before k ivs = map (λ iv. iv.local_time_id) (take k ivs)

some_inj {ℓ} : {A : Type ℓ} {x y : A} → some x ≡ some y → x ≡ y
some_inj h = cc

or_swap : (a b c : Bool) → (a || (b || c)) ≡ ((b || a) || c)
or_swap a b c = ground arith

module _ (tz : Zone) (peak_start_hour peak_end_hour : ℕ) where
  abbrev loop : ℕ → ℕ → ℕ → ℕ → List ℕ → List Interval
  loop = interval_loop tz peak_start_hour peak_end_hour

  abbrev IsFlagged : List ℕ → List Interval → ℕ → Interval → Type 0
  IsFlagged seen ivs k iv =
      iv.is_repeated_hour
      ≡ (mem_id iv.local_time_id (ids_before k ivs) || mem_id iv.local_time_id seen)

  first_flag :
      (current index : ℕ) (seen : List ℕ) (later : List Interval) (iv : Interval)
      → interval_at tz peak_start_hour peak_end_hour current index seen ≡ iv
      → IsFlagged seen
          (interval_at tz peak_start_hour peak_end_hour current index seen ∷ later)
          0
          iv
  unfolding interval_at
  first_flag current index seen later iv h = rw (← h) refl

  later_flag :
      (current index : ℕ) (seen : List ℕ) (later : List Interval) (k : ℕ) (iv : Interval)
      → IsFlagged (time_id_of (tz.astimezone current) ∷ seen) later k iv
      → IsFlagged seen
          (interval_at tz peak_start_hour peak_end_hour current index seen ∷ later)
          (suc k)
          iv
  unfolding interval_at
  later_flag current index seen later k iv h =
      h
      ∙ or_swap (mem_id iv.local_time_id (ids_before k later))
          (iv.local_time_id == time_id_of (tz.astimezone current)) (mem_id iv.local_time_id seen)

  loop_flags :
      (fuel current end_utc index : ℕ) (seen : List ℕ) (k : ℕ) (iv : Interval)
      → get_elem? (loop fuel current end_utc index seen) k ≡ some iv
      → IsFlagged seen (loop fuel current end_utc index seen) k iv
  unfolding interval_loop
  loop_flags zero current end_utc index seen k iv = λ h. cc
  loop_flags (suc fuel) current end_utc index seen zero iv =
      elim (Bool-cases (ltb current end_utc)) [
        | inl t ↦
            rw (t, get_elem?)
              (λ h.
                first_flag current index seen
                  (loop fuel (current + 900) end_utc (suc index)
                    (time_id_of (tz.astimezone current) ∷ seen))
                  iv (some_inj h))
        | inr f ↦ rw (f, get_elem?) (λ h. cc)
      ]
  loop_flags (suc fuel) current end_utc index seen (suc k) iv =
      elim (Bool-cases (ltb current end_utc)) [
        | inl t ↦
            rw (t, get_elem?, take)
              λ h.
                later_flag current index seen _ k iv
                  (loop_flags fuel (current + 900) end_utc (suc index) _ k iv h)
        | inr f ↦ rw (f, get_elem?, take) (λ h. cc)
      ]

  -- An interval of a day is flagged as a repeated hour exactly when one before it on that day has
  -- the same position on the clock.
  pub is_repeated_hour_lem :
      (local_date : Date) (k : ℕ) (iv : Interval)
      → let ivs = day_intervals tz peak_start_hour peak_end_hour local_date in
        get_elem? ivs k ≡ some iv → iv.is_repeated_hour ≡ mem_id iv.local_time_id (ids_before k ivs)
  unfolding day_intervals
  is_repeated_hour_lem local_date k iv h = loop_flags _ _ _ 1 [] k iv h ∙ or_false _
    where
      or_false : (b : Bool) → (b || false) ≡ b
      or_false b = ground arith
