-- ===== src/TimeAxis/Slots.antt =====
-- When the intervals of src/shiden/timeaxis.py start, how many there are, and their numbers.
use shiden_api.Base.{
  ℕ, zero, suc, ◌+◌, ◌-◌, ◌*◌, ◌/◌, ◌≤◌, ◌<◌, ◌≡◌, refl, sym, ap, ap₂, ◌∙◌, inl, inr, List, [], ◌∷◌,
  ◌++◌, map, length, length-map, count_up, ltb, ltb→lt, Bool-cases, arith,
}
use shiden_api.Calendar.{Date, next_day}
use shiden_api.TimeAxis.{Zone, local_midnight_utc, interval_at, interval_loop, day_intervals}

-- `n` instants from `a` on, 15 minutes apart.
abbrev pub steps : ℕ → ℕ → List ℕ
steps a zero = []
steps a (suc n) = a ∷ steps (a + 900) n

-- How many 15-minute steps from `a` start before `b`.
unfoldable pub slots : ℕ → ℕ → ℕ
slots a b = (b - a + 899) / 900

pub length-steps : (a n : ℕ) → length (steps a n) ≡ n
length-steps a zero = refl
length-steps a (suc n) = ap suc (length-steps (a + 900) n)

pub steps-append : (a m n : ℕ) → steps a m ++ steps (a + 900 * m) n ≡ steps a (m + n)
steps-append a zero n = ap₂ steps (none_more a) (zero_add n)
  where
    zero_add : (n : ℕ) → n ≡ 0 + n
    zero_add n = omega arith

    none_more : (a : ℕ) → a + 900 * 0 ≡ a
    none_more a = omega arith
steps-append a (suc m) n =
    ap (◌∷◌ a)
      (ap (λ b. steps (a + 900) m ++ steps b n) (one_more a m) ∙ steps-append (a + 900) m n)
    ∙ sym (ap (λ k. steps a k) (suc_add m n))
  where
    one_more : (a m : ℕ) → a + 900 * suc m ≡ a + 900 + 900 * m
    one_more a m = omega arith

    suc_add : (m n : ℕ) → suc m + n ≡ suc (m + n)
    suc_add m n = omega arith

slots-nil : (a b : ℕ) → b ≤ a → slots a b ≡ 0
unfolding slots
slots-nil a b h = omega arith

slots-cons : (a b : ℕ) → a < b → slots a b ≡ suc (slots (a + 900) b)
unfolding slots
slots-cons a b h = omega arith

pub slots-whole : (a n : ℕ) → slots a (a + 900 * n) ≡ n
unfolding slots
slots-whole a n = omega arith

slots-hours : (a h : ℕ) → slots a (a + 3600 * h) ≡ 4 * h
unfolding slots
slots-hours a h = omega arith

module _ (tz : Zone) (peak_start_hour peak_end_hour : ℕ) where
  pub interval_loop_lem :
      (fuel current end_utc index : ℕ) (seen : List ℕ)
      → end_utc ≤ current + fuel
      → let ivs = interval_loop tz peak_start_hour peak_end_hour fuel current end_utc index seen in
        (map (λ iv. iv.timestamp_utc) ivs ≡ steps current (slots current end_utc))
        × (map (λ iv. iv.interval_of_day) ivs ≡ count_up index (slots current end_utc))
  unfolding interval_loop interval_at
  interval_loop_lem zero current end_utc index seen h =
      let e = slots-nil current end_utc (omega arith) in (rw e, rw e)
  interval_loop_lem (suc fuel) current end_utc index seen h =
      elim (Bool-cases (ltb current end_utc)) [
        | inl t ↦
            let e = slots-cons current end_utc (ltb→lt current end_utc t) in
            let (times, numbers) =
              interval_loop_lem fuel (current + 900) end_utc (suc index) _ (omega arith) in
            (
              rw (t, map) (ap (◌∷◌ current) times ∙ sym (ap (steps current) e)),
              rw (t, map) (ap (◌∷◌ index) numbers ∙ sym (ap (count_up index) e)),
            )
        | inr f ↦
            let e = slots-nil current end_utc (ground arith) in
            (rw (f, map) (sym (ap (steps current) e)), rw (f, map) (sym (ap (count_up index) e)))
      ]

  -- Whatever the zone, the intervals of a local day start every 15 minutes from its first midnight
  -- on, as long as that is before the next day's midnight, and are numbered from 1. The loop ends.
  pub day_intervals-steps :
      (local_date : Date)
      → let ivs = day_intervals tz peak_start_hour peak_end_hour local_date in
        let start_utc = local_midnight_utc tz local_date in
        let n = slots start_utc (local_midnight_utc tz (next_day local_date)) in
        (map (λ iv. iv.timestamp_utc) ivs ≡ steps start_utc n)
        × (map (λ iv. iv.interval_of_day) ivs ≡ count_up 1 n)
  unfolding day_intervals
  day_intervals-steps local_date =
      interval_loop_lem _ (local_midnight_utc tz local_date)
        (local_midnight_utc tz (next_day local_date)) 1 [] (omega arith)

  -- A local day of `hours` whole hours has four intervals an hour: 92, 96 or 100 of them when it
  -- lasts 23, 24 or 25 hours.
  pub length-day_intervals :
      (local_date : Date) (hours : ℕ)
      → local_midnight_utc tz (next_day local_date)
        ≡ local_midnight_utc tz local_date + 3600 * hours
      → length (day_intervals tz peak_start_hour peak_end_hour local_date) ≡ 4 * hours
  length-day_intervals local_date hours h =
      sym (
        length-map (day_intervals tz peak_start_hour peak_end_hour local_date)
          (λ iv. iv.timestamp_utc))
      ∙ ap length (day_intervals-steps local_date).0
      ∙ length-steps (local_midnight_utc tz local_date) _
      ∙ rw h (slots-hours (local_midnight_utc tz local_date) hours)
