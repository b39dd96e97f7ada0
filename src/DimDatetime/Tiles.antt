-- ===== src/DimDatetime/Tiles.antt =====
-- The keys of src/shiden/processing/silver/dimensions/dim_datetime.py.
use mathlib.Core.List.{map-append}
use shiden_api.Base.{
  ℕ, zero, suc, ◌+◌, ◌*◌, ◌≤◌, ◌<◌, ◌≡◌, refl, sym, ap, ap₂, ◌∙◌, inl, inr, true, false, List, [],
  ◌∷◌, ◌++◌, map, Bool-cases, arith,
}
use shiden_api.Base.Text.{Text}
use shiden_api.Calendar.{Date, IsValid, to_ordinal, next_day, date_leb, range_loop, date_range}
use shiden_api.Calendar.Order.{
  to_ordinal-next_day, next_day-IsValid, date_leb_iff, to_ordinal_inj, to_ordinal_pos,
}
use shiden_api.TimeAxis.{Zone, Interval, local_midnight_utc}
use shiden_api.TimeAxis.Slots.{steps, slots, steps-append, slots-whole, day_intervals-steps}
use shiden_api.DimDatetime.{DateTimeRow, make_row, intervals_of, rows_of_days}

-- Every local day of the zone from `start` to `end` lasts a whole number of quarter hours.
pub record IsWhole (tz : Zone) (start end : Date) : Type 0 where
  pub quarters : Date → ℕ
  pub length_of_day :
      (d : Date)
      → IsValid d
      → to_ordinal start ≤ to_ordinal d
      → to_ordinal d ≤ to_ordinal end
      → local_midnight_utc tz (next_day d) ≡ local_midnight_utc tz d + 900 * quarters d

abbrev pub times : List DateTimeRow → List ℕ
times rows = map (λ r. r.timestamp_utc) rows

times-make_row :
    (tz_name : Text) (ivs : List Interval)
    → times (map (make_row tz_name) ivs) ≡ map (λ iv. iv.timestamp_utc) ivs
times-make_row tz_name [] = refl
times-make_row tz_name (iv ∷ ivs) = ap (◌∷◌ iv.timestamp_utc) (times-make_row tz_name ivs)

module _ (tz_name : Text) (tz : Zone) (first last : Date) (whole : IsWhole tz first last) where
  day_times :
      (d : Date)
      → IsValid d
      → to_ordinal first ≤ to_ordinal d
      → to_ordinal d ≤ to_ordinal last
      → times (map (make_row tz_name) (intervals_of tz d))
        ≡ steps (local_midnight_utc tz d) (whole.quarters d)
  day_times d v low high =
      times-make_row tz_name (intervals_of tz d)
      ∙ (day_intervals-steps tz 8 20 d).0
      ∙ ap (λ b. steps (local_midnight_utc tz d) (slots (local_midnight_utc tz d) b))
          (whole.length_of_day d v low high)
      ∙ ap (steps (local_midnight_utc tz d))
          (slots-whole (local_midnight_utc tz d) (whole.quarters d))

  abbrev Tiled : ℕ → Date → Date → Type 0
  Tiled fuel current end =
      (n : ℕ) × (local_midnight_utc tz (next_day end) ≡ local_midnight_utc tz current + 900 * n)
      × (times (rows_of_days tz_name tz (range_loop fuel current end))
          ≡ steps (local_midnight_utc tz current) n)

  after_end :
      (fuel : ℕ) (current end : Date)
      → current ≡ next_day end
      → date_leb current end ≡ false
      → Tiled fuel current end
  unfolding range_loop rows_of_days
  after_end zero current end e f = (0, rw (← e) (omega arith), refl)
  after_end (suc fuel) current end e f = (0, rw (← e) (omega arith), rw f refl)

  one_day :
      (fuel : ℕ) (current end : Date)
      → IsValid current
      → to_ordinal first ≤ to_ordinal current
      → to_ordinal current ≤ to_ordinal last
      → date_leb current end ≡ true
      → Tiled fuel (next_day current) end
      → Tiled (suc fuel) current end
  unfolding range_loop rows_of_days
  one_day fuel current end v low high t (n, e, h) = (
    whole.quarters current + n,
    omega (arith, e, whole.length_of_day current v low high),
    rw t (
        map-append (λ r. r.timestamp_utc) (map (make_row tz_name) (intervals_of tz current)) _
        ∙ ap₂ ◌++◌ (day_times current v low high)
            (h ∙ ap (λ a. steps a n) (whole.length_of_day current v low high))
        ∙ steps-append (local_midnight_utc tz current) (whole.quarters current) n),
  )

  first_after :
      (current end : Date)
      → IsValid current
      → IsValid end
      → to_ordinal end < to_ordinal current
      → to_ordinal current ≤ to_ordinal end + 1
      → current ≡ next_day end
  first_after current end vc ve h k =
      to_ordinal_inj current (next_day end) vc (next_day-IsValid end ve)
        (omega (arith, to_ordinal-next_day end ve))

  range_loop-Tiled :
      (fuel : ℕ) (current end : Date)
      → IsValid current
      → IsValid end
      → to_ordinal first ≤ to_ordinal current
      → to_ordinal end ≤ to_ordinal last
      → to_ordinal end + 1 ≤ fuel + to_ordinal current
      → to_ordinal current ≤ to_ordinal end + 1
      → Tiled fuel current end
  range_loop-Tiled zero current end vc ve low high h k =
      after_end zero current end (first_after current end vc ve (omega arith) k)
        (ground (arith, date_leb_iff current end vc ve))
  range_loop-Tiled (suc fuel) current end vc ve low high h k =
      elim (Bool-cases (date_leb current end)) [
        | inl t ↦
            one_day fuel current end vc low (ground (arith, date_leb_iff current end vc ve)) t (
              range_loop-Tiled fuel (next_day current) end (next_day-IsValid current vc) ve
                (omega (arith, to_ordinal-next_day current vc)) high
                (omega (arith, to_ordinal-next_day current vc))
                (ground (arith, to_ordinal-next_day current vc, date_leb_iff current end vc ve)))
        | inr f ↦
            after_end (suc fuel) current end
              (first_after current end vc ve (ground (arith, date_leb_iff current end vc ve)) k) f
      ]

-- If every local day from `start` to `end` lasts a whole number of quarter hours, the rows of one
-- zone for valid dates from `start` to `end` carry every instant 15 minutes apart from the first
-- midnight of `start` up to the midnight after `end`, each once and in order, whatever the changes
-- of the clock.
pub rows_of_days-steps :
    (tz_name : Text) (tz : Zone) (start end : Date)
    → IsWhole tz start end
    → IsValid start
    → IsValid end
    → to_ordinal start ≤ to_ordinal end
    → times (rows_of_days tz_name tz (date_range start end))
      ≡ steps
          (local_midnight_utc tz start)
          (slots (local_midnight_utc tz start) (local_midnight_utc tz (next_day end)))
unfolding date_range
rows_of_days-steps tz_name tz start end whole vs ve h =
    let (n, e, tiled) =
      range_loop-Tiled tz_name tz start end whole (suc (to_ordinal end)) start end vs ve
        (omega arith) (omega arith) (omega (arith, to_ordinal_pos start vs)) (omega arith) in
    tiled
    ∙ ap (steps (local_midnight_utc tz start)) (
        sym (
          ap (slots (local_midnight_utc tz start)) e ∙ slots-whole (local_midnight_utc tz start) n))
