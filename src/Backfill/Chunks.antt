-- ===== src/Backfill/Chunks.antt =====
-- `_month_chunks` of src/shiden/backfill.py cuts an interval into slices of calendar months.
use shiden_api.Base.{
  ℕ, zero, suc, ◌+◌, ◌-◌, ◌≤◌, ◌<◌, ◌≡◌, refl, sym, ap, ap₂, ◌∙◌, inl, inr, true, false, List, [],
  ◌∷◌, ◌++◌, map, All, count_up, arith, Bool-cases, ◌==◌, ==_iff, ltb, ◌⊎◌,
}
use shiden_api.Calendar.{
  Date, date, IsValid, days_in_month, to_ordinal, next_day, prev_day, date_ltb, date_leb,
  date_range,
}
use shiden_api.Calendar.Order.{to_ordinal-next_day, next_day-IsValid, date_leb_iff, to_ordinal_pos}
use shiden_api.Calendar.Ordinal.{days_in_month_bounds}
use shiden_api.Calendar.Range.{ordinals, ordinals-nil, after_end, date_range-ordinals}
use shiden_api.Backfill.{next_month, date_min, chunk_end, chunks_loop, month_chunks}

-- The last day of the month of `c`.
abbrev last_day : Date → Date
last_day c = date c.year c.month (days_in_month c.year c.month)

sub_of_add : (n : ℕ) → n + 1 - 1 ≡ n
sub_of_add n = omega arith

prev_day-next_month : (c : Date) → IsValid c → prev_day (next_month c) ≡ last_day c
unfolding prev_day next_month
prev_day-next_month c v = elim (Bool-cases (c.month == 12)) [
  | inl e ↦ rw (e, sub_of_add c.year) (december c.year c.month e)
  | inr e ↦ rw (e, sub_of_add c.month, later c.month v.month_in.0) refl
]
  where
    december : (y m : ℕ) → (m == 12) ≡ true → date y 12 31 ≡ date y m (days_in_month y m)
    december y m e = unfold days_in_month in rw ((==_iff m 12).0 e)

    later : (m : ℕ) → 1 ≤ m → ltb 1 (m + 1) ≡ true
    later m h = ground arith

-- A slice: two dates in order in one month.
pub record IsSlice (s : Date × Date) : Type 0 where
  pub first_valid : IsValid s.0
  pub last_valid : IsValid s.1
  pub in_order : to_ordinal s.0 ≤ to_ordinal s.1
  pub same_month : (s.0.year ≡ s.1.year) × (s.0.month ≡ s.1.month)

last_day-IsValid : (c : Date) → IsValid c → IsValid (last_day c)
last_day-IsValid c v = record {
  year_in = v.year_in;
  month_in = v.month_in;
  day_in = (omega (arith, days_in_month_bounds c.year c.month), omega arith);
}

within :
    (c end : Date)
    → date_leb c end ≡ true
    → date_ltb end (last_day c) ≡ true
    → (c.year ≡ end.year) × (c.month ≡ end.month)
unfolding date_leb date_ltb
within c end le lt = ground arith

chunk_end-cases :
    (c end : Date)
    → IsValid c
    → IsValid end
    → date_leb c end ≡ true
    → IsSlice (c, chunk_end c end) × (to_ordinal (chunk_end c end) ≤ to_ordinal end)
chunk_end-cases c end v ve le =
    unfold chunk_end in
    rw (prev_day-next_month c v) (date_min_last (Bool-cases (date_ltb end (last_day c))))
  where
    date_min_last :
        (date_ltb end (last_day c) ≡ true) ⊎ (date_ltb end (last_day c) ≡ false)
        → IsSlice (c, date_min (last_day c) end)
          × (to_ordinal (date_min (last_day c) end) ≤ to_ordinal end)
    date_min_last (inl e) =
        unfold date_min in
        rw e (
          record {
            first_valid = v;
            last_valid = ve;
            in_order = (date_leb_iff c end v ve).0 le;
            same_month = within c end le e;
          },
          omega arith,
        )
    date_min_last (inr e) =
        unfold date_min in
        rw e (
          record {
            first_valid = v;
            last_valid = last_day-IsValid c v;
            in_order = unfold to_ordinal in omega (arith, v.day_in.1);
            same_month = (refl, refl);
          },
          (date_leb_iff (last_day c) end (last_day-IsValid c v) ve).0 (unfold date_leb in rw e),
        )

count_up-append : (a n k : ℕ) → count_up a (n + k) ≡ count_up a n ++ count_up (a + n) k
count_up-append a zero k = ap (count_up a) (zero_plus k) ∙ ap (λ b. count_up b k) (plus_zero a)
  where
    zero_plus : (k : ℕ) → 0 + k ≡ k
    zero_plus k = omega arith

    plus_zero : (a : ℕ) → a ≡ a + 0
    plus_zero a = omega arith
count_up-append a (suc n) k = rw (shift n k) (
    ap (λ l. a ∷ l)
      (count_up-append (suc a) n k ∙ ap (λ b. count_up (suc a) n ++ count_up b k) (move a n)))
  where
    shift : (n k : ℕ) → suc n + k ≡ suc (n + k)
    shift n k = omega arith

    move : (a n : ℕ) → suc a + n ≡ a + suc n
    move a n = omega arith

ordinals-append : (a m b : ℕ) → a ≤ m → m ≤ b → ordinals a m ++ ordinals (suc m) b ≡ ordinals a b
ordinals-append a m b p q = sym (
    ap (count_up a) (lengths a m b p q)
    ∙ count_up-append a (m + 1 - a) (b + 1 - suc m)
    ∙ ap (λ n. count_up a (m + 1 - a) ++ count_up n (b + 1 - suc m)) (next a m p))
  where
    lengths : (a m b : ℕ) → a ≤ m → m ≤ b → b + 1 - a ≡ (m + 1 - a) + (b + 1 - suc m)
    lengths a m b p q = omega arith

    next : (a m : ℕ) → a ≤ m → a + (m + 1 - a) ≡ suc m
    next a m p = omega arith

-- The days of the slices, in order.
abbrev pub days_of : List (Date × Date) → List ℕ
days_of [] = []
days_of ((a, b) ∷ cs) = map to_ordinal (date_range a b) ++ days_of cs

-- Whatever the fuel, as long as it exceeds the days left.
chunks_loop_lem :
    (fuel : ℕ) (c end : Date)
    → IsValid c
    → IsValid end
    → to_ordinal end + 1 < fuel + to_ordinal c
    → (days_of (chunks_loop fuel c end) ≡ ordinals (to_ordinal c) (to_ordinal end))
      × All IsSlice (chunks_loop fuel c end)
unfolding chunks_loop
chunks_loop_lem zero c end v ve h =
    (rw (ordinals-nil (to_ordinal c) (to_ordinal end) (omega arith)), tt)
chunks_loop_lem (suc fuel) c end v ve h = elim (Bool-cases (date_leb c end)) [
  | inl e ↦
      let (slice, below) = chunk_end-cases c end v ve e in
      let last = chunk_end c end in
      let after = to_ordinal-next_day last slice.last_valid in
      let (later, slices) =
        chunks_loop_lem fuel (next_day last) end (next_day-IsValid last slice.last_valid) ve
          (omega (arith, after, slice.in_order)) in
      rw e (
        ap₂ (λ x y. x ++ y) (date_range-ordinals c last v slice.last_valid).0
              (later ∙ ap (λ n. ordinals n (to_ordinal end)) (after ∙ add_one (to_ordinal last)))
            ∙ ordinals-append (to_ordinal c) (to_ordinal last) (to_ordinal end) slice.in_order
                below,
        (slice, slices),
      )
  | inr e ↦ rw e (rw (ordinals-nil (to_ordinal c) (to_ordinal end) (after_end v ve e)), tt)
]
  where
    add_one : (n : ℕ) → n + 1 ≡ suc n
    add_one n = omega arith

-- For valid `start` and `end`, each slice of `_month_chunks` is an interval of valid dates within
-- one month of one year, and the days of the slices, one slice after the other, are the days from
-- `start` to `end`, each once and in order. The loop always ends.
pub month_chunks-partition :
    (start end : Date)
    → IsValid start
    → IsValid end
    → (days_of (month_chunks start end) ≡ ordinals (to_ordinal start) (to_ordinal end))
      × All IsSlice (month_chunks start end)
unfolding month_chunks
month_chunks-partition start end v ve =
    chunks_loop_lem (suc (to_ordinal end)) start end v ve (omega (arith, to_ordinal_pos start v))
