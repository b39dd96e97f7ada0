-- ===== src/Bess/Signals.antt =====
-- The capacity that `assign_signals` of src/shiden/processing/gold/gold_bess_signals.py respects.
use shiden_api.Base.{
  ℕ, zero, suc, ◌+◌, ◌-◌, min, ◌≤◌, ◌≡◌, refl, ap, ◌∙◌, Bool, false, List, [], ◌∷◌, Option, none,
  some, map, length, length-map, ltb, leb, ltb→lt, leb→le, Bool-cases, inl, inr, arith,
  if◌then◌else◌,
}
use shiden_api.Bess.{
  Signal, charge, idle, discharge, signal_eq, set_at, signal_of_rank, set_signal, assign_loop,
  assign_signals, sort_prices, valid_indexed,
}

abbrev pub count : Signal → List Signal → ℕ
count v [] = 0
count v (s ∷ ss) = (if signal_eq s v then 1 else 0) + count v ss

-- Setting one signal adds one of its kind at most, and none of another kind.
count-set_at :
    (v : Signal) (i : ℕ) (w : Signal) (ss : List Signal)
    → count v (set_at i w ss) ≤ count v ss + (if signal_eq w v then 1 else 0)
count-set_at v i w [] = omega arith
count-set_at v zero w (s ∷ ss) = omega arith
count-set_at v (suc i) w (s ∷ ss) = omega (arith, count-set_at v i w ss)

length-set_at : (i : ℕ) (w : Signal) (ss : List Signal) → length (set_at i w ss) ≡ length ss
length-set_at i w [] = refl
length-set_at zero w (s ∷ ss) = refl
length-set_at (suc i) w (s ∷ ss) = ap suc (length-set_at i w ss)

module _ {P : Type 0} (price_ltb : P → P → Bool) (charge_slots discharge_slots : ℕ) where
  abbrev loop : ℕ → ℕ → List (P × ℕ) → List Signal → List Signal
  loop = assign_loop price_ltb charge_slots discharge_slots

  loop-length :
      (n rank : ℕ) (rest : List (P × ℕ)) (ss : List Signal)
      → length (loop n rank rest ss) ≡ length ss
  unfolding assign_loop
  loop-length n rank [] ss = refl
  loop-length n rank ((p, i) ∷ rest) ss =
      loop-length n (suc rank) rest _ ∙ one (signal_of_rank charge_slots discharge_slots n rank)
    where
      one : (o : Option Signal) → length (set_signal i o ss) ≡ length ss
      one none = refl
      one (some v) = length-set_at i v ss

  loop-charges :
      (n rank : ℕ) (rest : List (P × ℕ)) (ss : List Signal)
      → count charge (loop n rank rest ss) ≤ count charge ss + (charge_slots - rank)
  unfolding assign_loop
  loop-charges n rank [] ss = omega arith
  loop-charges n rank ((p, i) ∷ rest) ss = elim (Bool-cases (ltb rank charge_slots)) [
    | inl e ↦ rw e (
        omega (
          arith,
          ltb→lt rank charge_slots e,
          loop-charges n (suc rank) rest (set_at i charge ss),
          count-set_at charge i charge ss,
        ))
    | inr e ↦ elim (Bool-cases (leb n (rank + discharge_slots))) [
      | inl f ↦
          rw (e, f)
            (omega (
              arith,
              loop-charges n (suc rank) rest (set_at i discharge ss),
              count-set_at charge i discharge ss,
            ))
      | inr f ↦ rw (e, f) (omega (arith, loop-charges n (suc rank) rest ss))
    ]
  ]

  loop-discharges :
      (n rank : ℕ) (rest : List (P × ℕ)) (ss : List Signal)
      → rank + length rest ≡ n
      → count discharge (loop n rank rest ss)
        ≤ count discharge ss + min discharge_slots (length rest)
  unfolding assign_loop
  loop-discharges n rank [] ss h = omega arith
  loop-discharges n rank ((p, i) ∷ rest) ss h = elim (Bool-cases (ltb rank charge_slots)) [
    | inl e ↦ rw e (
        omega (
          arith,
          loop-discharges n (suc rank) rest (set_at i charge ss) (omega arith),
          count-set_at discharge i charge ss,
        ))
    | inr e ↦ elim (Bool-cases (leb n (rank + discharge_slots))) [
      | inl f ↦
          rw (e, f)
            (omega (
              arith,
              leb→le n (rank + discharge_slots) f,
              loop-discharges n (suc rank) rest (set_at i discharge ss) (omega arith),
              count-set_at discharge i discharge ss,
            ))
      | inr f ↦ rw (e, f) (omega (arith, loop-discharges n (suc rank) rest ss (omega arith)))
    ]
  ]

  none_yet :
      (v : Signal) (ps : List (Option P))
      → signal_eq idle v ≡ false
      → count v (map (λ p. idle) ps) ≡ 0
  none_yet v [] e = refl
  none_yet v (p ∷ ps) e = rw e (omega (arith, none_yet v ps e))

  -- `assign_signals` gives each price of the day one signal, and marks no more intervals for
  -- charging than `charge_slots` and no more for discharging than `discharge_slots`.
  pub assign_signals-within :
      (prices : List (Option P))
      → let signals = assign_signals price_ltb prices charge_slots discharge_slots in
        (length signals ≡ length prices)
        × (count charge signals ≤ charge_slots)
        × (count discharge signals ≤ discharge_slots)
  unfolding assign_signals
  assign_signals-within prices =
      let valid = sort_prices price_ltb (valid_indexed price_ltb 0 prices) in
      let start = map (λ p. idle) prices in
      (
        loop-length (length valid) 0 valid start ∙ length-map prices (λ p. idle),
        omega (arith, loop-charges (length valid) 0 valid start, none_yet charge prices refl),
        omega (
          arith,
          loop-discharges (length valid) 0 valid start (omega arith),
          none_yet discharge prices refl,
        ),
      )
