-- ===== src/Bess/Ranks.antt =====
-- Which prices `assign_signals` of src/shiden/processing/gold/gold_bess_signals.py marks.
use shiden_api.Base.{
  ℕ, zero, suc, ◌+◌, ◌≤◌, ◌<◌, ◌≡◌, ◌≢◌, refl, sym, ap, subst, ◌∙◌, inl, inr, Bool, true, false,
  List, [], ◌∷◌, Option, none, some, map, length, get_elem?, All, arith,
}
use native.Mathlib.Decide.{dec_le}
use shiden_api.Bess.{
  Signal, charge, idle, discharge, set_at, signal_of_rank, set_signal, assign_loop, assign_signals,
  sort_prices, valid_indexed,
}
use shiden_api.Bess.Sorted.{
  IsOrder, In, Distinct, Sorted, sort-In, sort-Distinct, sort-Sorted, valid-In, valid-Distinct,
}

-- -1, 0 and 1 in their order.
abbrev pub level : Signal → ℕ
level charge = 0
level idle = 1
level discharge = 2

In-All {κ} : {A : Type 0} (Q : A → Type κ) (x : A) (l : List A) → In x l → All Q l → Q x
In-All Q x [] m h = absurd m
In-All Q x (y ∷ l) (inl e) h = subst Q e h.0
In-All Q x (y ∷ l) (inr m) h = In-All Q x l m h.1

abbrev given : Option Signal → Signal
given none = idle
given (some v) = v

set_at-same :
    (i : ℕ) (v u : Signal) (ss : List Signal)
    → get_elem? ss i ≡ some u
    → get_elem? (set_at i v ss) i ≡ some v
set_at-same i v u [] h = cc
set_at-same zero v u (s ∷ ss) h = refl
set_at-same (suc i) v u (s ∷ ss) h = set_at-same i v u ss h

set_at-other :
    (j i : ℕ) (v : Signal) (ss : List Signal) → i ≢ j → get_elem? (set_at j v ss) i ≡ get_elem? ss i
set_at-other j i v [] h = refl
set_at-other zero zero v (s ∷ ss) h = absurd (h refl)
set_at-other zero (suc i) v (s ∷ ss) h = refl
set_at-other (suc j) zero v (s ∷ ss) h = refl
set_at-other (suc j) (suc i) v (s ∷ ss) h = set_at-other j i v ss (λ e. h (ap suc e))

set_signal-same :
    (i : ℕ) (o : Option Signal) (ss : List Signal)
    → get_elem? ss i ≡ some idle
    → get_elem? (set_signal i o ss) i ≡ some (given o)
set_signal-same i none ss h = h
set_signal-same i (some v) ss h = set_at-same i v idle ss h

set_signal-other :
    (j i : ℕ) (o : Option Signal) (ss : List Signal)
    → i ≢ j
    → get_elem? (set_signal j o ss) i ≡ get_elem? ss i
set_signal-other j i none ss h = refl
set_signal-other j i (some v) ss h = set_at-other j i v ss h

module _ {P : Type 0} (price_ltb : P → P → Bool) (charge_slots discharge_slots count : ℕ) where
  abbrev loop : ℕ → List (P × ℕ) → List Signal → List Signal
  loop = assign_loop price_ltb charge_slots discharge_slots count

  abbrev signal_at : ℕ → Signal
  signal_at rank = given (signal_of_rank charge_slots discharge_slots count rank)

  loop-other :
      (rank i : ℕ) (rest : List (P × ℕ)) (ss : List Signal)
      → All (λ y. y.1 ≢ i) rest
      → get_elem? (loop rank rest ss) i ≡ get_elem? ss i
  unfolding assign_loop
  loop-other rank i [] ss h = refl
  loop-other rank i ((q, j) ∷ rest) ss h =
      loop-other (suc rank) i rest _ h.1
      ∙ set_signal-other j i (signal_of_rank charge_slots discharge_slots count rank) ss
          (λ e. h.0 (sym e))

  -- An interval in the list gets the signal of its rank.
  loop-ranked :
      (rank i : ℕ) (p : P) (rest : List (P × ℕ)) (ss : List Signal)
      → Distinct rest
      → In (p, i) rest
      → get_elem? ss i ≡ some idle
      → (k : ℕ) × (get_elem? rest k ≡ some (p, i))
        × (get_elem? (loop rank rest ss) i ≡ some (signal_at (rank + k)))
  unfolding assign_loop
  loop-ranked rank i p [] ss d m h = absurd m
  loop-ranked rank i p ((q, j) ∷ rest) ss d (inl e) h = (
    0,
    ap some e,
    subst
        (λ n.
          get_elem?
            (loop (suc rank) rest
              (set_signal j (signal_of_rank charge_slots discharge_slots count rank) ss))
            n
          ≡ some (signal_at (rank + 0)))
        (ap (λ x. x.1) e)
        (loop-other (suc rank) j rest _ d.0
          ∙ set_signal-same j (signal_of_rank charge_slots discharge_slots count rank) ss
              (subst (λ n. get_elem? ss n ≡ some idle) (sym (ap (λ x. x.1) e)) h)
          ∙ ap (λ n. some (signal_at n)) (no_more rank)),
  )
    where
      no_more : (n : ℕ) → n ≡ n + 0
      no_more n = omega arith
  loop-ranked rank i p ((q, j) ∷ rest) ss d (inr m) h =
      let (k, at_k, is) =
        loop-ranked (suc rank) i p rest
          (set_signal j (signal_of_rank charge_slots discharge_slots count rank) ss) d.1 m
          (set_signal-other j i (signal_of_rank charge_slots discharge_slots count rank) ss
              (In-All (λ y. y.1 ≢ j) (p, i) rest m d.0)
            ∙ h) in
      (suc k, at_k, is ∙ ap (λ n. some (signal_at n)) (shift rank k))
    where
      shift : (n k : ℕ) → suc n + k ≡ n + suc k
      shift n k = omega arith

  level-signal_at : (k l : ℕ) → k ≤ l → level (signal_at k) ≤ level (signal_at l)
  level-signal_at k l h = ground arith

get-All {κ} :
    {A : Type 0} (Q : A → Type κ) (m : ℕ) (y : A) (l : List A)
    → get_elem? l m ≡ some y
    → All Q l
    → Q y
get-All Q m y [] e h = absurd (cc e)
get-All Q zero y (x ∷ l) e h = subst Q (cc e) h.0
get-All Q (suc m) y (x ∷ l) e h = get-All Q m y l e h.1

Sorted-get :
    {P : Type 0} (price_ltb : P → P → Bool) (k m : ℕ) (x y : P × ℕ) (l : List (P × ℕ))
    → Sorted price_ltb l
    → get_elem? l k ≡ some x
    → get_elem? l m ≡ some y
    → k < m
    → price_ltb y.0 x.0 ≡ false
Sorted-get price_ltb k m x y [] s e f lt = absurd (cc e)
Sorted-get price_ltb k zero x y (z ∷ l) s e f lt = absurd (omega arith)
Sorted-get {P = P} price_ltb zero (suc m) x y (z ∷ l) s e f lt =
    let is_x : z ≡ x = cc in
    subst (λ (w : P × ℕ). price_ltb y.0 w.0 ≡ false) is_x
      (get-All (λ w. price_ltb w.0 z.0 ≡ false) m y l f s.0)
Sorted-get price_ltb (suc k) (suc m) x y (z ∷ l) s e f lt =
    Sorted-get price_ltb k m x y l s.1 e f (omega arith)

all_idle :
    {P : Type 0} (i : ℕ) (p : Option P) (ps : List (Option P))
    → get_elem? ps i ≡ some p
    → get_elem? (map (λ q. idle) ps) i ≡ some idle
all_idle i p [] h = cc
all_idle zero p (q ∷ ps) h = refl
all_idle (suc i) p (q ∷ ps) h = all_idle i p ps h

agree :
    {o n : Option Signal} (a b s t : Signal)
    → o ≡ some a
    → o ≡ some s
    → n ≡ some b
    → n ≡ some t
    → level a ≤ level b
    → level s ≤ level t
agree a b s t ea es eb et h =
    let left : a ≡ s = cc in
    let right : b ≡ t = cc in
    subst (λ u. level u ≤ level t) left (subst (λ u. level a ≤ level u) right h)

module _ {P : Type 0} (price_ltb : P → P → Bool) (order : IsOrder price_ltb) where
  rank_lt :
      (k l i j : ℕ) (p q : P) (valid : List (P × ℕ))
      → Sorted price_ltb valid
      → get_elem? valid k ≡ some (p, i)
      → get_elem? valid l ≡ some (q, j)
      → price_ltb p q ≡ true
      → k ≤ l
  rank_lt k l i j p q valid s e f lt = elim (dec_le k l) [
    | yes h ↦ h
    | no n ↦ absurd (cc (lt, Sorted-get price_ltb l k (q, j) (p, i) valid s f e (omega arith)))
  ]

  -- For prices in a total order: of two intervals of a day that have prices, the cheaper one never
  -- gets the later of the signals charge, idle and discharge. So among the intervals with prices
  -- those marked for charging cost no more than the others, those for discharging no less.
  pub assign_signals-level :
      (prices : List (Option P)) (charge_slots discharge_slots i j : ℕ) (p q : P) (s t : Signal)
      → get_elem? prices i ≡ some (some p)
      → get_elem? prices j ≡ some (some q)
      → price_ltb p q ≡ true
      → get_elem? (assign_signals price_ltb prices charge_slots discharge_slots) i ≡ some s
      → get_elem? (assign_signals price_ltb prices charge_slots discharge_slots) j ≡ some t
      → level s ≤ level t
  unfolding assign_signals
  assign_signals-level prices charge_slots discharge_slots i j p q s t hi hj lt es et =
      let indexed = valid_indexed price_ltb 0 prices in
      let valid = sort_prices price_ltb indexed in
      let start = map (λ p. idle) prices in
      let distinct = sort-Distinct price_ltb indexed (valid-Distinct price_ltb 0 prices) in
      let ranked = loop-ranked price_ltb charge_slots discharge_slots (length valid) 0 in
      let (k, at_k, is_k) =
        ranked i p valid start distinct
          (sort-In price_ltb (p, i) indexed (valid-In price_ltb 0 i i p prices (omega arith) hi))
          (all_idle i (some p) prices hi) in
      let (l, at_l, is_l) =
        ranked j q valid start distinct
          (sort-In price_ltb (q, j) indexed (valid-In price_ltb 0 j j q prices (omega arith) hj))
          (all_idle j (some q) prices hj) in
      let k_le_l = rank_lt k l i j p q valid (sort-Sorted price_ltb order indexed) at_k at_l lt in
      agree _ _ s t is_k es is_l et (
        level-signal_at price_ltb charge_slots discharge_slots (length valid) (0 + k) (0 + l)
          (omega arith))
