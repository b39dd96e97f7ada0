-- ===== src/Bess/Sorted.antt =====
-- The sorting in `assign_signals` of src/shiden/processing/gold/gold_bess_signals.py: by price,
-- with every position once.
use shiden_api.Base.{
  ℕ, zero, suc, ◌+◌, ◌≤◌, ◌≡◌, ◌≢◌, sym, ap₂, ◌⊎◌, inl, inr, Bool, true, false, List, [], ◌∷◌,
  Option, none, some, get_elem?, Bool-cases, All, All-imp, arith,
}
use shiden_api.Bess.{insert_price, sort_prices, valid_indexed}

-- What the program relies on of `<` on prices that are numbers.
pub record IsOrder {P : Type 0} (price_ltb : P → P → Bool) : Type 0 where
  pub asym : (p q : P) → price_ltb p q ≡ true → price_ltb q p ≡ false
  pub trans : (p q r : P) → price_ltb q p ≡ false → price_ltb r q ≡ false → price_ltb r p ≡ false

abbrev pub In : {A : Type 0} → A → List A → Type 0
In x [] = ⊥
In x (y ∷ ys) = (y ≡ x) ⊎ In x ys

-- No two entries have the same position.
abbrev pub Distinct : {P : Type 0} → List (P × ℕ) → Type 0
Distinct [] = Unit
Distinct (x ∷ xs) = All (λ y. y.1 ≢ x.1) xs × Distinct xs

module _ {P : Type 0} (price_ltb : P → P → Bool) where
  insert-All {κ} :
      (Q : P × ℕ → Type κ) (x : P × ℕ) (ys : List (P × ℕ))
      → Q x
      → All Q ys
      → All Q (insert_price price_ltb x ys)
  unfolding insert_price
  insert-All Q x [] h k = (h, tt)
  insert-All Q x (y ∷ ys) h k = elim (Bool-cases (price_ltb y.0 x.0)) [
    | inl t ↦ rw t (k.0, insert-All Q x ys h k.1)
    | inr f ↦ rw f (h, k)
  ]

  -- Ascending by price.
  abbrev pub Sorted : List (P × ℕ) → Type 0
  Sorted [] = Unit
  Sorted (x ∷ xs) = All (λ y. price_ltb y.0 x.0 ≡ false) xs × Sorted xs

  insert-In : (z x : P × ℕ) (ys : List (P × ℕ)) → In z (x ∷ ys) → In z (insert_price price_ltb x ys)
  unfolding insert_price
  insert-In z x [] h = h
  insert-In z x (y ∷ ys) h = elim (Bool-cases (price_ltb y.0 x.0)) [
    | inl t ↦ rw t (go (insert-In z x ys) h)
    | inr f ↦ rw f h
  ]
    where
      go :
          (In z (x ∷ ys) → In z (insert_price price_ltb x ys))
          → In z (x ∷ y ∷ ys)
          → (y ≡ z) ⊎ In z (insert_price price_ltb x ys)
      go later (inl e) = inr (later (inl e))
      go later (inr (inl e)) = inl e
      go later (inr (inr k)) = inr (later (inr k))

  pub sort-In : (z : P × ℕ) (xs : List (P × ℕ)) → In z xs → In z (sort_prices price_ltb xs)
  unfolding sort_prices
  sort-In z [] h = absurd h
  sort-In z (x ∷ xs) (inl e) = insert-In z x (sort_prices price_ltb xs) (inl e)
  sort-In z (x ∷ xs) (inr h) = insert-In z x (sort_prices price_ltb xs) (inr (sort-In z xs h))

  sort-All {κ} :
      (Q : P × ℕ → Type κ) (xs : List (P × ℕ)) → All Q xs → All Q (sort_prices price_ltb xs)
  unfolding sort_prices
  sort-All Q [] h = tt
  sort-All Q (x ∷ xs) h = insert-All Q x (sort_prices price_ltb xs) h.0 (sort-All Q xs h.1)

  insert-Distinct :
      (x : P × ℕ) (ys : List (P × ℕ))
      → All (λ y. y.1 ≢ x.1) ys
      → Distinct ys
      → Distinct (insert_price price_ltb x ys)
  unfolding insert_price
  insert-Distinct x [] h k = (tt, tt)
  insert-Distinct x (y ∷ ys) h k = elim (Bool-cases (price_ltb y.0 x.0)) [
    | inl t ↦
        rw t (insert-All (λ z. z.1 ≢ y.1) x ys (λ e. h.0 (sym e)) k.0, insert-Distinct x ys h.1 k.1)
    | inr f ↦ rw f (h, k)
  ]

  pub sort-Distinct : (xs : List (P × ℕ)) → Distinct xs → Distinct (sort_prices price_ltb xs)
  unfolding sort_prices
  sort-Distinct [] h = tt
  sort-Distinct (x ∷ xs) h =
      insert-Distinct x (sort_prices price_ltb xs) (sort-All (λ y. y.1 ≢ x.1) xs h.0)
        (sort-Distinct xs h.1)

  module _ (order : IsOrder price_ltb) where
    insert-Sorted :
        (x : P × ℕ) (ys : List (P × ℕ)) → Sorted ys → Sorted (insert_price price_ltb x ys)
    unfolding insert_price
    insert-Sorted x [] k = (tt, tt)
    insert-Sorted x (y ∷ ys) k = elim (Bool-cases (price_ltb y.0 x.0)) [
      | inl t ↦ rw t (
        insert-All (λ z. price_ltb z.0 y.0 ≡ false) x ys (order.asym y.0 x.0 t) k.0,
        insert-Sorted x ys k.1,
      )
      | inr f ↦ rw f (
        (
          f,
          All-imp (λ z. price_ltb z.0 y.0 ≡ false) (λ z. price_ltb z.0 x.0 ≡ false) ys
              (λ z e. order.trans x.0 y.0 z.0 f e) k.0,
        ),
        k,
      )
    ]

    pub sort-Sorted : (xs : List (P × ℕ)) → Sorted (sort_prices price_ltb xs)
    unfolding sort_prices
    sort-Sorted [] = tt
    sort-Sorted (x ∷ xs) = insert-Sorted x (sort_prices price_ltb xs) (sort-Sorted xs)

  -- The valid prices with their positions.
  pub valid-In :
      (n m i : ℕ) (p : P) (ps : List (Option P))
      → m ≡ n + i
      → get_elem? ps i ≡ some (some p)
      → In (p, m) (valid_indexed price_ltb n ps)
  unfolding valid_indexed
  valid-In n m i p [] e h = cc
  valid-In n m zero p (none ∷ ps) e h = cc
  valid-In n m zero p (some q ∷ ps) e h = inl (ap₂ (λ a b. (a, b)) (cc h) (omega arith))
  valid-In n m (suc i) p (none ∷ ps) e h = valid-In (suc n) m i p ps (omega arith) h
  valid-In n m (suc i) p (some q ∷ ps) e h = inr (valid-In (suc n) m i p ps (omega arith) h)

  valid-above : (n : ℕ) (ps : List (Option P)) → All (λ y. n ≤ y.1) (valid_indexed price_ltb n ps)
  unfolding valid_indexed
  valid-above n [] = tt
  valid-above n (none ∷ ps) =
      All-imp (λ y. suc n ≤ y.1) (λ y. n ≤ y.1) (valid_indexed price_ltb (suc n) ps)
        (λ y h. omega arith) (valid-above (suc n) ps)
  valid-above n (some p ∷ ps) = (
    omega arith,
    All-imp (λ y. suc n ≤ y.1) (λ y. n ≤ y.1) (valid_indexed price_ltb (suc n) ps)
        (λ y h. omega arith) (valid-above (suc n) ps),
  )

  pub valid-Distinct : (n : ℕ) (ps : List (Option P)) → Distinct (valid_indexed price_ltb n ps)
  unfolding valid_indexed
  valid-Distinct n [] = tt
  valid-Distinct n (none ∷ ps) = valid-Distinct (suc n) ps
  valid-Distinct n (some p ∷ ps) = (
    All-imp (λ y. suc n ≤ y.1) (λ y. y.1 ≢ n) (valid_indexed price_ltb (suc n) ps)
        (λ y h e. omega arith) (valid-above (suc n) ps),
    valid-Distinct (suc n) ps,
  )
