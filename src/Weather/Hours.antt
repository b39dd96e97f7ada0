-- ===== src/Weather/Hours.antt =====
-- Which hours src/shiden/ingestion/weather.py puts into the file of a day.
use shiden_api.Base.{
  ℕ, suc, ◌≡◌, refl, sym, ap, ◌∙◌, inl, inr, Bool, true, false, List, [], ◌∷◌, ◌++◌, All,
  Bool-cases, if◌then◌else◌,
}
use mathlib.Core.List.{append_assoc, append-nil}
use shiden_api.Calendar.{Date, date_eq}
use shiden_api.Calendar.Order.{date_eq_iff}
use shiden_api.Weather.{add_hour, add_hours, by_date}

-- The numbers of the hours that fall on `d`, counted from `i`.
abbrev pub hours_on : Date → ℕ → List Date → List ℕ
hours_on d i [] = []
hours_on d i (e ∷ dates) =
    if date_eq e d then i ∷ hours_on d (suc i) dates else hours_on d (suc i) dates

-- The hours of the first group of a date.
abbrev pub find_group : Date → List (Date × List ℕ) → List ℕ
find_group d [] = []
find_group d ((e, is) ∷ groups) = if date_eq e d then is else find_group d groups

find_group-add_hour :
    (d e : Date) (i : ℕ) (groups : List (Date × List ℕ))
    → find_group d (add_hour e i groups)
      ≡ (if date_eq e d then find_group d groups ++ i ∷ [] else find_group d groups)
unfolding add_hour
find_group-add_hour d e i [] = refl
find_group-add_hour d e i ((c, is) ∷ groups) = elim (Bool-cases (date_eq c e)) [
  | inl y ↦ rw (y, (date_eq_iff c e).0 y) (same (date_eq e d) is (find_group d groups))
  | inr n ↦ elim (Bool-cases (date_eq c d)) [
    | inl z ↦ rw (n, z, other n z) refl
    | inr z ↦ rw (n, z) (find_group-add_hour d e i groups)
  ]
]
  where
    same :
        (b : Bool) (xs ys : List ℕ)
        → (if b then xs ++ i ∷ [] else ys)
          ≡ (if b then (if b then xs else ys) ++ i ∷ [] else (if b then xs else ys))
    same true xs ys = refl
    same false xs ys = refl

    other : date_eq c e ≡ false → date_eq c d ≡ true → date_eq e d ≡ false
    other n z = elim (Bool-cases (date_eq e d)) [
      | inr m ↦ m
      | inl m ↦ cc (sym n, ap (date_eq c) ((date_eq_iff e d).0 m), z)
    ]

find_group-add_hours :
    (d : Date) (i : ℕ) (dates : List Date) (groups : List (Date × List ℕ))
    → find_group d (add_hours i dates groups) ≡ find_group d groups ++ hours_on d i dates
unfolding add_hours
find_group-add_hours d i [] groups = sym (append-nil (find_group d groups))
find_group-add_hours d i (e ∷ dates) groups =
    find_group-add_hours d (suc i) dates (add_hour e i groups)
    ∙ ap (λ xs. xs ++ hours_on d (suc i) dates) (find_group-add_hour d e i groups)
    ∙ pick (date_eq e d) (find_group d groups)
  where
    pick :
        (b : Bool) (xs : List ℕ)
        → (if b then xs ++ i ∷ [] else xs) ++ hours_on d (suc i) dates
          ≡ xs ++ (if b then i ∷ hours_on d (suc i) dates else hours_on d (suc i) dates)
    pick true xs = append_assoc xs (i ∷ []) (hours_on d (suc i) dates)
    pick false xs = refl

-- No date has a second group.
abbrev pub OneEach : List (Date × List ℕ) → Type 0
OneEach [] = Unit
OneEach ((e, is) ∷ groups) = All (λ g. date_eq e g.0 ≡ false) groups × OneEach groups

add_hour-All :
    (c e : Date) (i : ℕ) (groups : List (Date × List ℕ))
    → date_eq c e ≡ false
    → All (λ g. date_eq c g.0 ≡ false) groups
    → All (λ g. date_eq c g.0 ≡ false) (add_hour e i groups)
unfolding add_hour
add_hour-All c e i [] n h = (n, tt)
add_hour-All c e i ((d, is) ∷ groups) n h = elim (Bool-cases (date_eq d e)) [
  | inl y ↦ rw y h
  | inr m ↦ rw m (h.0, add_hour-All c e i groups n h.1)
]

add_hour-OneEach :
    (e : Date) (i : ℕ) (groups : List (Date × List ℕ))
    → OneEach groups
    → OneEach (add_hour e i groups)
unfolding add_hour
add_hour-OneEach e i [] h = (tt, tt)
add_hour-OneEach e i ((d, is) ∷ groups) h = elim (Bool-cases (date_eq d e)) [
  | inl y ↦ rw y h
  | inr m ↦ rw m (add_hour-All d e i groups m h.0, add_hour-OneEach e i groups h.1)
]

add_hours-OneEach :
    (i : ℕ) (dates : List Date) (groups : List (Date × List ℕ))
    → OneEach groups
    → OneEach (add_hours i dates groups)
unfolding add_hours
add_hours-OneEach i [] groups h = h
add_hours-OneEach i (e ∷ dates) groups h =
    add_hours-OneEach (suc i) dates (add_hour e i groups) (add_hour-OneEach e i groups h)

-- The hours of a location are grouped by date: no date has two groups, and the group of a date has
-- the numbers of all hours of that date, in order, and no others.
pub by_date-hours_on :
    (dates : List Date) (d : Date)
    → OneEach (by_date dates) × (find_group d (by_date dates) ≡ hours_on d 0 dates)
by_date-hours_on dates d = (add_hours-OneEach 0 dates [] tt, find_group-add_hours d 0 dates [])
