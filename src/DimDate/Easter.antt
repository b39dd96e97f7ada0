-- ===== src/DimDate/Easter.antt =====
-- `_orthodox_easter` of src/shiden/processing/silver/dimensions/dim_date.py over its range of years.
use shiden_api.Base.{
  ℕ, zero, suc, ◌+◌, ◌≤◌, ◌<◌, ◌≡◌, refl, Bool, true, false, ◌&&◌, List, [], ◌∷◌, Option, none,
  some, Bool-cases, subst, inl, inr, ◌==◌, ==_iff, count_up, arith,
}
use shiden_api.Calendar.{Date, date, date_leb, iso_weekday, calendar}
use shiden_api.DimDate.{orthodox_easter}

-- A Sunday from 4 April to 8 May.
abbrev pub is_easter_day : ℕ → Date → Bool
is_easter_day year e =
    (iso_weekday e == 7) && (date_leb (date year 4 4) e && date_leb e (date year 5 8))

abbrev good_day : ℕ → Option Date → Bool
good_day year none = false
good_day year (some e) = is_easter_day year e

abbrev good_year : ℕ → Bool
good_year year = good_day year (orthodox_easter year)

abbrev pub all_good : (ℕ → Bool) → List ℕ → Bool
all_good good [] = true
all_good good (y ∷ ys) = good y && all_good good ys

two_centuries : all_good good_year (count_up 1900 200) ≡ true
unfolding orthodox_easter calendar
two_centuries = refl

both : (b c : Bool) → (b && c) ≡ true → (b ≡ true) × (c ≡ true)
both true true h = (refl, refl)
both true false h = cc
both false c h = cc

pub all_good_at :
    (good : ℕ → Bool) (a n year : ℕ)
    → all_good good (count_up a n) ≡ true
    → a ≤ year
    → year < a + n
    → good year ≡ true
all_good_at good a zero year h low high = absurd (omega arith)
all_good_at good a (suc n) year h low high =
    let (first, others) = both (good a) (all_good good (count_up (suc a) n)) h in
    elim (Bool-cases (a == year)) [
      | inl e ↦ subst (λ y. good y ≡ true) ((==_iff a year).0 e) first
      | inr e ↦ all_good_at good (suc a) n year others (after a year e low) (omega arith)
    ]
  where
    after : (a year : ℕ) → (a == year) ≡ false → a ≤ year → suc a ≤ year
    after a year e low = ground arith

found :
    (year : ℕ) (o : Option Date)
    → good_day year o ≡ true
    → (e : Date) × (o ≡ some e) × (is_easter_day year e ≡ true)
found year none h = cc
found year (some e) h = (e, refl, h)

-- For every year from 1900 to 2099 `_orthodox_easter` returns a date, which is a Sunday and lies
-- between 4 April and 8 May of that year.
pub orthodox_easter_lem :
    (year : ℕ)
    → 1900 ≤ year
    → year ≤ 2099
    → (e : Date) × (orthodox_easter year ≡ some e) × (is_easter_day year e ≡ true)
orthodox_easter_lem year low high =
    found year (orthodox_easter year)
      (all_good_at good_year 1900 200 year two_centuries low (omega arith))
