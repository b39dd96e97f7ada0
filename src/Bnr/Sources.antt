-- ===== src/Bnr/Sources.antt =====
-- Where the element of a day comes from in the fetch of src/shiden/ingestion/bnr.py.
use shiden_api.Base.{
  ℕ, ◌≡◌, refl, sym, ap, ◌∙◌, Bool, true, false, ◌||◌, List, [], ◌∷◌, Option, none, some, ◌==◌,
  arith, ◌>>=◌, Bool-cases, Option-cases, inl, inr,
}
use shiden_api.Base.Text.{Text, codes}
use shiden_api.Base.Dicts.{Dict, find_entry, has_entry}
use shiden_api.Base.Lookups.{
  or_else, or_else_assoc, is_there, IsDict, has_entry-find_entry, put_entry-IsDict,
  find_entry-update, find_entry-add_missing,
}
use shiden_api.Base.Xml.{Element, attribute, nonempty, iter}
use shiden_api.Calendar.{Date, date_eq, date_range}
use shiden_api.Calendar.Order.{date_eq_iff}
use shiden_api.Ingest.{
  Response, Fetched, body, status_error, runtime_error, other_error, get_text_with_retry,
}
use shiden_api.Landing.{mem_date}
use shiden_api.LandingPaths.{isoformat}
use shiden_api.Bnr.{
  Cube, bnr_cube, bnr_daily_url, bnr_archive_url, insert_year, years_needed, merge_year, add_cube,
  add_cubes, cubes_of_fetch, extract_cubes, fetch_cubes, archive_cubes, merge_daily, missing_dates,
  with_daily, cubes_by_date,
}

abbrev pub mem_year : ℕ → List ℕ → Bool
mem_year y [] = false
mem_year y (z ∷ zs) = (y == z) || mem_year y zs

mem_year-insert_year :
    (x y : ℕ) (zs : List ℕ) → mem_year x (insert_year y zs) ≡ ((x == y) || mem_year x zs)
mem_year-insert_year x y [] = refl
mem_year-insert_year x y (z ∷ zs) = ground (arith, mem_year-insert_year x y zs)

-- The year of every day is needed.
pub mem_year-years_needed :
    (d : Date) (days : List Date)
    → mem_date d days ≡ true
    → mem_year d.year (years_needed days) ≡ true
unfolding years_needed
mem_year-years_needed d [] h = h
mem_year-years_needed d (e ∷ days) h = elim (Bool-cases (date_eq e d)) [
  | inl y ↦
      mem_year-insert_year d.year e.year (years_needed days)
      ∙ ground (arith, ap (λ a. a.year) ((date_eq_iff e d).0 y))
  | inr n ↦
      mem_year-insert_year d.year e.year (years_needed days)
      ∙ ground (arith, n, h, mem_year-years_needed d days)
]

abbrev is_empty_list : List Date → Bool
is_empty_list [] = true
is_empty_list (d ∷ days) = false

module _ (fromstring : Text → Option Element) (tostring : Element → Text)
    (respond : Text → ℕ → Response) where
  abbrev entry_of : Text → Option (Dict Cube) → Option Cube
  entry_of k none = none
  entry_of k (some cubes) = find_entry k cubes

  -- What the file at an address has for a day.
  abbrev pub cube_at : Text → Text → Option Cube
  cube_at url k = entry_of k (fetch_cubes fromstring tostring respond url)

  -- What the archives of some years have: a later year's entry before an earlier one's.
  abbrev pub archived : Text → List ℕ → Option Cube
  archived k [] = none
  archived k (year ∷ years) = or_else (archived k years) (cube_at (bnr_archive_url year) k)

  add_cubes-IsDict :
      (url : Text) (els : List Element) (d : Dict Cube)
      → IsDict d
      → IsDict (add_cubes fromstring tostring respond url els d)
  add_cubes-IsDict url [] d h = h
  add_cubes-IsDict url (e ∷ els) d h =
      add_cubes-IsDict url els _ (one (nonempty (attribute (codes "date") e)))
    where
      one : (o : Option Text) → IsDict (add_cube fromstring tostring respond url e o d)
      one none = h
      one (some k) = put_entry-IsDict k _ d h

  abbrev IsDictOf : Option (Dict Cube) → Type 0
  IsDictOf none = Unit
  IsDictOf (some d) = IsDict d

  fetch_cubes-IsDict : (url : Text) → IsDictOf (fetch_cubes fromstring tostring respond url)
  unfolding fetch_cubes extract_cubes
  fetch_cubes-IsDict url = go (get_text_with_retry (respond url) 3).1
    where
      parsed :
          (raw : Text) (o : Option Element)
          → IsDictOf (
              o >>= (λ root.
                some (add_cubes fromstring tostring respond url (iter bnr_cube root) [])))
      parsed raw none = tt
      parsed raw (some root) = add_cubes-IsDict url (iter bnr_cube root) [] tt

      go : (f : Fetched) → IsDictOf (cubes_of_fetch fromstring tostring respond url f)
      go (body raw) = parsed raw (fromstring raw)
      go (status_error n) = tt
      go runtime_error = tt
      go other_error = tt

  find_entry-merge_year :
      (k : Text) (o : Option (Dict Cube)) (cubes : Dict Cube)
      → IsDictOf o
      → find_entry k (merge_year o cubes) ≡ or_else (entry_of k o) (find_entry k cubes)
  find_entry-merge_year k none cubes h = refl
  find_entry-merge_year k (some new) cubes h = find_entry-update k new cubes h

  find_entry-archive_cubes :
      (k : Text) (years : List ℕ) (cubes : Dict Cube)
      → find_entry k (archive_cubes fromstring tostring respond years cubes)
        ≡ or_else (archived k years) (find_entry k cubes)
  unfolding archive_cubes
  find_entry-archive_cubes k [] cubes = refl
  find_entry-archive_cubes k (y ∷ years) cubes =
      find_entry-archive_cubes k years _
      ∙ ap (or_else (archived k years))
          (find_entry-merge_year k _ cubes (fetch_cubes-IsDict (bnr_archive_url y)))
      ∙ sym (or_else_assoc (archived k years) (cube_at (bnr_archive_url y) k) (find_entry k cubes))

  -- An archive's entry for a day, else the daily file's.
  abbrev pub sourced : Date → List Date → Option Cube
  sourced d days =
      or_else (archived (isoformat d) (years_needed days)) (cube_at bnr_daily_url (isoformat d))

  find_entry-with_daily :
      (d : Date) (days : List Date) (cubes : Dict Cube)
      → mem_date d days ≡ true
      → find_entry
          (isoformat d)
          (with_daily fromstring tostring respond (missing_dates days cubes) cubes)
        ≡ or_else (find_entry (isoformat d) cubes) (cube_at bnr_daily_url (isoformat d))
  find_entry-with_daily d days cubes h = elim (Option-cases (find_entry k cubes)) [
    | inl n ↦ go (missing_dates days cubes) (some_missing days h n)
    | inr (c, e) ↦ either (missing_dates days cubes) e
  ]
    where
      k : Text
      k = isoformat d

      last_none : (o : Option Cube) → o ≡ or_else o none
      last_none none = refl
      last_none (some c) = refl

      asked :
          (o : Option (Dict Cube))
          → find_entry k (merge_daily o cubes) ≡ or_else (find_entry k cubes) (entry_of k o)
      asked none = last_none (find_entry k cubes)
      asked (some new) = find_entry-add_missing k new cubes

      some_missing :
          (days : List Date)
          → mem_date d days ≡ true
          → find_entry k cubes ≡ none
          → is_empty_list (missing_dates days cubes) ≡ false
      some_missing [] h n = cc
      some_missing (e ∷ days) h n = elim (Bool-cases (has_entry (isoformat e) cubes)) [
        | inr absent ↦ rw absent refl
        | inl there ↦ elim (Bool-cases (date_eq e d)) [
          | inl y ↦ absurd (both e ((date_eq_iff e d).0 y) there n)
          | inr f ↦ rw there (some_missing days (in_rest (date_eq e d) f h) n)
        ]
      ]
        where
          in_rest : (b : Bool) → b ≡ false → (b || mem_date d days) ≡ true → mem_date d days ≡ true
          in_rest true f h = cc
          in_rest false f h = h

          both :
              (e : Date)
              → e ≡ d
              → has_entry (isoformat e) cubes ≡ true
              → find_entry k cubes ≡ none
              → ⊥
          both e y there n = cc (
            there,
            has_entry-find_entry k cubes,
            ap is_there n,
            ap (λ x. has_entry (isoformat x) cubes) y,
          )

      go :
          (missing : List Date)
          → is_empty_list missing ≡ false
          → find_entry k (with_daily fromstring tostring respond missing cubes)
            ≡ or_else (find_entry k cubes) (cube_at bnr_daily_url k)
      go [] f = cc
      go (m ∷ missing) f = asked (fetch_cubes fromstring tostring respond bnr_daily_url)

      either :
          {c : Cube}
          → (missing : List Date) → find_entry k cubes ≡ some c
          → find_entry k (with_daily fromstring tostring respond missing cubes)
            ≡ or_else (find_entry k cubes) (cube_at bnr_daily_url k)
      either [] e = e ∙ sym (ap (λ o. or_else o (cube_at bnr_daily_url k)) e)
      either (m ∷ missing) e = asked (fetch_cubes fromstring tostring respond bnr_daily_url)

  pub cubes_by_date-sourced :
      (start end d : Date)
      → mem_date d (date_range start end) ≡ true
      → find_entry (isoformat d) (cubes_by_date fromstring tostring respond start end)
        ≡ sourced d (date_range start end)
  unfolding cubes_by_date
  cubes_by_date-sourced start end d h =
      find_entry-with_daily d (date_range start end) _ h
      ∙ ap (λ o. or_else o (cube_at bnr_daily_url (isoformat d)))
          (find_entry-archive_cubes (isoformat d) (years_needed (date_range start end)) []
            ∙ right_none (archived (isoformat d) (years_needed (date_range start end))))
    where
      right_none : (o : Option Cube) → or_else o none ≡ o
      right_none none = refl
      right_none (some c) = refl
