-- ===== src/Landing.antt =====
-- The landing zone as the ingesters of src/shiden/ingestion see it: the files of one kind by
-- their dates. Writing a file succeeds.
pub use shiden_api.Base.Lookups.{or_else}
use shiden_api.Base.{
  ◌≡◌, refl, sym, ap, subst, ◌∙◌, inl, inr, Bool, true, false, ◌||◌, List, [], ◌∷◌, ◌++◌, Option,
  none, some, ◌>>=◌, Bool-cases, if◌then◌else◌,
}
use shiden_api.Calendar.{Date, date_eq, date_range}
use shiden_api.Calendar.Order.{date_eq_iff}

-- The files of one kind by their dates; `C` is what a file holds.
abbrev pub Landing : Type 0 → Type 0
Landing C = List (Date × C)

module _ {C : Type 0} where
  unfoldable pub find_file : Date → Landing C → Option C
  find_file d [] = none
  find_file d ((e, t) ∷ files) = if date_eq e d then some t else find_file d files

  unfoldable pub write_file : Date → C → Landing C → Landing C
  write_file d t [] = (d, t) ∷ []
  write_file d t ((e, u) ∷ files) =
      if date_eq e d then (d, t) ∷ files else (e, u) ∷ write_file d t files

  abbrev pub exists_file : Date → Landing C → Bool
  exists_file d files = elim (find_file d files) [ none ↦ false | some t ↦ true ]

-- The loop that writes one file a day, for the days that have a content.
module _ {C : Type 0} (content : Date → Option C) where
  abbrev pub write_day : Date → Option C → Landing C → Landing C
  write_day d none files = files
  write_day d (some c) files = write_file d c files

  unfoldable pub write_days : List Date → Landing C → Landing C
  write_days [] files = files
  write_days (d ∷ days) files = write_days days (write_day d (content d) files)

-- The rows that a Bronze writer parses: of every file that is there, in the order of the days.
-- `none` is an exception that leaves the parser.
abbrev pub rows_of_file : {C R : Type 0} → (C → Option (List R)) → Option C → Option (List R)
rows_of_file parse none = some []
rows_of_file parse (some content) = parse content

module _ {C R : Type 0} (parse : Date → C → Option (List R)) where
  unfoldable pub rows_of_days : List Date → Landing C → Option (List R)
  rows_of_days [] files = some []
  rows_of_days (d ∷ days) files = do
    day_rows ← rows_of_file (parse d) (find_file d files)
    rows ← rows_of_days days files
    some (day_rows ++ rows)

  abbrev pub process_series : Date → Date → Landing C → Option (List R)
  process_series start end files = rows_of_days (date_range start end) files

abbrev pub mem_date : Date → List Date → Bool
mem_date d [] = false
mem_date d (e ∷ ds) = date_eq e d || mem_date d ds

pub date_eq_refl : (d : Date) → date_eq d d ≡ true
date_eq_refl d = (date_eq_iff d d).1 refl

pub find_file-write_file :
    {C : Type 0} (d e : Date) (t : C) (files : Landing C)
    → find_file e (write_file d t files) ≡ (if date_eq d e then some t else find_file e files)
unfolding find_file write_file
find_file-write_file d e t [] = refl
find_file-write_file {C = C} d e t ((c, u) ∷ files) = elim (Bool-cases (date_eq c d)) [
  | inl y ↦ rw (y, (date_eq_iff c d).0 y) (same (date_eq d e) _ _ _)
  | inr n ↦ elim (Bool-cases (date_eq c e)) [
    | inl z ↦ rw (n, z, other n z)
    | inr z ↦ rw (n, z) (find_file-write_file d e t files)
  ]
]
  where
    same :
        (b : Bool) (x y z : Option C) → (if b then x else z) ≡ (if b then x else if b then y else z)
    same true x y z = refl
    same false x y z = refl

    other : date_eq c d ≡ false → date_eq c e ≡ true → date_eq d e ≡ false
    other n z = elim (Bool-cases (date_eq d e)) [
      | inr m ↦ m
      | inl m ↦ cc (sym n, ap (λ x. date_eq c x) ((date_eq_iff d e).0 m), z)
    ]

or_else_twice {ℓ} :
    {A : Type ℓ} (new old : Option A) → or_else new (or_else new old) ≡ or_else new old
or_else_twice none old = refl
or_else_twice (some c) old = refl

same_either {ℓ} : {A : Type ℓ} (b : Bool) (x : A) → x ≡ (if b then x else x)
same_either true x = refl
same_either false x = refl

module _ {C : Type 0} (content : Date → Option C) where
  find_file-write_day :
      (new : Option C) (d e : Date) (files : Landing C)
      → find_file e (write_day content d new files)
        ≡ (if date_eq d e then or_else new (find_file e files) else find_file e files)
  find_file-write_day none d e files = same_either (date_eq d e) (find_file e files)
  find_file-write_day (some c) d e files = find_file-write_file d e c files

  renewed :
      (d e : Date) (old new : Option C)
      → new ≡ (if date_eq d e then or_else (content d) old else old)
      → new ≡ (if date_eq d e then or_else (content e) old else old)
  renewed d e old new h = elim (Bool-cases (date_eq d e)) [
    | inl t ↦
        h
        ∙ subst
            (λ x.
              (if date_eq d e then or_else (content d) old else old)
              ≡ (if date_eq d e then or_else (content x) old else old))
            ((date_eq_iff d e).0 t) refl
    | inr f ↦ rw f (rw f at h)
  ]

  again :
      (e : Date) (m q : Bool) (old new : Option C)
      → new ≡ (if q then or_else (content e) old else old)
      → (if m then or_else (content e) new else new)
        ≡ (if q || m then or_else (content e) old else old)
  again e true true old new h = ap (or_else (content e)) h ∙ or_else_twice (content e) old
  again e true false old new h = ap (or_else (content e)) h
  again e false true old new h = h
  again e false false old new h = h

  -- The loop renews the files of its days that have a content, and leaves all others.
  pub find_file-write_days :
      (e : Date) (days : List Date) (files : Landing C)
      → find_file e (write_days content days files)
        ≡ (if mem_date e days then or_else (content e) (find_file e files) else find_file e files)
  unfolding write_days
  find_file-write_days e [] files = refl
  find_file-write_days e (d ∷ days) files =
      find_file-write_days e days _
      ∙ again e (mem_date e days) (date_eq d e) (find_file e files) _
          (renewed d e (find_file e files) _ (find_file-write_day (content d) d e files))

-- A new content for a day that has no file yet.
abbrev pub unless : {C : Type 0} → Bool → Option C → Option C
unless true new = none
unless false new = new

-- Where only days without a file get one, what was there stays.
pub kept :
    {C : Type 0} (old : Option C) (m : Bool) (new : Option C)
    → (if m then or_else (unless (elim old [ none ↦ false | some t ↦ true ]) new) old else old)
      ≡ or_else old (if m then new else none)
kept none true none = refl
kept none true (some c) = refl
kept none false new = refl
kept (some t) true new = refl
kept (some t) false new = refl
