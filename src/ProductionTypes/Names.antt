-- ===== src/ProductionTypes/Names.antt =====
-- The discovered names of src/shiden/processing/silver/dimensions/dim_production_type.py: which
-- they are and in which order.
use shiden_api.Base.{
  ◌≡◌, refl, ap, ◌∙◌, Bool, true, false, not, ◌&&◌, ◌||◌, List, [], ◌∷◌, map, All, All-imp, keep,
  Bool-cases, inl, inr, arith,
}
use shiden_api.Base.Text.{Text, text_eq, text_eq_sound, text_leb, mem_text}
use shiden_api.ProductionTypes.{canonical, insert_name, sort_names, discovered}

-- `s` comes strictly before `t`.
abbrev pub IsBefore : Text → Text → Type 0
IsBefore s t = text_leb t s ≡ false

IsBefore-trans : (a b c : Text) → IsBefore a b → IsBefore b c → IsBefore a c
IsBefore-trans a [] c p q = cc
IsBefore-trans a (y ∷ b) [] p q = cc
IsBefore-trans [] (y ∷ b) (z ∷ c) p q = refl
IsBefore-trans (x ∷ a) (y ∷ b) (z ∷ c) p q = ground (arith, p, q, IsBefore-trans a b c)

leb-IsBefore : (s t : Text) → text_leb s t ≡ true → text_eq s t ≡ false → IsBefore s t
leb-IsBefore [] [] p q = cc
leb-IsBefore [] (y ∷ t) p q = refl
leb-IsBefore (x ∷ s) [] p q = cc
leb-IsBefore (x ∷ s) (y ∷ t) p q = ground (arith, p, q, leb-IsBefore s t)

-- Each name comes strictly before all later ones.
abbrev pub IsAscending : List Text → Type 0
IsAscending [] = Unit
IsAscending (n ∷ ns) = All (IsBefore n) ns × IsAscending ns

All-insert_name :
    (P : Text → Type 0) (n : Text) (ns : List Text) → P n → All P ns → All P (insert_name n ns)
unfolding insert_name
All-insert_name P n [] p h = (p, tt)
All-insert_name P n (m ∷ ms) p h = elim (Bool-cases (text_eq n m)) [
  | inl e ↦ rw e h
  | inr d ↦ elim (Bool-cases (text_leb n m)) [
    | inl e ↦ rw (d, e) (p, h)
    | inr f ↦ rw (d, f) (h.0, All-insert_name P n ms p h.1)
  ]
]

insert_name-IsAscending :
    (n : Text) (ns : List Text) → IsAscending ns → IsAscending (insert_name n ns)
unfolding insert_name
insert_name-IsAscending n [] h = (tt, tt)
insert_name-IsAscending n (m ∷ ms) h = elim (Bool-cases (text_eq n m)) [
  | inl e ↦ rw e h
  | inr d ↦ elim (Bool-cases (text_leb n m)) [
    | inl e ↦
        let before = leb-IsBefore n m e d in
        rw (d, e)
          (
            (
              before,
              All-imp (IsBefore m) (IsBefore n) ms (λ k q. IsBefore-trans n m k before q) h.0,
            ),
            h,
          )
    | inr f ↦ rw (d, f) (All-insert_name (IsBefore m) n ms f h.0, insert_name-IsAscending n ms h.1)
  ]
]

sort_names-IsAscending : (ns : List Text) → IsAscending (sort_names ns)
unfolding sort_names
sort_names-IsAscending [] = tt
sort_names-IsAscending (n ∷ ns) =
    insert_name-IsAscending n (sort_names ns) (sort_names-IsAscending ns)

mem_text-insert_name :
    (k n : Text) (ns : List Text) → mem_text k (insert_name n ns) ≡ (text_eq k n || mem_text k ns)
unfolding insert_name
mem_text-insert_name k n [] = refl
mem_text-insert_name k n (m ∷ ms) = elim (Bool-cases (text_eq n m)) [
  | inl e ↦ rw e (twice (text_eq k n) (text_eq k m) (ap (text_eq k) (text_eq_sound n m e)))
  | inr d ↦ elim (Bool-cases (text_leb n m)) [
    | inl e ↦ rw (d, e) refl
    | inr f ↦
        rw (d, f)
          (ap (λ b. text_eq k m || b) (mem_text-insert_name k n ms)
            ∙ swap (text_eq k m) (text_eq k n))
  ]
]
  where
    twice : (b c : Bool) → b ≡ c → (c || mem_text k ms) ≡ (b || (c || mem_text k ms))
    twice true true e = refl
    twice true false e = cc
    twice false c e = refl

    swap : (b c : Bool) → (b || (c || mem_text k ms)) ≡ (c || (b || mem_text k ms))
    swap true true = refl
    swap true false = refl
    swap false c = refl

mem_text-sort_names : (k : Text) (ns : List Text) → mem_text k (sort_names ns) ≡ mem_text k ns
unfolding sort_names
mem_text-sort_names k [] = refl
mem_text-sort_names k (n ∷ ns) =
    mem_text-insert_name k n (sort_names ns) ∙ ap (λ b. text_eq k n || b) (mem_text-sort_names k ns)

mem_text-keep :
    (p : Text → Bool) (k : Text) (ns : List Text) → mem_text k (keep p ns) ≡ (mem_text k ns && p k)
mem_text-keep p k [] = refl
mem_text-keep p k (n ∷ ns) = elim (Bool-cases (p n)) [
  | inl y ↦ rw y (
      taken (text_eq k n) (p k) (mem_text k ns) _ (λ e. ap p (text_eq_sound k n e) ∙ y)
        (mem_text-keep p k ns))
  | inr f ↦ rw f (
      left_out (text_eq k n) (p k) (mem_text k ns) _ (λ e. ap p (text_eq_sound k n e) ∙ f)
        (mem_text-keep p k ns))
]
  where
    taken : (b c m x : Bool) → (b ≡ true → c ≡ true) → x ≡ (m && c) → (b || x) ≡ ((b || m) && c)
    taken true true m x h e = refl
    taken true false m x h e = cc (h refl)
    taken false c m x h e = e

    left_out : (b c m x : Bool) → (b ≡ true → c ≡ false) → x ≡ (m && c) → x ≡ ((b || m) && c)
    left_out true true m x h e = cc (h refl)
    left_out true false true x h e = e
    left_out true false false x h e = e
    left_out false c m x h e = e

abbrev pub is_canonical : Text → Bool
is_canonical n = mem_text n (map (λ r. r.production_type_name) canonical)

-- The names are in strictly ascending order, and are those found that are not canonical.
pub discovered_lem :
    (k : Text) (bronze_types : List Text)
    → IsAscending (discovered bronze_types)
      × (mem_text k (discovered bronze_types) ≡ (mem_text k bronze_types && not (is_canonical k)))
unfolding discovered
discovered_lem k bronze_types = (
  sort_names-IsAscending _,
  mem_text-sort_names k _ ∙ mem_text-keep (λ n. not (is_canonical n)) k bronze_types,
)
