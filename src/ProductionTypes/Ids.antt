-- ===== src/ProductionTypes/Ids.antt =====
-- The ids that `_build_rows` of src/shiden/processing/silver/dimensions/dim_production_type.py gives.
use shiden_api.Base.{
  ℕ, suc, not, ◌&&◌, ◌+◌, max, ◌≤◌, ◌≡◌, refl, ap, ◌∙◌, Bool, true, false, List, [], ◌∷◌, ◌++◌, map,
  Option, none, some, All, All-imp, keep, length, count_up, Option-cases, inl, inr, arith,
  if◌then◌else◌,
}
use shiden_api.Base.Text.{Text, mem_text}
use shiden_api.ProductionTypes.Names.{IsAscending, is_canonical, discovered_lem}
use shiden_api.ProductionTypes.{
  ProductionTypeRow, canonical, find_id, discovered, maximum, highest_id, assign_ids, build_rows,
}

abbrev pub is_none : Option ℕ → Bool
is_none none = true
is_none (some n) = false

-- A name has an id already.
abbrev pub is_new : List (Text × ℕ) → Text → Bool
is_new ids name = is_none (find_id name ids)

abbrev pub IdKept : Option ℕ → ℕ → Type 0
IdKept none id = Unit
IdKept (some old) id = id ≡ old

-- The ids of the rows whose name is new.
abbrev pub new_ids : List (Text × ℕ) → List ProductionTypeRow → List ℕ
new_ids ids [] = []
new_ids ids (r ∷ rows) =
    if is_new ids r.production_type_name
    then r.production_type_id ∷ new_ids ids rows
    else new_ids ids rows

assign_ids-names :
    (ids : List (Text × ℕ)) (next : ℕ) (names : List Text)
    → map (λ r. r.production_type_name) (assign_ids ids next names) ≡ names
unfolding assign_ids
assign_ids-names ids next [] = refl
assign_ids-names ids next (n ∷ names) = elim (Option-cases (find_id n ids)) [
  | inl e ↦ rw (e, assign_ids) (ap (λ l. n ∷ l) (assign_ids-names ids (next + 1) names))
  | inr (i, e) ↦ rw (e, assign_ids) (ap (λ l. n ∷ l) (assign_ids-names ids next names))
]

assign_ids-kept :
    (ids : List (Text × ℕ)) (next : ℕ) (names : List Text)
    → All
        (λ r. IdKept (find_id r.production_type_name ids) r.production_type_id)
        (assign_ids ids next names)
unfolding assign_ids
assign_ids-kept ids next [] = tt
assign_ids-kept ids next (n ∷ names) = elim (Option-cases (find_id n ids)) [
  | inl e ↦ rw (e, assign_ids) (rw e tt, assign_ids-kept ids (next + 1) names)
  | inr (i, e) ↦ rw (e, assign_ids) (rw e refl, assign_ids-kept ids next names)
]

new_ids-assign_ids :
    (ids : List (Text × ℕ)) (next : ℕ) (names : List Text)
    → new_ids ids (assign_ids ids next names) ≡ count_up next (length (keep (is_new ids) names))
unfolding assign_ids
new_ids-assign_ids ids next [] = refl
new_ids-assign_ids ids next (n ∷ names) = elim (Option-cases (find_id n ids)) [
  | inl e ↦
      rw (e, assign_ids)
        (rw e (
          ap (λ l. next ∷ l)
            (new_ids-assign_ids ids (next + 1) names
              ∙ ap (λ k. count_up k (length (keep (is_new ids) names))) (add_one next))))
  | inr (i, e) ↦ rw (e, assign_ids) (rw e (new_ids-assign_ids ids next names))
]
  where
    add_one : (n : ℕ) → n + 1 ≡ suc n
    add_one n = omega arith

maximum-bounds : (ns : List ℕ) → All (λ n. n ≤ maximum ns) ns
unfolding maximum
maximum-bounds [] = tt
maximum-bounds (n ∷ ns) = (
  omega arith,
  All-imp (λ m. m ≤ maximum ns) (λ m. m ≤ max n (maximum ns)) ns (λ m h. omega arith)
      (maximum-bounds ns),
)

-- The rows are the canonical ones and one for each discovered name. These are the names found
-- that are not canonical, each once, in strictly ascending order. A name with an id keeps it; the
-- new names get consecutive ids that start above every canonical id and every id given before.
pub build_rows-ids :
    (bronze_types : List Text) (ids : List (Text × ℕ)) (k : Text)
    → let top = highest_id ids in
      let found = assign_ids ids (top + 1) (discovered bronze_types) in
      (build_rows bronze_types ids ≡ canonical ++ found)
      × (map (λ r. r.production_type_name) found ≡ discovered bronze_types)
      × IsAscending (discovered bronze_types)
      × (mem_text k (discovered bronze_types) ≡ (mem_text k bronze_types && not (is_canonical k)))
      × All (λ r. IdKept (find_id r.production_type_name ids) r.production_type_id) found
      × (new_ids ids found
          ≡ count_up (top + 1) (length (keep (is_new ids) (discovered bronze_types))))
      × All (λ n. n ≤ top) (map (λ r. r.production_type_id) canonical)
      × All (λ n. n ≤ top) (map (λ e. e.1) ids)
unfolding build_rows
build_rows-ids bronze_types ids k =
    let top = highest_id ids in
    let fixed = map (λ r. r.production_type_id) canonical in
    let given = map (λ e. e.1) ids in
    (
      refl,
      assign_ids-names ids (top + 1) (discovered bronze_types),
      (discovered_lem k bronze_types).0,
      (discovered_lem k bronze_types).1,
      assign_ids-kept ids (top + 1) (discovered bronze_types),
      new_ids-assign_ids ids (top + 1) (discovered bronze_types),
      All-imp (λ n. n ≤ maximum fixed) (λ n. n ≤ max (maximum fixed) (maximum given)) fixed
          (λ n h. omega arith) (maximum-bounds fixed),
      All-imp (λ n. n ≤ maximum given) (λ n. n ≤ max (maximum fixed) (maximum given)) given
          (λ n h. omega arith) (maximum-bounds given),
    )
