-- ===== src/ProductionTypes.antt =====
-- Production types, src/shiden/processing/silver/dimensions/dim_production_type.py: the rows of the
-- dimension and the ids of names that are discovered later. The names found in Bronze and the ids
-- given before are arguments; a set of names is a list, of which neither the order nor repetitions count.
pub mod Ids
pub mod Names
use shiden_api.Base.{
  ℕ, ◌+◌, max, Bool, true, false, not, List, [], ◌∷◌, ◌++◌, map, Option, none, some, keep,
  if◌then◌else◌,
}
use shiden_api.Base.Text.{Text, codes, text_eq, text_leb, mem_text}

pub record ProductionTypeRow : Type 0 where
  pub production_type_id : ℕ
  pub production_type_name : Text
  pub energy_category : Text
  pub is_renewable : Bool
  pub is_variable : Bool
  pub is_dispatchable : Bool

abbrev pub production_type : ℕ → Text → Text → Bool → Bool → Bool → ProductionTypeRow
production_type id name category renewable variable dispatchable = record {
  production_type_id = id;
  production_type_name = name;
  energy_category = category;
  is_renewable = renewable;
  is_variable = variable;
  is_dispatchable = dispatchable;
}

-- _CANONICAL
unfoldable pub canonical : List ProductionTypeRow
canonical =
    production_type 1 (codes "Biomass") (codes "Renewable") true false true
    ∷ production_type 2 (codes "Fossil Brown coal/Lignite") (codes "Thermal") false false true
    ∷ production_type 3 (codes "Fossil Coal-derived gas") (codes "Thermal") false false true
    ∷ production_type 4 (codes "Fossil Gas") (codes "Thermal") false false true
    ∷ production_type 5 (codes "Fossil Hard coal") (codes "Thermal") false false true
    ∷ production_type 6 (codes "Fossil Oil") (codes "Thermal") false false true
    ∷ production_type 7 (codes "Fossil Oil shale") (codes "Thermal") false false true
    ∷ production_type 8 (codes "Fossil Peat") (codes "Thermal") false false true
    ∷ production_type 9 (codes "Geothermal") (codes "Renewable") true false false
    ∷ production_type 10 (codes "Hydro Pumped Storage|Actual Aggregated") (codes "Storage") false
        false true
    ∷ production_type 11 (codes "Hydro Pumped Storage|Actual Consumption") (codes "Storage") false
        false true
    ∷ production_type 12 (codes "Hydro Run-of-river and poundage") (codes "Renewable") true false
        false
    ∷ production_type 13 (codes "Hydro Water Reservoir") (codes "Renewable") true false true
    ∷ production_type 14 (codes "Marine") (codes "Renewable") true true false
    ∷ production_type 15 (codes "Nuclear") (codes "Nuclear") false false true
    ∷ production_type 16 (codes "Other") (codes "Other") false false false
    ∷ production_type 17 (codes "Other renewable") (codes "Renewable") true false false
    ∷ production_type 18 (codes "Solar") (codes "Renewable") true true false
    ∷ production_type 19 (codes "Waste") (codes "Thermal") false false true
    ∷ production_type 20 (codes "Wind Offshore") (codes "Renewable") true true false
    ∷ production_type 21 (codes "Wind Onshore") (codes "Renewable") true true false
    ∷ []

unfoldable pub find_id : Text → List (Text × ℕ) → Option ℕ
find_id name [] = none
find_id name ((n, id) ∷ ids) = if text_eq n name then some id else find_id name ids

-- Sorting, each name once.
unfoldable pub insert_name : Text → List Text → List Text
insert_name n [] = n ∷ []
insert_name n (m ∷ ms) =
    let rest = insert_name n ms in
    if text_eq n m then m ∷ ms else if text_leb n m then n ∷ m ∷ ms else m ∷ rest

unfoldable pub sort_names : List Text → List Text
sort_names [] = []
sort_names (n ∷ ns) = insert_name n (sort_names ns)

-- `sorted(bronze_types - set(_CANONICAL))`
unfoldable pub discovered : List Text → List Text
discovered bronze_types =
    sort_names
      (keep (λ n. not (mem_text n (map (λ r. r.production_type_name) canonical))) bronze_types)

unfoldable pub maximum : List ℕ → ℕ
maximum [] = 0
maximum (n ∷ ns) = max n (maximum ns)

-- The largest of `used_ids`.
abbrev pub highest_id : List (Text × ℕ) → ℕ
highest_id existing_ids =
    max (maximum (map (λ r. r.production_type_id) canonical))
      (maximum (map (λ e. e.1) existing_ids))

-- The loop over the names, with the variable `next_id`.
unfoldable pub assign_ids : List (Text × ℕ) → ℕ → List Text → List ProductionTypeRow
assign_ids existing_ids next_id [] = []
assign_ids existing_ids next_id (name ∷ names) = elim (find_id name existing_ids) [
  | some id ↦
      production_type id name (codes "Other") false false false
      ∷ assign_ids existing_ids next_id names
  | none ↦
      production_type next_id name (codes "Other") false false false
      ∷ assign_ids existing_ids (next_id + 1) names
]

unfoldable pub build_rows : List Text → List (Text × ℕ) → List ProductionTypeRow
build_rows bronze_types existing_ids =
    canonical ++ assign_ids existing_ids (highest_id existing_ids + 1) (discovered bronze_types)
