-- ===== src/Fx/Pairs.antt =====
-- `_required_pairs` of src/shiden/processing/silver/exchange_rates.py.
use shiden_api.Base.{
  ◌≡◌, refl, ◌∙◌, Bool, true, not, ◌&&◌, ◌||◌, List, [], ◌∷◌, ◌++◌, All, Bool-cases, inl, inr,
  if◌then◌else◌, arith,
}
use shiden_api.Base.Text.{Text, text_eq_refl}
use shiden_api.Markets.{MarketConfig}
use shiden_api.Fx.{pair_of, pair_eq, mem_pair, pairs_loop, required_pairs}

abbrev pub no_repeats : List (Text × Text) → Bool
no_repeats [] = true
no_repeats (p ∷ ps) = not (mem_pair p ps) && no_repeats ps

mem_pair-append :
    (p : Text × Text) (ps qs : List (Text × Text))
    → mem_pair p (ps ++ qs) ≡ (mem_pair p ps || mem_pair p qs)
mem_pair-append p [] qs = refl
mem_pair-append p (q ∷ ps) qs = ground (arith, mem_pair-append p ps qs)

pair_eq_refl : (p : Text × Text) → pair_eq p p ≡ true
pair_eq_refl (a, b) = ground (arith, text_eq_refl a, text_eq_refl b)

-- A pair once in the result stays.
mem_pair-pairs_loop :
    (p : Text × Text) (cfgs : List MarketConfig) (ps : List (Text × Text))
    → mem_pair p ps ≡ true
    → mem_pair p (pairs_loop cfgs ps) ≡ true
unfolding pairs_loop
mem_pair-pairs_loop p [] ps h = h
mem_pair-pairs_loop p (cfg ∷ cfgs) ps h = elim (Bool-cases (mem_pair (pair_of cfg) ps)) [
  | inl y ↦ rw y (mem_pair-pairs_loop p cfgs ps h)
  | inr n ↦ rw n (
      mem_pair-pairs_loop p cfgs (ps ++ pair_of cfg ∷ [])
        (mem_pair-append p ps (pair_of cfg ∷ []) ∙ rw h))
]

own_pair :
    (p : Text × Text) (ps : List (Text × Text))
    → mem_pair p (if mem_pair p ps then ps else ps ++ p ∷ []) ≡ true
own_pair p ps = elim (Bool-cases (mem_pair p ps)) [
  | inl y ↦ rw y y
  | inr n ↦ rw n (mem_pair-append p ps (p ∷ []) ∙ rw (n, pair_eq_refl p))
]

pairs_loop-has :
    (cfgs : List MarketConfig) (ps : List (Text × Text))
    → All (λ cfg. mem_pair (pair_of cfg) (pairs_loop cfgs ps) ≡ true) cfgs
unfolding pairs_loop
pairs_loop-has [] ps = tt
pairs_loop-has (cfg ∷ cfgs) ps =
    let next = if mem_pair (pair_of cfg) ps then ps else ps ++ pair_of cfg ∷ [] in
    (
      mem_pair-pairs_loop (pair_of cfg) cfgs next (own_pair (pair_of cfg) ps),
      pairs_loop-has cfgs next,
    )

-- For every configuration of a market, its pair (the currency with its source, or with SYNTHETIC
-- if it is the reporting currency) is among the required pairs.
pub required_pairs-has :
    (cfgs : List MarketConfig)
    → All (λ cfg. mem_pair (pair_of cfg) (required_pairs cfgs) ≡ true) cfgs
unfolding required_pairs
required_pairs-has cfgs = pairs_loop-has cfgs []
