-- ===== src/Fx/Filled.antt =====
-- `reconcile_and_fill` of src/shiden/processing/silver/exchange_rates.py against its contract: the
-- rate of a day is the first that a table has, looking back from that day.
use shiden_api.Base.{◌≡◌, refl, ap, ap₂, ◌∙◌, List, [], ◌∷◌, Option, none, some, Bool, keep}
use shiden_api.Base.Text.{Text}
use shiden_api.Calendar.{Date, date_range, date_leb}
use shiden_api.Fx.{rate_on, forward_filled, choose, emit, walk, walk_from, reconcile_and_fill}

module _ {F : Type 0} (primary secondary : List (Date × F))
    (primary_source secondary_source : Text) where
  -- The rate that a table publishes for a day, the primary before the secondary.
  abbrev pub publish : Option F → Option F → Option (F × Text)
  publish (some rate) other = some (rate, primary_source)
  publish none (some rate) = some (rate, secondary_source)
  publish none none = none

  abbrev pub published : Date → Option (F × Text)
  published d = publish (rate_on d primary) (rate_on d secondary)

  abbrev pub or_before : Option (F × Text) → Option F → Option F
  or_before (some (rate, source)) before = some rate
  or_before none before = before

  -- The latest published rate among days given backwards.
  abbrev pub latest : List Date → Option F
  latest [] = none
  latest (d ∷ earlier) = or_before (published d) (latest earlier)

  abbrev pub or_filled : Option (F × Text) → Option F → Option (F × Text)
  or_filled (some r) before = some r
  or_filled none (some rate) = some (rate, forward_filled)
  or_filled none none = none

  -- The rate of a day by the contract, `earlier` being the days walked before it, backwards.
  abbrev pub effective : Date → List Date → Option (F × Text)
  effective d earlier = or_filled (published d) (latest earlier)

  abbrev listed : Date → Option (F × Text) → List (Date × F × Text) → List (Date × F × Text)
  listed d none rest = rest
  listed d (some (rate, source)) rest = (d, rate, source) ∷ rest

  -- The contract: each day walked on its own, from the days before it.
  unfoldable pub rates_of : List Date → List Date → List (Date × F × Text)
  rates_of earlier [] = []
  rates_of earlier (d ∷ days) = listed d (effective d earlier) (rates_of (d ∷ earlier) days)

  -- The day of a rate is `start` or later.
  abbrev pub is_from : Date → Date × F × Text → Bool
  is_from start r = date_leb start r.0

  emit-keep :
      (start d : Date) (o : Option (F × Text)) (rest : List (Date × F × Text))
      → emit primary secondary primary_source secondary_source start d o (keep (is_from start) rest)
        ≡ keep (is_from start) (listed d o rest)
  emit-keep start d none rest = refl
  emit-keep start d (some (rate, source)) rest = refl

  choose-publish :
      (p s l : Option F)
      → choose primary secondary primary_source secondary_source p s l
        ≡ (or_filled (publish p s) l, or_before (publish p s) l)
  choose-publish (some rate) s l = refl
  choose-publish none (some rate) l = refl
  choose-publish none none (some rate) = refl
  choose-publish none none none = refl

  walk-rates_of :
      (start : Date) (earlier days : List Date)
      → walk primary secondary primary_source secondary_source start (latest earlier) days
        ≡ keep (is_from start) (rates_of earlier days)
  unfolding walk rates_of
  walk-rates_of start earlier [] = refl
  walk-rates_of start earlier (d ∷ days) =
      let picked = choose-publish (rate_on d primary) (rate_on d secondary) (latest earlier) in
      ap₂ (emit primary secondary primary_source secondary_source start d) (ap (λ x. x.0) picked) (
        ap (λ l. walk primary secondary primary_source secondary_source start l days)
          (ap (λ x. x.1) picked)
        ∙ walk-rates_of start (d ∷ earlier) days)
      ∙ emit-keep start d (effective d earlier) (rates_of (d ∷ earlier) days)

  -- Over the days walked, from `fill_start` or `start` to `end`, each day has the rate that the
  -- primary table has for it, else the secondary's, else the latest that either has for an earlier
  -- day walked, marked as filled; and none before the first published rate. `reconcile_and_fill`
  -- gives exactly those rates, in order, whose day is `start` or later.
  pub reconcile_and_fill-rates_of :
      (start end : Date) (fill_start : Option Date)
      → reconcile_and_fill start end primary primary_source secondary secondary_source fill_start
        ≡ keep (is_from start) (rates_of [] (date_range (walk_from start fill_start) end))
  unfolding reconcile_and_fill
  reconcile_and_fill-rates_of start end fill_start =
      walk-rates_of start [] (date_range (walk_from start fill_start) end)
