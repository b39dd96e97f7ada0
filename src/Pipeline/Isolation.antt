-- ===== src/Pipeline/Isolation.antt =====
-- `_run_safe` of src/shiden/scheduler/jobs.py: what a failing step does to the rest of a job.
use mathlib.Core.List.{append_assoc, append-nil}
use shiden_api.Base.{
  ◌≡◌, refl, sym, ap, ◌∙◌, Bool, true, false, ◌&&◌, List, [], ◌∷◌, ◌++◌, map, All,
}
use shiden_api.Pipeline.{
  Step, new_spark, StepOutcome, finished, raised, Action, safely, plainly, step_of, Run, after_step,
  is_raised, run_safe, act, execute,
}

-- A call that cannot end the job: it is guarded, or it obtains the Spark session.
abbrev pub IsHarmless : Action → Type 0
IsHarmless (safely s) = Unit
IsHarmless (plainly s) = s ≡ new_spark

abbrev pub is_harmless : Action → Bool
is_harmless (safely s) = true
is_harmless (plainly new_spark) = true
is_harmless (plainly _) = false

abbrev pub all_harmless : List Action → Bool
all_harmless [] = true
all_harmless (a ∷ todo) = is_harmless a && all_harmless todo

is_harmless_sound : (a : Action) → is_harmless a ≡ true → IsHarmless a
is_harmless_sound (safely s) h = tt
is_harmless_sound (plainly new_spark) h = refl
is_harmless_sound (plainly _) h = cc

split_and : (a b : Bool) → (a && b) ≡ true → (a ≡ true) × (b ≡ true)
split_and true true h = (refl, refl)
split_and true false h = cc
split_and false b h = cc

pub all_harmless_sound : (todo : List Action) → all_harmless todo ≡ true → All IsHarmless todo
all_harmless_sound [] h = tt
all_harmless_sound (a ∷ todo) h =
    let (first, others) = split_and (is_harmless a) (all_harmless todo) h in
    (is_harmless_sound a first, all_harmless_sound todo others)

module _ {ℓ} {W : Type ℓ} (perform : Step → W → W × StepOutcome) where
  -- Spark starts.
  abbrev pub HasSpark : Type ℓ
  HasSpark = (w : W) → is_raised perform (perform new_spark w).1 ≡ false

  after_step-performed :
      (s : Step) (w : W) (o : StepOutcome) (r : Run W)
      → (after_step perform s w o r).performed ≡ r.performed ++ s ∷ []
  after_step-performed s w (finished n) r = refl
  after_step-performed s w raised r = refl

  pub act-performed :
      (a : Action) (r : Run W) → (act perform a r).0.performed ≡ r.performed ++ step_of a ∷ []
  unfolding run_safe
  act-performed (safely s) r = after_step-performed s _ _ r
  act-performed (plainly s) r = after_step-performed s _ _ r

  act-goes_on : (a : Action) (r : Run W) → HasSpark → IsHarmless a → (act perform a r).1 ≡ true
  act-goes_on (safely s) r spark h = refl
  act-goes_on (plainly s) r spark h = rw (h, spark r.world)

  -- If the only unguarded calls obtain the Spark session, and Spark starts, then the job ends
  -- without an exception and makes every call in order, whichever of the guarded ones raise.
  pub execute-performed :
      (todo : List Action) (r : Run W)
      → HasSpark
      → All IsHarmless todo
      → ((execute perform todo r).1 ≡ true)
        × ((execute perform todo r).0.performed ≡ r.performed ++ map step_of todo)
  unfolding execute
  execute-performed [] r spark h = (refl, sym (append-nil r.performed))
  execute-performed (a ∷ todo) r spark h =
      let (ends, all) = execute-performed todo (act perform a r).0 spark h.1 in
      rw (act-goes_on a r spark h.0, execute)
        (
          ends,
          all
              ∙ ap (λ p. p ++ map step_of todo) (act-performed a r)
              ∙ append_assoc r.performed (step_of a ∷ []) (map step_of todo),
        )
