-- ===== src/Backfill/Exits.antt =====
-- How the command of src/shiden/backfill.py ends, and what it has done by then.
use mathlib.Core.List.{append_assoc, append-nil}
use shiden_api.Base.{
  ◌<◌, ◌≡◌, ◌⊎◌, refl, sym, ap, ◌∙◌, Bool, length, true, false, List, [], ◌∷◌, ◌++◌, map, inl, inr,
  Bool-cases,
}
use shiden_api.Pipeline.{Step, StepOutcome, Action, step_of, Run, start_run, act, execute}
use shiden_api.Pipeline.Isolation.{act-performed}
use shiden_api.Backfill.Stages.{Args, Exit, exit_code, exception}
use shiden_api.Backfill.Calls.{Refused, Accepted, calls}

module _ {ℓ} {W : Type ℓ} (perform : Step → W → W × StepOutcome) where
  -- What is done is the plan, or an initial part of it that ends in a call that raised.
  pub data Executed (r : Run W) (todo : List Action) : Run W × Bool → Type ℓ where
    all_done :
        (r' : Run W) → r'.performed ≡ r.performed ++ map step_of todo → Executed r todo (r', true)
    cut_off :
        (r' : Run W) (done left : List Action)
        → todo ≡ done ++ left
        → r'.performed ≡ r.performed ++ map step_of done
        → Executed r todo (r', false)

  pub execute-Executed : (todo : List Action) (r : Run W) → Executed r todo (execute perform todo r)
  unfolding execute
  execute-Executed [] r = all_done r (sym (append-nil r.performed))
  execute-Executed (a ∷ todo) r = elim (Bool-cases (act perform a r).1) [
    | inl e ↦
        rw (e, execute)
          (extend (execute perform todo (act perform a r).0)
            (execute-Executed todo (act perform a r).0))
    | inr e ↦
        rw (e, execute) (cut_off (act perform a r).0 (a ∷ []) todo refl (act-performed perform a r))
  ]
    where
      longer :
          (p : List Step) (done : List Action)
          → p ≡ (act perform a r).0.performed ++ map step_of done
          → p ≡ r.performed ++ map step_of (a ∷ done)
      longer p done e =
          e
          ∙ ap (λ q. q ++ map step_of done) (act-performed perform a r)
          ∙ append_assoc r.performed (step_of a ∷ []) (map step_of done)

      extend :
          (out : Run W × Bool) → Executed (act perform a r).0 todo out → Executed r (a ∷ todo) out
      extend _ (all_done r' e) = all_done r' (longer r'.performed todo e)
      extend _ (cut_off r' done left split e) =
          cut_off r' (a ∷ done) left (ap (λ t. a ∷ t) split) (longer r'.performed done e)

  -- The ways in which the command ends.
  pub data Exited (a : Args) (w : W) : Run W × Exit → Type ℓ where
    refused : Refused a → Exited a w (start_run w, exit_code 2)
    only_printed : Accepted a → a.dry_run ≡ true → Exited a w (start_run w, exit_code 0)
    complete :
        (r : Run W)
        → Accepted a
        → r.performed ≡ calls a
        → r.gaps ≡ 0
        → r.errors ≡ []
        → Exited a w (r, exit_code 0)
    incomplete :
        (r : Run W)
        → Accepted a
        → r.performed ≡ calls a
        → (0 < r.gaps) ⊎ (0 < length r.errors)
        → Exited a w (r, exit_code 1)
    aborted :
        (r : Run W) (left : List Step)
        → Accepted a
        → calls a ≡ r.performed ++ left
        → Exited a w (r, exception)
