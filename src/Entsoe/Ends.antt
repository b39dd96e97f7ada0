-- ===== src/Entsoe/Ends.antt =====
-- How `_call_with_retry` of src/shiden/ingestion/entsoe.py ends.
use shiden_api.Base.{ℕ, ◌≡◌, refl, sym, subst, List, [], ◌∷◌, Option, none, some}
use shiden_api.Ingest.{retry_loop}
use shiden_api.Entsoe.Fetch.{
  Stamp, Answer, frame, series, no_matching_data, raised, Called, returned, empty_frame,
  runtime_error, ended, call_with_retry, Frame,
}

-- How an answer settles a call: NoMatchingDataError gives an empty frame, a result is returned.
pub data Settles {F : Type 0} : Answer F → Called F → Type 0 where
  no_data : Settles no_matching_data empty_frame
  a_frame : (df : Frame F) → Settles (frame df) (returned (frame df))
  a_series : (s : List (Stamp × Option F)) → Settles (series s) (returned (series s))

-- The ways in which a call ends, with its waits; `a`, `b` and `c` are the three answers.
pub data Ends {F : Type 0} (a b c : Answer F) : List ℕ × Called F → Type 0 where
  at_once : (out : Called F) → Settles a out → Ends a b c ([], out)
  second : (out : Called F) → a ≡ raised → Settles b out → Ends a b c (5 ∷ [], out)
  third : (out : Called F) → a ≡ raised → b ≡ raised → Settles c out → Ends a b c (5 ∷ 10 ∷ [], out)
  gave_up : a ≡ raised → b ≡ raised → c ≡ raised → Ends a b c (5 ∷ 10 ∷ [], runtime_error)

module _ {F : Type 0} where
  abbrev attempt : Answer F → List ℕ × Called F → List ℕ × Called F
  attempt a later = elim (ended a) [ some end ↦ ([], end) | none ↦ later ]

  abbrev waiting : ℕ → List ℕ × Called F → List ℕ × Called F
  waiting delay (waits, out) = (delay ∷ waits, out)

  abbrev attempts : Answer F → Answer F → Answer F → List ℕ × Called F
  attempts a b c = attempt a (waiting 5 (attempt b (waiting 10 (attempt c ([], runtime_error)))))

  attempts-Ends : (a b c : Answer F) → Ends a b c (attempts a b c)
  attempts-Ends no_matching_data b c = at_once empty_frame no_data
  attempts-Ends (frame df) b c = at_once _ (a_frame df)
  attempts-Ends (series s) b c = at_once _ (a_series s)
  attempts-Ends raised no_matching_data c = second empty_frame refl no_data
  attempts-Ends raised (frame df) c = second _ refl (a_frame df)
  attempts-Ends raised (series s) c = second _ refl (a_series s)
  attempts-Ends raised raised no_matching_data = third empty_frame refl refl no_data
  attempts-Ends raised raised (frame df) = third _ refl refl (a_frame df)
  attempts-Ends raised raised (series s) = third _ refl refl (a_series s)
  attempts-Ends raised raised raised = gave_up refl refl refl

  call_with_retry-attempts :
      (fn : ℕ → Answer F) → call_with_retry fn ≡ attempts (fn 0) (fn 1) (fn 2)
  unfolding call_with_retry retry_loop
  call_with_retry-attempts fn = refl

  -- `_call_with_retry` asks at most three times. It ends at the first answer that is
  -- NoMatchingDataError, with an empty frame, or a result, which it returns, after waits of 5
  -- and 10 seconds between the attempts; if all three raise another exception, it ends with
  -- RuntimeError.
  pub call_with_retry-Ends : (fn : ℕ → Answer F) → Ends (fn 0) (fn 1) (fn 2) (call_with_retry fn)
  call_with_retry-Ends fn =
      subst (Ends (fn 0) (fn 1) (fn 2)) (sym (call_with_retry-attempts fn))
        (attempts-Ends (fn 0) (fn 1) (fn 2))
