-- ===== src/Ingest/Retries.antt =====
-- How often the retrying loop asks and how long it waits: `get_text_with_retry` of
-- src/shiden/ingestion/http.py.
use shiden_api.Base.{
  ℕ, zero, suc, ◌+◌, ◌*◌, ◌-◌, ◌<◌, ◌≡◌, refl, ap, subst, ◌∙◌, Bool, true, false, List, [], ◌∷◌,
  Option, none, some, All, count_up, Option-cases, inl, inr, arith, ltb, if◌then◌else◌,
}
use shiden_api.Ingest.{Response, runtime_error, settled, retry_loop, get_text_with_retry}

-- `k` delays, each twice the one before.
abbrev pub delays : ℕ → ℕ → List ℕ
delays zero d = []
delays (suc k) d = d ∷ delays k (d * 2)

module _ {E : Type 0} (ended : ℕ → Option E) (last : E) (max_retries : ℕ) where
  -- The `k` attempts from number `a` on leave the matter open.
  abbrev pub AllOpen : ℕ → ℕ → Type 0
  AllOpen a k = All (λ n. ended n ≡ none) (count_up a k)

  -- The ways from attempt `a` on with `left` attempts and the next delay `d`.
  pub data Retried (a left d : ℕ) : List ℕ × E → Type 0 where
    answered :
        (k : ℕ) (f : E)
        → k < left
        → AllOpen a k
        → ended (a + k) ≡ some f
        → Retried a left d (delays k d, f)
    exhausted : AllOpen a left → Retried a left d (delays (left - 1) d, last)

  suc-minus : (n : ℕ) → suc n - 1 ≡ n
  suc-minus n = omega arith

  all_open : (a left d : ℕ) → AllOpen a (suc left) → Retried a (suc left) d (delays left d, last)
  all_open a left d all =
      subst (λ n. Retried a (suc left) d (delays n d, last)) (suc-minus left) (exhausted all)

  one_more :
      (a left d : ℕ) (out : List ℕ × E)
      → ended a ≡ none
      → Retried (suc a) (suc left) (d * 2) out
      → Retried a (suc (suc left)) d (d ∷ out.0, out.1)
  one_more a left d _ goes_on (answered k f lt all at) =
      answered (suc k) f (omega arith) (goes_on, all) (ap ended (shift a k) ∙ at)
    where
      shift : (a k : ℕ) → a + suc k ≡ suc a + k
      shift a k = omega arith
  one_more a left d _ goes_on (exhausted all) =
      rw (suc-minus left) (all_open a (suc left) d (goes_on, all))

  at_once : (a left d : ℕ) (f : E) → ended a ≡ some f → Retried a (suc left) d ([], f)
  at_once a left d f e = answered 0 f (omega arith) tt (ap ended (no_more a) ∙ e)
    where
      no_more : (a : ℕ) → a + 0 ≡ a
      no_more a = omega arith

  last_attempt : (a : ℕ) → a + 1 ≡ max_retries → ltb a (max_retries - 1) ≡ false
  last_attempt a e = ground arith

  not_last : (a left : ℕ) → a + suc (suc left) ≡ max_retries → ltb a (max_retries - 1) ≡ true
  not_last a left e = ground arith

  pub retry_loop-Retried :
      (left a d : ℕ)
      → a + left ≡ max_retries
      → Retried a left d (retry_loop ended last max_retries left a d)
  unfolding retry_loop
  retry_loop-Retried zero a d e = exhausted tt
  retry_loop-Retried (suc zero) a d e = elim (Option-cases (ended a)) [
    | inl n ↦ rw (n, last_attempt a e, retry_loop) (all_open a 0 d (n, tt))
    | inr (f, s) ↦ rw (s, retry_loop) (at_once a 0 d f s)
  ]
  retry_loop-Retried (suc (suc left)) a d e =
      step (ended a) (ltb a (max_retries - 1)) refl (not_last a left e) (
        retry_loop-Retried (suc left) (suc a) (if ltb a (max_retries - 1) then d * 2 else d)
          (omega arith))
    where
      step :
          {rest : List ℕ × E} (o : Option E) (w : Bool)
          → ended a ≡ o
          → w ≡ true
          → Retried (suc a) (suc left) (if w then d * 2 else d) rest
          → Retried a
              (suc (suc left))
              d
              (elim o [ some end ↦ ([], end) | none ↦ if w then (d ∷ rest.0, rest.1) else rest ])
      step (some f) w s t r = at_once a (suc left) d f s
      step {rest} none true n t r = one_more a left d rest n r
      step none false n t r = cc

-- `get_text_with_retry` ends with the first attempt that settles the matter, after one delay
-- for each attempt before it, starting at 1 second and doubling; or, if none of the attempts
-- allowed does, with RuntimeError, and no delay after the last.
pub get_text_with_retry-Retried :
    (respond : ℕ → Response) (max_retries : ℕ)
    → Retried
        (λ n. settled (respond n))
        runtime_error
        max_retries
        0
        max_retries
        1
        (get_text_with_retry respond max_retries)
unfolding get_text_with_retry
get_text_with_retry-Retried respond max_retries =
    retry_loop-Retried (λ n. settled (respond n)) runtime_error max_retries max_retries 0 1
      (omega arith)
