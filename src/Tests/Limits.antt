-- ===== src/Tests/Limits.antt =====
-- The rate limiter on concrete runs.
use shiden_api.Base.{ℕ, ◌≡◌, refl, [], ◌∷◌, List, true, false, arith, length, ◌*◌}
use shiden_api.RateLimit.{
  Limiter, new_limiter, window_seconds, second, expire, decide, check, verdict,
}
use shiden_api.RateLimit.HitMap.{get, put}
use shiden_api.RateLimit.Refines.{Event, IsChronological, run, spec_run, no_hits, limiter-refines}
use shiden_api.RateLimit.Safety.{IsWithin, admissions, limiter_bounds_burst}
use shiden_api.RateLimit.Retry.{IsConsistent, check_retry, check-IsConsistent}

abbrev call : ℕ → ℕ → ℕ → Event
call k limit now = record { key = k; limit = limit; now = now }

-- Key 1 has two requests a window of ten; the third comes too early, the fourth in time.
abbrev calls : List Event
calls = call 1 2 0 ∷ call 1 2 4 ∷ call 1 2 9 ∷ call 7 1 9 ∷ call 1 2 10 ∷ []

calls-run : run (new_limiter 10) calls ≡ true ∷ true ∷ false ∷ true ∷ true ∷ []
unfolding run check decide expire get put
calls-run = refl

calls-IsChronological : IsChronological 0 calls
calls-IsChronological =
    (omega arith, (omega arith, (omega arith, (omega arith, (omega arith, tt)))))

limiter-refines_example : run (new_limiter 10) calls ≡ spec_run 10 no_hits calls
limiter-refines_example = limiter-refines 10 calls (omega arith) calls-IsChronological

limiter_bounds_burst_example : IsWithin 10 2 (admissions 1 calls (run (new_limiter 10) calls))
limiter_bounds_burst_example =
    limiter_bounds_burst 10 2 1 calls (omega arith) calls-IsChronological
      (refl, (refl, (refl, (tt, (refl, tt)))))

-- The key has just used its one request of the minute.
abbrev full : Limiter
full = record { window = window_seconds; hits = (1, 0 ∷ []) ∷ [] }

check_retry_example : verdict (check (check full 1 1 second).0 1 1 (61 * second)).1 ≡ true
check_retry_example =
    check_retry full 1 1 second (61 * second) (omega arith) (unfold expire get in omega arith)
      (unfold check decide expire get in refl) (unfold check decide expire get in omega arith)

check-IsConsistent_example :
    IsConsistent 1 (length (get 1 (check full 1 1 second).0.hits)) (check full 1 1 second).1
check-IsConsistent_example = check-IsConsistent full 1 1 second
