-- ===== src/RateLimit.antt =====
-- The sliding-window rate limiter, src/shiden/api/auth/ratelimit.py. Times are microseconds of
-- `time.monotonic()`, a number instead of a float, so the rounding of float sums is outside the
-- model. The lock makes each call of `check` and `reset` one step; the clock is an argument.
pub mod HitMap
pub mod Window
pub mod Refines
pub mod Safety
pub mod Retry
use shiden_api.Base.{
  ℕ, zero, suc, ◌+◌, ◌-◌, ◌*◌, ◌/◌, max, Bool, true, false, List, [], ◌∷◌, ◌++◌, Option, none, some,
  ltb, leb, length, if◌then◌else◌,
}
use shiden_api.RateLimit.HitMap.{Hits, get, put, remove}

abbrev pub second : ℕ
second = 1000000

-- WINDOW_SECONDS
abbrev pub window_seconds : ℕ
window_seconds = 60 * second

pub record RateLimitResult : Type 0 where
  pub allowed : Bool
  pub limit : ℕ
  pub remaining : ℕ
  pub retry_after : ℕ

-- What a call of `check` does: it returns, or `hits[0]` of an empty deque raises IndexError.
pub data Outcome : Type 0 where
  returned : RateLimitResult → Outcome
  index_error : Outcome

-- `hits` maps a key's id to the times of its admitted requests, oldest first.
pub record Limiter : Type 0 where
  pub window : ℕ
  pub hits : Hits

-- `SlidingWindowLimiter(window_seconds)`
abbrev pub new_limiter : ℕ → Limiter
new_limiter w = record { window = w; hits = [] }

-- `while hits and hits[0] <= now - window: hits.popleft()`
unfoldable pub expire : ℕ → ℕ → List ℕ → List ℕ
expire w now [] = []
expire w now (h ∷ hs) = if leb (h + w) now then expire w now hs else h ∷ hs

-- The deque of a key after the loop, and what `check` makes of it.
unfoldable pub decide : ℕ → ℕ → ℕ → List ℕ → List ℕ × Outcome
decide w limit now [] = if leb limit 0 then ([], index_error) else (
  now ∷ [],
  returned (record { allowed = true; limit = limit; remaining = limit - 1; retry_after = 0 }),
)
decide w limit now (h ∷ hs) =
    if leb limit (length (h ∷ hs))
    then (
      h ∷ hs,
      returned (record {
        allowed = false;
        limit = limit;
        remaining = 0;
        retry_after = max 1 ((h + w - now) / second + 1);
      }),
    )
    else (
      h ∷ hs ++ now ∷ [],
      returned (record {
        allowed = true;
        limit = limit;
        remaining = limit - length (h ∷ hs ++ now ∷ []);
        retry_after = 0;
      }),
    )

unfoldable pub check : Limiter → ℕ → ℕ → ℕ → Limiter × Outcome
check l key_id limit now =
    let (deque, outcome) = decide l.window limit now (expire l.window now (get key_id l.hits)) in
    (record l { hits = put key_id deque l.hits }, outcome)

unfoldable pub reset : Limiter → Option ℕ → Limiter
reset l none = record l { hits = [] }
reset l (some key_id) = record l { hits = remove key_id l.hits }

abbrev pub verdict : Outcome → Bool
verdict (returned r) = r.allowed
verdict index_error = false
