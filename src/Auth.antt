-- ===== src/Auth.antt =====
-- Authentication, entitlement and metering: src/shiden/api/auth/dependencies.py and
-- src/shiden/api/middleware.py, over the key store and the rate limiter. A request's `state`
-- is part of the world that a call changes. The two clocks are arguments: `monotonic` is the
-- limiter's, `now` the time stamp that the store writes.
pub mod Access
pub mod Metering
pub mod Outcomes
use shiden_api.Base.{
  ℕ, zero, suc, Bool, true, false, not, ◌&&◌, ◌||◌, List, [], ◌∷◌, Option, none, some, ◌==◌,
  if◌then◌else◌,
}
use shiden_api.Base.Text.{Text, codes, mem_text}
use shiden_api.Keys.{is_empty}
use shiden_api.RateLimit.{Limiter, RateLimitResult, Outcome, returned, index_error, check}
use shiden_api.Store.{
  ApiKeyRecord, KeyStore, UsageEvent, all_markets, is_active, lookup, touch, record_usage,
}

pub record AuthenticatedKey : Type 0 where
  pub id : ℕ
  pub name : Text
  pub display : Text
  pub environment : Text
  pub markets : List Text
  pub rate_limit_per_min : ℕ

abbrev pub from_record : ApiKeyRecord → AuthenticatedKey
from_record r = record {
  id = r.id;
  name = r.name;
  display = r.display;
  environment = r.environment;
  markets = r.markets;
  rate_limit_per_min = r.rate_limit_per_min;
}

abbrev pub anonymous : AuthenticatedKey
anonymous = record {
  id = 0;
  name = codes "auth-disabled";
  display = codes "-";
  environment = codes "local";
  markets = all_markets ∷ [];
  rate_limit_per_min = 0;
}

-- What the program keeps in `request.state`.
pub record RequestState : Type 0 where
  pub api_key : Option AuthenticatedKey
  pub rate_limit_limit : Option ℕ
  pub rate_limit_remaining : Option ℕ
  pub market_id : Option Text
  pub response_rows : Option ℕ

abbrev pub fresh_state : RequestState
fresh_state = record {
  api_key = none;
  rate_limit_limit = none;
  rate_limit_remaining = none;
  market_id = none;
  response_rows = none;
}

pub record World : Type 0 where
  pub store : KeyStore
  pub limiter : Limiter
  pub state : RequestState

-- A dependency grants an identity, or raises HTTPException with a status, or lets the
-- limiter's IndexError through.
pub data Reply : Type 0 where
  granted : AuthenticatedKey → Reply
  http_error : ℕ → Reply
  crashed : Reply

-- The settings and the moment of one request.
pub record Moment : Type 0 where
  pub auth_enabled : Bool
  pub monotonic : ℕ
  pub now : Text
  pub touch_fails : Bool

abbrev pub set_identity : World → AuthenticatedKey → World
set_identity w key = record w { state = record (w.state) { api_key = some key } }

abbrev pub set_rate : World → ℕ → ℕ → World
set_rate w limit remaining = record w {
  state = record (w.state) { rate_limit_limit = some limit; rate_limit_remaining = some remaining };
}

-- From the limiter's verdict to the end of `require_api_key`.
abbrev pub after_check : Moment → ApiKeyRecord → World → Outcome → World × Reply
after_check m r w index_error = (w, crashed)
after_check m r w (returned v) = if not v.allowed then (set_rate w v.limit 0, http_error 429) else (
  record (set_rate w v.limit v.remaining) { store = touch w.store r.id m.now m.touch_fails },
  granted (from_record r),
)

-- From the record that was found.
unfoldable pub authenticate : Moment → ApiKeyRecord → World → World × Reply
authenticate m r w =
    let (limiter, outcome) = check w.limiter r.id r.rate_limit_per_min m.monotonic in
    if not (is_active r)
    then (w, http_error 401)
    else after_check m r (record (set_identity w (from_record r)) { limiter = limiter }) outcome

module _ (sha256 : Text → Text) where
  -- From a header that is there and not empty.
  abbrev pub present : Moment → World → Text → World × Reply
  present m w secret =
      if is_empty secret then (w, http_error 401) else elim (lookup sha256 w.store secret) [
        | none ↦ (w, http_error 401)
        | some r ↦ authenticate m r w
      ]

  unfoldable pub require_api_key : Moment → Option Text → World → World × Reply
  require_api_key m presented w =
      if not m.auth_enabled
      then (set_identity w anonymous, granted anonymous)
      else elim presented [ none ↦ (w, http_error 401) | some secret ↦ present m w secret ]

-- The test of `require_market_access`.
abbrev pub is_entitled : AuthenticatedKey → Text → Bool
is_entitled key market_id = mem_text all_markets key.markets || mem_text market_id key.markets

abbrev pub set_market : World → Text → World
set_market w market_id = record w { state = record (w.state) { market_id = some market_id } }

-- The body of `require_market_access`, which runs only if its dependency has granted a key.
abbrev pub check_market : Text → World × Reply → World × Reply
check_market market_id (w, granted key) =
    if is_entitled key market_id
    then (set_market w market_id, granted key)
    else (set_market w market_id, http_error 403)
check_market market_id (w, http_error status) = (w, http_error status)
check_market market_id (w, crashed) = (w, crashed)

unfoldable pub require_market_access :
    (Text → Text) → Moment → Option Text → Text → World → World × Reply
require_market_access sha256 m presented market_id w =
    check_market market_id (require_api_key sha256 m presented w)

-- METERED_PREFIX
abbrev pub metered_prefix : Text
metered_prefix = codes "/v1"

abbrev pub starts_with : Text → Text → Bool
starts_with [] s = true
starts_with (c ∷ p) [] = false
starts_with (c ∷ p) (d ∷ s) = (c == d) && starts_with p s

pub record Request : Type 0 where
  pub method : Text
  pub path : Text

-- The status, and the two rate limit headers if they are set.
pub record Response : Type 0 where
  pub status_code : ℕ
  pub rate_limit : Option (ℕ × Option ℕ)

-- `identity.id if identity is not None and identity.id else None`
abbrev pub metered_id : Option AuthenticatedKey → Option ℕ
metered_id none = none
metered_id (some key) = if key.id == 0 then none else some key.id

abbrev pub with_headers : RequestState → Response → Response
with_headers s r = elim s.rate_limit_limit [
  | none ↦ r
  | some limit ↦ record r { rate_limit = some (limit, s.rate_limit_remaining) }
]

abbrev pub usage_event : Request → Text → World → Response → UsageEvent
usage_event q now w r = record {
  key_id = metered_id w.state.api_key;
  occurred_at = now;
  method = q.method;
  path = q.path;
  market_id = w.state.market_id;
  status_code = r.status_code;
  response_rows = w.state.response_rows;
}

-- The part of `dispatch` after the rest of the application: `none` is an exception of it, which
-- `await call_next` raises again, so that nothing is recorded.
abbrev pub meter : Text → Bool → Request → World × Option Response → World × Option Response
meter now usage_fails q (w, none) = (w, none)
meter now usage_fails q (w, some r) =
    if not (starts_with metered_prefix q.path) then (w, some r) else (
      record w { store = record_usage w.store (usage_event q now w r) usage_fails },
      some (with_headers w.state r),
    )

-- `UsageMeteringMiddleware.dispatch` around the rest of the application.
unfoldable pub dispatch :
    Text → Bool → (World → World × Option Response) → Request → World → World × Option Response
dispatch now usage_fails call_next q w = meter now usage_fails q (call_next w)
