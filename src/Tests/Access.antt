-- ===== src/Tests/Access.antt =====
-- Keys, the store and authentication on one key.
use shiden_api.Base.{
  Option, ◌==◌, if◌then◌else◌, ◌*◌, ◌≡◌, ◌≢◌, refl, inl, inr, [], ◌∷◌, ◌++◌, List, true, false,
  arith, none, some, take,
}
use shiden_api.Base.Text.{Text, codes}
use shiden_api.Keys.{
  live, test, parse_environment, looks_like_key, split_max, break_at, hash_key, generate_key,
  verify, GeneratedKey,
}
use shiden_api.Keys.Shape.{IsKeyOf}
use shiden_api.Keys.Minted.{generate_key_lem}
use shiden_api.RateLimit.{new_limiter, window_seconds, second, check, decide, expire}
use shiden_api.RateLimit.HitMap.{get, put}
use shiden_api.Store.{
  ApiKeyRecord, KeyStore, UsageEvent, is_active, allows_market, find_hash, issue_key, lookup,
  revoke, touch,
}
use shiden_api.Store.Rows.{IsValid}
use shiden_api.Store.Issue.{Promises, issue_key-Promises}
use shiden_api.Store.Revoke.{
  Op, issue, revoke_by, touch_key, IsRevoked, run_ops, run_ops-IsValid, run_ops-IsRevoked,
}
use shiden_api.Auth.{
  AuthenticatedKey, from_record, World, fresh_state, granted, http_error, Moment, authenticate,
  require_api_key, require_market_access, Request, Response, dispatch,
}
use shiden_api.Auth.Outcomes.{IsKnown, Access}
use shiden_api.Auth.Access.{
  require_api_key-Access, require_market_access_sound, IsThrottled, revoked_unauthorized,
}
use shiden_api.Auth.Metering.{answer, market_route, IsThrottled-is_recorded}

-- A hash that tells all texts apart.
abbrev sha : Text → Text
sha s = s

abbrev romania : Text
romania = codes "RO"

abbrev token : Text
token = codes "abcdefghijklmnop"

abbrev secret : Text
secret = codes "shiden_live_abcdefghijklmnop"

abbrev row : ApiKeyRecord
row = record {
  id = 1;
  key_hash = secret;
  display = take 20 secret;
  name = codes "desk";
  environment = live;
  markets = romania ∷ [];
  rate_limit_per_min = 1;
  created_at = codes "2026-01-01";
  revoked_at = none;
  last_used_at = none;
}

abbrev store : KeyStore
store = record { keys = row ∷ []; next_id = 2; events = [] }

abbrev noon : Text
noon = codes "2026-01-02"

abbrev moment : Moment
moment = record { auth_enabled = true; monotonic = 5 * second; now = noon; touch_fails = false }

abbrev idle_world : World
idle_world = record { store = store; limiter = new_limiter window_seconds; state = fresh_state }

-- The key has just used its one request of the minute.
abbrev busy_world : World
busy_world = record idle_world {
  limiter = record { window = window_seconds; hits = (1, 0 ∷ []) ∷ [] };
}

has_token : token ≢ []
has_token e = cc

is_key : IsKeyOf live token secret
is_key = record { known = inl refl; has_token = has_token; spelled = refl }

generate_key_lem_example :
    (g : GeneratedKey) × (generate_key sha live token ≡ some g)
    × (parse_environment g.secret ≡ some live)
    × (g.environment ≡ live)
    × (verify sha g.secret g.key_hash ≡ true)
    × (g.display ≡ take 20 g.secret)
generate_key_lem_example = generate_key_lem sha live token (inl refl) has_token

store-IsValid : IsValid store
store-IsValid = record { table = (tt, tt); ids_below = (omega arith, tt) }

issue_key-Promises_example :
    Promises sha secret store (issue_key sha store (codes "bot") [] 60 test token noon)
issue_key-Promises_example =
    issue_key-Promises sha store (codes "bot") [] 60 test token noon secret store-IsValid

lookup-row : lookup sha store secret ≡ some row
unfolding lookup looks_like_key parse_environment split_max break_at hash_key find_hash
lookup-row = refl

abbrev gone : KeyStore
gone = record store { keys = record row { revoked_at = some noon } ∷ [] }

gone-IsRevoked : IsRevoked secret 1 noon gone
unfolding find_hash
gone-IsRevoked = (record row { revoked_at = some noon }, refl, refl, refl)

abbrev writes : List Op
writes =
    issue (codes "bot") [] 60 test token noon
    ∷ revoke_by (codes "2") noon
    ∷ touch_key 1 noon false
    ∷ []

run_ops-IsValid_example : IsValid (run_ops sha store writes)
run_ops-IsValid_example = run_ops-IsValid sha store writes store-IsValid

run_ops-IsRevoked_example : IsRevoked secret 1 noon (run_ops sha gone writes)
run_ops-IsRevoked_example = run_ops-IsRevoked sha gone writes secret 1 noon gone-IsRevoked

require_api_key-Access_example :
    Access sha moment busy_world (some secret) (require_api_key sha moment (some secret) busy_world)
require_api_key-Access_example = require_api_key-Access sha moment busy_world (some secret)

granted_row :
    (require_market_access sha moment (some secret) romania idle_world).1
    ≡ granted (from_record row)
unfolding require_market_access require_api_key authenticate is_active lookup looks_like_key
    parse_environment split_max break_at hash_key find_hash check decide expire get put touch
granted_row = refl

require_market_access_sound_example :
    (r : ApiKeyRecord) × IsKnown sha moment idle_world (some secret) r
    × (from_record row ≡ from_record r)
    × (allows_market r romania ≡ true)
require_market_access_sound_example =
    require_market_access_sound sha moment (some secret) romania idle_world refl (from_record row)
      granted_row

revoked_unauthorized_example :
    let w' = record idle_world { store = (revoke store (take 20 secret) noon).0 } in
    require_api_key sha moment (some secret) w' ≡ (w', http_error 401)
revoked_unauthorized_example =
    revoked_unauthorized sha moment idle_world secret (take 20 secret) noon row refl lookup-row
      (inr refl)

turned_down : (require_market_access sha moment (some secret) romania busy_world).1 ≡ http_error 429
unfolding require_market_access require_api_key authenticate is_active lookup looks_like_key
    parse_environment split_max break_at hash_key find_hash check decide expire get put touch
turned_down = refl

abbrev ok_handler : AuthenticatedKey → World → World × Option Response
ok_handler key w = (w, some (answer 200))

abbrev request : Request
request = record { method = codes "GET"; path = codes "/v1/RO/prices" }

IsThrottled-is_recorded_example :
    let (w', r) =
      dispatch noon false
        (market_route sha ok_handler moment (some secret) romania)
        request
        busy_world in
    (t : IsThrottled sha moment busy_world
      (some secret)
      (require_market_access sha moment (some secret) romania busy_world).0)
    × (e : UsageEvent) × (w'.store.events ≡ [] ++ e ∷ [])
    × (w'.store.keys ≡ row ∷ [])
    × (e.status_code ≡ 429)
    × (e.key_id ≡ (if t.owner.id == 0 then none else some t.owner.id))
IsThrottled-is_recorded_example =
    IsThrottled-is_recorded sha ok_handler moment (some secret) romania request busy_world refl
      turned_down
