-- ===== src/Auth/Metering.antt =====
-- What the metering middleware records of a request that is turned down.
use shiden_api.Base.{
  ℕ, ◌==◌, if◌then◌else◌, ◌≡◌, refl, ap, ◌∙◌, true, false, [], ◌∷◌, ◌++◌, Option, none, some,
}
use shiden_api.Base.Text.{Text}
use shiden_api.Store.{UsageEvent, record_usage}
use shiden_api.Auth.{
  AuthenticatedKey, World, Reply, granted, http_error, crashed, Moment, Request, Response,
  require_api_key, require_market_access, starts_with, metered_prefix, metered_id, usage_event,
  meter, dispatch,
}
use shiden_api.Auth.Access.{IsThrottled, check_market-IsThrottled, require_api_key-Access}

abbrev pub answer : ℕ → Response
answer status = record { status_code = status; rate_limit = none }

module _ (sha256 : Text → Text) (handler : AuthenticatedKey → World → World × Option Response) where
  -- FastAPI's answer to what the router's dependency does, or `none` for its exception.
  abbrev pub respond : World × Reply → World × Option Response
  respond (w, granted key) = handler key w
  respond (w, http_error status) = (w, some (answer status))
  respond (w, crashed) = (w, none)

  respond-http_error :
      (w : World) (reply : Reply) (status : ℕ)
      → reply ≡ http_error status
      → respond (w, reply) ≡ (w, some (answer status))
  respond-http_error w reply status e = ap (λ r. respond (w, r)) e

  -- A market-scoped route: `dependencies=market_scoped`, then the handler.
  abbrev pub market_route : Moment → Option Text → Text → World → World × Option Response
  market_route m presented market_id w =
      respond (require_market_access sha256 m presented market_id w)

  -- A request for a market under the metered prefix that gets a 429, when the write of usage does
  -- not fail, is recorded once: one event is added, with status 429 and the id of the active key
  -- whose secret was presented (null for an id of 0, the stand-in's), and the table of keys stays.
  pub IsThrottled-is_recorded :
      (m : Moment) (presented : Option Text) (market_id : Text) (q : Request) (w : World)
      → starts_with metered_prefix q.path ≡ true
      → (require_market_access sha256 m presented market_id w).1 ≡ http_error 429
      → let (w', r) = dispatch m.now false (market_route m presented market_id) q w in
        (t : IsThrottled sha256 m w presented
          (require_market_access sha256 m presented market_id w).0)
        × (e : UsageEvent) × (w'.store.events ≡ w.store.events ++ e ∷ [])
        × (w'.store.keys ≡ w.store.keys)
        × (e.status_code ≡ 429)
        × (e.key_id ≡ (if t.owner.id == 0 then none else some t.owner.id))
  unfolding dispatch record_usage
  IsThrottled-is_recorded m presented market_id q w metered turned_down = (
    t,
    usage_event q m.now (out.0) (answer 429),
    ap (λ p. (meter m.now false q p).0.store.events) e
        ∙ rw metered
            (ap (λ s. s.events ++ usage_event q m.now (out.0) (answer 429) ∷ []) t.untouched),
    ap (λ p. (meter m.now false q p).0.store.keys) e ∙ rw metered (ap (λ s. s.keys) t.untouched),
    refl,
    ap metered_id t.attributed,
  )
    where
      out : World × Reply
      out = require_market_access sha256 m presented market_id w

      t : IsThrottled sha256 m w presented out.0
      t =
          unfold require_market_access in
          check_market-IsThrottled sha256 m w presented market_id
            (require_api_key sha256 m presented w) (require_api_key-Access sha256 m w presented)
            turned_down

      e : respond out ≡ (out.0, some (answer 429))
      e = respond-http_error out.0 out.1 429 turned_down
