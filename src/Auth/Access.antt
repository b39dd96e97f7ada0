-- ===== src/Auth/Access.antt =====
-- Who gets in: the outcomes of `require_api_key` and `require_market_access`.
use mathlib.Core.Option
use shiden_api.Base.{
  ℕ, ◌≡◌, refl, ap, ◌∙◌, ◌⊎◌, inl, inr, Bool, true, false, Option, none, some, if◌then◌else◌, arith,
  Bool-cases,
}
use shiden_api.Base.Text.{Text, text_eq, text_eq_refl, decimal}
use shiden_api.Keys.{is_empty}
use shiden_api.Store.{
  ApiKeyRecord, is_active, allows_market, is_revoked_by, revoke_row, lookup, revoke,
}
use shiden_api.Store.Revoke.{lookup-revoke}
use shiden_api.Auth.{
  AuthenticatedKey, from_record, anonymous, World, Reply, granted, http_error, crashed, Moment,
  authenticate, require_api_key, is_entitled, check_market, require_market_access, set_market,
}
use shiden_api.Auth.Outcomes.{
  IsKnown, Access, disabled, unauthorized, throttled, admitted, unlimited, present-Access,
  by_switch,
}

module _ (sha256 : Text → Text) (m : Moment) (w : World) where
  -- A call of `require_api_key` ends in one of five ways. With authentication off the anonymous
  -- identity is granted. With it on, a 401 leaves the store, the limiter and the request as they
  -- were. A 429 comes only for an active key whose secret was presented and that the limiter turns
  -- down; it is attributed to that key and writes nothing to the store. A grant goes to the owner
  -- of an active key whose secret was presented and that the limiter admits, and the key is
  -- touched. An exception of the limiter comes only for an active key with limit 0.
  pub require_api_key-Access :
      (presented : Option Text) → Access sha256 m w presented (require_api_key sha256 m presented w)
  unfolding require_api_key
  require_api_key-Access none =
      by_switch sha256 m w none m.auth_enabled _ _ refl disabled unauthorized
  require_api_key-Access (some secret) =
      by_switch sha256 m w (some secret) m.auth_enabled _ _ refl disabled
        (λ on. present-Access sha256 m w (some secret) secret on refl)

  -- Who is granted a market.
  data MarketAccess (presented : Option Text) (market_id : Text) : Reply → Type 0 where
    open_to_all :
        m.auth_enabled ≡ false
        → (key : AuthenticatedKey) → MarketAccess presented market_id (granted key)
    entitled :
        (r : ApiKeyRecord)
        → IsKnown sha256 m w presented r
        → allows_market r market_id ≡ true
        → MarketAccess presented market_id (granted (from_record r))
    refused : (status : ℕ) → MarketAccess presented market_id (http_error status)
    broken : MarketAccess presented market_id crashed

  check_market-MarketAccess :
      (presented : Option Text) (market_id : Text) (out : World × Reply)
      → Access sha256 m w presented out
      → MarketAccess presented market_id (check_market market_id out).1
  check_market-MarketAccess presented market_id _ (disabled off) = open_to_all off anonymous
  check_market-MarketAccess presented market_id _ (unauthorized on) = refused 401
  check_market-MarketAccess presented market_id _ (throttled r v w' k e a b c d) = refused 429
  check_market-MarketAccess presented market_id _ (unlimited r w' k e) = broken
  check_market-MarketAccess presented market_id _ (admitted r v w' k e a b c d) =
      elim (Bool-cases (is_entitled (from_record r) market_id)) [
        | inl y ↦ rw y (entitled r k (unfold allows_market in y))
        | inr n ↦ rw n (refused 403)
      ]

  MarketAccess-granted :
      (presented : Option Text) (market_id : Text) (reply : Reply) (key : AuthenticatedKey)
      → m.auth_enabled ≡ true
      → MarketAccess presented market_id reply
      → reply ≡ granted key
      → (r : ApiKeyRecord) × IsKnown sha256 m w presented r
        × (key ≡ from_record r)
        × (allows_market r market_id ≡ true)
  MarketAccess-granted presented market_id _ key on (open_to_all off k) e = cc
  MarketAccess-granted presented market_id _ key on (refused status) e = cc
  MarketAccess-granted presented market_id _ key on broken e = cc
  MarketAccess-granted presented market_id _ key on (entitled r k a) e = (r, k, cc, a)

module _ (sha256 : Text → Text) (m : Moment) (w : World) where
  http_error_inj : (a b : ℕ) → http_error a ≡ http_error b → a ≡ b
  http_error_inj a b e = cc

  -- The world after a request that the limiter turned down.
  pub record IsThrottled (presented : Option Text) (w' : World) : Type 0 where
    pub owner : ApiKeyRecord
    pub known : IsKnown sha256 m w presented owner
    pub attributed : w'.state.api_key ≡ some (from_record owner)
    pub untouched : w'.store ≡ w.store

  pub check_market-IsThrottled :
      (presented : Option Text) (market_id : Text) (out : World × Reply)
      → Access sha256 m w presented out
      → (check_market market_id out).1 ≡ http_error 429
      → IsThrottled presented (check_market market_id out).0
  check_market-IsThrottled presented market_id _ (disabled off) e = cc
  check_market-IsThrottled presented market_id _ (unauthorized on) e =
      absurd (omega (arith, http_error_inj 401 429 e))
  check_market-IsThrottled presented market_id _ (unlimited r w' k z) e = cc
  check_market-IsThrottled presented market_id _ (throttled r v w' k c f s l a) e = record {
    owner = r;
    known = k;
    attributed = a;
    untouched = s;
  }
  check_market-IsThrottled presented market_id _ (admitted r v w' k c f s l a) e =
      absurd (not_throttled (is_entitled (from_record r) market_id) e)
    where
      not_throttled :
          (b : Bool)
          → (if◌then◌else◌ {A = World × Reply} b
              (set_market w' market_id, granted (from_record r))
              (set_market w' market_id, http_error 403)).1
            ≡ http_error 429
          → ⊥
      not_throttled true e = cc
      not_throttled false e = omega (arith, http_error_inj 403 429 e)

-- With authentication on, if `require_market_access` grants a market, then it grants it to the
-- owner of an active key whose secret was presented and whose record allows that market.
pub require_market_access_sound :
    (sha256 : Text → Text) (m : Moment) (presented : Option Text) (market_id : Text) (w : World)
    → m.auth_enabled ≡ true
    → (key : AuthenticatedKey)
    → (require_market_access sha256 m presented market_id w).1 ≡ granted key
    → (r : ApiKeyRecord) × IsKnown sha256 m w presented r
      × (key ≡ from_record r)
      × (allows_market r market_id ≡ true)
unfolding require_market_access
require_market_access_sound sha256 m presented market_id w on key e =
    MarketAccess-granted sha256 m w presented market_id _ key on
      (check_market-MarketAccess sha256 m w presented market_id _
        (require_api_key-Access sha256 m w presented))
      e

revoke_row-is_active :
    (arg at : Text) (r : ApiKeyRecord)
    → (decimal r.id ≡ arg) ⊎ (r.display ≡ arg)
    → is_active (revoke_row arg at r) ≡ false
unfolding is_revoked_by is_active
revoke_row-is_active arg at r (inl e) = ground (arith, text_eq_refl arg, ap (λ t. text_eq t arg) e)
revoke_row-is_active arg at r (inr e) = ground (arith, text_eq_refl arg, ap (λ t. text_eq t arg) e)

-- With authentication on, if a secret finds a key and that key is revoked, by its id or by its
-- display, then the secret gets a 401, at any later moment, and the request changes neither the
-- store nor the limiter nor the request's state.
pub revoked_unauthorized :
    (sha256 : Text → Text) (m : Moment) (w : World) (secret arg at : Text) (r : ApiKeyRecord)
    → m.auth_enabled ≡ true
    → lookup sha256 w.store secret ≡ some r
    → (decimal r.id ≡ arg) ⊎ (r.display ≡ arg)
    → let w' = record w { store = (revoke w.store arg at).0 } in
      require_api_key sha256 m (some secret) w' ≡ (w', http_error 401)
unfolding require_api_key authenticate
revoked_unauthorized sha256 m w secret arg at r on found match =
    rw (on, e)
      (elim (Bool-cases (is_empty secret)) [
        | inl y ↦ rw y
        | inr n ↦ rw (n, revoke_row-is_active arg at r match)
      ])
  where
    e : lookup sha256 (revoke w.store arg at).0 secret ≡ some (revoke_row arg at r)
    e =
        (lookup-revoke sha256 w.store arg at secret at).0
        ∙ ap (Option.map (revoke_row arg at)) found
