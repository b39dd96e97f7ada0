-- ===== src/Auth/Outcomes.antt =====
-- The outcomes of a call of `require_api_key`, and how the steps of src/shiden/api/auth/dependencies.py
-- lead to them.
use shiden_api.Base.{
  ◌≡◌, refl, subst, inl, inr, Bool, true, false, not, Option, some, if◌then◌else◌, Bool-cases,
  Option-cases,
}
use shiden_api.Base.Text.{Text}
use shiden_api.Keys.{is_empty}
use shiden_api.RateLimit.{Limiter, RateLimitResult, Outcome, returned, index_error, check}
use shiden_api.RateLimit.Retry.{check-IsConsistent, IsConsistent}
use shiden_api.Store.{ApiKeyRecord, is_active, lookup, touch}
use shiden_api.Auth.{
  from_record, anonymous, World, Reply, granted, http_error, crashed, Moment, set_identity,
  after_check, authenticate, present,
}

module _ (sha256 : Text → Text) (m : Moment) (w : World) where
  abbrev pub checked : ApiKeyRecord → Limiter × Outcome
  checked r = check w.limiter r.id r.rate_limit_per_min m.monotonic

  -- The caller has presented the secret of an active key.
  pub record IsKnown (presented : Option Text) (r : ApiKeyRecord) : Type 0 where
    pub secret : Text
    pub is_presented : presented ≡ some secret
    pub is_found : lookup sha256 w.store secret ≡ some r
    pub active : is_active r ≡ true

  -- The outcomes of a call, with what each leaves behind.
  pub data Access (presented : Option Text) : World × Reply → Type 0 where
    disabled :
        m.auth_enabled ≡ false → Access presented (set_identity w anonymous, granted anonymous)
    unauthorized : m.auth_enabled ≡ true → Access presented (w, http_error 401)
    throttled :
        (r : ApiKeyRecord) (v : RateLimitResult) (w' : World)
        → IsKnown presented r
        → (checked r).1 ≡ returned v
        → v.allowed ≡ false
        → w'.store ≡ w.store
        → w'.limiter ≡ (checked r).0
        → w'.state.api_key ≡ some (from_record r)
        → Access presented (w', http_error 429)
    admitted :
        (r : ApiKeyRecord) (v : RateLimitResult) (w' : World)
        → IsKnown presented r
        → (checked r).1 ≡ returned v
        → v.allowed ≡ true
        → w'.store ≡ touch w.store r.id m.now m.touch_fails
        → w'.limiter ≡ (checked r).0
        → w'.state.api_key ≡ some (from_record r)
        → Access presented (w', granted (from_record r))
    unlimited :
        (r : ApiKeyRecord) (w' : World)
        → IsKnown presented r
        → r.rate_limit_per_min ≡ 0
        → Access presented (w', crashed)

  after_check-Access :
      (presented : Option Text) (r : ApiKeyRecord) (o : Outcome)
      → IsKnown presented r
      → (checked r).1 ≡ o
      → Access presented
          (after_check m r (record (set_identity w (from_record r)) { limiter = (checked r).0 }) o)
  after_check-Access presented r index_error k e = unlimited r _ k (no_limit e)
    where
      no_limit : (checked r).1 ≡ index_error → r.rate_limit_per_min ≡ 0
      no_limit e =
          subst (IsConsistent r.rate_limit_per_min _) e
            (check-IsConsistent w.limiter r.id r.rate_limit_per_min m.monotonic)
  after_check-Access presented r (returned v) k e = elim (Bool-cases v.allowed) [
    | inl ok ↦ rw ok (admitted r v _ k e ok refl refl refl)
    | inr refused ↦ rw refused (throttled r v _ k e refused refl refl refl)
  ]

  authenticate-Access :
      (presented : Option Text) (secret : Text) (r : ApiKeyRecord)
      → m.auth_enabled ≡ true
      → presented ≡ some secret
      → lookup sha256 w.store secret ≡ some r
      → Access presented (authenticate m r w)
  unfolding authenticate
  authenticate-Access presented secret r on p found = elim (Bool-cases (is_active r)) [
    | inl a ↦
        rw (a, authenticate)
          (after_check-Access presented r (checked r).1
            (record { secret = secret; is_presented = p; is_found = found; active = a }) refl)
    | inr a ↦ rw (a, authenticate) (unauthorized on)
  ]

  pub present-Access :
      (presented : Option Text) (secret : Text)
      → m.auth_enabled ≡ true
      → presented ≡ some secret
      → Access presented (present sha256 m w secret)
  present-Access presented secret on p = elim (Bool-cases (is_empty secret)) [
    | inl e ↦ rw e (unauthorized on)
    | inr e ↦ elim (Option-cases (lookup sha256 w.store secret)) [
      | inl n ↦ rw (e, n) (unauthorized on)
      | inr (r, found) ↦ rw (e, found) (authenticate-Access presented secret r on p found)
    ]
  ]

  pub by_switch :
      (presented : Option Text) (b : Bool) (x y : World × Reply)
      → m.auth_enabled ≡ b
      → (m.auth_enabled ≡ false → Access presented x)
      → (m.auth_enabled ≡ true → Access presented y)
      → Access presented (if not b then x else y)
  by_switch presented true x y e off on = on e
  by_switch presented false x y e off on = off e
