-- ===== src/Keys/Minted.antt =====
-- What `generate_key` of src/shiden/api/auth/keys.py mints is a key, and nothing else is minted.
use shiden_api.Base.{
  ◌≡◌, refl, sym, subst, ◌∙◌, ◌≢◌, ◌⊎◌, inl, inr, true, false, [], ◌∷◌, ◌++◌, none, some, arith,
  Bool-cases, take,
}
use mathlib.Core.Option.{some-injective}
use shiden_api.Base.Text.{Text, text_eq_refl}
use shiden_api.Keys.{
  key_prefix, live, test, underscore, break_at, split_max, is_environment, parse_environment,
  looks_like_key, display_prefix, GeneratedKey, hash_key, generate_key, verify,
}
use shiden_api.Keys.Shape.{is_environment_sound, is_environment_complete, parse_known}

display_no_token :
    (env : Text)
    → (env ≡ live) ⊎ (env ≡ test)
    → display_prefix (key_prefix ++ underscore ∷ (env ++ underscore ∷ [])) ≡ none
unfolding display_prefix parse_environment split_max break_at
display_no_token env (inl e) = rw e
display_no_token env (inr e) = rw e

module _ (sha256 : Text → Text) where
  abbrev secret_of : Text → Text → Text
  secret_of env token = key_prefix ++ underscore ∷ (env ++ underscore ∷ token)

  minted :
      (env token : Text)
      → (env ≡ live) ⊎ (env ≡ test)
      → token ≢ []
      → generate_key sha256 env token
        ≡ some (record {
          secret = secret_of env token;
          key_hash = hash_key sha256 (secret_of env token);
          display = take 20 (secret_of env token);
          environment = env;
        })
  unfolding generate_key display_prefix
  minted env token known has =
      rw (is_environment_complete env known, parse_known env token known has)

  -- A minted key is accepted: for a known environment and a token, `generate_key` returns a
  -- secret of the shape, from which the environment is read back, whose hash it verifies
  -- against, and which starts with its 20 displayed characters.
  pub generate_key_lem :
      (env token : Text)
      → (env ≡ live) ⊎ (env ≡ test)
      → token ≢ []
      → (g : GeneratedKey) × (generate_key sha256 env token ≡ some g)
        × (parse_environment g.secret ≡ some env)
        × (g.environment ≡ env)
        × (verify sha256 g.secret g.key_hash ≡ true)
        × (g.display ≡ take 20 g.secret)
  generate_key_lem env token known has = (
    record {
      secret = secret_of env token;
      key_hash = hash_key sha256 (secret_of env token);
      display = take 20 (secret_of env token);
      environment = env;
    },
    minted env token known has,
    parse_known env token known has,
    refl,
    unfold verify in text_eq_refl (hash_key sha256 (secret_of env token)),
    refl,
  )

  -- `generate_key` raises for an environment other than `live` and `test`, and for an empty token.
  pub generate_key_refuses :
      (env token : Text)
      → ((env ≢ live) × (env ≢ test)) ⊎ (token ≡ [])
      → generate_key sha256 env token ≡ none
  unfolding generate_key
  generate_key_refuses env token (inl other) = ground (arith, is_environment_sound env)
  generate_key_refuses env token (inr e) = elim (Bool-cases (is_environment env)) [
    | inl k ↦ rw (k, e, display_no_token env (is_environment_sound env k))
    | inr k ↦ rw k
  ]

  unknown_environment :
      (env token : Text) → is_environment env ≡ false → generate_key sha256 env token ≡ none
  unfolding generate_key
  unknown_environment env token k = rw k

  looks :
      (env token : Text)
      → (env ≡ live) ⊎ (env ≡ test)
      → token ≢ []
      → looks_like_key (secret_of env token) ≡ true
  unfolding looks_like_key
  looks env token known has = rw (parse_known env token known has, looks_like_key)

  -- What is minted looks like a key, and its hash is that of its secret.
  pub generate_key_sound :
      (env token : Text) (g : GeneratedKey)
      → generate_key sha256 env token ≡ some g
      → (looks_like_key g.secret ≡ true) × (g.key_hash ≡ hash_key sha256 g.secret)
  generate_key_sound env [] g h = cc (generate_key_refuses env [] (inr refl))
  generate_key_sound env (c ∷ t) g h = elim (Bool-cases (is_environment env)) [
    | inl k ↦
        subst (λ g. (looks_like_key g.secret ≡ true) × (g.key_hash ≡ hash_key sha256 g.secret))
          (some-injective _ _
            (sym (minted env (c ∷ t) (is_environment_sound env k) token_there) ∙ h))
          (looks env (c ∷ t) (is_environment_sound env k) token_there, refl)
    | inr k ↦ cc (unknown_environment env (c ∷ t) k)
  ]
    where
      token_there : c ∷ t ≢ []
      token_there e = cc (sym e)
