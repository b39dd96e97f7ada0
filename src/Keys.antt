-- ===== src/Keys.antt =====
-- API keys, src/shiden/api/auth/keys.py. Texts are lists of code points. The random token of
-- `secrets.token_urlsafe` is an argument, and so is `sha256`, which stands for
-- `hashlib.sha256(secret.encode("utf-8")).hexdigest()`.
pub mod Shape
pub mod Minted
use shiden_api.Base.{
  ℕ, zero, suc, Bool, true, false, not, ◌&&◌, ◌||◌, List, [], ◌∷◌, ◌++◌, Option, none, some, ◌==◌,
  take, if◌then◌else◌,
}
use shiden_api.Base.Text.{Text, codes, text_eq}

-- KEY_PREFIX, LIVE, TEST
abbrev pub key_prefix : Text
key_prefix = codes "shiden"

abbrev pub live : Text
live = codes "live"

abbrev pub test : Text
test = codes "test"

abbrev pub underscore : ℕ
underscore = b'_'

abbrev pub is_empty : Text → Bool
is_empty [] = true
is_empty (c ∷ s) = false

-- The text before the first separator and the text after it.
unfoldable pub break_at : ℕ → Text → Option (Text × Text)
break_at sep [] = none
break_at sep (c ∷ s) =
    if c == sep
    then some ([], s)
    else elim (break_at sep s) [ none ↦ none | some (a, b) ↦ some (c ∷ a, b) ]

-- The text whole, or the part before the separator and what a further split makes of the rest.
abbrev pub parts : Text → (Text → List Text) → Option (Text × Text) → List Text
parts s further none = s ∷ []
parts s further (some (a, b)) = a ∷ further b

-- `s.split(sep, n)`
unfoldable pub split_max : ℕ → ℕ → Text → List Text
split_max zero sep s = s ∷ []
split_max (suc n) sep s = parts s (split_max n sep) (break_at sep s)

abbrev pub is_environment : Text → Bool
is_environment e = text_eq e live || text_eq e test

-- The tests of `parse_environment` on the parts; `none` stands for InvalidKeyFormat.
abbrev pub environment_of : List Text → Option Text
environment_of (p ∷ e ∷ t ∷ []) =
    if not (text_eq p key_prefix) || not (is_environment e)
    then none
    else if is_empty t
    then none
    else some e
environment_of _ = none

unfoldable pub parse_environment : Text → Option Text
parse_environment secret = environment_of (split_max 2 underscore secret)

unfoldable pub looks_like_key : Text → Bool
looks_like_key secret = elim (parse_environment secret) [ none ↦ false | some e ↦ true ]

-- len(KEY_PREFIX) + 1 + 4 + 1 characters, and _DISPLAY_CHARS more; `none` stands for a raise.
unfoldable pub display_prefix : Text → Option Text
display_prefix secret = elim (parse_environment secret) [
  | none ↦ none
  | some e ↦ some (take 20 secret)
]

pub record GeneratedKey : Type 0 where
  pub secret : Text
  pub key_hash : Text
  pub display : Text
  pub environment : Text

module _ (sha256 : Text → Text) where
  unfoldable pub hash_key : Text → Text
  hash_key secret = sha256 secret

  -- `none` stands for ValueError: an unknown environment, or a token that makes no key.
  unfoldable pub generate_key : Text → Text → Option GeneratedKey
  generate_key environment token =
      let secret = key_prefix ++ underscore ∷ (environment ++ underscore ∷ token) in
      if not (is_environment environment) then none else elim (display_prefix secret) [
        | none ↦ none
        | some shown ↦ some (record {
          secret = secret;
          key_hash = hash_key secret;
          display = shown;
          environment = environment;
        })
      ]

  unfoldable pub verify : Text → Text → Bool
  verify secret expected_hash = text_eq (hash_key secret) expected_hash
