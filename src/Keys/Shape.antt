-- ===== src/Keys/Shape.antt =====
-- The shape of a key: what is accepted is exactly what is minted.
use shiden_api.Base.{
  ℕ, zero, suc, ◌≡◌, refl, sym, ap, subst, ◌∙◌, ◌≢◌, ◌↔◌, ◌⊎◌, inl, inr, Bool, true, false, not,
  ◌||◌, List, [], ◌∷◌, ◌++◌, Option, none, some, arith, ◌==◌, ==_iff, Bool-cases, if◌then◌else◌,
}
use shiden_api.Base.Text.{Text, text_eq, text_eq_sound}
use shiden_api.Keys.{
  key_prefix, live, test, underscore, is_empty, parts, break_at, split_max, is_environment,
  environment_of, parse_environment,
}

-- `shiden_<environment>_<token>`, with a token.
pub record IsKeyOf (environment token secret : Text) : Type 0 where
  pub known : (environment ≡ live) ⊎ (environment ≡ test)
  pub has_token : token ≢ []
  pub spelled : secret ≡ key_prefix ++ underscore ∷ (environment ++ underscore ∷ token)

abbrev join : ℕ → Option (Text × Text) → Text
join sep none = []
join sep (some (a, b)) = a ++ sep ∷ b

abbrev prepend : ℕ → Option (Text × Text) → Option (Text × Text)
prepend c r = elim r [ none ↦ none | some (a, b) ↦ some (c ∷ a, b) ]

join-prepend :
    (sep c : ℕ) (s : Text) (r : Option (Text × Text))
    → (r ≡ none) ⊎ (join sep r ≡ s)
    → (prepend c r ≡ none) ⊎ (join sep (prepend c r) ≡ c ∷ s)
join-prepend sep c s none h = inl refl
join-prepend sep c s (some (a, b)) (inl n) = cc
join-prepend sep c s (some (a, b)) (inr e) = inr (ap (λ t. c ∷ t) e)

join-break_at : (sep : ℕ) (s : Text) → (break_at sep s ≡ none) ⊎ (join sep (break_at sep s) ≡ s)
unfolding break_at
join-break_at sep [] = inl refl
join-break_at sep (c ∷ s) = elim (Bool-cases (c == sep)) [
  | inl e ↦ rw e (inr (ap (λ x. x ∷ s) (sym ((==_iff c sep).0 e))))
  | inr e ↦ rw e (join-prepend sep c s (break_at sep s) (join-break_at sep s))
]

break_at_sound :
    (sep : ℕ) (s : Text) (r : Text × Text) → break_at sep s ≡ some r → s ≡ r.0 ++ sep ∷ r.1
break_at_sound sep s r h = elim (join-break_at sep s) [
  | inl n ↦ cc
  | inr e ↦ sym e ∙ ap (join sep) h
]

-- Two splits at most; the parts joined again give the text.
abbrev rejoin : ℕ → List Text → Text
rejoin sep [] = []
rejoin sep (p ∷ []) = p
rejoin sep (p ∷ q ∷ r) = p ++ sep ∷ rejoin sep (q ∷ r)

record Rejoins (sep : ℕ) (s : Text) (ps : List Text) : Type 0 where
  first : Text
  others : List Text
  are : ps ≡ first ∷ others
  joined : rejoin sep (first ∷ others) ≡ s

parts-Rejoins :
    (sep : ℕ) (s : Text) (further : Text → List Text) (r : Option (Text × Text))
    → ((t : Text) → Rejoins sep t (further t))
    → (r ≡ none) ⊎ (join sep r ≡ s)
    → Rejoins sep s (parts s further r)
parts-Rejoins sep s further none f h = record { first = s; others = []; are = refl; joined = refl }
parts-Rejoins sep s further (some (a, b)) f (inl n) = cc
parts-Rejoins sep s further (some (a, b)) f (inr e) =
    let q = f b in
    record {
      first = a;
      others = q.first ∷ q.others;
      are = ap (λ l. a ∷ l) q.are;
      joined = ap (λ t. a ++ sep ∷ t) q.joined ∙ e;
    }

split_max-Rejoins : (n sep : ℕ) (s : Text) → Rejoins sep s (split_max n sep s)
unfolding split_max
split_max-Rejoins zero sep s = record { first = s; others = []; are = refl; joined = refl }
split_max-Rejoins (suc n) sep s =
    parts-Rejoins sep s (split_max n sep) (break_at sep s) (split_max-Rejoins n sep)
      (join-break_at sep s)

split_two :
    (s p e t : Text)
    → split_max 2 underscore s ≡ p ∷ e ∷ t ∷ []
    → s ≡ p ++ underscore ∷ (e ++ underscore ∷ t)
split_two s p e t h =
    let q = split_max-Rejoins 2 underscore s in
    sym q.joined ∙ ap (rejoin underscore) (sym q.are ∙ h)

pub is_environment_sound : (e : Text) → is_environment e ≡ true → (e ≡ live) ⊎ (e ≡ test)
is_environment_sound e h = ground (arith, text_eq_sound e live, text_eq_sound e test)

pub is_environment_complete : (e : Text) → (e ≡ live) ⊎ (e ≡ test) → is_environment e ≡ true
is_environment_complete e (inl p) = rw p
is_environment_complete e (inr p) = rw p

gate :
    (b c d : Bool) (e env : Text)
    → (if not b || not c then none else if d then none else some e) ≡ some env
    → (b ≡ true) × (c ≡ true) × (d ≡ false) × (e ≡ env)
gate b c d e env h = ground arith

not_empty : (t : Text) → is_empty t ≡ false → t ≢ []
not_empty [] h = absurd (cc (sym h))
not_empty (c ∷ t) h = λ e. cc (sym e)

environment_of_sound :
    (parts : List Text) (env : Text)
    → environment_of parts ≡ some env
    → (t : Text) × (parts ≡ key_prefix ∷ env ∷ t ∷ []) × ((env ≡ live) ⊎ (env ≡ test)) × (t ≢ [])
environment_of_sound [] env h = cc
environment_of_sound (p ∷ []) env h = cc
environment_of_sound (p ∷ e ∷ []) env h = cc
environment_of_sound (p ∷ e ∷ t ∷ u ∷ r) env h = cc
environment_of_sound (p ∷ e ∷ t ∷ []) env h =
    let (is_prefix, is_env, some_token, same) =
      gate (text_eq p key_prefix) (is_environment e) (is_empty t) e env h in
    (
      t,
      cc (same, text_eq_sound p key_prefix is_prefix),
      subst (λ x. (x ≡ live) ⊎ (x ≡ test)) same (is_environment_sound e is_env),
      not_empty t some_token,
    )

pub parse_known :
    (env token : Text)
    → (env ≡ live) ⊎ (env ≡ test)
    → token ≢ []
    → parse_environment (key_prefix ++ underscore ∷ (env ++ underscore ∷ token)) ≡ some env
unfolding parse_environment split_max break_at
parse_known env [] k has = absurd (has refl)
parse_known env (c ∷ token) (inl e) has = rw e
parse_known env (c ∷ token) (inr e) has = rw e

-- `parse_environment` returns an environment exactly for the texts `shiden_<environment>_<token>`
-- with that environment, `live` or `test`, and a token that is not empty.
pub parse_environment_iff :
    (secret env : Text)
    → (parse_environment secret ≡ some env) ↔ ((token : Text) × IsKeyOf env token secret)
parse_environment_iff secret env = (sound, complete)
  where
    sound : parse_environment secret ≡ some env → (token : Text) × IsKeyOf env token secret
    sound h =
        let (t, parts, known, has) =
          environment_of_sound (split_max 2 underscore secret) env
            (unfold parse_environment in h) in
        (
          t,
          record {
            known = known;
            has_token = has;
            spelled = split_two secret key_prefix env t parts;
          },
        )

    complete : ((token : Text) × IsKeyOf env token secret) → parse_environment secret ≡ some env
    complete (t, k) = rw k.spelled (parse_known env t k.known k.has_token)
