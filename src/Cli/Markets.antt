-- ===== src/Cli/Markets.antt =====
-- The commands of src/shiden/api/auth/cli.py issue no key for a market that is not configured.
use shiden_api.Base.{
  ℕ, ◌≡◌, refl, inl, inr, Bool, true, false, List, [], ◌∷◌, map, some, All, All-append, Bool-cases,
  Option-cases, ltb, if◌then◌else◌,
}
use shiden_api.Base.Text.{Text, strip}
use shiden_api.Keys.{GeneratedKey, is_empty, generate_key}
use shiden_api.Store.{
  KeyStore, ApiKeyRecord, IssueResult, issued, value_error, integrity_error, or_all, new_record,
  find_hash, insert_key, issue_key, is_revoked_by, revoke_row, revoke,
}
use shiden_api.Cli.{is_known, unknown_markets, conclude, checked, cmd_issue, cmd_revoke}

module _ (Q : ApiKeyRecord → Type 0) (sha256 : Text → Text) (s : KeyStore) (name : Text)
    (ms : List Text) (rate : ℕ) (now : Text)
    (each : (id : ℕ) (g : GeneratedKey) → Q (new_record id g name ms rate now))
    (all : All Q s.keys) where
  insert_key-All : (g : GeneratedKey) → All Q (insert_key s g name ms rate now).0.keys
  unfolding insert_key
  insert_key-All g = elim (Option-cases (find_hash g.key_hash s.keys)) [
    | inl n ↦ rw (n, insert_key) (All-append Q s.keys _ all (each s.next_id g, tt))
    | inr (r, e) ↦ rw (e, insert_key) all
  ]

  -- Whatever holds of the rows and of any new row holds after `issue_key`.
  issue_key-All :
      (environment token : Text)
      → All Q (issue_key sha256 s name ms rate environment token now).0.keys
  unfolding issue_key
  issue_key-All environment token = elim (Bool-cases (is_empty (strip name))) [
    | inl e ↦ rw (e, issue_key) all
    | inr e ↦ elim (Bool-cases (ltb rate 1)) [
      | inl z ↦ rw (e, z, issue_key) all
      | inr z ↦ elim (Option-cases (generate_key sha256 environment token)) [
        | inl n ↦ rw (e, z, n, issue_key) all
        | inr (g, m) ↦ rw (e, z, m, issue_key) (insert_key-All g)
      ]
    ]
  ]

-- The markets of a row are all configured, or the sign for all markets.
abbrev pub IsConfigured : ApiKeyRecord → Type 0
IsConfigured r = All (λ m. is_known m ≡ true) r.markets

known-All : (ms : List Text) → unknown_markets ms ≡ [] → All (λ m. is_known m ≡ true) ms
known-All [] h = tt
known-All (m ∷ ms) h = elim (Bool-cases (is_known m)) [
  | inl t ↦ (t, known-All ms (rw t at h))
  | inr f ↦ let absurd_cons : m ∷ unknown_markets ms ≡ [] = rw f at h in absurd (cc absurd_cons)
]

or_all_known :
    (ms : List Text) → All (λ m. is_known m ≡ true) ms → All (λ m. is_known m ≡ true) (or_all ms)
or_all_known [] h = (refl, tt)
or_all_known (m ∷ ms) h = h

conclude-All :
    (Q : ApiKeyRecord → Type 0) (out : KeyStore × IssueResult)
    → All Q out.0.keys
    → All Q (conclude out).store.keys
conclude-All Q (s, issued secret r) h = h
conclude-All Q (s, value_error) h = h
conclude-All Q (s, integrity_error) h = h

checked-All :
    (s : KeyStore) (unknown ms : List Text) (out : KeyStore × IssueResult)
    → unknown_markets ms ≡ unknown
    → All IsConfigured s.keys
    → (All (λ m. is_known m ≡ true) ms → All IsConfigured out.0.keys)
    → All IsConfigured (checked s unknown out).store.keys
checked-All s [] ms out e h k = conclude-All IsConfigured out (k (known-All ms e))
checked-All s (m ∷ unknown) ms out e h k = h

revoke_rows-All :
    (key now : Text) (rs : List ApiKeyRecord)
    → All IsConfigured rs
    → All IsConfigured (map (revoke_row key now) rs)
revoke_rows-All key now [] h = tt
revoke_rows-All key now (r ∷ rs) h =
    (same_markets (is_revoked_by key r) h.0, revoke_rows-All key now rs h.1)
  where
    same_markets :
        (b : Bool)
        → IsConfigured r
        → IsConfigured (if b then record r { revoked_at = some now } else r)
    same_markets true k = k
    same_markets false k = k

-- If all keys of the store are for configured markets or all markets, they still are after
-- `cmd_issue`, whatever markets it is asked for, and after `cmd_revoke`.
pub commands-IsConfigured :
    (sha256 : Text → Text) (s : KeyStore) (name : Text) (wanted : List Text) (rate_limit : ℕ)
    (environment token now key : Text)
    → All IsConfigured s.keys
    → All IsConfigured (cmd_issue sha256 s name wanted rate_limit environment token now).store.keys
      × All IsConfigured (cmd_revoke s key now).0.keys
unfolding cmd_issue cmd_revoke revoke
commands-IsConfigured sha256 s name wanted rate_limit environment token now key h = (
  checked-All s (unknown_markets (or_all wanted)) (or_all wanted) _ refl h (λ known.
      issue_key-All IsConfigured sha256 s name (or_all wanted) rate_limit now
        (λ id g. or_all_known (or_all wanted) known) h environment token),
  revoke_rows-All key now s.keys h,
)
