-- ===== src/Cli.antt =====
-- The administration commands, src/shiden/api/auth/cli.py, on the key store. Printing is left out
-- but for the secret and the rows that are shown; the parsed options are arguments.
pub mod Markets
use shiden_api.Base.{
  ℕ, zero, suc, Bool, true, false, not, ◌&&◌, ◌||◌, List, [], ◌∷◌, map, keep, Option, none, some,
  if◌then◌else◌,
}
use shiden_api.Base.Text.{Text, text_eq, mem_text}
use shiden_api.Store.{
  KeyStore, ApiKeyRecord, IssueResult, issued, all_markets, or_all, issue_key, revoke, list_keys,
  is_active,
}
use shiden_api.Store.Usage.{UsageRow, usage_summary}
use shiden_api.Base.Integers.{ℤ, pos, negsuc}
use shiden_api.Markets.{MarketConfig, markets}

-- How a command ends: with an exit code, or with the exception of the store.
pub data Exit : Type 0 where
  exit_code : ℕ → Exit
  raised : Exit

abbrev pub market_ids : List (Text × MarketConfig) → List Text
market_ids [] = []
market_ids ((k, m) ∷ ms) = k ∷ market_ids ms

-- `m == ALL_MARKETS or m in MARKETS`
abbrev pub is_known : Text → Bool
is_known m = text_eq m all_markets || mem_text m (market_ids markets)

abbrev pub unknown_markets : List Text → List Text
unknown_markets ms = keep (λ m. not (is_known m)) ms

pub record Issue : Type 0 where
  pub store : KeyStore
  pub exit : Exit
  pub shown : Option Text

abbrev pub conclude : KeyStore × IssueResult → Issue
conclude (s, issued secret r) = record { store = s; exit = exit_code 0; shown = some secret }
conclude (s, _) = record { store = s; exit = raised; shown = none }

abbrev pub checked : KeyStore → List Text → KeyStore × IssueResult → Issue
checked s [] out = conclude out
checked s (m ∷ unknown) out = record { store = s; exit = exit_code 2; shown = none }

-- `token` and `now` are the random token and the clock.
unfoldable pub cmd_issue :
    (Text → Text) → KeyStore → Text → List Text → ℕ → Text → Text → Text → Issue
cmd_issue sha256 s name wanted rate_limit environment token now =
    let ms = or_all wanted in
    checked s (unknown_markets ms) (issue_key sha256 s name ms rate_limit environment token now)

-- The rows printed: the identifier and whether the key is active.
unfoldable pub cmd_list : KeyStore → Bool → List (ℕ × Bool) × Exit
unfolding list_keys is_active
cmd_list s include_revoked =
    (map (λ r. (r.id, is_active r)) (list_keys s include_revoked), exit_code 0)

abbrev pub revoke_exit : Bool → Exit
revoke_exit true = exit_code 0
revoke_exit false = exit_code 1

unfoldable pub cmd_revoke : KeyStore → Text → Text → KeyStore × Exit
cmd_revoke s key now = ((revoke s key now).0, revoke_exit (revoke s key now).1)

-- `ago days` is the time stamp of now less so many days; `if args.days` skips 0.
abbrev pub usage_since : (ℤ → Text) → ℤ → Option Text
usage_since ago (pos zero) = none
usage_since ago (pos (suc n)) = some (ago (pos (suc n)))
usage_since ago (negsuc n) = some (ago (negsuc n))

-- The rows printed; without any, it is a message that says so.
unfoldable pub cmd_usage : KeyStore → (ℤ → Text) → ℤ → List UsageRow × Exit
cmd_usage s ago days = (usage_summary s (usage_since ago days), exit_code 0)
