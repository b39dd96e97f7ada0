-- ===== src/Tests/Commands.antt =====
-- The administration commands, the location dimension and the hours of the weather at concrete
-- inputs.
use shiden_api.Base.{ℕ, ◌≡◌, refl, [], ◌∷◌, Option, none, some, All}
use shiden_api.Base.Text.{Text, codes}
use shiden_api.Calendar.{Date, date}
use shiden_api.Store.{KeyStore, ApiKeyRecord, UsageEvent}
use shiden_api.Store.Usage.{
  usage_summary, group_by_key, total, requests_of, usage_summary-total, order_rows, add_event,
  insert_row, usage_row, find_id, latest,
}
use shiden_api.Base.Integers.{pos}
use shiden_api.Cli.{cmd_usage, cmd_issue, cmd_revoke, exit_code}
use shiden_api.Cli.Markets.{IsConfigured, commands-IsConfigured}
use shiden_api.DimMarkets.{location_id, hex_value}
use shiden_api.Weather.{by_date, add_hours, add_hour}
use shiden_api.Weather.Hours.{hours_on, find_group, OneEach, by_date-hours_on}

abbrev row : ApiKeyRecord
row = record {
  id = 1;
  key_hash = codes "hash";
  display = codes "shiden_live_abcdefgh";
  name = codes "desk";
  environment = codes "live";
  markets = codes "RO" ∷ [];
  rate_limit_per_min = 60;
  created_at = codes "2026-01-01";
  revoked_at = none;
  last_used_at = none;
}

abbrev store : KeyStore
store = record { keys = row ∷ []; next_id = 2; events = [] }

abbrev sha : Text → Text
sha s = s

-- An unknown market ends the command before the store is touched.
unknown_market :
    cmd_issue sha store
      (codes "bot")
      (codes "XX" ∷ [])
      60
      (codes "live")
      (codes "abcdefghijklmnop")
      (codes "now")
    ≡ record { store = store; exit = exit_code 2; shown = none }
unfolding cmd_issue
unknown_market = refl

commands-IsConfigured_example :
    All IsConfigured
      (cmd_issue sha store
        (codes "bot")
        (codes "RO" ∷ [])
        60
        (codes "live")
        (codes "abcdefghijklmnop")
        (codes "now")).store.keys
    × All IsConfigured (cmd_revoke store (codes "1") (codes "now")).0.keys
commands-IsConfigured_example =
    commands-IsConfigured sha store (codes "bot") (codes "RO" ∷ []) 60 (codes "live")
      (codes "abcdefghijklmnop") (codes "now") (codes "1") ((refl, tt), tt)

abbrev event : Option ℕ → ℕ → UsageEvent
event key_id status_code = record {
  key_id = key_id;
  occurred_at = codes "2026-03-01";
  method = codes "GET";
  path = codes "/v1/prices";
  market_id = none;
  status_code = status_code;
  response_rows = none;
}

abbrev used : KeyStore
used = record store { events = event (some 1) 200 ∷ event none 401 ∷ event (some 1) 429 ∷ [] }

-- The key with two requests comes before the callers with none.
summary_of_used :
    usage_summary used none
    ≡ record {
      key_display = codes "shiden_live_abcdefgh";
      name = codes "desk";
      requests = 2;
      errors = 1;
      last_seen = codes "2026-03-01";
    }
      ∷ record {
        key_display = codes "<unauthenticated>";
        name = codes "-";
        requests = 1;
        errors = 1;
        last_seen = codes "2026-03-01";
      }
      ∷ []
unfolding usage_summary order_rows group_by_key add_event insert_row usage_row find_id latest
summary_of_used = refl

-- Without a window the report has all events.
usage_of_all :
    cmd_usage used (λ days. codes "2026-03-01") (pos 0) ≡ (usage_summary used none, exit_code 0)
unfolding cmd_usage
usage_of_all = refl

usage_summary-total_example :
    (total (λ r. r.requests) (usage_summary used none) ≡ 3)
    × (total (λ r. r.errors) (usage_summary used none) ≡ 2)
    × (requests_of (some 1) (group_by_key used.events) ≡ 2)
usage_summary-total_example = usage_summary-total used none (some 1)

-- The digest 0000000f...
fixed_id : location_id (λ s. codes "0000000f00000000") (codes "RO") (codes "Banat") ≡ 100015
unfolding location_id hex_value
fixed_id = refl

abbrev monday : Date
monday = date 2026 3 2

abbrev tuesday : Date
tuesday = date 2026 3 3

groups : by_date (monday ∷ tuesday ∷ monday ∷ []) ≡ (monday, 0 ∷ 2 ∷ []) ∷ (tuesday, 1 ∷ []) ∷ []
unfolding add_hours add_hour shiden_api.Calendar.date_eq
groups = refl

by_date-hours_on_example :
    OneEach (by_date (monday ∷ tuesday ∷ monday ∷ []))
    × (find_group monday (by_date (monday ∷ tuesday ∷ monday ∷ []))
        ≡ hours_on monday 0 (monday ∷ tuesday ∷ monday ∷ []))
by_date-hours_on_example = by_date-hours_on (monday ∷ tuesday ∷ monday ∷ []) monday
