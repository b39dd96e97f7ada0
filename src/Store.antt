-- ===== src/Store.antt =====
-- The key store, src/shiden/api/auth/store.py: the two SQLite tables as lists of rows in
-- insertion order, each operation one transaction. A time stamp is the text that `_utcnow`
-- returns, and an argument. `fails` says that SQLite raises sqlite3.Error in a best-effort write.
-- The markets of a row are stored as they are: their JSON form is outside the model, and so is
-- the duration of a request among the fields of a usage event.
pub mod Rows
pub mod Issue
pub mod Revoke
pub mod Usage
use shiden_api.Base.{
  ℕ, zero, suc, ◌+◌, Bool, true, false, not, ◌&&◌, ◌||◌, List, [], ◌∷◌, ◌++◌, Option, none, some,
  ◌==◌, ltb, leb, length, keep, map, if◌then◌else◌,
}
use shiden_api.Base.Text.{Text, codes, text_eq, text_leb, mem_text, strip, decimal}
use shiden_api.Keys.{GeneratedKey, is_empty, looks_like_key, hash_key, generate_key}

-- ALL_MARKETS
abbrev pub all_markets : Text
all_markets = codes "*"

pub record ApiKeyRecord : Type 0 where
  pub id : ℕ
  pub key_hash : Text
  pub display : Text
  pub name : Text
  pub environment : Text
  pub markets : List Text
  pub rate_limit_per_min : ℕ
  pub created_at : Text
  pub revoked_at : Option Text
  pub last_used_at : Option Text

unfoldable pub is_active : ApiKeyRecord → Bool
is_active r = elim r.revoked_at [ none ↦ true | some at ↦ false ]

unfoldable pub allows_market : ApiKeyRecord → Text → Bool
allows_market r market_id = mem_text all_markets r.markets || mem_text market_id r.markets

pub record UsageEvent : Type 0 where
  pub key_id : Option ℕ
  pub occurred_at : Text
  pub method : Text
  pub path : Text
  pub market_id : Option Text
  pub status_code : ℕ
  pub response_rows : Option ℕ

-- `keys` and `events` are the tables; AUTOINCREMENT gives `next_id`, above every id so far.
pub record KeyStore : Type 0 where
  pub keys : List ApiKeyRecord
  pub next_id : ℕ
  pub events : List UsageEvent

abbrev pub empty_store : KeyStore
empty_store = record { keys = []; next_id = 1; events = [] }

-- SELECT ... WHERE key_hash = ?, the first row.
unfoldable pub find_hash : Text → List ApiKeyRecord → Option ApiKeyRecord
find_hash h [] = none
find_hash h (r ∷ rs) = if text_eq r.key_hash h then some r else find_hash h rs

-- What `issue_key` does: it returns the secret and the record, or raises ValueError, or the
-- UNIQUE constraint on `key_hash` raises IntegrityError.
pub data IssueResult : Type 0 where
  issued : Text → ApiKeyRecord → IssueResult
  value_error integrity_error : IssueResult

abbrev pub or_all : List Text → List Text
or_all [] = all_markets ∷ []
or_all (m ∷ ms) = m ∷ ms

abbrev pub new_record : ℕ → GeneratedKey → Text → List Text → ℕ → Text → ApiKeyRecord
new_record id g name markets rate now = record {
  id = id;
  key_hash = g.key_hash;
  display = g.display;
  name = strip name;
  environment = g.environment;
  markets = or_all markets;
  rate_limit_per_min = rate;
  created_at = now;
  revoked_at = none;
  last_used_at = none;
}

-- The INSERT and the SELECT after it.
unfoldable pub insert_key :
    KeyStore → GeneratedKey → Text → List Text → ℕ → Text → KeyStore × IssueResult
insert_key s g name markets rate now =
    let r = new_record s.next_id g name markets rate now in
    elim (find_hash g.key_hash s.keys) [
      | none ↦ (record s { keys = s.keys ++ r ∷ []; next_id = s.next_id + 1 }, issued g.secret r)
      | some old ↦ (s, integrity_error)
    ]

module _ (sha256 : Text → Text) where
  unfoldable pub issue_key :
      KeyStore → Text → List Text → ℕ → Text → Text → Text → KeyStore × IssueResult
  issue_key s name markets rate environment token now =
      if is_empty (strip name)
      then (s, value_error)
      else if ltb rate 1
      then (s, value_error)
      else elim (generate_key sha256 environment token) [
        | none ↦ (s, value_error)
        | some g ↦ insert_key s g name markets rate now
      ]

  unfoldable pub lookup : KeyStore → Text → Option ApiKeyRecord
  lookup s secret =
      if not (looks_like_key secret) then none else find_hash (hash_key sha256 secret) s.keys

-- ORDER BY id
unfoldable pub insert_by_id : ApiKeyRecord → List ApiKeyRecord → List ApiKeyRecord
insert_by_id r [] = r ∷ []
insert_by_id r (q ∷ rs) = if leb r.id q.id then r ∷ q ∷ rs else q ∷ insert_by_id r rs

unfoldable pub order_by_id : List ApiKeyRecord → List ApiKeyRecord
order_by_id [] = []
order_by_id (r ∷ rs) = insert_by_id r (order_by_id rs)

unfoldable pub list_keys : KeyStore → Bool → List ApiKeyRecord
list_keys s include_revoked =
    order_by_id (if include_revoked then s.keys else keep is_active s.keys)

-- WHERE revoked_at IS NULL AND (CAST(id AS TEXT) = ? OR display = ?)
unfoldable pub is_revoked_by : Text → ApiKeyRecord → Bool
is_revoked_by arg r = is_active r && (text_eq (decimal r.id) arg || text_eq r.display arg)

abbrev pub revoke_row : Text → Text → ApiKeyRecord → ApiKeyRecord
revoke_row arg now r = if is_revoked_by arg r then record r { revoked_at = some now } else r

-- The new table, and whether a row has changed.
unfoldable pub revoke : KeyStore → Text → Text → KeyStore × Bool
revoke s arg now = (
  record s { keys = map (revoke_row arg now) s.keys },
  ltb 0 (length (keep (is_revoked_by arg) s.keys)),
)

abbrev pub touch_row : ℕ → Text → ApiKeyRecord → ApiKeyRecord
touch_row key_id now r = if r.id == key_id then record r { last_used_at = some now } else r

unfoldable pub touch : KeyStore → ℕ → Text → Bool → KeyStore
touch s key_id now fails =
    if fails then s else record s { keys = map (touch_row key_id now) s.keys }

unfoldable pub record_usage : KeyStore → UsageEvent → Bool → KeyStore
record_usage s e fails = if fails then s else record s { events = s.events ++ e ∷ [] }

abbrev pub counts_since : ℕ → Text → UsageEvent → Bool
counts_since key_id since e = elim e.key_id [
  | none ↦ false
  | some k ↦ (k == key_id) && text_leb since e.occurred_at
]

unfoldable pub count_requests_since : KeyStore → ℕ → Text → ℕ
count_requests_since s key_id since = length (keep (counts_since key_id since) s.events)
