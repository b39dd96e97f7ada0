-- ===== src/Store/Usage.antt =====
-- `usage_summary` of src/shiden/api/auth/store.py: its query as a grouping of the events. The
-- average of the durations is left out, as events carry no duration here.
use shiden_api.Base.{
  ℕ, suc, ◌+◌, ◌≡◌, refl, ap, ◌∙◌, inl, inr, Bool, true, false, List, [], ◌∷◌, Option, none, some,
  ◌==◌, leb, length, keep, map, if◌then◌else◌, arith, Bool-cases,
}
use shiden_api.Base.Text.{Text, codes, text_leb}
use shiden_api.Keys.{is_empty}
use shiden_api.Store.{ApiKeyRecord, UsageEvent, KeyStore}

pub record UsageRow : Type 0 where
  pub key_display : Text
  pub name : Text
  pub requests : ℕ
  pub errors : ℕ
  pub last_seen : Text

-- GROUP BY u.key_id: a group has the key of its events, one of them, and the others.
pub record Group : Type 0 where
  pub key_id : Option ℕ
  pub event : UsageEvent
  pub others : List UsageEvent

abbrev pub same_key : Option ℕ → Option ℕ → Bool
same_key none none = true
same_key none (some b) = false
same_key (some a) none = false
same_key (some a) (some b) = a == b

unfoldable pub add_event : UsageEvent → List Group → List Group
add_event e [] = record { key_id = e.key_id; event = e; others = [] } ∷ []
add_event e (g ∷ gs) =
    let rest = add_event e gs in
    if same_key g.key_id e.key_id then record g { others = e ∷ g.others } ∷ gs else g ∷ rest

unfoldable pub group_by_key : List UsageEvent → List Group
group_by_key [] = []
group_by_key (e ∷ es) = add_event e (group_by_key es)

-- LEFT JOIN api_keys k ON k.id = u.key_id
unfoldable pub find_id : Option ℕ → List ApiKeyRecord → Option ApiKeyRecord
find_id none rs = none
find_id (some k) [] = none
find_id (some k) (r ∷ rs) = if r.id == k then some r else find_id (some k) rs

abbrev pub is_error : UsageEvent → Bool
is_error e = leb 400 e.status_code

-- MAX(u.occurred_at)
unfoldable pub latest : Text → List UsageEvent → Text
latest t [] = t
latest t (e ∷ es) = if text_leb t e.occurred_at then latest e.occurred_at es else latest t es

unfoldable pub usage_row : List ApiKeyRecord → Group → UsageRow
usage_row keys g = record {
  key_display = elim (find_id g.key_id keys) [
    | none ↦ codes "<unauthenticated>"
    | some r ↦ r.display
  ];
  name = elim (find_id g.key_id keys) [ none ↦ codes "-" | some r ↦ r.name ];
  requests = length (g.event ∷ g.others);
  errors = length (keep is_error (g.event ∷ g.others));
  last_seen = latest g.event.occurred_at g.others;
}

-- ORDER BY requests DESC; SQLite leaves the order of equals open.
unfoldable pub insert_row : UsageRow → List UsageRow → List UsageRow
insert_row r [] = r ∷ []
insert_row r (x ∷ xs) =
    let rest = insert_row r xs in if leb x.requests r.requests then r ∷ x ∷ xs else x ∷ rest

unfoldable pub order_rows : List UsageRow → List UsageRow
order_rows [] = []
order_rows (r ∷ rs) = insert_row r (order_rows rs)

-- `if since:` takes an empty text for none.
abbrev pub is_since : Option Text → UsageEvent → Bool
is_since none e = true
is_since (some since) e = if is_empty since then true else text_leb since e.occurred_at

unfoldable pub usage_summary : KeyStore → Option Text → List UsageRow
usage_summary s since =
    order_rows (map (usage_row s.keys) (group_by_key (keep (is_since since) s.events)))

-- The sum of a column.
unfoldable pub total : (UsageRow → ℕ) → List UsageRow → ℕ
total column [] = 0
total column (r ∷ rs) = column r + total column rs

module _ (column : UsageRow → ℕ) where
  total-insert_row :
      (r : UsageRow) (rs : List UsageRow)
      → total column (insert_row r rs) ≡ column r + total column rs
  unfolding total insert_row
  total-insert_row r [] = refl
  total-insert_row r (x ∷ xs) = ground (arith, total-insert_row r xs)

  total-order_rows : (rs : List UsageRow) → total column (order_rows rs) ≡ total column rs
  unfolding total order_rows
  total-order_rows [] = refl
  total-order_rows (r ∷ rs) = omega (arith, total-insert_row r (order_rows rs), total-order_rows rs)

module _ (keys : List ApiKeyRecord) where
  requests-add_event :
      (e : UsageEvent) (gs : List Group)
      → total (λ r. r.requests) (map (usage_row keys) (add_event e gs))
        ≡ suc (total (λ r. r.requests) (map (usage_row keys) gs))
  unfolding total add_event usage_row
  requests-add_event e [] = refl
  requests-add_event e (g ∷ gs) = elim (Bool-cases (same_key g.key_id e.key_id)) [
    | inl y ↦ rw (y, add_event) (omega arith)
    | inr n ↦ rw (n, add_event) (omega (arith, requests-add_event e gs))
  ]

  requests-group_by_key :
      (es : List UsageEvent)
      → total (λ r. r.requests) (map (usage_row keys) (group_by_key es)) ≡ length es
  unfolding total group_by_key
  requests-group_by_key [] = refl
  requests-group_by_key (e ∷ es) =
      requests-add_event e (group_by_key es) ∙ ap suc (requests-group_by_key es)

  errors-add_event :
      (e : UsageEvent) (gs : List Group)
      → total (λ r. r.errors) (map (usage_row keys) (add_event e gs))
        ≡ length (keep is_error (e ∷ [])) + total (λ r. r.errors) (map (usage_row keys) gs)
  unfolding total add_event usage_row
  errors-add_event e [] = refl
  errors-add_event e (g ∷ gs) = elim (Bool-cases (same_key g.key_id e.key_id)) [
    | inl y ↦ rw (y, add_event) (ground arith)
    | inr n ↦ rw (n, add_event) (ground (arith, errors-add_event e gs))
  ]

  errors-group_by_key :
      (es : List UsageEvent)
      → total (λ r. r.errors) (map (usage_row keys) (group_by_key es)) ≡ length (keep is_error es)
  unfolding total group_by_key
  errors-group_by_key [] = refl
  errors-group_by_key (e ∷ es) =
      errors-add_event e (group_by_key es) ∙ ground (arith, errors-group_by_key es)

-- The requests that the groups of one key count.
unfoldable pub requests_of : Option ℕ → List Group → ℕ
requests_of k [] = 0
requests_of k (g ∷ gs) =
    (if same_key g.key_id k then length (g.event ∷ g.others) else 0) + requests_of k gs

same_key_eq : (a b : Option ℕ) → same_key a b ≡ true → a ≡ b
same_key_eq none none t = refl
same_key_eq none (some b) t = cc
same_key_eq (some a) none t = cc
same_key_eq (some a) (some b) t = ap some (ground (arith, t))

one_more :
    (b c : Bool)
    → b ≡ c
    → (n m : ℕ)
    → (if b then suc (suc n) else 0) + m ≡ (if c then 1 else 0) + ((if b then suc n else 0) + m)
one_more b c e n m = ground (arith, e)

module _ (k : Option ℕ) where
  requests_of-add_event :
      (e : UsageEvent) (gs : List Group)
      → requests_of k (add_event e gs) ≡ (if same_key e.key_id k then 1 else 0) + requests_of k gs
  unfolding requests_of add_event
  requests_of-add_event e [] = refl
  requests_of-add_event e (g ∷ gs) = elim (Bool-cases (same_key g.key_id e.key_id)) [
    | inl y ↦
        rw (y, add_event)
          (one_more (same_key g.key_id k) (same_key e.key_id k)
            (ap (λ a. same_key a k) (same_key_eq g.key_id e.key_id y)) (length g.others)
            (requests_of k gs))
    | inr n ↦ rw (n, add_event) (omega (arith, requests_of-add_event e gs))
  ]

  requests_of-group_by_key :
      (es : List UsageEvent)
      → requests_of k (group_by_key es) ≡ length (keep (λ e. same_key e.key_id k) es)
  unfolding requests_of group_by_key
  requests_of-group_by_key [] = refl
  requests_of-group_by_key (e ∷ es) =
      requests_of-add_event e (group_by_key es) ∙ ground (arith, requests_of-group_by_key es)

-- The summary counts every event since the time given once: the requests of its rows add up to
-- the number of those events, and the errors to the number of those with a status of 400 or more.
-- The groups it stands on count for each key, or for none, the events of that key.
pub usage_summary-total :
    (s : KeyStore) (since : Option Text) (k : Option ℕ)
    → let seen = keep (is_since since) s.events in
      (total (λ r. r.requests) (usage_summary s since) ≡ length seen)
      × (total (λ r. r.errors) (usage_summary s since) ≡ length (keep is_error seen))
      × (requests_of k (group_by_key seen) ≡ length (keep (λ e. same_key e.key_id k) seen))
unfolding usage_summary
usage_summary-total s since k =
    let seen = keep (is_since since) s.events in
    let rows = map (usage_row s.keys) (group_by_key seen) in
    (
      total-order_rows (λ r. r.requests) rows ∙ requests-group_by_key s.keys seen,
      total-order_rows (λ r. r.errors) rows ∙ errors-group_by_key s.keys seen,
      requests_of-group_by_key k seen,
    )
