-- ===== src/Store/Revoke.antt =====
-- `revoke` and the other updates: a revoked key stays revoked, whatever is done to the store.
use mathlib.Core.Option
use shiden_api.Base.{
  ℕ, ◌≡◌, refl, ap, ◌∙◌, inl, inr, Bool, true, false, List, [], ◌∷◌, map, some, Bool-cases, arith,
  length, keep,
}
use shiden_api.Base.Text.{Text}
use shiden_api.Keys.{looks_like_key, hash_key, GeneratedKey}
use shiden_api.Store.{
  ApiKeyRecord, KeyStore, UsageEvent, is_active, find_hash, IssueResult, issue_key, lookup,
  is_revoked_by, revoke_row, revoke, touch_row, touch, record_usage,
}
use shiden_api.Store.Rows.{IsValid, Keeps, find_hash-map, find_hash-append, map-IsValid}
use shiden_api.Store.Issue.{
  Inserted, added, clash, Issued, refused, tried, issue_key-Issued, issue_key-IsValid,
}

revoke_row-Keeps : (arg now : Text) → Keeps (revoke_row arg now)
revoke_row-Keeps arg now = record { id_is = λ r. ground arith; hash_is = λ r. ground arith }

touch_row-Keeps : (k : ℕ) (now : Text) → Keeps (touch_row k now)
touch_row-Keeps k now = record { id_is = λ r. ground arith; hash_is = λ r. ground arith }

row_done : (arg now : Text) (r : ApiKeyRecord) → is_revoked_by arg (revoke_row arg now r) ≡ false
unfolding is_revoked_by is_active
row_done arg now r = ground arith

none_left :
    (arg now : Text) (rs : List ApiKeyRecord)
    → length (keep (is_revoked_by arg) (map (revoke_row arg now) rs)) ≡ 0
none_left arg now [] = refl
none_left arg now (r ∷ rs) = rw (row_done arg now r) (none_left arg now rs)

module _ (sha256 : Text → Text) where
  -- A lookup of any secret after `revoke` finds the row that it found before, marked with the
  -- time if it was active and the argument is its id or its display. A second call with that
  -- argument, at any later time, reports that nothing has changed.
  pub lookup-revoke :
      (s : KeyStore) (arg now secret later : Text)
      → (lookup sha256 (revoke s arg now).0 secret
          ≡ Option.map (revoke_row arg now) (lookup sha256 s secret))
        × ((revoke (revoke s arg now).0 arg later).1 ≡ false)
  unfolding lookup revoke
  lookup-revoke s arg now secret later = (found, rw (none_left arg now s.keys))
    where
      found :
          lookup sha256 (revoke s arg now).0 secret
          ≡ Option.map (revoke_row arg now) (lookup sha256 s secret)
      found = elim (Bool-cases (looks_like_key secret)) [
        | inl k ↦ rw k (
            find_hash-map (revoke_row arg now) (revoke_row-Keeps arg now) (hash_key sha256 secret)
              s.keys)
        | inr k ↦ rw k
      ]

-- The operations of the store that write.
pub data Op : Type 0 where
  issue : Text → List Text → ℕ → Text → Text → Text → Op
  revoke_by : Text → Text → Op
  touch_key : ℕ → Text → Bool → Op
  usage : UsageEvent → Bool → Op

-- The revoked row with hash `h` is still there, with its id and its time of revocation.
abbrev pub IsRevoked : Text → ℕ → Text → KeyStore → Type 0
IsRevoked h id at s =
    (r : ApiKeyRecord) × (find_hash h s.keys ≡ some r) × (r.id ≡ id) × (r.revoked_at ≡ some at)

map-IsRevoked :
    (f : ApiKeyRecord → ApiKeyRecord) (s : KeyStore) (h : Text) (id : ℕ) (at : Text)
    → Keeps f
    → ((r : ApiKeyRecord) → r.revoked_at ≡ some at → (f r).revoked_at ≡ some at)
    → IsRevoked h id at s
    → IsRevoked h id at (record s { keys = map f s.keys })
map-IsRevoked f s h id at k keeps (r, found, id_is, revoked) =
    (f r, find_hash-map f k h s.keys ∙ ap (Option.map f) found, k.id_is r ∙ id_is, keeps r revoked)

revoke_row-revoked_at :
    (arg now at : Text) (r : ApiKeyRecord)
    → r.revoked_at ≡ some at
    → (revoke_row arg now r).revoked_at ≡ some at
unfolding is_revoked_by is_active
revoke_row-revoked_at arg now at r e = ground arith

Inserted-IsRevoked :
    {s : KeyStore} {g : GeneratedKey} {out : KeyStore × IssueResult} (h : Text) (id : ℕ) (at : Text)
    → Inserted s g out
    → IsRevoked h id at s
    → IsRevoked h id at out.0
Inserted-IsRevoked {s} h id at (added q s' fresh id_is hash_is act e) (r, found, here, revoked) =
    rw e (r, find_hash-append h s.keys (q ∷ []) ∙ rw found, here, revoked)
Inserted-IsRevoked h id at clash i = i

module _ (sha256 : Text → Text) where
  unfoldable pub apply_op : KeyStore → Op → KeyStore
  apply_op s (issue name markets rate env token now) =
      (issue_key sha256 s name markets rate env token now).0
  apply_op s (revoke_by arg now) = (revoke s arg now).0
  apply_op s (touch_key k now fails) = touch s k now fails
  apply_op s (usage e fails) = record_usage s e fails

  unfoldable pub run_ops : KeyStore → List Op → KeyStore
  run_ops s [] = s
  run_ops s (op ∷ ops) = run_ops (apply_op s op) ops

  Issued-IsRevoked :
      {s : KeyStore} {out : KeyStore × IssueResult} (h : Text) (id : ℕ) (at : Text)
      → Issued sha256 s out
      → IsRevoked h id at s
      → IsRevoked h id at out.0
  Issued-IsRevoked h id at refused i = i
  Issued-IsRevoked h id at (tried g out looks hash ins) i = Inserted-IsRevoked h id at ins i

  apply_op-IsRevoked :
      (s : KeyStore) (op : Op) (h : Text) (id : ℕ) (at : Text)
      → IsRevoked h id at s
      → IsRevoked h id at (apply_op s op)
  unfolding apply_op
  apply_op-IsRevoked s (issue name markets rate env token now) h id at i =
      Issued-IsRevoked h id at (issue_key-Issued sha256 s name markets rate env token now) i
  apply_op-IsRevoked s (revoke_by arg now) h id at i =
      unfold revoke in
      map-IsRevoked (revoke_row arg now) s h id at (revoke_row-Keeps arg now)
        (revoke_row-revoked_at arg now at) i
  apply_op-IsRevoked s (touch_key k now true) h id at i = unfold touch in i
  apply_op-IsRevoked s (touch_key k now false) h id at i =
      unfold touch in
      map-IsRevoked (touch_row k now) s h id at (touch_row-Keeps k now) (λ r e. ground arith) i
  apply_op-IsRevoked s (usage e true) h id at i = unfold record_usage in i
  apply_op-IsRevoked s (usage e false) h id at i = unfold record_usage in i

  apply_op-IsValid : (s : KeyStore) (op : Op) → IsValid s → IsValid (apply_op s op)
  unfolding apply_op
  apply_op-IsValid s (issue name markets rate env token now) v =
      issue_key-IsValid sha256 s name markets rate env token now v
  apply_op-IsValid s (revoke_by arg now) v =
      unfold revoke in map-IsValid (revoke_row arg now) (revoke_row-Keeps arg now) s v
  apply_op-IsValid s (touch_key k now true) v = unfold touch in v
  apply_op-IsValid s (touch_key k now false) v =
      unfold touch in map-IsValid (touch_row k now) (touch_row-Keeps k now) s v
  apply_op-IsValid s (usage e true) v = unfold record_usage in v
  apply_op-IsValid s (usage e false) v =
      unfold record_usage in record { table = v.table; ids_below = v.ids_below }

  -- Through any sequence of writes (issue_key, revoke, touch and record_usage, each of which may
  -- fail) from a valid store the store stays valid: ids ascend below the next id, and hashes
  -- differ.
  pub run_ops-IsValid : (s : KeyStore) (ops : List Op) → IsValid s → IsValid (run_ops s ops)
  unfolding run_ops
  run_ops-IsValid s [] v = v
  run_ops-IsValid s (op ∷ ops) v = run_ops-IsValid (apply_op s op) ops (apply_op-IsValid s op v)

  -- Through any sequence of writes a key that is revoked keeps its row, its id and its time of
  -- revocation: nothing makes it active again.
  pub run_ops-IsRevoked :
      (s : KeyStore) (ops : List Op) (h : Text) (id : ℕ) (at : Text)
      → IsRevoked h id at s
      → IsRevoked h id at (run_ops s ops)
  unfolding run_ops
  run_ops-IsRevoked s [] h id at i = i
  run_ops-IsRevoked s (op ∷ ops) h id at i =
      run_ops-IsRevoked (apply_op s op) ops h id at (apply_op-IsRevoked s op h id at i)
