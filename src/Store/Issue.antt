-- ===== src/Store/Issue.antt =====
-- `issue_key`: the secret that it returns finds the record that it returns.
use shiden_api.Base.{
  ℕ, ◌+◌, ◌<◌, ◌≡◌, refl, sym, ap, subst, ◌∙◌, inl, inr, true, false, List, [], ◌∷◌, ◌++◌, Option,
  none, some, All, All-append, All-imp, Bool-cases, Option-cases, arith, if◌then◌else◌, ltb,
}
use shiden_api.Base.Text.{Text, text_eq, text_eq_refl, text_eq_sound, strip}
use shiden_api.Keys.{GeneratedKey, is_empty, looks_like_key, hash_key, generate_key}
use shiden_api.Keys.Minted.{generate_key_sound}
use shiden_api.Store.{
  ApiKeyRecord, KeyStore, is_active, find_hash, IssueResult, issued, value_error, integrity_error,
  new_record, insert_key, issue_key, lookup,
}
use shiden_api.Store.Rows.{IsValid, find_hash-append, find_hash-none, append-IsTable}

-- What an insertion with result `result` from `s` to `s'` has done.
pub data Inserted (s : KeyStore) (g : GeneratedKey) : KeyStore × IssueResult → Type 0 where
  added :
      (r : ApiKeyRecord) (s' : KeyStore)
      → find_hash g.key_hash s.keys ≡ none
      → r.id ≡ s.next_id
      → r.key_hash ≡ g.key_hash
      → is_active r ≡ true
      → s' ≡ record s { keys = s.keys ++ r ∷ []; next_id = s.next_id + 1 }
      → Inserted s g (s', issued g.secret r)
  clash : Inserted s g (s, integrity_error)

insert_key-Inserted :
    (s : KeyStore) (g : GeneratedKey) (name : Text) (markets : List Text) (rate : ℕ) (now : Text)
    → Inserted s g (insert_key s g name markets rate now)
unfolding insert_key
insert_key-Inserted s g name markets rate now = elim (Option-cases (find_hash g.key_hash s.keys)) [
  | inl n ↦
      rw (n, insert_key)
        (added (new_record s.next_id g name markets rate now) _ n refl refl
          (unfold is_active in refl) refl)
  | inr (r, e) ↦ rw (e, insert_key) clash
]

Inserted-IsValid :
    (s : KeyStore) (g : GeneratedKey) {out : KeyStore × IssueResult}
    → Inserted s g out
    → IsValid s
    → IsValid out.0
Inserted-IsValid s g (added r s' n id_is hash_is act e) v = rw e (record {
  table =
      append-IsTable r s.keys (subst (λ n. All (λ q. q.id < n) s.keys) (sym id_is) v.ids_below)
        (subst (λ h. All (λ q. text_eq q.key_hash h ≡ false) s.keys) (sym hash_is)
          (find_hash-none g.key_hash s.keys n))
        v.table;
  ids_below =
      All-append (λ q. q.id < s.next_id + 1) s.keys (r ∷ [])
        (All-imp (λ q. q.id < s.next_id) (λ q. q.id < s.next_id + 1) s.keys (λ q h. omega arith)
          v.ids_below)
        (omega (arith, id_is), tt);
})
Inserted-IsValid s g clash v = v

module _ (sha256 : Text → Text) where
  -- The ways through `issue_key`.
  pub data Issued (s : KeyStore) : KeyStore × IssueResult → Type 0 where
    refused : Issued s (s, value_error)
    tried :
        (g : GeneratedKey) (out : KeyStore × IssueResult)
        → looks_like_key g.secret ≡ true
        → g.key_hash ≡ hash_key sha256 g.secret
        → Inserted s g out
        → Issued s out

  pub issue_key-Issued :
      (s : KeyStore) (name : Text) (markets : List Text) (rate : ℕ) (env token now : Text)
      → Issued s (issue_key sha256 s name markets rate env token now)
  unfolding issue_key
  issue_key-Issued s name markets rate env token now = elim (Bool-cases (is_empty (strip name))) [
    | inl e ↦ rw (e, issue_key) refused
    | inr e ↦ elim (Bool-cases (ltb rate 1)) [
      | inl z ↦ rw (e, z, issue_key) refused
      | inr z ↦ elim (Option-cases (generate_key sha256 env token)) [
        | inl n ↦ rw (e, z, n, issue_key) refused
        | inr (g, m) ↦
            let (looks, hash) = generate_key_sound sha256 env token g m in
            rw (e, z, m, issue_key)
              (tried g _ looks hash (insert_key-Inserted s g name markets rate now))
      ]
    ]
  ]

  Issued-IsValid :
      (s : KeyStore) {out : KeyStore × IssueResult} → Issued s out → IsValid s → IsValid out.0
  Issued-IsValid s refused v = v
  Issued-IsValid s (tried g out looks hash i) v = Inserted-IsValid s g i v

  pub issue_key-IsValid :
      (s : KeyStore) (name : Text) (markets : List Text) (rate : ℕ) (env token now : Text)
      → IsValid s
      → IsValid (issue_key sha256 s name markets rate env token now).0
  issue_key-IsValid s name markets rate env token now =
      Issued-IsValid s (issue_key-Issued s name markets rate env token now)

  -- What a call from `s` promises: an error changes nothing; a key that is returned is found by
  -- its secret and is active, the store stays valid, and the hash `other` finds the new row if
  -- it is the new row's and what it found before if it is not.
  abbrev pub Promises : Text → KeyStore → KeyStore × IssueResult → Type 0
  Promises other s (s', value_error) = s' ≡ s
  Promises other s (s', integrity_error) = s' ≡ s
  Promises other s (s', issued secret r) =
      IsValid s'
      × (lookup sha256 s' secret ≡ some r)
      × (is_active r ≡ true)
      × (find_hash other s'.keys
          ≡ (if text_eq r.key_hash other then some r else find_hash other s.keys))

  lookup_added :
      (s : KeyStore) (secret : Text) (r : ApiKeyRecord)
      → looks_like_key secret ≡ true
      → r.key_hash ≡ hash_key sha256 secret
      → find_hash r.key_hash s.keys ≡ none
      → lookup sha256 (record s { keys = s.keys ++ r ∷ []; next_id = s.next_id + 1 }) secret
        ≡ some r
  unfolding lookup
  lookup_added s secret r looks hash fresh = rw looks (
      ap (λ h. find_hash h (s.keys ++ r ∷ [])) (sym hash)
      ∙ rw (find_hash-append r.key_hash s.keys (r ∷ []), fresh) (found r))
    where
      found : (r : ApiKeyRecord) → find_hash r.key_hash (r ∷ []) ≡ some r
      found r = unfold find_hash in rw (text_eq_refl r.key_hash)

  found_after :
      (s : KeyStore) (r : ApiKeyRecord) (other : Text)
      → find_hash r.key_hash s.keys ≡ none
      → find_hash other (s.keys ++ r ∷ [])
        ≡ (if text_eq r.key_hash other then some r else find_hash other s.keys)
  found_after s r other fresh = elim (Bool-cases (text_eq r.key_hash other)) [
    | inl e ↦ rw e (
        find_hash-append other s.keys (r ∷ [])
        ∙ rw (ap (λ h. find_hash h s.keys) (sym (text_eq_sound r.key_hash other e)) ∙ fresh)
            (unfold find_hash in rw e))
    | inr e ↦ rw e (
        find_hash-append other s.keys (r ∷ [])
        ∙ (ap (λ q. elim (find_hash other s.keys) [ none ↦ q | some r ↦ some r ]) (not_found e)
            ∙ same (find_hash other s.keys)))
  ]
    where
      not_found : text_eq r.key_hash other ≡ false → find_hash other (r ∷ []) ≡ none
      not_found e = unfold find_hash in rw e

      same : (o : Option ApiKeyRecord) → (elim o [ none ↦ none | some r ↦ some r ]) ≡ o
      same none = refl
      same (some r) = refl

  Inserted-Promises :
      (other : Text) (s : KeyStore) (g : GeneratedKey) (out : KeyStore × IssueResult)
      → IsValid s
      → looks_like_key g.secret ≡ true
      → g.key_hash ≡ hash_key sha256 g.secret
      → Inserted s g out
      → Promises other s out
  Inserted-Promises other s g out v looks hash (added r s' fresh id_is hash_is act e) =
      let i : Inserted s g (s', issued g.secret r) = added r s' fresh id_is hash_is act e in
      let fresh' = ap (λ h. find_hash h s.keys) hash_is ∙ fresh in
      (
        Inserted-IsValid s g i v,
        rw e (lookup_added s g.secret r looks (hash_is ∙ hash) fresh'),
        act,
        rw e (found_after s r other fresh'),
      )
  Inserted-Promises other s g out v looks hash clash = refl

  Issued-Promises :
      (other : Text) (s : KeyStore) (out : KeyStore × IssueResult)
      → IsValid s
      → Issued s out
      → Promises other s out
  Issued-Promises other s out v refused = refl
  Issued-Promises other s out v (tried g _ looks hash i) =
      Inserted-Promises other s g out v looks hash i

  -- From a valid store `issue_key` either raises and changes nothing, or returns a secret and a
  -- record such that the store stays valid, a lookup of the secret finds the record, the record is
  -- active, and a hash finds the new record if it is the record's hash and what it found before if
  -- it is not.
  pub issue_key-Promises :
      (s : KeyStore) (name : Text) (markets : List Text) (rate : ℕ) (env token now other : Text)
      → IsValid s
      → Promises other s (issue_key sha256 s name markets rate env token now)
  issue_key-Promises s name markets rate env token now other v =
      Issued-Promises other s _ v (issue_key-Issued s name markets rate env token now)
