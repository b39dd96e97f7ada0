-- ===== src/Store/Rows.antt =====
-- The table of keys: its invariant, and the lookup by hash under the updates of the store.
use mathlib.Core.Option
use shiden_api.Base.{
  ℕ, ◌<◌, ◌≡◌, refl, sym, ap, ap₂, ◌∙◌, inl, inr, false, List, [], ◌∷◌, ◌++◌, map, none, some, All,
  All-append, Bool-cases, arith,
}
use shiden_api.Base.Text.{Text, text_eq, text_eq_sound}
use shiden_api.Store.{ApiKeyRecord, KeyStore, find_hash}

-- Ids ascend and hashes differ.
abbrev pub IsTable : List ApiKeyRecord → Type 0
IsTable [] = Unit
IsTable (r ∷ rs) =
    All (λ q. (r.id < q.id) × (text_eq r.key_hash q.key_hash ≡ false)) rs × IsTable rs

pub record IsValid (s : KeyStore) : Type 0 where
  pub table : IsTable s.keys
  pub ids_below : All (λ r. r.id < s.next_id) s.keys

-- An update that touches neither ids nor hashes.
pub record Keeps (f : ApiKeyRecord → ApiKeyRecord) : Type 0 where
  pub id_is : (r : ApiKeyRecord) → (f r).id ≡ r.id
  pub hash_is : (r : ApiKeyRecord) → (f r).key_hash ≡ r.key_hash

pub find_hash-append :
    (h : Text) (rs qs : List ApiKeyRecord)
    → find_hash h (rs ++ qs) ≡ elim (find_hash h rs) [ none ↦ find_hash h qs | some r ↦ some r ]
unfolding find_hash
find_hash-append h [] qs = refl
find_hash-append h (r ∷ rs) qs = elim (Bool-cases (text_eq r.key_hash h)) [
  | inl e ↦ rw e
  | inr e ↦ rw e (find_hash-append h rs qs)
]

pub find_hash-none :
    (h : Text) (rs : List ApiKeyRecord)
    → find_hash h rs ≡ none
    → All (λ q. text_eq q.key_hash h ≡ false) rs
unfolding find_hash
find_hash-none h [] e = tt
find_hash-none h (r ∷ rs) e = elim (Bool-cases (text_eq r.key_hash h)) [
  | inl y ↦ cc (sym (rw y at e))
  | inr n ↦ (n, find_hash-none h rs (rw n at e))
]

-- The row that is found has the hash.
pub find_hash_sound :
    (h : Text) (rs : List ApiKeyRecord) (r : ApiKeyRecord)
    → find_hash h rs ≡ some r
    → r.key_hash ≡ h
unfolding find_hash
find_hash_sound h [] r e = cc
find_hash_sound h (q ∷ rs) r e = elim (Bool-cases (text_eq q.key_hash h)) [
  | inl y ↦ text_eq_sound r.key_hash h (ground (arith, rw y at e))
  | inr n ↦ find_hash_sound h rs r (rw n at e)
]

module _ (f : ApiKeyRecord → ApiKeyRecord) (k : Keeps f) where
  pub find_hash-map :
      (h : Text) (rs : List ApiKeyRecord) → find_hash h (map f rs) ≡ Option.map f (find_hash h rs)
  unfolding find_hash
  find_hash-map h [] = refl
  find_hash-map h (r ∷ rs) = elim (Bool-cases (text_eq r.key_hash h)) [
    | inl e ↦ rw (ap (λ t. text_eq t h) (k.hash_is r) ∙ e, e)
    | inr e ↦ rw (ap (λ t. text_eq t h) (k.hash_is r) ∙ e, e) (find_hash-map h rs)
  ]

  after_row :
      (r : ApiKeyRecord) (rs : List ApiKeyRecord)
      → All (λ q. (r.id < q.id) × (text_eq r.key_hash q.key_hash ≡ false)) rs
      → All (λ q. ((f r).id < q.id) × (text_eq (f r).key_hash q.key_hash ≡ false)) (map f rs)
  after_row r [] h = tt
  after_row r (q ∷ rs) h = (
    (omega (arith, h.0, k.id_is r, k.id_is q), ap₂ text_eq (k.hash_is r) (k.hash_is q) ∙ h.0.1),
    after_row r rs h.1,
  )

  map-IsTable : (rs : List ApiKeyRecord) → IsTable rs → IsTable (map f rs)
  map-IsTable [] h = tt
  map-IsTable (r ∷ rs) h = (after_row r rs h.0, map-IsTable rs h.1)

  map-ids_below :
      (n : ℕ) (rs : List ApiKeyRecord) → All (λ r. r.id < n) rs → All (λ r. r.id < n) (map f rs)
  map-ids_below n [] h = tt
  map-ids_below n (r ∷ rs) h = (omega (arith, h.0, k.id_is r), map-ids_below n rs h.1)

  pub map-IsValid : (s : KeyStore) → IsValid s → IsValid (record s { keys = map f s.keys })
  map-IsValid s v = record {
    table = map-IsTable s.keys v.table;
    ids_below = map-ids_below s.next_id s.keys v.ids_below;
  }

-- A row with a new id and a new hash goes to the end.
pub append-IsTable :
    (r : ApiKeyRecord) (rs : List ApiKeyRecord)
    → All (λ q. q.id < r.id) rs
    → All (λ q. text_eq q.key_hash r.key_hash ≡ false) rs
    → IsTable rs
    → IsTable (rs ++ r ∷ [])
append-IsTable r [] below fresh t = (tt, tt)
append-IsTable r (q ∷ rs) below fresh t = (
  All-append (λ p. (q.id < p.id) × (text_eq q.key_hash p.key_hash ≡ false)) rs (r ∷ []) t.0
      ((below.0, fresh.0), tt),
  append-IsTable r rs below.1 fresh.1 t.1,
)
