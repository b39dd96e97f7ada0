-- ===== src/RateLimit/HitMap.antt =====
-- A `defaultdict(deque)` keyed by numbers: a missing key reads as an empty deque.
use shiden_api.Base.{ℕ, ◌≡◌, refl, ◌≢◌, List, [], ◌∷◌, arith, ◌==◌, if◌then◌else◌}

abbrev pub Hits : Type 0
Hits = List (ℕ × List ℕ)

unfoldable pub get : ℕ → Hits → List ℕ
get k [] = []
get k ((j, v) ∷ d) = if j == k then v else get k d

-- The deque that `check` has mutated, under its key.
unfoldable pub put : ℕ → List ℕ → Hits → Hits
put k v [] = (k, v) ∷ []
put k v ((j, w) ∷ d) = if j == k then (k, v) ∷ d else (j, w) ∷ put k v d

-- `pop(key_id, None)`, for a dict with one entry for each key.
unfoldable pub remove : ℕ → Hits → Hits
remove k [] = []
remove k ((j, w) ∷ d) = if j == k then remove k d else (j, w) ∷ remove k d

pub get-put :
    (k j : ℕ) (v : List ℕ) (d : Hits) → get j (put k v d) ≡ (if k == j then v else get j d)
unfolding get put
get-put k j v [] = refl
get-put k j v ((i, w) ∷ d) = ground (arith, get-put k j v d)

pub get-remove : (k j : ℕ) (d : Hits) → get j (remove k d) ≡ (if k == j then [] else get j d)
unfolding get remove
get-remove k j [] = ground arith
get-remove k j ((i, w) ∷ d) = ground (arith, get-remove k j d)

pub get-put_self : (k : ℕ) (v : List ℕ) (d : Hits) → get k (put k v d) ≡ v
get-put_self k v d = ground (arith, get-put k k v d)

pub get-remove_self : (k : ℕ) (d : Hits) → get k (remove k d) ≡ []
get-remove_self k d = ground (arith, get-remove k k d)

pub get-remove_ne : (k j : ℕ) (d : Hits) → j ≢ k → get j (remove k d) ≡ get j d
get-remove_ne k j d ne = ground (arith, get-remove k j d)
