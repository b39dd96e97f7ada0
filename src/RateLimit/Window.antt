-- ===== src/RateLimit/Window.antt =====
-- The expiry loop against the window that it stands for.
use shiden_api.Base.{
  ℕ, ◌+◌, ◌≤◌, ◌<◌, ◌≡◌, refl, Bool, ◌&&◌, List, [], ◌∷◌, ◌++◌, arith, ltb, leb, length, keep, All,
  All-append,
}
use shiden_api.RateLimit.{expire}

-- A hit at `t` counts at `now` if it is at most a window old, and not in the future.
abbrev pub in_window : ℕ → ℕ → ℕ → Bool
in_window w now t = leb t now && ltb now (t + w)

-- Oldest first, none after `last`.
abbrev pub IsAscending : ℕ → List ℕ → Type 0
IsAscending last [] = Unit
IsAscending last (t ∷ ts) = (t ≤ last) × All (λ u. t ≤ u) ts × IsAscending last ts

pub expire-expire : (w a b : ℕ) (ts : List ℕ) → a ≤ b → expire w b (expire w a ts) ≡ expire w b ts
unfolding expire
expire-expire w a b [] h = refl
expire-expire w a b (t ∷ ts) h = ground (arith, expire-expire w a b ts h)

-- A hit that has just been admitted outlives the expiry.
pub expire-append :
    (w now : ℕ) (ts : List ℕ) → 1 ≤ w → expire w now (ts ++ now ∷ []) ≡ expire w now ts ++ now ∷ []
unfolding expire
expire-append w now [] h = ground arith
expire-append w now (t ∷ ts) h = ground (arith, expire-append w now ts h)

length-keep : (p : ℕ → Bool) (ts : List ℕ) → length (keep p ts) ≤ length ts
length-keep p [] = omega arith
length-keep p (t ∷ ts) = ground (arith, length-keep p ts)

-- What has expired at `a` counts at no later time.
pub keep-le-expire :
    (w a b : ℕ) (ts : List ℕ) → a ≤ b → length (keep (in_window w b) ts) ≤ length (expire w a ts)
unfolding expire
keep-le-expire w a b [] h = omega arith
keep-le-expire w a b (t ∷ ts) h =
    ground (arith, keep-le-expire w a b ts h, length-keep (in_window w b) ts)

keep-All :
    (w now t : ℕ) (ts : List ℕ)
    → now < t + w
    → All (λ u. t ≤ u) ts
    → IsAscending now ts
    → keep (in_window w now) ts ≡ ts
keep-All w now t [] h above asc = refl
keep-All w now t (u ∷ ts) h above asc = ground (arith, keep-All w now t ts h)

-- On hits in order, the loop leaves exactly those that count.
pub expire-eq-keep :
    (w now : ℕ) (ts : List ℕ) → IsAscending now ts → expire w now ts ≡ keep (in_window w now) ts
unfolding expire
expire-eq-keep w now [] asc = refl
expire-eq-keep w now (t ∷ ts) asc = ground (arith, expire-eq-keep w now ts, keep-All w now t ts)

pub IsAscending-append :
    (now last : ℕ) (ts : List ℕ)
    → last ≤ now
    → IsAscending last ts
    → IsAscending now (ts ++ now ∷ [])
IsAscending-append now last [] h asc = omega arith
IsAscending-append now last (t ∷ ts) h asc = (
  omega (arith, asc.0),
  All-append (λ u. t ≤ u) ts (now ∷ []) asc.1 (omega (arith, asc.0), tt),
  IsAscending-append now last ts h asc.2,
)

pub IsAscending-mono :
    (now last : ℕ) (ts : List ℕ) → last ≤ now → IsAscending last ts → IsAscending now ts
IsAscending-mono now last [] h asc = tt
IsAscending-mono now last (t ∷ ts) h asc =
    (omega (arith, asc.0), asc.1, IsAscending-mono now last ts h asc.2)
