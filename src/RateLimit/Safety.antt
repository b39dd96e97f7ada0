-- ===== src/RateLimit/Safety.antt =====
-- No burst gets through: over a run with one limit for a key, no window holds more admissions of
-- that key than the limit.
use mathlib.Core.List.{append_assoc, append-nil}
use shiden_api.Base.{
  ℕ, ◌+◌, ◌≤◌, ◌<◌, ◌≡◌, sym, ap, ◌∙◌, Bool, true, false, ◌&&◌, List, [], ◌∷◌, ◌++◌, ◌==◌, arith,
  length, keep, inl, inr, Bool-cases, if◌then◌else◌, subst,
}
use native.Mathlib.Decide.{dec_le}
use shiden_api.RateLimit.{new_limiter}
use shiden_api.RateLimit.Window.{
  in_window, IsAscending, IsAscending-append, IsAscending-mono, expire-eq-keep, keep-le-expire,
}
use shiden_api.RateLimit.Refines.{
  Event, IsChronological, run, Log, admits, next_log, spec_run, no_hits, limiter-refines,
}

-- The times at which calls for `k` were admitted, by the verdicts of a run.
unfoldable pub admissions : ℕ → List Event → List Bool → List ℕ
admissions k [] bs = []
admissions k (e ∷ es) [] = []
admissions k (e ∷ es) (b ∷ bs) =
    if b && (e.key == k) then e.now ∷ admissions k es bs else admissions k es bs

-- Every call for `k` has the limit `n`.
abbrev pub HasLimit : ℕ → ℕ → List Event → Type 0
HasLimit k n [] = Unit
HasLimit k n (e ∷ es) = (if e.key == k then e.limit ≡ n else Unit) × HasLimit k n es

-- At no time does the window hold more than `n` of the times.
abbrev pub IsWithin : ℕ → ℕ → List ℕ → Type 0
IsWithin w n ts = (now : ℕ) → length (keep (in_window w now) ts) ≤ n

keep-append_one :
    (p : ℕ → Bool) (ts : List ℕ) (t : ℕ)
    → length (keep p (ts ++ t ∷ [])) ≡ length (keep p ts) + (if p t then 1 else 0)
keep-append_one p [] t = ground arith
keep-append_one p (u ∷ ts) t = ground (arith, keep-append_one p ts t)

-- One more admission, where the contract allows it, keeps every window within the limit.
IsWithin-next :
    (w n now last : ℕ) (ts : List ℕ)
    → last ≤ now
    → IsAscending last ts
    → length (keep (in_window w now) ts) < n
    → IsWithin w n ts
    → IsWithin w n (ts ++ now ∷ [])
IsWithin-next w n now last ts later asc room h at = elim (dec_le now at) [
  | yes p ↦ ground (
    arith,
    keep-append_one (in_window w at) ts now,
    keep-le-expire w now at ts p,
    ap length (expire-eq-keep w now ts (IsAscending-mono now last ts later asc)),
  )
  | no p ↦ ground (arith, keep-append_one (in_window w at) ts now, h at)
]

module _ (w n k : ℕ) where
  record IsSafe (log : Log) (last : ℕ) : Type 0 where
    ascending : IsAscending last (log k)
    within : IsWithin w n (log k)

  abbrev counts : Log → Event → Bool
  counts log e = admits w log e && (e.key == k)

  next_log_own :
      (log : Log) (e : Event)
      → next_log w log e k ≡ (if counts log e then log k ++ e.now ∷ [] else log k)
  next_log_own log e = ground arith

  room :
      (log : Log) (e : Event)
      → (if e.key == k then e.limit ≡ n else Unit)
      → counts log e ≡ true
      → length (keep (in_window w e.now) (log k)) < n
  room log e limit h = ground arith

  times-IsAscending :
      (log : Log) (last : ℕ) (e : Event)
      → last ≤ e.now
      → IsSafe log last
      → (b : Bool) → IsAscending e.now (if b then log k ++ e.now ∷ [] else log k)
  times-IsAscending log last e later s true =
      IsAscending-append e.now last (log k) later s.ascending
  times-IsAscending log last e later s false = IsAscending-mono e.now last (log k) later s.ascending

  next-IsSafe :
      (log : Log) (last : ℕ) (e : Event)
      → (if e.key == k then e.limit ≡ n else Unit)
      → last ≤ e.now
      → IsSafe log last
      → IsSafe (next_log w log e) e.now
  next-IsSafe log last e limit later s = record {
    ascending =
        subst (IsAscending e.now) (sym (next_log_own log e))
          (times-IsAscending log last e later s (counts log e));
    within = subst (IsWithin w n) (sym (next_log_own log e)) times_within;
  }
    where
      times_within : IsWithin w n (if counts log e then log k ++ e.now ∷ [] else log k)
      times_within = elim (Bool-cases (counts log e)) [
        | inl b ↦
            rw b
              (IsWithin-next w n e.now last (log k) later s.ascending (room log e limit b) s.within)
        | inr b ↦ rw b s.within
      ]

  log_grows :
      (log : Log) (last : ℕ) (es : List Event)
      → HasLimit k n es
      → IsChronological last es
      → IsSafe log last
      → IsWithin w n (log k ++ admissions k es (spec_run w log es))
  unfolding admissions spec_run
  log_grows log last [] hl c s = rw append-nil s.within
  log_grows log last (e ∷ es) hl c s =
      subst (IsWithin w n) (regroup (counts log e) (next_log_own log e))
        (log_grows (next_log w log e) e.now es hl.1 c.1 (next-IsSafe log last e hl.0 c.0 s))
    where
      rest : List ℕ
      rest = admissions k es (spec_run w (next_log w log e) es)

      regroup :
          (b : Bool)
          → next_log w log e k ≡ (if b then log k ++ e.now ∷ [] else log k)
          → next_log w log e k ++ rest ≡ log k ++ (if b then e.now ∷ rest else rest)
      regroup true p = ap (λ l. l ++ rest) p ∙ append_assoc (log k) (e.now ∷ []) rest
      regroup false p = ap (λ l. l ++ rest) p

-- On every sequence of calls with a clock that never goes back, from a new limiter with a positive
-- window, if all calls for a key have the same limit, then at no time does a window hold more
-- admitted calls of that key than the limit, whatever other keys do.
pub limiter_bounds_burst :
    (w n k : ℕ) (es : List Event)
    → 1 ≤ w
    → IsChronological 0 es
    → HasLimit k n es
    → IsWithin w n (admissions k es (run (new_limiter w) es))
limiter_bounds_burst w n k es w_pos c hl =
    subst (λ bs. IsWithin w n (admissions k es bs)) (sym (limiter-refines w es w_pos c))
      (log_grows w n k no_hits 0 es hl c (record { ascending = tt; within = λ now. omega arith }))
